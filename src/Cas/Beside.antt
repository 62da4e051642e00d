-- ===== src/Cas/Beside.antt =====
-- What an operation of src/cas.c on one key leaves of the files of another.
use podcache.Prelude.{
  ℕ, zero, suc, ◌≤◌, ◌≡◌, refl, ◌∙◌, arith, Bytes, codes, Bool, true, false, Option, none, some,
  if◌then◌else◌, Option-cases, inl, inr,
}
use podcache.Prelude.Decimal.{decimal}
use podcache.Cas.{
  create_at, make_path, make_last, make_directories, clear_entry, cas_remove, remove_directories,
  put_files, put_time, remove_dir, evict_directories, directory, inner,
}
use podcache.Cas.Files.{FileSystem, Io, and_then, pure}
use podcache.Cas.Posix.{Separate, Apart}
use podcache.Cas.Stored.{Saved-cases}
use podcache.Cas.Paths.{Far}
use podcache.Cas.Spares.{Spares, Spares-bind, Spares-from, Spares-if}

module _ {F : Type 0} (fs : FileSystem F) (laws : Separate fs) where
  -- the file at `q` is as it was
  abbrev pub SameAt : Bytes → F → F → Type 0
  SameAt q files after =
      (fs.stat q after ≡ fs.stat q files) × ((n : ℕ) → fs.read q n after ≡ fs.read q n files)

  abbrev pub SameAt-trans : (q : Bytes) (a b c : F) → SameAt q a b → SameAt q b c → SameAt q a c
  SameAt-trans q a b c h g = (g.0 ∙ h.0, λ n. g.1 n ∙ h.1 n)

  module _ (q : Bytes) where
    abbrev pub Leaves : {A : Type 0} → F → Option (A × F) → Type 0
    Leaves files o = Spares (SameAt q) (SameAt-trans q) files o

    bind :
        {A B : Type 0} (files : F) (o : Option (A × F)) (k : A → Io F B)
        → Leaves files o
        → ((a : A) (mid : F) → Leaves mid (k a mid))
        → Leaves files (and_then o k)
    bind files o k h g = Spares-bind (SameAt q) (SameAt-trans q) files o k h g

    behind :
        {A : Type 0} (files mid : F) (o : Option (A × F))
        → SameAt q files mid
        → Leaves mid o
        → Leaves files o
    behind files mid o h g = Spares-from (SameAt q) (SameAt-trans q) files mid o h g

    either :
        {A : Type 0} (files : F) (b : Bool) (m n : Io F A)
        → Leaves files (m files)
        → Leaves files (n files)
        → Leaves files ((if b then m else n) files)
    either files b m n h g = Spares-if (SameAt q) (SameAt-trans q) files b m n h g

    same : (files : F) → SameAt q files files
    same files = (refl, λ n. refl)

    module _ (base hash : Bytes) (far : Far q base hash) where
      remove_at : (p : Bytes) (files : F) → Apart q p → SameAt q files (fs.remove p files).1
      remove_at p files ne =
          (laws.stat-remove_other p q ne refl, λ n. laws.read-remove_other p q n ne refl)

      mkdir_at : (p : Bytes) (files : F) → Apart q p → SameAt q files (fs.mkdir p files).1
      mkdir_at p files ne =
          (laws.stat-mkdir_other p q ne refl, λ n. laws.read-mkdir_other p q n ne refl)

      save_at : (p v : Bytes) (files : F) → Apart q p → SameAt q files (fs.save p v files).1
      save_at p v files ne =
          (laws.stat-save_other p q v ne refl, λ n. laws.read-save_other p q v n ne refl)

      remove_directories-Leaves :
          (n : ℕ) (files : F) → n ≤ 4 → Leaves files (remove_directories fs base hash n files)
      unfolding remove_directories
      remove_directories-Leaves zero files below = same files
      remove_directories-Leaves (suc n) files below =
          let p = directory base hash (suc n) in
          let mid = (fs.remove p files).1 in
          behind files mid
            ((if (fs.remove p files).0 then remove_directories fs base hash n else pure false) mid)
            (remove_at p files (far.dirs (suc n) below))
            (either mid (fs.remove p files).0 (remove_directories fs base hash n) (pure false)
              (remove_directories-Leaves n mid (omega arith)) (same mid))

      cas_remove-Leaves : (files : F) → Leaves files (cas_remove fs base hash files)
      unfolding cas_remove
      cas_remove-Leaves files =
          let p = inner base hash (codes "value.dat") in
          let mid = (fs.remove p files).1 in
          behind files mid (remove_directories fs base hash 4 mid) (remove_at p files far.value)
            (remove_directories-Leaves 4 mid (omega arith))

      clear_entry-Leaves :
          (st : Option ℕ) (files : F) → Leaves files (clear_entry fs base hash st files)
      unfolding clear_entry
      clear_entry-Leaves none files = same files
      clear_entry-Leaves (some size) files = cas_remove-Leaves files

      make_directories-Leaves :
          (n : ℕ) (files : F) → n ≤ 4 → Leaves files (make_directories fs base hash n files)
      unfolding make_directories directory
      make_directories-Leaves zero files below = mkdir_at base files (far.dirs 0 below)
      make_directories-Leaves (suc n) files below =
          bind files (make_directories fs base hash n files) _
            (make_directories-Leaves n files (omega arith))
            (λ ok mid.
              either mid ok _ (pure false)
                (mkdir_at (directory base hash (suc n)) mid (far.dirs (suc n) below)) (same mid))

      make_last-Leaves :
          (ready : Bool) (files : F)
          → Leaves files (make_last fs (directory base hash 4) ready files)
      unfolding make_last
      make_last-Leaves false files = same files
      make_last-Leaves true files =
          mkdir_at (directory base hash 4) files (far.dirs 4 (omega arith))

      make_path-Leaves :
          (cleared : Bool) (files : F) → Leaves files (make_path fs base hash cleared files)
      unfolding make_path
      make_path-Leaves false files = same files
      make_path-Leaves true files =
          bind files (make_directories fs base hash 3 files) (make_last fs (directory base hash 4))
            (make_directories-Leaves 3 files (omega arith))
            (λ ready mid. make_last-Leaves ready mid)

      pub create_at-Leaves : (files : F) → Leaves files (create_at fs base hash files)
      unfolding create_at
      create_at-Leaves files =
          let st = fs.stat (directory base hash 4) files in
          bind files (clear_entry fs base hash st files) (make_path fs base hash)
            (clear_entry-Leaves st files) (λ cleared mid. make_path-Leaves cleared mid)

      put_time-Leaves :
          (now : ℕ) (files : F) → Leaves files (put_time fs now (directory base hash 4) files)
      unfolding put_time inner
      put_time-Leaves now files =
          let p = inner base hash (codes "time.dat") in
          let time = fs.save p (decimal now) files in
          let kept = save_at p (decimal now) files far.time in
          elim (Saved-cases time.0) [
            | inl e ↦ rw e kept
            | inr (inl e) ↦ rw e kept
            | inr (inr (inl e)) ↦ rw e kept
            | inr (inr (inr e)) ↦ rw e kept
          ]

      pub put_files-Leaves :
          (now : ℕ) (value : Bytes) (files : F)
          → Leaves files (put_files fs now value (some (directory base hash 4)) files)
      unfolding put_files inner
      put_files-Leaves now value files =
          let p = inner base hash (codes "value.dat") in
          let first = fs.save p value files in
          let kept = save_at p value files far.value in
          let both =
            behind files first.1 (put_time fs now (directory base hash 4) first.1) kept
              (put_time-Leaves now first.1) in
          elim (Saved-cases first.0) [
            | inl e ↦ rw e both
            | inr (inl e) ↦ rw e kept
            | inr (inr (inl e)) ↦ rw e kept
            | inr (inr (inr e)) ↦ rw e both
          ]

      pub remove_dir-Leaves :
          (p : Bytes) (files : F) → Apart q p → Leaves files (remove_dir fs p files)
      unfolding remove_dir
      remove_dir-Leaves p files ne = elim (Option-cases (fs.stat p files)) [
        | inl e ↦ rw e (same files)
        | inr (n, e) ↦ rw e (remove_at p files ne)
      ]

      pub evict_directories-Leaves :
          (n : ℕ) (files : F) → n ≤ 4 → Leaves files (evict_directories fs base hash n files)
      unfolding evict_directories
      evict_directories-Leaves zero files below = same files
      evict_directories-Leaves (suc n) files below =
          bind files (remove_dir fs (directory base hash (suc n)) files) _
            (remove_dir-Leaves (directory base hash (suc n)) files (far.dirs (suc n) below))
            (λ removed mid.
              bind mid (evict_directories fs base hash n mid) _
                (evict_directories-Leaves n mid (omega arith)) (λ rest end. same end))
