-- ===== src/Cas/Stored.antt =====
-- The files behind a `cas_put` of src/cas.c that returned 0.
use podcache.Prelude.{
  ℕ, Bytes, codes, Bool, true, false, Option, none, some, ◌∷◌, ◌++◌, ◌≡◌, ◌≢◌, refl, arith, length,
  Bool-cases, inl, inr, ◌⊎◌, ap, ◌∙◌, subst,
}
use podcache.Prelude.Decimal.{decimal}
use podcache.Hash.Sha256.{sha256_string}
use podcache.Cas.{
  CasRegistry, CasStatus, success, error, short_write, Alloc, cas_put, put_files, put_time,
  cas_create_directory, create_at, make_path, make_last, make_directories, clear_entry, directory,
  slash,
}
use podcache.Cas.Files.{FileSystem, Saved, saved, unopened, short, unflushed, and_then-eq}
use podcache.Cas.Posix.{Posix, Flushes}

abbrev pub granted : Alloc
granted = record { pad_ok = true; fs_path_ok = true; path_ok = true; buffer_ok = true }

pub names : codes "value.dat" ≢ codes "time.dat"
names e = cc

pub Saved-cases : (s : Saved) → (s ≡ saved) ⊎ ((s ≡ unopened) ⊎ ((s ≡ short) ⊎ (s ≡ unflushed)))
Saved-cases saved = inl refl
Saved-cases unopened = inr (inl refl)
Saved-cases short = inr (inr (inl refl))
Saved-cases unflushed = inr (inr (inr refl))

module _ {F : Type 0} (fs : FileSystem F) (laws : Posix fs) where
  -- the state behind a `cas_put` that returned 0
  pub record Stored (path value : Bytes) (after : F) : Type 0 where
    pub size : fs.stat (path ++ slash ∷ codes "value.dat") after ≡ some (length value)
    pub content : fs.read (path ++ slash ∷ codes "value.dat") (length value) after ≡ some value
    pub time : fs.stat (path ++ slash ∷ codes "time.dat") after ≢ none

  stored :
      (now : ℕ) (value path : Bytes) (files mid : F)
      → fs.save (path ++ slash ∷ codes "value.dat") value files ≡ (saved, mid)
      → let time = fs.save (path ++ slash ∷ codes "time.dat") (decimal now) mid in
        time.0 ≢ unopened → Stored path value time.1
  stored now value path files mid first opened =
      let file = path ++ slash ∷ codes "value.dat" in
      let beside =
        laws.stat-save_beside path (codes "value.dat") (codes "time.dat") (decimal now) refl refl
          names refl in
      let beside' =
        laws.read-save_beside path (codes "value.dat") (codes "time.dat") (decimal now)
          (length value) refl refl names refl in
      record {
        size = beside ∙ laws.stat-save file value first;
        content = beside' ∙ laws.read-save file value first;
        time = laws.save-exists (path ++ slash ∷ codes "time.dat") (decimal now) refl opened;
      }

  -- The file time.dat is there, and, if `fclose` does not fail, all is stored.
  abbrev Behind : Bytes → Bytes → F → Type 0
  Behind path value after =
      (fs.stat (path ++ slash ∷ codes "time.dat") after ≢ none)
      × (Flushes fs → Stored path value after)

  abbrev gives : CasStatus → Bytes → F → Option ((CasStatus × Bytes) × F)
  gives status path files = some ((status, path), files)

  same_end :
      {path p value : Bytes} {t after : F}
      → gives success path t ≡ gives success p after
      → Behind path value t
      → (p ≡ path) × Behind path value after
  same_end {path} {p} {value} {t} {after} e s =
      let end : t ≡ after = cc in (cc, subst (Behind path value) end s)

  not_error : {path p : Bytes} {t after : F} → gives error path t ≢ gives success p after
  not_error e = cc

  not_short : {path p : Bytes} {t after : F} → gives short_write path t ≢ gives success p after
  not_short e = cc

  put_time-Behind :
      (now : ℕ) (value path p : Bytes) (files mid after : F)
      → (Flushes fs → fs.save (path ++ slash ∷ codes "value.dat") value files ≡ (saved, mid))
      → put_time fs now path mid ≡ some ((success, p), after)
      → (p ≡ path) × Behind path value after
  unfolding put_time
  put_time-Behind now value path p files mid after first h =
      let time = fs.save (path ++ slash ∷ codes "time.dat") (decimal now) mid in
      let behind : time.0 ≢ unopened → Behind path value time.1 = λ opened. (
        laws.save-exists (path ++ slash ∷ codes "time.dat") (decimal now) refl opened,
        λ flushes. stored now value path files mid (first flushes) opened,
      ) in
      elim (Saved-cases time.0) [
        | inl e ↦ same_end (rw e at h) (behind (λ f. cc))
        | inr (inl e) ↦ absurd (not_error (rw e at h))
        | inr (inr (inl e)) ↦ same_end (rw e at h) (behind (λ f. cc))
        | inr (inr (inr e)) ↦ same_end (rw e at h) (behind (λ f. cc))
      ]

  put_files-Behind :
      (now : ℕ) (value path p : Bytes) (files after : F)
      → put_files fs now value (some path) files ≡ some ((success, p), after)
      → (p ≡ path) × Behind path value after
  unfolding put_files
  put_files-Behind now value path p files after h =
      let file = path ++ slash ∷ codes "value.dat" in
      let first = fs.save file value files in
      elim (Saved-cases first.0) [
        | inl e ↦
            put_time-Behind now value path p files first.1 after
              (λ flushes. ap (λ s. (s, first.1)) e) (rw e at h)
        | inr (inl e) ↦ absurd (not_error (rw e at h))
        | inr (inr (inl e)) ↦ absurd (not_short (rw e at h))
        | inr (inr (inr e)) ↦
            put_time-Behind now value path p files first.1 after
              (λ flushes. absurd (flushes.flushed file value refl e)) (rw e at h)
      ]

  abbrev makes : Option Bytes → F → Option (Option Bytes × F)
  makes path files = some (path, files)

  no_fault : {path : Bytes} {after : F} → none ≢ makes (some path) after
  no_fault e = cc

  no_path : {path : Bytes} {mid after : F} → makes none mid ≢ makes (some path) after
  no_path e = cc

  make_last-path :
      (path : Bytes) (ready : Bool) (files : F) {p : Bytes} {mid : F}
      → make_last fs path ready files ≡ makes (some p) mid
      → p ≡ path
  unfolding make_last
  make_last-path path false files h = cc
  make_last-path path true files h = ground arith

  make_path-path :
      (base hash : Bytes) (cleared : Bool) (files : F) {p : Bytes} {mid : F}
      → make_path fs base hash cleared files ≡ makes (some p) mid
      → p ≡ directory base hash 4
  unfolding make_path
  make_path-path base hash false files h = cc
  make_path-path base hash true files h =
      let (ready, between, made, rest) =
        and_then-eq (make_directories fs base hash 3 files) (make_last fs (directory base hash 4))
          h in
      make_last-path (directory base hash 4) ready between rest

  -- the path that the hash of the key gives
  pub create-path :
      (alloc : Alloc) (registry : CasRegistry) (key : Bytes) (files : F) {p : Bytes} {mid : F}
      → cas_create_directory fs alloc registry key files ≡ makes (some p) mid
      → p ≡ directory registry.base_path (sha256_string alloc.pad_ok key) 4
  unfolding cas_create_directory create_at
  create-path alloc registry key files h = elim (Bool-cases alloc.fs_path_ok) [
    | inl good ↦
        let base = registry.base_path in
        let hash = sha256_string alloc.pad_ok key in
        let st = fs.stat (directory base hash 4) files in
        let (cleared, between, _, rest) =
          and_then-eq (clear_entry fs base hash st files) (make_path fs base hash) (rw good at h) in
        make_path-path base hash cleared between rest
    | inr bad ↦ absurd (no_fault (rw bad at h))
  ]

  create-Behind :
      (alloc : Alloc) (now : ℕ) (registry : CasRegistry) (key value : Bytes) (files : F)
      (path : Option Bytes) (between : F) {p : Bytes} {after : F}
      → cas_create_directory fs alloc registry key files ≡ makes path between
      → put_files fs now value path between ≡ gives success p after
      → Behind (directory registry.base_path (sha256_string alloc.pad_ok key) 4) value after
  unfolding put_files
  create-Behind alloc now registry key value files none between made rest = cc
  create-Behind alloc now registry key value files (some q) between {p} {after} made rest =
      subst (λ d. Behind d value after) (create-path alloc registry key files made)
        (put_files-Behind now value q p between after rest).1

  put-Behind :
      (alloc : Alloc) (now : ℕ) (registry : CasRegistry) (key value : Bytes) (files : F) {p : Bytes}
      {after : F}
      → cas_put fs alloc now registry key value files ≡ gives success p after
      → Behind (directory registry.base_path (sha256_string alloc.pad_ok key) 4) value after
  unfolding cas_put
  put-Behind alloc now registry key value files h =
      let (path, between, made, rest) =
        and_then-eq (cas_create_directory fs alloc registry key files) (put_files fs now value) h in
      create-Behind alloc now registry key value files path between made rest

  -- `time.dat`, whether or not `fclose` fails
  pub put-time :
      (alloc : Alloc) (now : ℕ) (registry : CasRegistry) (key value : Bytes) (files : F) {p : Bytes}
      {after : F}
      → cas_put fs alloc now registry key value files ≡ gives success p after
      → fs.stat
          (directory registry.base_path (sha256_string alloc.pad_ok key) 4
            ++ slash ∷ codes "time.dat")
          after
        ≢ none
  put-time alloc now registry key value files h =
      (put-Behind alloc now registry key value files h).0

  pub put-Stored :
      (flushes : Flushes fs) (alloc : Alloc) (now : ℕ) (registry : CasRegistry) (key value : Bytes)
      (files : F) {p : Bytes} {after : F}
      → cas_put fs alloc now registry key value files ≡ gives success p after
      → Stored (directory registry.base_path (sha256_string alloc.pad_ok key) 4) value after
  put-Stored flushes alloc now registry key value files h =
      (put-Behind alloc now registry key value files h).1 flushes
