-- ===== src/Cas/RoundTrip.antt =====
-- What src/cas.c stores is read back, and is never reported as evicted.
use podcache.Prelude.{
  ℕ, suc, Bytes, codes, Bool, true, false, none, some, ◌∷◌, ◌++◌, ◌≡◌, ◌≢◌, refl, arith, length,
  Bool-cases, Option-cases, inl, inr, sym, ◌∙◌, le→ltb,
}
use podcache.Hash.Sha256.{sha256_string}
use podcache.Cas.{
  CasRegistry, success, error, cas_put, cas_get, cas_evict, evict_directories, remove_dir,
  read_value, directory, inner, slash,
}
use podcache.Cas.Files.{FileSystem}
use podcache.Cas.Posix.{Posix, Flushes}
use podcache.Cas.Stored.{granted, names, Stored, put-Stored, put-time}
use podcache.Cas.Evict.{evict_directories-some}

module _ {F : Type 0} (fs : FileSystem F) (laws : Posix fs) where
  -- the state in which a value is stored
  abbrev pub StoredIn : CasRegistry → Bytes → Bytes → F → Type 0
  StoredIn registry key value files =
      Stored fs laws (directory registry.base_path (sha256_string true key) 4) value files

  -- `cas_get` of a value that is stored
  pub cas_get-Stored :
      (registry : CasRegistry) (key value : Bytes) (files : F)
      → StoredIn registry key value files
      → cas_get fs granted registry key files ≡ some (some value, files)
  unfolding cas_get read_value inner
  cas_get-Stored registry key value files s =
      rw (s.size, s.content, le→ltb (length value) (length value) (omega arith))

  -- If `cas_put` returns 0, then `cas_get` of the same key right behind it returns the value, with
  -- every allocation granted, on a file system that does what POSIX says and where no `fclose` fails
  -- behind a whole `fwrite`.
  pub cas_get-cas_put :
      (flushes : Flushes fs) (now : ℕ) (registry : CasRegistry) (key value : Bytes) (files : F)
      {p : Bytes} {after : F}
      → cas_put fs granted now registry key value files ≡ some ((success, p), after)
      → cas_get fs granted registry key after ≡ some (some value, after)
  cas_get-cas_put flushes now registry key value files {p} {after} h =
      cas_get-Stored registry key value after
        (put-Stored fs laws flushes granted now registry key value files h)

  remove_dir-beside :
      (d : Bytes) (files : F)
      → fs.stat (d ++ slash ∷ codes "time.dat") files ≢ none
      → (b : Bool) × (end : F) × (remove_dir fs (d ++ slash ∷ codes "value.dat") files
          ≡ some (b, end))
        × (fs.stat (d ++ slash ∷ codes "time.dat") end ≢ none)
  unfolding remove_dir
  remove_dir-beside d files h =
      let file = d ++ slash ∷ codes "value.dat" in
      let gone = fs.remove file files in
      let beside =
        laws.stat-remove_beside d (codes "time.dat") (codes "value.dat") refl refl
          (λ e. names (sym e)) refl in
      elim (Option-cases (fs.stat file files)) [
        | inl e ↦ (false, files, rw e refl, h)
        | inr (n, e) ↦ (gone.0, gone.1, rw e refl, λ none_left. h (sym beside ∙ none_left))
      ]

  remove_dir_full :
      (d : Bytes) (files : F)
      → fs.stat (d ++ slash ∷ codes "time.dat") files ≢ none
      → (end : F) × (remove_dir fs d files ≡ some (false, end))
  unfolding remove_dir
  remove_dir_full d files h = elim (Option-cases (fs.stat d files)) [
    | inl e ↦ (files, rw e refl)
    | inr (n, e) ↦
        let stays = laws.remove_full d (codes "time.dat") refl h refl in
        ((fs.remove d files).1, rw (e, stays) refl)
  ]

  evict_directories_full :
      (base hash : Bytes) (n : ℕ) (files : F)
      → fs.stat (directory base hash (suc n) ++ slash ∷ codes "time.dat") files ≢ none
      → (end : F) × (evict_directories fs base hash (suc n) files ≡ some (false, end))
  unfolding evict_directories
  evict_directories_full base hash n files h =
      let (mid, first) = remove_dir_full (directory base hash (suc n)) files h in
      let (c, end, rest) = evict_directories-some fs base hash n mid in (end, rw (first, rest) refl)

  -- `cas_evict` of a key whose time.dat is there
  cas_evict_timed :
      (registry : CasRegistry) (key : Bytes) (files : F)
      → fs.stat
          (directory registry.base_path (sha256_string true key) 4 ++ slash ∷ codes "time.dat")
          files
        ≢ none
      → (end : F) × (cas_evict fs granted key registry files ≡ some ((error, registry), end))
  unfolding cas_evict inner
  cas_evict_timed registry key files timed =
      let base = registry.base_path in
      let hash = sha256_string true key in
      let (b, mid, value_gone, time_left) = remove_dir-beside (directory base hash 4) _ timed in
      let (end, dirs) = evict_directories_full base hash 3 mid time_left in
      elim (Bool-cases b) [
        | inl e ↦ (end, rw (value_gone, dirs, e) refl)
        | inr e ↦ (end, rw (value_gone, dirs, e) refl)
      ]

  -- `cas_evict` of a value that is stored
  pub cas_evict-Stored :
      (registry : CasRegistry) (key value : Bytes) (files : F)
      → StoredIn registry key value files
      → (end : F) × (cas_evict fs granted key registry files ≡ some ((error, registry), end))
  cas_evict-Stored registry key value files s = cas_evict_timed registry key files s.time

  -- If `cas_put` returned 0, then `cas_evict` of the same key right behind it does not fault and
  -- returns -1 with the registry as it was, with every allocation granted, on a file system that
  -- does what POSIX says: it leaves the file time.dat, so that the directory around it stays.
  pub cas_evict-cas_put :
      (now : ℕ) (registry : CasRegistry) (key value : Bytes) (files : F) {p : Bytes} {after : F}
      → cas_put fs granted now registry key value files ≡ some ((success, p), after)
      → (end : F) × (cas_evict fs granted key registry after ≡ some ((error, registry), end))
  cas_evict-cas_put now registry key value files {p} {after} h =
      cas_evict_timed registry key after (put-time fs laws granted now registry key value files h)
