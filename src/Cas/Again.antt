-- ===== src/Cas/Again.antt =====
-- A second `cas_put` of a key of src/cas.c.
use podcache.Prelude.{
  ℕ, Bytes, codes, true, false, some, none, [], ◌∷◌, ◌++◌, ◌≡◌, ◌≢◌, refl, sym, ◌∙◌, Option-cases,
  inl, inr,
}
use podcache.Hash.Sha256.{sha256_string}
use podcache.Cas.{
  CasRegistry, success, error, cas_put, cas_create_directory, create_at, clear_entry, cas_remove,
  remove_directories, make_path, put_files, directory, inner, slash,
}
use podcache.Cas.Files.{FileSystem}
use podcache.Cas.Posix.{Posix}
use podcache.Cas.Stored.{granted, put-time, names}

module _ {F : Type 0} (fs : FileSystem F) (laws : Posix fs) where
  -- A directory with the time in it is not removed.
  cas_remove_full :
      (base hash : Bytes) (files : F)
      → fs.stat (directory base hash 4 ++ slash ∷ codes "time.dat") files ≢ none
      → (end : F) × (cas_remove fs base hash files ≡ some (false, end))
  unfolding cas_remove remove_directories inner
  cas_remove_full base hash files there =
      let d = directory base hash 4 in
      let mid = (fs.remove (d ++ slash ∷ codes "value.dat") files).1 in
      let beside =
        laws.stat-remove_beside d (codes "time.dat") (codes "value.dat") refl refl
          (λ e. names (sym e)) refl in
      let stays = laws.remove_full d (codes "time.dat") refl (λ e. there (sym beside ∙ e)) refl in
      ((fs.remove d mid).1, rw stays refl)

  create_refused :
      (registry : CasRegistry) (key : Bytes) (files : F)
      → let d = directory registry.base_path (sha256_string true key) 4 in
        fs.stat d files ≢ none
        → fs.stat (d ++ slash ∷ codes "time.dat") files ≢ none
        → (end : F) × (cas_create_directory fs granted registry key files ≡ some (none, end))
  unfolding cas_create_directory create_at clear_entry make_path
  create_refused registry key files here there =
      let base = registry.base_path in
      let hash = sha256_string true key in
      let (end, run) = cas_remove_full base hash files there in
      elim (Option-cases (fs.stat (directory base hash 4) files)) [
        | inl gone ↦ absurd (here gone)
        | inr (n, e) ↦ (end, rw (e, run) refl)
      ]

  -- If `cas_put` returned 0, a second `cas_put` of the same key right behind it, whatever the value,
  -- returns -1, with every allocation granted, on a file system that does what POSIX says and on which
  -- the key's directory is there: the file time.dat of the first call keeps it from being removed.
  pub cas_put-cas_put :
      (now later : ℕ) (registry : CasRegistry) (key value again : Bytes) (files : F) {p : Bytes}
      {after : F}
      → cas_put fs granted now registry key value files ≡ some ((success, p), after)
      → fs.stat (directory registry.base_path (sha256_string true key) 4) after ≢ none
      → (end : F) × (cas_put fs granted later registry key again after ≡ some ((error, []), end))
  unfolding cas_put put_files
  cas_put-cas_put now later registry key value again files {p} {after} h here =
      let s = put-time fs laws granted now registry key value files h in
      let (end, run) = create_refused registry key after here s in (end, rw run refl)
