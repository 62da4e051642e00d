-- ===== src/Cas/Unflushed.antt =====
-- What src/cas.c does when `fclose` fails behind a whole `fwrite`.
use podcache.Prelude.{
  ℕ, Bytes, codes, some, ◌∷◌, ◌++◌, ◌≡◌, ◌≢◌, refl, ◌∙◌, subst, length, inl, inr,
}
use podcache.Prelude.Decimal.{decimal}
use podcache.Cas.{
  CasRegistry, success, cas_put, cas_get, cas_create_directory, put_files, put_time, slash,
}
use podcache.Cas.Files.{FileSystem, unflushed, unopened}
use podcache.Cas.Posix.{Posix}
use podcache.Cas.Stored.{granted, names, Stored, Saved-cases, create-path}
use podcache.Cas.RoundTrip.{cas_get-Stored}

module _ {F : Type 0} (fs : FileSystem F) (laws : Posix fs) where
  -- the file with the time behind it
  put_time-opened :
      (now : ℕ) (path : Bytes) (mid : F)
      → let time = fs.save (path ++ slash ∷ codes "time.dat") (decimal now) mid in
        time.0 ≢ unopened → put_time fs now path mid ≡ some ((success, path), time.1)
  unfolding put_time
  put_time-opened now path mid opened =
      elim (Saved-cases (fs.save (path ++ slash ∷ codes "time.dat") (decimal now) mid).0) [
        | inl e ↦ rw e refl
        | inr (inl e) ↦ absurd (opened e)
        | inr (inr (inl e)) ↦ rw e refl
        | inr (inr (inr e)) ↦ rw e refl
      ]

  -- If the key's directory is made, `fwrite` takes the whole value, `fclose` then fails and leaves `left`
  -- in the file, and time.dat opens, then `cas_put` returns 0 all the same, and `cas_get` right behind it
  -- returns `left` in place of the value, with every allocation granted, on a file system that does what
  -- POSIX says.
  pub cas_get-cas_put_unflushed :
      (now : ℕ) (registry : CasRegistry) (key value left path : Bytes) (files ready mid : F)
      → cas_create_directory fs granted registry key files ≡ some (some path, ready)
      → fs.save (path ++ slash ∷ codes "value.dat") value ready ≡ (unflushed, mid)
      → fs.stat (path ++ slash ∷ codes "value.dat") mid ≡ some (length left)
      → fs.read (path ++ slash ∷ codes "value.dat") (length left) mid ≡ some left
      → (fs.save (path ++ slash ∷ codes "time.dat") (decimal now) mid).0 ≢ unopened
      → (after : F) × (cas_put fs granted now registry key value files
          ≡ some ((success, path), after))
        × (cas_get fs granted registry key after ≡ some (some left, after))
  unfolding cas_put put_files
  cas_get-cas_put_unflushed now registry key value left path files ready mid made first size content
        opened =
      let place = create-path fs laws granted registry key files made in
      let second = fs.save (path ++ slash ∷ codes "time.dat") (decimal now) mid in
      let beside =
        laws.stat-save_beside path (codes "value.dat") (codes "time.dat") (decimal now)
          {files = mid} refl refl names refl in
      let beside' =
        laws.read-save_beside path (codes "value.dat") (codes "time.dat") (decimal now)
          (length left) {files = mid} refl refl names refl in
      (
        second.1,
        rw (made, first) (put_time-opened now path mid opened),
        cas_get-Stored fs laws registry key left second.1 (
            subst (λ d. Stored fs laws d left second.1) place
              (record {
                size = beside ∙ size;
                content = beside' ∙ content;
                time =
                    laws.save-exists (path ++ slash ∷ codes "time.dat") (decimal now) refl opened;
              })),
      )
