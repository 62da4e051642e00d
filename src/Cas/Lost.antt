-- ===== src/Cas/Lost.antt =====
-- What `cas_evict` of src/cas.c leaves of a stored value.
use podcache.Prelude.{
  ℕ, zero, suc, ◌≤◌, Bytes, codes, Bool, true, none, some, ◌≡◌, refl, sym, ap, ◌∙◌, arith,
  Option-cases, inl, inr,
}
use podcache.Hash.Sha256.{sha256_string}
use podcache.Hash.Sha256.Output.{sha256_string-AllHex}
use podcache.Cas.{
  CasRegistry, CasStatus, cas_get, cas_evict, evict_directories, remove_dir, directory, inner,
}
use podcache.Cas.Files.{FileSystem}
use podcache.Cas.Posix.{Posix, Separate, Apart}
use podcache.Cas.Paths.{inner-Apart-directory}
use podcache.Cas.Stored.{granted}
use podcache.Cas.Evict.{remove_dir-some, evict_directories-some, cas_evict-Evicts}
use podcache.Cas.RoundTrip.{StoredIn}

-- the file of a key's value
abbrev pub value_path : CasRegistry → Bytes → Bytes
value_path registry key = inner registry.base_path (sha256_string true key) (codes "value.dat")

module _ {F : Type 0} (fs : FileSystem F) (apart : Separate fs) where
  remove_dir-stat :
      (p q : Bytes) (files : F) {b : Bool} {end : F}
      → Apart q p
      → remove_dir fs p files ≡ some (b, end)
      → fs.stat q end ≡ fs.stat q files
  unfolding remove_dir
  remove_dir-stat p q files {b} {end} ne h = elim (Option-cases (fs.stat p files)) [
    | inl e ↦ let same : files ≡ end = let run = rw e at h in cc in ap (fs.stat q) (sym same)
    | inr (n, e) ↦
        let same : (fs.remove p files).1 ≡ end = let run = rw e at h in cc in
        ap (fs.stat q) (sym same) ∙ apart.stat-remove_other p q ne refl
  ]

  evict_directories-stat :
      (base hash q : Bytes) (n : ℕ) (files : F) {b : Bool} {end : F}
      → ((m : ℕ) → m ≤ n → Apart q (directory base hash m))
      → evict_directories fs base hash n files ≡ some (b, end)
      → fs.stat q end ≡ fs.stat q files
  unfolding evict_directories
  evict_directories-stat base hash q zero files {b} {end} ne h =
      let same : files ≡ end = cc in ap (fs.stat q) (sym same)
  evict_directories-stat base hash q (suc n) files {b} {end} ne h =
      let (c, mid, first) = remove_dir-some fs (directory base hash (suc n)) files in
      let (d, last, rest) = evict_directories-some fs base hash n mid in
      let same : last ≡ end = let run = rw (first, rest) at h in cc in
      ap (fs.stat q) (sym same)
      ∙ evict_directories-stat base hash q n mid (λ m below. ne m (omega arith)) rest
      ∙ remove_dir-stat (directory base hash (suc n)) q files (ne (suc n) (omega arith)) first

  remove_dir-gone :
      (laws : Posix fs) (p : Bytes) (files : F) {n : ℕ} {b : Bool} {mid : F}
      → fs.stat p files ≡ some n
      → (fs.remove p files).0 ≡ true
      → remove_dir fs p files ≡ some (b, mid)
      → fs.stat p mid ≡ none
  unfolding remove_dir
  remove_dir-gone laws p files there removed h =
      let same : (fs.remove p files).1 ≡ _ = let run = rw there at h in cc in
      ap (fs.stat p) (sym same) ∙ laws.stat-remove p (ap (λ b. (b, (fs.remove p files).1)) removed)

  -- `cas_evict` of a value that is stored, if `remove` takes its file away: `cas_get` finds the key no
  -- more, whatever else became of the directories.
  pub cas_get-cas_evict :
      (laws : Posix fs) (registry later : CasRegistry) (key value : Bytes) (files end : F)
      {r : CasStatus × CasRegistry}
      → StoredIn fs laws registry key value files
      → (fs.remove (value_path registry key) files).0 ≡ true
      → cas_evict fs granted key registry files ≡ some (r, end)
      → later.base_path ≡ registry.base_path
      → cas_get fs granted later key end ≡ some (none, end)
  unfolding cas_get inner
  cas_get-cas_evict laws registry later key value files end s removed h at =
      let hash = sha256_string true key in
      let word = sha256_string-AllHex key in
      let base = registry.base_path in
      let path = value_path registry key in
      let run = cas_evict-Evicts fs granted key registry files h in
      let gone = remove_dir-gone laws path files s.size removed run.first in
      let stays =
        evict_directories-stat base hash path 4 run.mid
          (inner-Apart-directory base hash hash word word (codes "value.dat") refl) run.rest in
      let none_left : fs.stat path end ≡ none = stays ∙ gone in rw (at, none_left) refl
