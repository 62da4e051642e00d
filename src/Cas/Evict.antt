-- ===== src/Cas/Evict.antt =====
-- `cas_evict` of src/cas.c, whatever the file system does.
use podcache.Prelude.{
  ℕ, zero, suc, Bytes, codes, Bool, true, false, ◌&&◌, Option, none, some, ◌≡◌, ◌≢◌, refl, ap,
  subst, Bool-cases, Option-cases, inl, inr,
}
use podcache.Hash.Sha256.{sha256_string}
use podcache.Cas.{
  Alloc, CasRegistry, CasStatus, cas_evict, evict_directories, remove_dir, remove_entry, directory,
  inner,
}
use podcache.Cas.Files.{FileSystem}

module _ {F : Type 0} (fs : FileSystem F) where
  pub remove_dir-some :
      (d : Bytes) (files : F) → (b : Bool) × (end : F) × (remove_dir fs d files ≡ some (b, end))
  unfolding remove_dir
  remove_dir-some d files = elim (Option-cases (fs.stat d files)) [
    | inl e ↦ (false, files, rw e refl)
    | inr (n, e) ↦ ((fs.remove d files).0, (fs.remove d files).1, rw e refl)
  ]

  pub evict_directories-some :
      (base hash : Bytes) (n : ℕ) (files : F)
      → (b : Bool) × (end : F) × (evict_directories fs base hash n files ≡ some (b, end))
  unfolding evict_directories
  evict_directories-some base hash zero files = (true, files, refl)
  evict_directories-some base hash (suc n) files =
      let (b, mid, first) = remove_dir-some (directory base hash (suc n)) files in
      let (c, end, rest) = evict_directories-some base hash n mid in
      (b && c, end, rw (first, rest) refl)

  abbrev gives : CasStatus × CasRegistry → F → Option ((CasStatus × CasRegistry) × F)
  gives r files = some (r, files)

  no_fault : {r : CasStatus × CasRegistry} {after : F} → none ≢ gives r after
  no_fault e = cc

  answered :
      {r s : CasStatus × CasRegistry} {mid after : F}
      → gives s mid ≡ gives r after
      → (r.1.base_path ≡ s.1.base_path) × (mid ≡ after)
  answered {r} {s} h =
      let same : r ≡ s = cc in (ap (λ (t : CasStatus × CasRegistry). t.1.base_path) same, cc)

  -- The removals of a `cas_evict` that returns, of which the last leaves the files as they are then; the
  -- store stays in its directory.
  pub record Evicts (hash : Bytes) (registry : CasRegistry) (files : F)
      (r : CasStatus × CasRegistry) (after : F) : Type 0 where
    pub gone : Bool
    pub left : Bool
    pub mid : F
    pub first :
        remove_dir fs (inner registry.base_path hash (codes "value.dat")) files ≡ some (gone, mid)
    pub rest : evict_directories fs registry.base_path hash 4 mid ≡ some (left, after)
    pub base_path : r.1.base_path ≡ registry.base_path

  pub cas_evict-Evicts :
      (alloc : Alloc) (key : Bytes) (registry : CasRegistry) (files : F)
      {r : CasStatus × CasRegistry} {after : F}
      → cas_evict fs alloc key registry files ≡ some (r, after)
      → Evicts (sha256_string alloc.pad_ok key) registry files r after
  unfolding cas_evict
  cas_evict-Evicts alloc key registry files {r} {after} h = elim (Bool-cases alloc.fs_path_ok) [
    | inr e ↦ absurd (no_fault (rw e at h))
    | inl e ↦
        let hash = sha256_string alloc.pad_ok key in
        let base = registry.base_path in
        let (b, mid, first) = remove_dir-some (inner base hash (codes "value.dat")) files in
        let (c, end, rest) = evict_directories-some base hash 4 mid in
        let h1 = rw (e, first, rest) at h in
        let ends : (r.1.base_path ≡ base) × (end ≡ after) = elim (Bool-cases (b && c)) [
          | inr f ↦ answered (rw f at h1)
          | inl f ↦ elim (Option-cases (remove_entry (directory base hash 4) registry.entries)) [
            | inl g ↦ absurd (no_fault (rw (f, g) at h1))
            | inr (es, g) ↦ answered (rw (f, g) at h1)
          ]
        ] in
        record {
          gone = b;
          left = c;
          mid = mid;
          first = first;
          rest = subst (λ s. evict_directories fs base hash 4 mid ≡ some (c, s)) ends.1 rest;
          base_path = ends.0;
        }
  ]
