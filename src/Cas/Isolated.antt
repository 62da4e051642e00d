-- ===== src/Cas/Isolated.antt =====
-- `cas_put` and `cas_evict` of src/cas.c of one key leave what is stored of another.
use podcache.Prelude.{
  ℕ, ◌≡◌, ◌≢◌, refl, sym, subst, ◌∙◌, Bytes, codes, true, Option, none, some, length, arith,
}
use podcache.Hash.Sha256.{sha256_string}
use podcache.Cas.{
  CasRegistry, CasStatus, success, cas_put, cas_get, cas_evict, cas_create_directory, create_at,
  put_files, remove_dir, evict_directories, directory, inner,
}
use podcache.Cas.Files.{FileSystem, and_then-eq}
use podcache.Cas.Posix.{Posix, Flushes, Separate}
use podcache.Cas.Stored.{granted, put-Stored, create-path}
use podcache.Cas.RoundTrip.{StoredIn, cas_get-Stored}
use podcache.Cas.Evict.{cas_evict-Evicts}
use podcache.Cas.Paths.{Far, Far-value, Far-time}
use podcache.Cas.Spares.{spared}
use podcache.Cas.Beside.{
  SameAt, SameAt-trans, create_at-Leaves, put_files-Leaves, remove_dir-Leaves,
  evict_directories-Leaves,
}

module _ {F : Type 0} (fs : FileSystem F) (laws : Posix fs) (apart : Separate fs) where
  module _ (q : Bytes) (registry : CasRegistry) (key : Bytes)
      (far : Far q registry.base_path (sha256_string true key)) where
    abbrev base : Bytes
    base = registry.base_path

    abbrev hash : Bytes
    hash = sha256_string true key

    put_files-SameAt :
        (now : ℕ) (value : Bytes) (path : Option Bytes) (files between : F) {r : CasStatus × Bytes}
        {after : F}
        → cas_create_directory fs granted registry key files ≡ some (path, between)
        → put_files fs now value path between ≡ some (r, after)
        → SameAt fs apart q between after
    unfolding put_files
    put_files-SameAt now value none files between {r} {after} made run =
        let end : between ≡ after = cc in subst (SameAt fs apart q between) end (refl, λ n. refl)
    put_files-SameAt now value (some p) files between {r} {after} made run =
        let at = create-path fs laws granted registry key files made in
        spared (SameAt fs apart q) (SameAt-trans fs apart q) between
          (put_files fs now value (some (directory base hash 4)) between)
          (subst (λ d. put_files fs now value (some d) between ≡ some (r, after)) at run)
          (put_files-Leaves fs apart q base hash far now value between)

    cas_put-SameAt :
        (now : ℕ) (value : Bytes) (files : F) {r : CasStatus × Bytes} {after : F}
        → cas_put fs granted now registry key value files ≡ some (r, after)
        → SameAt fs apart q files after
    unfolding cas_put cas_create_directory
    cas_put-SameAt now value files run =
        let (path, between, made, rest) =
          and_then-eq (cas_create_directory fs granted registry key files) (put_files fs now value)
            run in
        SameAt-trans fs apart q files between _
          (spared (SameAt fs apart q) (SameAt-trans fs apart q) files (create_at fs base hash files)
            made (create_at-Leaves fs apart q base hash far files))
          (put_files-SameAt now value path files between made rest)

    cas_evict-SameAt :
        (files : F) {r : CasStatus × CasRegistry} {after : F}
        → cas_evict fs granted key registry files ≡ some (r, after)
        → SameAt fs apart q files after
    cas_evict-SameAt files {r} {after} run =
        let e = cas_evict-Evicts fs granted key registry files run in
        SameAt-trans fs apart q files e.mid after
          (spared (SameAt fs apart q) (SameAt-trans fs apart q) files
            (remove_dir fs (inner base hash (codes "value.dat")) files) e.first
            (remove_dir-Leaves fs apart q base hash far (inner base hash (codes "value.dat")) files
              far.value))
          (spared (SameAt fs apart q) (SameAt-trans fs apart q) e.mid
            (evict_directories fs base hash 4 e.mid) e.rest
            (evict_directories-Leaves fs apart q base hash far 4 e.mid (omega arith)))

  -- What is stored of a key stays when the files of another one change.
  StoredIn-SameAt :
      (registry : CasRegistry) (j k v : Bytes) (files after : F)
      → sha256_string true k ≢ sha256_string true j
      → ((q : Bytes)
          → Far q registry.base_path (sha256_string true j)
          → SameAt fs apart q files after)
      → StoredIn fs laws registry k v files
      → StoredIn fs laws registry k v after
  unfolding inner
  StoredIn-SameAt registry j k v files after other same s =
      let base = registry.base_path in
      let hash = sha256_string true k in
      let (size, content) = same (inner base hash (codes "value.dat")) (Far-value base j k other) in
      let (time, _) = same (inner base hash (codes "time.dat")) (Far-time base j k other) in
      record {
        size = size ∙ s.size;
        content = content (length v) ∙ s.content;
        time = λ gone. s.time (sym time ∙ gone);
      }

  pub cas_put-StoredIn :
      (now : ℕ) (registry : CasRegistry) (j w k v : Bytes) (files : F) {r : CasStatus × Bytes}
      {after : F}
      → sha256_string true k ≢ sha256_string true j
      → cas_put fs granted now registry j w files ≡ some (r, after)
      → StoredIn fs laws registry k v files
      → StoredIn fs laws registry k v after
  cas_put-StoredIn now registry j w k v files {r} {after} other run s =
      StoredIn-SameAt registry j k v files after other
        (λ q far. cas_put-SameAt q registry j far now w files run) s

  pub cas_evict-StoredIn :
      (registry : CasRegistry) (j k v : Bytes) (files : F) {r : CasStatus × CasRegistry} {after : F}
      → sha256_string true k ≢ sha256_string true j
      → cas_evict fs granted j registry files ≡ some (r, after)
      → StoredIn fs laws registry k v files
      → StoredIn fs laws registry k v after
  cas_evict-StoredIn registry j k v files {r} {after} other run s =
      StoredIn-SameAt registry j k v files after other
        (λ q far. cas_evict-SameAt q registry j far files run) s

  -- If `cas_put` returns 0, then `cas_get` of the same key returns the value also behind a `cas_put` of a
  -- key with another SHA-256 hash, whatever that returns, with every allocation granted, on a file
  -- system that does what POSIX says and where no `fclose` fails behind a whole `fwrite`.
  pub cas_get-cas_put_other :
      (flushes : Flushes fs) (now then_is : ℕ) (registry : CasRegistry) (k v j w : Bytes)
      (files mid after : F) {p : Bytes} {r : CasStatus × Bytes}
      → sha256_string true k ≢ sha256_string true j
      → cas_put fs granted now registry k v files ≡ some ((success, p), mid)
      → cas_put fs granted then_is registry j w mid ≡ some (r, after)
      → cas_get fs granted registry k after ≡ some (some v, after)
  cas_get-cas_put_other flushes now then_is registry k v j w files mid after other first second =
      cas_get-Stored fs laws registry k v after (
        cas_put-StoredIn then_is registry j w k v mid other second
          (put-Stored fs laws flushes granted now registry k v files first))
