-- ===== src/Pod/Each/Get.antt =====
-- `pod_cache_get` and `pod_cache_evict` of src/pod_cache.c keep every invariant that survives their
-- steps.
use podcache.Prelude.{
  ℕ, ◌+◌, ◌<◌, ◌^◌, ◌≡◌, ◌≢◌, refl, ap, subst, ◌∙◌, arith, Bytes, codes, true, false, Option, none,
  some, ◌&&◌, length, ltb, Bool-cases, Option-cases, inl, inr,
}
use podcache.Prelude.Int.{pos}
use podcache.Hash.Djb2.{hash}
use podcache.Hash.Sha256.{sha256_string}
use podcache.Lru.State.{not_found}
use podcache.Lru.Ops.{get, evict, put}
use podcache.Lru.Spec.{Entries, lookup, touch, total}
use podcache.Lru.Invariant.{touch-none, touch-some}
use podcache.Lru.Put.{Grants, put-refines}
use podcache.Lru.Get.{reply, get-refines, get_refused, get_absent}
use podcache.Lru.Evict.{evict_reply, evict-refines}
use podcache.Cas as Cas
use podcache.Cas.{CasRegistry, CasStatus, cas_get, cas_evict, read_value, inner}
use podcache.Cas.Files.{FileSystem}
use podcache.Cas.Evict.{cas_evict-Evicts}
use podcache.Pod.{PodCache, and_then, get_partition}
use podcache.Pod.Ops.{
  finish, evicted_answer, Env, pod_cache_get, pod_cache_evict, promote, get_answer, evict_answer,
}
use podcache.Pod.Partitions.{Holds, on_partition-runs, on_partition-reads, with_partition}
use podcache.Pod.Each.{Each, Kept, Keeps, Each-registry, Each-files, served-Each, on_disk-Keeps}
use podcache.Pod.Each.Put.{put_said}

module _ {F : Type 0} (fs : FileSystem F) where
  abbrev gives : Option Bytes → F → Option (Option Bytes × F)
  gives found files = some (found, files)

  -- `cas_get` changes no file.
  read_value-files :
      (path : Bytes) (size : ℕ) (files : F) {o : Option Bytes} {after : F}
      → read_value fs path size files ≡ gives o after
      → files ≡ after
  unfolding read_value
  read_value-files path size files run = elim (Option-cases (fs.read path size files)) [
    | inl e ↦ let h = rw e at run in cc
    | inr (v, e) ↦ let h = rw e at run in cc
  ]

  no_fault : {o : Option Bytes} {after : F} → none ≢ gives o after
  no_fault e = cc

  same_files :
      {found o : Option Bytes} {files after : F} → gives found files ≡ gives o after → files ≡ after
  same_files e = cc

  pub cas_get-files :
      (alloc : Cas.Alloc) (registry : CasRegistry) (key : Bytes) (files : F) {o : Option Bytes}
      {after : F}
      → cas_get fs alloc registry key files ≡ gives o after
      → files ≡ after
  unfolding cas_get
  cas_get-files alloc registry key files run =
      elim (Bool-cases (alloc.fs_path_ok && alloc.path_ok)) [
        | inr e ↦ absurd (no_fault (rw e at run))
        | inl e ↦
            let path =
              inner registry.base_path (sha256_string alloc.pad_ok key) (codes "value.dat") in
            elim (Option-cases (fs.stat path files)) [
              | inl f ↦ same_files (rw (e, f) at run)
              | inr (size, f) ↦ elim (Bool-cases alloc.buffer_ok) [
                | inl g ↦ read_value-files path size files (rw (e, f, g) at run)
                | inr g ↦ same_files (rw (e, f, g) at run)
              ]
            ]
      ]

module _ {F : Type 0} (fs : FileSystem F) (n : ℕ) (base : Bytes) (P : F → ℕ → Entries → Type 0)
    (env : Env) (key : Bytes) (kept : Kept fs n base P env.cas_alloc env.now key) (i : ℕ)
    (at : get_partition (hash key) n ≡ i) (cache : PodCache) (files : F) {es : Entries}
    (held : Holds cache i es) (p : Each fs n base P cache files) (said : P files i es) where
  touch_said : P files i (touch key es)
  touch_said = elim (Option-cases (lookup key es)) [
    | inl e ↦ rw (touch-none key es e) said
    | inr (v, e) ↦ rw (touch-some key es v e) (kept.inserted v at said)
  ]

  -- behind an operation of the partition, the key is taken off the disk
  off_disk-Keeps :
      {A : Type 0} (answer : CasStatus × CasRegistry → A) (between : PodCache)
      → Each fs n base P between files
      → Keeps fs n base P (
          and_then
            (finish fs (cas_evict fs env.cas_alloc key between.cas_registry files) between files)
            (λ (r : CasStatus × CasRegistry) now_is after.
              some (answer r, record now_is { cas_registry = r.1 }, after)))
  off_disk-Keeps answer between q =
      on_disk-Keeps fs n base P (cas_evict fs env.cas_alloc key between.cas_registry files) between
        files _
        (λ r after run.
          Each-registry fs n base P r.1
            ((cas_evict-Evicts fs env.cas_alloc key between.cas_registry files run).base_path
              ∙ q.store)
            (Each-files fs n base P (λ j ds t. kept.evicted between.cas_registry r q.store run t)
              q))

  promote-Keeps :
      (found : Option Bytes)
      → Grants env.put_alloc held.partition
      → ((v : Bytes) → found ≡ some v → cache.partition_capacity + length v < 2 ^ 64)
      → Keeps fs n base P (promote fs env i key found cache files)
  unfolding promote
  promote-Keeps none granted word = p
  promote-Keeps (some v) granted word =
      let big = held.capacity in
      let fits = word v refl in
      let s =
        put-refines env.put_alloc env.now key v held.partition held.represents granted
          (omega arith) in
      let q = served-Each fs n base P cache i files held p s (
        put_said fs n base P env key kept v files i es
          (ltb (total es + length v) held.partition.max_bytes_capacity) at said) in
      rw (on_partition-runs cache i held files (put env.put_alloc env.now key v) s.final s.runs)
        (off_disk-Keeps (λ r. (pos 0, some v)) (with_partition cache i held s.final) q)

  -- `pod_cache_get` behind a miss in memory
  miss-Keeps :
      Grants env.put_alloc held.partition
      → ((v : Bytes) (after : F)
          → cas_get fs env.cas_alloc cache.cas_registry key files ≡ some (some v, after)
          → cache.partition_capacity + length v < 2 ^ 64)
      → Keeps fs n base P (get_answer fs env i key (not_found, none) cache files)
  unfolding get_answer
  miss-Keeps granted word =
      on_disk-Keeps fs n base P (cas_get fs env.cas_alloc cache.cas_registry key files) cache files
        _
        (λ found after run.
          subst (λ end. Keeps fs n base P (promote fs env i key found cache end))
            (cas_get-files fs env.cas_alloc cache.cas_registry key files run)
            (promote-Keeps found granted (λ v h. word v after (run ∙ ap (λ w. some (w, after)) h))))

  pub pod_cache_get-Keeps :
      Grants env.put_alloc held.partition
      → ((v : Bytes) (after : F)
          → cas_get fs env.cas_alloc cache.cas_registry key files ≡ some (some v, after)
          → cache.partition_capacity + length v < 2 ^ 64)
      → Keeps fs n base P (pod_cache_get fs env key cache files)
  unfolding pod_cache_get get_answer
  pod_cache_get-Keeps granted word =
      let index = ap (get_partition (hash key)) p.count ∙ at in
      elim (Option-cases (lookup key es)) [
        | inl absent ↦
            rw
              (
                index,
                on_partition-reads cache i held files (get env.get_ok key)
                    (get_absent env.get_ok held.partition key held.represents absent),
              )
              (miss-Keeps granted word)
        | inr (v, there) ↦ elim (Bool-cases env.get_ok) [
          | inl ok ↦
              let s = get-refines held.partition key held.represents in
              let hit = s.runs ∙ ap (λ w. some (reply w, s.final)) there in
              rw (index, ok, on_partition-runs cache i held files (get true key) s.final hit)
                (served-Each fs n base P cache i files held p s touch_said)
          | inr refused ↦
              rw
                (
                  index,
                  refused,
                  on_partition-reads cache i held files (get false key)
                      (get_refused held.partition key held.represents there),
                )
                p
        ]
      ]

  pub pod_cache_evict-Keeps : Keeps fs n base P (pod_cache_evict fs env key cache files)
  unfolding pod_cache_evict evict_answer
  pod_cache_evict-Keeps =
      let index = ap (get_partition (hash key)) p.count ∙ at in
      let s = evict-refines held.partition key held.represents in
      let q = served-Each fs n base P cache i files held p s (kept.removed said) in
      elim (Option-cases (lookup key es)) [
        | inl absent ↦
            let run = s.runs ∙ ap (λ w. some (evict_reply w, s.final)) absent in
            rw (index, on_partition-runs cache i held files (evict key) s.final run)
              (off_disk-Keeps (λ r. evicted_answer fs r.0) (with_partition cache i held s.final) q)
        | inr (v, there) ↦
            let run = s.runs ∙ ap (λ w. some (evict_reply w, s.final)) there in
            rw (index, on_partition-runs cache i held files (evict key) s.final run) q
      ]
