-- ===== src/Pod/Each/Put.antt =====
-- `pod_cache_put` of src/pod_cache.c keeps every invariant that survives its steps.
use podcache.Prelude.{
  ℕ, ◌+◌, ◌<◌, ◌≤◌, ◌^◌, ◌≡◌, refl, sym, ◌∙◌, ap, subst, arith, Bytes, Bool, true, false, none,
  some, [], ◌∷◌, length, ltb, Bool-cases, Option-cases, inl, inr, ne→==, if◌then◌else◌,
}
use podcache.Hash.Djb2.{hash}
use podcache.Lru.State.{LruCache, LruNode, success, load, copy_value, null}
use podcache.Lru.Ops.{put, remove_tail, get_tail_node}
use podcache.Lru.Spec.{Entries, insert, drop_last, last_entry, total}
use podcache.Lru.Invariant.{Represents}
use podcache.Lru.Put.{Grants, put-refines, put_no_room}
use podcache.Lru.Tail.{remove_tail-refines, last_entry-TailNode, tail_empty}
use podcache.Cas.{CasStatus, CasRegistry, cas_put, cas_add_to_registry}
use podcache.Cas.Files.{FileSystem}
use podcache.Pod.{PodCache, get_partition}
use podcache.Pod.Ops.{Env, pod_cache_put, put_answer, spill, spill_value, spilled, retry}
use podcache.Cas.Registry.{cas_add_to_registry-base_path}
use podcache.Pod.Spill.{tail_value, last_entry-ne}
use podcache.Pod.Partitions.{
  Holds, SameBeside, set-same, with_partition, with_partition-SameBeside, on_partition-runs,
  on_partition-reads,
}
use podcache.Pod.Each.{Each, Kept, Keeps, Each-registry, Each-beside, served-Each, on_disk-Keeps}

last_entry-none : (es : Entries) → last_entry es ≡ none → es ≡ []
unfolding last_entry
last_entry-none [] h = refl
last_entry-none (e ∷ []) h = cc
last_entry-none (e ∷ d ∷ es) h = let rest = last_entry-none (d ∷ es) h in cc

-- no tail to be read
no_tail :
    (c : LruCache) {es : Entries}
    → Represents c es
    → last_entry es ≡ none
    → get_tail_node c ≡ some (null, c)
unfolding get_tail_node
no_tail c {es} r h =
    let bare = subst (Represents c) (last_entry-none es h) r in ground (arith, tail_empty c bare)

module _ {F : Type 0} (fs : FileSystem F) (n : ℕ) (base : Bytes) (P : F → ℕ → Entries → Type 0)
    (env : Env) (key : Bytes) (kept : Kept fs n base P env.cas_alloc env.now key) where
  -- what `lru_cache_put` leaves, whether there is room or not
  pub put_said :
      (value : Bytes) (files : F) (i : ℕ) (es : Entries) (room : Bool)
      → get_partition (hash key) n ≡ i
      → P files i es
      → P files i (if room then insert key value es else es)
  put_said value files i es true at said = kept.inserted value at said
  put_said value files i es false at said = said

  module _ (i : ℕ) (value : Bytes) (at : get_partition (hash key) n ≡ i) where
    -- The registry has its new entry, the partition has lost its last one, and is put into again.
    listed-Keeps :
        (cache : PodCache) (files after : F) (path : Bytes) (registry : CasRegistry)
        {status : CasStatus} {es : Entries} {e : Bytes × Bytes} (held : Holds cache i es)
        → Each fs n base P cache files
        → P files i es
        → last_entry es ≡ some e
        → cas_put fs env.cas_alloc env.now cache.cas_registry e.0 e.1 files
          ≡ some ((CasStatus.success, path), after)
        → ((c : LruCache)
            → remove_tail held.partition ≡ some (success, c)
            → Grants env.retry_alloc c)
        → cache.partition_capacity + length value < 2 ^ 64
        → cas_add_to_registry env.realloc_ok env.malloc_ok cache.cas_registry path
          ≡ some (status, registry)
        → Keeps fs n base P (retry fs env i key value path cache after)
    unfolding retry
    listed-Keeps cache files after path registry {es = es} {e} held p said last stored grants word
          listed =
        let added : PodCache = record cache { cas_registry = registry } in
        let same =
          cas_add_to_registry-base_path env.realloc_ok env.malloc_ok cache.cas_registry path
            listed in
        let p0 = Each-registry fs n base P added.cas_registry (same ∙ p.store) p in
        let held1 : Holds added i es = record {
          partition = held.partition;
          there = held.there;
          represents = held.represents;
          capacity = held.capacity;
        } in
        let cut = remove_tail-refines held.partition held.represents (last_entry-ne es last) in
        let cache1 = with_partition added i held1 cut.final in
        let held2 : Holds cache1 i (drop_last es) = record {
          partition = cut.final;
          there = set-same i cut.final held.partition cache.partitions held.there;
          represents = cut.represents;
          capacity = cut.capacity ∙ held.capacity;
        } in
        let put_away =
          kept.spilled held.partition cache.cas_registry path held.represents last p.store stored
            said in
        let p1 =
          Each-beside fs n base P P p0 (with_partition-SameBeside added i held1 cut.final) held2
            put_away
            (λ j ds ne t.
              kept.beside cache.cas_registry (CasStatus.success, path) last p.store stored said ne
                t) in
        let big = held2.capacity in
        let s =
          put-refines env.retry_alloc env.now key value cut.final cut.represents
            (grants cut.final cut.runs) (omega arith) in
        let first = on_partition-runs added i held1 after remove_tail cut.final cut.runs in
        let second =
          on_partition-runs cache1 i held2 after (put env.retry_alloc env.now key value) s.final
            s.runs in
        rw (listed, first, second)
          (served-Each fs n base P cache1 i after held2 p1 s (
            put_said value after i (drop_last es)
              (ltb (total (drop_last es) + length value) cut.final.max_bytes_capacity) at put_away))

    retry-Keeps :
        (cache : PodCache) (files after : F) (path : Bytes) {es : Entries} {e : Bytes × Bytes}
        (held : Holds cache i es)
        → Each fs n base P cache files
        → P files i es
        → last_entry es ≡ some e
        → cas_put fs env.cas_alloc env.now cache.cas_registry e.0 e.1 files
          ≡ some ((CasStatus.success, path), after)
        → ((c : LruCache)
            → remove_tail held.partition ≡ some (success, c)
            → Grants env.retry_alloc c)
        → cache.partition_capacity + length value < 2 ^ 64
        → Keeps fs n base P (retry fs env i key value path cache after)
    unfolding retry
    retry-Keeps cache files after path {es} {e} held p said last stored grants word =
        elim (Option-cases
          (cas_add_to_registry env.realloc_ok env.malloc_ok cache.cas_registry path)) [
            | inl e ↦ rw e tt
            | inr (r, e) ↦
                listed-Keeps cache files after path r.1 held p said last stored grants word e
          ]

    module _ (cache : PodCache) (files : F) {es : Entries} (held : Holds cache i es)
        (p : Each fs n base P cache files) (said : P files i es)
        (grants : (c : LruCache)
          → remove_tail held.partition ≡ some (success, c)
          → Grants env.retry_alloc c)
        (word : cache.partition_capacity + length value < 2 ^ 64) where
      same_cache : SameBeside i cache cache
      same_cache = record { others = λ j ne. refl; count = refl; capacity = refl; store = refl }

      failed :
          (r : CasStatus × Bytes) {e : Bytes × Bytes} {after : F}
          → last_entry es ≡ some e
          → cas_put fs env.cas_alloc env.now cache.cas_registry e.0 e.1 files ≡ some (r, after)
          → Each fs n base P cache after
      failed r last run =
          Each-beside fs n base P P p same_cache held
            (kept.unspilled held.partition cache.cas_registry r held.represents last p.store run
              said)
            (λ j ds ne t. kept.beside cache.cas_registry r last p.store run said ne t)

      spilled-Keeps :
          (r : CasStatus × Bytes) {e : Bytes × Bytes} {after : F}
          → last_entry es ≡ some e
          → cas_put fs env.cas_alloc env.now cache.cas_registry e.0 e.1 files ≡ some (r, after)
          → Keeps fs n base P (spilled fs env i key value r cache after)
      unfolding spilled
      spilled-Keeps (CasStatus.success, path) {e} {after} last run =
          retry-Keeps cache files after path held p said last run grants word
      spilled-Keeps (CasStatus.error, path) last run = failed (CasStatus.error, path) last run
      spilled-Keeps (CasStatus.short_write, path) last run =
          failed (CasStatus.short_write, path) last run

      node-Keeps :
          (m : LruNode) {e : Bytes × Bytes}
          → last_entry es ≡ some e
          → m.key ≡ e.0
          → m.value ≡ some e.1
          → copy_value m held.partition ≡ some (e.1, held.partition)
          → Keeps fs n base P (spill_value fs env i key value m m.value cache files)
      unfolding spill_value
      node-Keeps m {e} last name whole copied =
          subst (λ w. Keeps fs n base P (spill_value fs env i key value m w cache files))
            (sym whole)
            (rw (on_partition-reads cache i held files (copy_value m) copied, name)
              (on_disk-Keeps fs n base P
                (cas_put fs env.cas_alloc env.now cache.cas_registry e.0 e.1 files) cache files
                (spilled fs env i key value) (λ r after run. spilled-Keeps r last run)))

      spill-Keeps : Keeps fs n base P (spill fs env i key value cache files)
      unfolding spill
      spill-Keeps = elim (Option-cases (last_entry es)) [
        | inl empty ↦
            rw
              (on_partition-reads cache i held files get_tail_node
                (no_tail held.partition held.represents empty))
              p
        | inr (e, last) ↦
            let t = last_entry-TailNode held.partition held.represents last in
            rw
              (
                on_partition-reads cache i held files get_tail_node t.got,
                ne→== t.ptr 0 t.nonnull,
                on_partition-reads cache i held files (load t.ptr) t.loaded,
              )
              (node-Keeps t.node last t.key t.value (tail_value held.partition t))
      ]

      pub pod_cache_put-Keeps :
          Grants env.put_alloc held.partition
          → Keeps fs n base P (pod_cache_put fs env key value cache files)
      unfolding pod_cache_put put_answer
      pod_cache_put-Keeps granted =
          let big = held.capacity in
          let index = ap (get_partition (hash key)) p.count ∙ at in
          elim (Bool-cases (ltb (total es + length value) held.partition.max_bytes_capacity)) [
            | inl room ↦
                let s =
                  put-refines env.put_alloc env.now key value held.partition held.represents granted
                    (omega arith) in
                let t = rw room at s in
                rw
                  (
                    index,
                    on_partition-runs cache i held files (put env.put_alloc env.now key value)
                        t.final t.runs,
                  )
                  (served-Each fs n base P cache i files held p t (kept.inserted value at said))
            | inr tight ↦
                let none_left : cache.partition_capacity ≤ total es + length value = ground arith in
                rw
                  (
                    index,
                    on_partition-reads cache i held files (put env.put_alloc env.now key value) (
                        put_no_room env.put_alloc env.now key value held.partition held.represents
                          (omega arith) (omega arith)),
                  )
                  spill-Keeps
          ]
