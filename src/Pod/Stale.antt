-- ===== src/Pod/Stale.antt =====
-- A key of src/pod_cache.c that is in memory and on disk at once.
use podcache.Prelude.{
  ◌+◌, ◌<◌, ◌^◌, ◌≡◌, refl, sym, ap, ◌∙◌, subst, arith, Bytes, false, none, some, ◌++◌, length,
  Option-cases, inl, inr,
}
use podcache.Prelude.Int.{pos}
use podcache.Lru.State.{LruCache, success}
use podcache.Lru.Ops.{evict}
use podcache.Lru.Layout.{has_key, has_key-append, Distinct, Distinct-middle}
use podcache.Lru.Spec.{Entries, lookup, remove}
use podcache.Lru.Invariant.{
  Represents, cell_of, cell_of-none, find_cell, lookup-view, value_of, remove-Found, remove_none,
}
use podcache.Lru.Put.{Grants}
use podcache.Lru.Get.{value_of-some}
use podcache.Lru.Evict.{evict-refines, evict_reply}
use podcache.Cas.{CasRegistry, CasStatus, cas_get, cas_evict}
use podcache.Cas.Files.{FileSystem}
use podcache.Pod.{PodCache}
use podcache.Pod.Ops.{Env, pod_cache_get, pod_cache_evict, evict_answer}
use podcache.Pod.Memory.{slot}
use podcache.Pod.Partitions.{Holds, with_partition, on_partition-runs, set-same}
use podcache.Pod.Promote.{pod_cache_get-promoted}

-- A key that was taken out of a valid cache is not there.
lookup-remove :
    (c : LruCache) (k : Bytes) {es : Entries} → Represents c es → lookup k (remove k es) ≡ none
lookup-remove c k {es} r = elim (Option-cases (lookup k es)) [
  | inl absent ↦ ap (lookup k) (remove_none k es absent) ∙ absent
  | inr (v, there) ↦
      let (x, e) =
        value_of-some (cell_of k r.cells)
          (sym (lookup-view k r.cells) ∙ ap (lookup k) r.shows ∙ there) in
      let f = find_cell k r.cells x e in
      let d = subst Distinct f.split r.valid.distinct in
      let (_, _, _, before, behind, _) = Distinct-middle f.before x f.behind d in
      let apart : has_key x.key (f.before ++ f.behind) ≡ false =
        ground (arith, has_key-append x.key f.before f.behind) in
      let gone : has_key k (f.before ++ f.behind) ≡ false = rw f.key at apart in
      ap (λ ds. lookup k (remove k ds)) (sym r.shows)
      ∙ ap (lookup k) (remove-Found f r.valid.distinct)
      ∙ lookup-view k (f.before ++ f.behind)
      ∙ ap value_of (cell_of-none k (f.before ++ f.behind) gone)
]

-- For a key that a valid partition has in memory while `cas_get` finds an older value on disk:
-- `pod_cache_evict` returns 1, and `pod_cache_get` right behind it still returns a value, the older
-- one, with memory for a node, while no sum wraps around and if `cas_evict` returns.
pub pod_cache_get-pod_cache_evict :
    {F : Type 0} (fs : FileSystem F) (env later : Env) (key : Bytes) (cache : PodCache) (files : F)
    {es : Entries} {new old : Bytes} {mid after : F} {r : CasStatus × CasRegistry}
    → (held : Holds cache (slot fs env cache key files) es) → lookup key es ≡ some new
    → cas_get fs later.cas_alloc cache.cas_registry key files ≡ some (some old, mid)
    → cas_evict fs later.cas_alloc key cache.cas_registry mid ≡ some (r, after)
    → ((c : LruCache) → evict key held.partition ≡ some (success, c) → Grants later.put_alloc c)
    → cache.partition_capacity + length old < 2 ^ 64
    → (between final : PodCache) × (pod_cache_evict fs env key cache files
        ≡ some (1, between, files))
      × (pod_cache_get fs later key between files ≡ some ((pos 0, some old), final, after))
unfolding pod_cache_evict evict_answer
pod_cache_get-pod_cache_evict fs env later key cache files {es} {new} {old} held there found evicted
      grants word =
    let i = slot fs env cache key files in
    let s = evict-refines held.partition key held.represents in
    let hit = s.runs ∙ ap (λ v. some (evict_reply v, s.final)) there in
    let between = with_partition cache i held s.final in
    let held1 : Holds between i (remove key es) = record {
      partition = s.final;
      there = set-same i s.final held.partition cache.partitions held.there;
      represents = s.represents;
      capacity = s.capacity ∙ held.capacity;
    } in
    let w =
      pod_cache_get-promoted fs later key between files held1
        (lookup-remove held.partition key held.represents) found evicted (grants s.final hit)
        word in
    (
      between,
      w.final,
      rw (on_partition-runs cache i held files (evict key) s.final hit) refl,
      w.runs,
    )
