-- ===== src/Pod/Promote.antt =====
-- Keys that src/pod_cache.c finds on disk.
use podcache.Prelude.{
  ◌+◌, ◌<◌, ◌^◌, ◌≡◌, refl, arith, Bytes, none, some, length, ltb, if◌then◌else◌,
}
use podcache.Prelude.Int.{pos}
use podcache.Lru.Ops.{get, put}
use podcache.Lru.Spec.{Entries, lookup, insert, total}
use podcache.Lru.Put.{Grants, put-refines}
use podcache.Lru.Get.{get_absent}
use podcache.Cas.{CasRegistry, CasStatus, cas_get, cas_evict}
use podcache.Cas.Evict.{cas_evict-Evicts}
use podcache.Cas.Files.{FileSystem}
use podcache.Pod.{PodCache}
use podcache.Pod.Ops.{Env, pod_cache_get, get_answer, promote, minus_one}
use podcache.Pod.Memory.{slot}
use podcache.Pod.Partitions.{
  Holds, Works, with_partition, with_partition-Holds, with_partition-SameBeside, on_partition-runs,
  on_partition-reads,
}

-- what `lru_cache_put` leaves in a partition
abbrev pub stored_in : PodCache → Bytes → Bytes → Entries → Entries
stored_in cache key value es =
    if ltb (total es + length value) cache.partition_capacity then insert key value es else es

module _ {F : Type 0} (fs : FileSystem F) (env : Env) (key : Bytes) (cache : PodCache)
    (files : F) where
  -- `pod_cache_get` of a key that is neither in its partition, a valid one, nor on disk returns -1 and
  -- changes nothing, whatever the memory for a copy.
  pub pod_cache_get-missing :
      {es : Entries} {after : F}
      → Holds cache (slot fs env cache key files) es
      → lookup key es ≡ none
      → cas_get fs env.cas_alloc cache.cas_registry key files ≡ some (none, after)
      → pod_cache_get fs env key cache files ≡ some ((minus_one, none), cache, after)
  unfolding pod_cache_get get_answer promote
  pod_cache_get-missing held absent gone =
      rw
        (
          on_partition-reads cache (slot fs env cache key files) held files (get env.get_ok key)
              (get_absent env.get_ok held.partition key held.represents absent),
          gone,
        )
        refl

  -- `pod_cache_get` of a key that its partition, a valid one, lacks and `cas_get` finds on disk, with
  -- memory for a node and while no sum wraps around: it returns 0, whichever the partition, and the
  -- value. The entry is in memory then if there is room, and on disk as far as `cas_evict`, if it
  -- returns, has not removed it; the other partitions stay.
  pub pod_cache_get-promoted :
      {es : Entries} {value : Bytes} {mid after : F} {r : CasStatus × CasRegistry}
      → (held : Holds cache (slot fs env cache key files) es) → lookup key es ≡ none
      → cas_get fs env.cas_alloc cache.cas_registry key files ≡ some (some value, mid)
      → cas_evict fs env.cas_alloc key cache.cas_registry mid ≡ some (r, after)
      → Grants env.put_alloc held.partition
      → cache.partition_capacity + length value < 2 ^ 64
      → Works cache
          (slot fs env cache key files)
          (pod_cache_get fs env key cache files)
          (pos 0, some value)
          (stored_in cache key value es)
          after
  unfolding pod_cache_get get_answer promote
  pod_cache_get-promoted {es} {value} {mid} {after} {r} held absent found evicted granted word =
      let i = slot fs env cache key files in
      let full_capacity = held.capacity in
      let s =
        put-refines env.put_alloc env.now key value held.partition held.represents granted
          (omega arith) in
      let stored = with_partition cache i held s.final in
      let kept =
        with_partition-Holds cache i held s.final (rw held.capacity at s.represents) s.capacity in
      record {
        final = record stored { cas_registry = r.1 };
        runs =
            rw
              (
                on_partition-reads cache i held files (get env.get_ok key)
                    (get_absent env.get_ok held.partition key held.represents absent),
                found,
                on_partition-runs cache i held mid (put env.put_alloc env.now key value) s.final
                    s.runs,
                evicted,
              )
              refl;
        holds = record {
          partition = kept.partition;
          there = kept.there;
          represents = kept.represents;
          capacity = kept.capacity;
        };
        beside = record {
          others = (with_partition-SameBeside cache i held s.final).others;
          count = refl;
          capacity = refl;
          store = (cas_evict-Evicts fs env.cas_alloc key cache.cas_registry mid evicted).base_path;
        };
      }
