-- ===== src/Pod/Memory.antt =====
-- The operations of src/pod_cache.c that memory serves alone.
use podcache.Prelude.{ℕ, Bytes, true, some, ◌+◌, ◌<◌, ◌^◌, ◌≡◌, refl, length}
use podcache.Prelude.Int.{pos}
use podcache.Hash.Djb2.{hash}
use podcache.Lru.Spec.{Entries, lookup, touch, insert, remove, total}
use podcache.Lru.Ops.{get, evict}
use podcache.Lru.Put.{Grants}
use podcache.Lru.Get.{get-refines}
use podcache.Lru.Evict.{evict-refines}
use podcache.Cas.Files.{FileSystem}
use podcache.Pod.{PodCache, get_partition}
use podcache.Pod.Ops.{
  Env, pod_cache_get, pod_cache_put, pod_cache_evict, get_answer, put_answer, evict_answer,
}
use podcache.Pod.Partitions.{Holds, Works, on_partition-Works, put_room-Works}

module _ {F : Type 0} (fs : FileSystem F) (env : Env) (cache : PodCache) (key : Bytes)
    (files : F) where
  abbrev pub slot : ℕ
  slot = get_partition (hash key) cache.partition_count

  -- `pod_cache_get` of a key that its partition, a valid one, has, with memory for the copy: it
  -- returns the partition's index and the value, makes the key that partition's most recently
  -- used one, and leaves the other partitions and the files as they are.
  pub pod_cache_get-hit :
      {es : Entries} {v : Bytes}
      → Holds cache slot es
      → env.get_ok ≡ true
      → lookup key es ≡ some v
      → Works cache slot
          (pod_cache_get fs env key cache files)
          (pos slot, some v)
          (touch key es)
          files
  unfolding pod_cache_get get_answer
  pod_cache_get-hit held ok found =
      let w =
        on_partition-Works cache slot files (get true key) held
          (get-refines held.partition key held.represents) in
      record {
        final = w.final;
        runs = rw (ok, w.runs, found) refl;
        holds = w.holds;
        beside = w.beside;
      }

  -- `pod_cache_put` into a valid partition, with memory, while no sum wraps around, if the sizes
  -- of its entries and of the new value stay below its capacity: it returns the partition's
  -- index, the entry is that partition's most recently used one, and the other partitions and
  -- the files stay.
  pub pod_cache_put-room :
      {es : Entries} (value : Bytes)
      → (held : Holds cache slot es) → Grants env.put_alloc held.partition
      → cache.partition_capacity + length value < 2 ^ 64
      → total es + length value < cache.partition_capacity
      → Works cache slot
          (pod_cache_put fs env key value cache files)
          (pos slot)
          (insert key value es)
          files
  unfolding pod_cache_put put_answer
  pod_cache_put-room value held grants word room =
      let w =
        put_room-Works cache slot files env.put_alloc env.now key value held grants word room in
      record { final = w.final; runs = rw w.runs refl; holds = w.holds; beside = w.beside }

  -- `pod_cache_evict` of a key that its partition, a valid one, has: it returns 1, takes the
  -- entry out of that partition, and leaves the other partitions and the files as they are.
  pub pod_cache_evict-hit :
      {es : Entries} {v : Bytes}
      → Holds cache slot es
      → lookup key es ≡ some v
      → Works cache slot (pod_cache_evict fs env key cache files) 1 (remove key es) files
  unfolding pod_cache_evict evict_answer
  pod_cache_evict-hit held found =
      let w =
        on_partition-Works cache slot files (evict key) held
          (evict-refines held.partition key held.represents) in
      record { final = w.final; runs = rw (w.runs, found) refl; holds = w.holds; beside = w.beside }
