-- ===== src/Pod/Ops.antt =====
-- `pod_cache_put`, `pod_cache_get` and `pod_cache_evict` of src/pod_cache.c. A result is the
-- partition's index, or -1.
use podcache.Prelude.{ℕ, Bytes, Bool, Option, none, some, ◌==◌, if◌then◌else◌}
use podcache.Prelude.Int.{ℤ, pos, negsuc}
use podcache.Hash.Djb2.{hash}
use podcache.Lru.State.{LruNode, Status, success, error, not_found, full, load, copy_value, null}
use podcache.Lru.Ops.{get, evict, put, get_tail_node, remove_tail}
use podcache.Lru.Ops as Lru
use podcache.Cas as Cas
use podcache.Cas.{CasRegistry, CasStatus, cas_put, cas_get, cas_evict, cas_add_to_registry}
use podcache.Cas.Files.{FileSystem, Io}
use podcache.Pod.{Pod, pure, ◌>>=◌, ◌>>◌, on_partition, get_partition}

-- What the environment decides in one operation: the allocations of the two calls of
-- `lru_cache_put`, of `lru_cache_get`, of the store and of its registry, and the time.
pub record Env : Type 0 where
  pub put_alloc : Lru.Alloc
  pub retry_alloc : Lru.Alloc
  pub get_ok : Bool
  pub cas_alloc : Cas.Alloc
  pub realloc_ok : Bool
  pub malloc_ok : Bool
  pub now : ℕ

abbrev pub minus_one : ℤ
minus_one = negsuc 0

module _ {F : Type 0} (fs : FileSystem F) where
  abbrev registry_of : Pod F CasRegistry
  registry_of cache files = some (cache.cas_registry, cache, files)

  abbrev index_of : Bytes → Pod F ℕ
  index_of key cache files = some (get_partition (hash key) cache.partition_count, cache, files)

  abbrev pub finish : {A : Type 0} → Option (A × F) → Pod F A
  finish none cache files = none
  finish (some (a, after)) cache files = some (a, cache, after)

  -- an operation of the store
  abbrev on_disk : {A : Type 0} → Io F A → Pod F A
  on_disk m cache files = finish (m files) cache files

  abbrev set_registry : CasRegistry → Pod F (Unit {0})
  set_registry r cache files = some (tt, record cache { cas_registry = r }, files)

  -- the registry behind `cas_add_to_registry`, whose status is not looked at
  abbrev set_added : Option (CasStatus × CasRegistry) → Pod F (Unit {0})
  set_added none cache files = none
  set_added (some (status, r)) cache files = some (tt, record cache { cas_registry = r }, files)

  abbrev answer : ℕ → Status → ℤ
  answer i success = pos i
  answer i not_found = minus_one
  answer i error = minus_one
  answer i full = minus_one

  -- behind a `cas_put` that returned 0
  unfoldable pub retry : Env → ℕ → Bytes → Bytes → Bytes → Pod F ℤ
  retry env i key value path = do
    registry ← registry_of
    set_added (cas_add_to_registry env.realloc_ok env.malloc_ok registry path)
    on_partition i remove_tail
    status ← on_partition i (put env.retry_alloc env.now key value)
    pure (answer i status)

  unfoldable pub spilled : Env → ℕ → Bytes → Bytes → CasStatus × Bytes → Pod F ℤ
  spilled env i key value (CasStatus.success, path) = retry env i key value path
  spilled env i key value (CasStatus.error, path) = pure minus_one
  spilled env i key value (CasStatus.short_write, path) = pure minus_one

  -- `cas_put` of the tail's entry; it refuses a value that is NULL
  unfoldable pub spill_value : Env → ℕ → Bytes → Bytes → LruNode → Option Bytes → Pod F ℤ
  spill_value env i key value n none = pure minus_one
  spill_value env i key value n (some whole) = do
    v ← on_partition i (copy_value n)
    registry ← registry_of
    result ← on_disk (cas_put fs env.cas_alloc env.now registry n.key v)
    spilled env i key value result

  -- the case -900: the tail goes to disk
  unfoldable pub spill : Env → ℕ → Bytes → Bytes → Pod F ℤ
  spill env i key value = do
    tail ← on_partition i get_tail_node
    if tail == null
        then pure minus_one
        else do n ← on_partition i (load tail); spill_value env i key value n n.value

  -- the `switch` on what `lru_cache_put` returned
  unfoldable pub put_answer : Env → ℕ → Bytes → Bytes → Status → Pod F ℤ
  put_answer env i key value error = pure minus_one
  put_answer env i key value full = spill env i key value
  put_answer env i key value success = pure (pos i)
  put_answer env i key value not_found = pure (pos i)

  unfoldable pub pod_cache_put : Env → Bytes → Bytes → Pod F ℤ
  pod_cache_put env key value = do
    i ← index_of key
    status ← on_partition i (put env.put_alloc env.now key value)
    put_answer env i key value status

  -- a key found on disk goes to memory, and off the disk, if these succeed; the answer is 0
  unfoldable pub promote : Env → ℕ → Bytes → Option Bytes → Pod F (ℤ × Option Bytes)
  promote env i key none = pure (minus_one, none)
  promote env i key (some v) = do
    on_partition i (put env.put_alloc env.now key v)
    registry ← registry_of
    evicted ← on_disk (cas_evict fs env.cas_alloc key registry)
    set_registry evicted.1
    pure (pos 0, some v)

  unfoldable pub get_answer : Env → ℕ → Bytes → Status × Option Bytes → Pod F (ℤ × Option Bytes)
  get_answer env i key (error, v) = pure (minus_one, none)
  get_answer env i key (not_found, v) = do
    registry ← registry_of
    found ← on_disk (cas_get fs env.cas_alloc registry key)
    promote env i key found
  get_answer env i key (success, v) = pure (pos i, v)
  get_answer env i key (full, v) = pure (pos i, v)

  -- the result, and the value in `out_value`
  unfoldable pub pod_cache_get : Env → Bytes → Pod F (ℤ × Option Bytes)
  pod_cache_get env key = do
    i ← index_of key
    got ← on_partition i (get env.get_ok key)
    get_answer env i key got

  abbrev pub evicted_answer : CasStatus → ℕ
  evicted_answer CasStatus.success = 1
  evicted_answer CasStatus.error = 0
  evicted_answer CasStatus.short_write = 0

  unfoldable pub evict_answer : Env → Bytes → Status → Pod F ℕ
  evict_answer env key not_found = do
    registry ← registry_of
    evicted ← on_disk (cas_evict fs env.cas_alloc key registry)
    set_registry evicted.1
    pure (evicted_answer evicted.0)
  evict_answer env key success = pure 1
  evict_answer env key error = pure 0
  evict_answer env key full = pure 0

  -- 1 if the key was evicted, else 0
  unfoldable pub pod_cache_evict : Env → Bytes → Pod F ℕ
  pod_cache_evict env key = do
    i ← index_of key
    status ← on_partition i (evict key)
    evict_answer env key status
