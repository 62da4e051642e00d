-- ===== src/Lru/Ops.antt =====
-- The public functions of src/lru_cache.c. What the environment decides is an argument: whether an
-- allocation succeeds, the address of a new node, and the time.
use podcache.Prelude.{
  ℕ, zero, suc, ◌+◌, ◌-◌, ◌*◌, ◌/◌, ◌%◌, ◌^◌, Bytes, Bool, false, ◌&&◌, Option, none, some, List,
  [], ◌∷◌, ◌==◌, ltb, leb, if◌then◌else◌, str_eq, length,
}
use podcache.Hash.Djb2.{hash_key}
use podcache.Lru.State.{
  Ptr, null, HashNode, LruCache, Status, success, error, not_found, full, Cmd, pure, ◌>>=◌, ◌>>◌,
  get_cache, modify, store, load, free_node, set_head, set_tail, set_next, read_bucket,
  write_bucket, lock, unlock, copy_value,
}
use podcache.Lru.Links.{add_to_head, move_to_head, unlink}

-- The outcome of the allocations that one `lru_cache_put` may make.
pub record Alloc : Type 0 where
  pub fresh : Ptr
  pub key_ok : Bool
  pub value_ok : Bool
  pub hash_node_ok : Bool
  pub hash_key_ok : Bool

-- the `while (current)` loop over a chain: the first node with the key
unfoldable pub find : Bytes → List HashNode → Option HashNode
find key [] = none
find key (current ∷ next) = if str_eq current.key key then some current else find key next

-- the chain with that node taken out
unfoldable pub drop_key : Bytes → List HashNode → List HashNode
drop_key key [] = []
drop_key key (current ∷ next) = if str_eq current.key key then next else current ∷ drop_key key next

-- the chain less the first node that points at `p`
unfoldable pub drop_ptr : Ptr → List HashNode → List HashNode
drop_ptr p [] = []
drop_ptr p (current ∷ next) = if current.node == p then next else current ∷ drop_ptr p next

-- the loop `while (size < target_size && size < 65536) size <<= 1`
unfoldable pub grow : ℕ → ℕ → ℕ → ℕ
grow zero target_size size = size
grow (suc fuel) target_size size =
    let more = grow fuel target_size ((size * 2) % 2 ^ 64) in
    if ltb size target_size && ltb size 65536 then more else size

-- `estimated_elements / 0.75`, truncated, is `estimated_elements * 4 / 3` where the double is exact.
unfoldable pub calculate_hash_table_size : ℕ → ℕ
unfolding grow
calculate_hash_table_size max_bytes_capacity = grow 13 (max_bytes_capacity / 1024 * 4 / 3) 16

-- `cache_ok`, `mutex_ok` and `buckets_ok`: the allocations and the initialisation that may fail
unfoldable pub create : (cache_ok mutex_ok buckets_ok : Bool) → ℕ → Option LruCache
unfolding calculate_hash_table_size
create cache_ok mutex_ok buckets_ok max_bytes_capacity =
    if cache_ok && (mutex_ok && buckets_ok)
    then some (record {
      head = null;
      tail = null;
      buckets = λ _. [];
      max_bytes_capacity = max_bytes_capacity;
      current_bytes_size = 0;
      hash_table_size = calculate_hash_table_size max_bytes_capacity + 1;
      locked = false;
      nodes = λ _. none;
    })
    else none

-- what `lru_cache_get` does with the node that it found
unfoldable pub get_found : Bool → Option HashNode → Cmd (Status × Option Bytes)
get_found malloc_ok none = pure (not_found, none)
get_found malloc_ok (some current) = do
  n ← load current.node
  if malloc_ok
      then (do v ← copy_value n; move_to_head current.node; pure (success, some v))
      else pure (error, none)

unfoldable pub get : Bool → Bytes → Cmd (Status × Option Bytes)
get malloc_ok key = do
  cache ← get_cache
  chain ← read_bucket (hash_key key cache.hash_table_size)
  get_found malloc_ok (find key chain)

-- The last statements of `lru_cache_evict` and `lru_cache_remove_tail`: the counter, and the memory.
unfoldable pub release : Ptr → Cmd Status
release p = do
  n ← load p
  modify (λ c. record c { current_bytes_size = (c.current_bytes_size + 2 ^ 64 - n.size) % 2 ^ 64 })
  free_node p
  pure success

unfoldable pub evict_found : Bytes → ℕ → List HashNode → Option HashNode → Cmd Status
evict_found key index chain none = pure not_found
evict_found key index chain (some current) = do
  write_bucket index (drop_key key chain)
  unlink current.node
  release current.node

unfoldable pub evict : Bytes → Cmd Status
evict key = do
  cache ← get_cache
  let index = hash_key key cache.hash_table_size
  chain ← read_bucket index
  evict_found key index chain (find key chain)

-- The update of a key that is there. The old value is freed before the new one is allocated.
unfoldable pub put_update : Alloc → Bytes → Ptr → Cmd Status
put_update alloc value p = do
  n ← load p
  if alloc.value_ok
      then (do
        store p (some (record n { value = some value; size = length value }))
        modify (λ c. record c {
          current_bytes_size = (c.current_bytes_size + (length value + 2 ^ 64 - n.size)) % 2 ^ 64;
        })
        move_to_head p
        unlock
        pure success)
      else do store p (some (record n { value = none })); unlock; pure error

-- `create_node`: the address of the new node, or NULL
unfoldable pub create_node : Alloc → ℕ → Bytes → Bytes → Cmd Ptr
create_node alloc now key value =
    if alloc.fresh == null
    then pure null
    else if alloc.key_ok && alloc.value_ok
    then (do
      store alloc.fresh (
          some (record {
            key = key;
            value = some value;
            size = length value;
            creation_time = now;
            next = null;
            prev = null;
          }))
      pure alloc.fresh)
    else pure null

unfoldable pub put_insert : Alloc → ℕ → Bytes → Bytes → ℕ → List HashNode → Cmd Status
put_insert alloc now key value index chain = do
  p ← create_node alloc now key value
  if p == null
      then (do unlock; pure error)
      else if alloc.hash_node_ok && alloc.hash_key_ok
      then (do
        write_bucket index (record { key = key; node = p } ∷ chain)
        modify
            (λ c. record c { current_bytes_size = (c.current_bytes_size + length value) % 2 ^ 64 })
        add_to_head p
        unlock
        pure success)
      else do free_node p; unlock; pure error

unfoldable pub put_found :
    Alloc → ℕ → Bytes → Bytes → ℕ → List HashNode → Option HashNode → Cmd Status
put_found alloc now key value index chain none = put_insert alloc now key value index chain
put_found alloc now key value index chain (some current) = put_update alloc value current.node

unfoldable pub put : Alloc → ℕ → Bytes → Bytes → Cmd Status
put alloc now key value = do
  lock
  cache ← get_cache
  if leb cache.max_bytes_capacity ((cache.current_bytes_size + length value) % 2 ^ 64)
      then (do unlock; pure full)
      else do
        let index = hash_key key cache.hash_table_size
        chain ← read_bucket index
        put_found alloc now key value index chain (find key chain)

-- `lru_cache_get_tail_node`: NULL if there is none
unfoldable pub get_tail_node : Cmd Ptr
get_tail_node = do cache ← get_cache; if cache.tail == null then pure null else pure cache.tail

-- the part of `lru_cache_remove_tail` that takes the node off the list
unfoldable pub detach_tail : Ptr → Cmd (Unit {0})
detach_tail tail_node = do
  cache ← get_cache
  if cache.head == cache.tail
      then (do set_head null; set_tail null)
      else do n ← load tail_node; set_tail n.prev; set_next n.prev null

-- `lru_cache_remove_tail` behind the line that reads `tail_node`
unfoldable pub remove_tail_node : Ptr → Cmd Status
remove_tail_node tail_node = if tail_node == null then pure error else do
  detach_tail tail_node
  n ← load tail_node
  cache ← get_cache
  let index = hash_key n.key cache.hash_table_size
  chain ← read_bucket index
  write_bucket index (drop_ptr tail_node chain)
  release tail_node

unfoldable pub remove_tail : Cmd Status
remove_tail = do cache ← get_cache; remove_tail_node cache.tail
