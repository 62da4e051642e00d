-- ===== src/Tests/Partitions.antt =====
-- Runs of the theorems about the partitioned cache.
use podcache.Prelude.{
  ℕ, codes, true, Option, none, some, [], ◌∷◌, ◌≡◌, refl, ap, sym, subst, ◌∙◌, arith, str_eq_refl,
}
use podcache.Prelude.Int.{pos}
use podcache.Hash.Djb2.{hash, hash_djb2, djb2_loop, hash_key}
use podcache.Lru.State.{
  LruCache, Status, success, load, set_next, set_prev, free_node, read_bucket, write_bucket, lock,
  unlock,
}
use podcache.Lru.Ops.{
  put, put_found, put_insert, create_node, find, remove_tail, remove_tail_node, detach_tail,
  drop_ptr, release,
}
use podcache.Lru.Links.{add_to_head}
use podcache.Lru.Spec.{lookup, insert, total, drop_last, last_entry}
use podcache.Lru.Invariant.{Represents}
use podcache.Lru.Put.{Grants}
use podcache.Cas.Stored.{granted}
use podcache.Pod.{PodCache, get_partition}
use podcache.Pod.Ops.{Env, pod_cache_put}
use podcache.Pod.Partitions.{Holds, Works}
use podcache.Pod.Memory.{pod_cache_put-room}
use podcache.Pod.Spill.{pod_cache_put-spill}
use podcache.Tests.Store.{put_a, stored, path}
use podcache.Tests.Memory.{
  some-inj, empty, empty-Represents, alloc_at, alloc_at-Grants, key, value, entries, served, one,
  one-Represents, one_capacity,
}
use podcache.Tests.Disk.{disk}

abbrev pub env : Env
env = record {
  put_alloc = alloc_at 1;
  retry_alloc = alloc_at 2;
  get_ok = true;
  cas_alloc = granted;
  realloc_ok = true;
  malloc_ok = true;
  now = 7;
}

-- two partitions of which the first, where the key belongs, is given
abbrev pub two : LruCache → PodCache
two c = record {
  total_capacity = 20;
  partition_capacity = 10;
  partition_count = 2;
  partitions = c ∷ empty ∷ [];
  cas_registry = record {
    base_path = codes "./cas";
    entries = [];
    capacity = 100;
    allocated = 100;
  };
}

abbrev slot : ℕ
slot = get_partition (hash key) 2

slot_zero : slot ≡ 0
unfolding get_partition hash hash_djb2 djb2_loop
slot_zero = refl

two-Holds :
    (c : LruCache) → Represents c entries → c.max_bytes_capacity ≡ 10 → Holds (two c) slot entries
two-Holds c r e =
    subst (λ i. Holds (two c) i entries) (sym slot_zero)
      (record { partition = c; there = refl; represents = r; capacity = e })

one-Holds : Holds (two one) slot entries
one-Holds = two-Holds one one-Represents one_capacity

lookup_key : lookup key entries ≡ some value
unfolding lookup
lookup_key = rw (str_eq_refl key) refl

empty-Holds : Holds (two empty) slot []
empty-Holds =
    subst (λ i. Holds (two empty) i []) (sym slot_zero)
      (record { partition = empty; there = refl; represents = empty-Represents; capacity = refl })

empty_partition : empty-Holds.partition ≡ empty
unfolding empty-Holds
empty_partition = refl

pod_cache_put-room_example :
    Works
      (two empty)
      slot
      (pod_cache_put disk env key value (two empty) [])
      (pos slot)
      (insert key value [])
      []
unfolding total
pod_cache_put-room_example =
    pod_cache_put-room disk env (two empty) key [] value empty-Holds
      (subst (Grants (alloc_at 1)) (sym empty_partition) (alloc_at-Grants 1 (λ e. omega arith)))
      (omega arith) (omega arith)

-- the cache with the entry, computed
unfoldable pub cache_of : Option (Status × LruCache) → LruCache
cache_of none = empty
cache_of (some (s, c)) = c

unfoldable pub filled : LruCache
unfolding cache_of put put_found put_insert create_node find lock unlock read_bucket write_bucket
    add_to_head load set_next set_prev hash_key
filled = cache_of (put (alloc_at 1) 5 key value empty)

pub filled-put : put (alloc_at 1) 5 key value empty ≡ some (success, filled)
unfolding filled cache_of put put_found put_insert create_node find lock unlock read_bucket
    write_bucket add_to_head load set_next set_prev hash_key hash hash_djb2 djb2_loop
filled-put = refl

-- The caches behind two equal outcomes are equal.
pub outcome : {x y : Status × LruCache} → some x ≡ some y → x.1 ≡ y.1
outcome h = ap (λ (r : Status × LruCache). r.1) (some-inj h)

pub filled-Represents : Represents filled entries
filled-Represents =
    subst (λ c. Represents c entries) (outcome (sym served.runs ∙ filled-put)) one-Represents

unfoldable emptied : LruCache
unfolding cache_of remove_tail
emptied = cache_of (remove_tail filled)

emptied-made : remove_tail filled ≡ some (success, emptied)
unfolding emptied filled cache_of put put_found put_insert create_node find lock unlock read_bucket
    write_bucket add_to_head load set_next set_prev hash_key hash hash_djb2 djb2_loop remove_tail
    remove_tail_node detach_tail drop_ptr release free_node
emptied-made = refl

emptied-nodes : emptied.nodes 2 ≡ none
unfolding emptied filled cache_of put put_found put_insert create_node find lock unlock read_bucket
    write_bucket add_to_head load set_next set_prev hash_key hash hash_djb2 djb2_loop remove_tail
    remove_tail_node detach_tail drop_ptr release free_node
emptied-nodes = refl

pub retry-Grants : (c : LruCache) → remove_tail filled ≡ some (success, c) → Grants (alloc_at 2) c
retry-Grants c h = record {
  nonnull = λ e. omega arith;
  unused = ap (λ (d : LruCache). d.nodes 2) (outcome (sym h ∙ emptied-made)) ∙ emptied-nodes;
  key_ok = refl;
  value_ok = refl;
  hash_node_ok = refl;
  hash_key_ok = refl;
}

pub filled-Holds : Holds (two filled) 0 entries
filled-Holds = record {
  partition = filled;
  there = refl;
  represents = filled-Represents;
  capacity =
      ap (λ (c : LruCache). c.max_bytes_capacity) (outcome (sym filled-put ∙ served.runs))
      ∙ one_capacity;
}

pub filled_partition : filled-Holds.partition ≡ filled
unfolding filled-Holds
filled_partition = refl

pod_cache_put-spill_example :
    Works
      (two filled)
      0
      (pod_cache_put disk env (codes "c") (codes "98765") (two filled) [])
      (pos 0)
      (insert (codes "c") (codes "98765") (drop_last entries))
      stored
unfolding total drop_last last_entry get_partition hash hash_djb2 djb2_loop filled-Holds
pod_cache_put-spill_example =
    pod_cache_put-spill disk env 0 (codes "c") (codes "98765") (two filled) [] stored path refl
      filled-Holds refl (omega arith, omega arith) put_a retry-Grants (omega arith) (omega arith)
      (omega arith)
