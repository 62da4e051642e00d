-- ===== src/Tests/Lasting.antt =====
-- A run of the theorem about a value that survives calls on another key.
use podcache.Prelude.{
  ℕ, codes, Option, none, some, [], ◌≡◌, ◌≢◌, ◌⊎◌, refl, sym, ap, ◌∙◌, arith, get_elem?, str_eq,
  ◌<◌, ◌+◌,
}
use podcache.Prelude.Decimal.{print}
use podcache.Prelude.Int.{ℤ, pos}
use podcache.Hash.Djb2.{hash, hash_djb2, djb2_loop, hash_key}
use podcache.Hash.Sha256.{sha256_string, chunks, pad, hex, hex_digit, total_length, big_endian}
use podcache.Lru.State.{
  LruCache, LruNode, Status, null, load, set_next, set_prev, free_node, read_bucket, write_bucket,
  lock, unlock, copy_value,
}
use podcache.Lru.Ops.{
  put, put_found, put_insert, create_node, find, remove_tail, remove_tail_node, detach_tail,
  drop_ptr, release, get_tail_node,
}
use podcache.Lru.Links.{add_to_head}
use podcache.Lru.Put.{Grants}
use podcache.Cas.{
  cas_put, cas_create_directory, create_at, clear_entry, make_path, make_directories, make_last,
  put_files, put_time, directory, substring, cas_add_to_registry,
}
use podcache.Pod.{PodCache, get_partition, on_partition}
use podcache.Pod.Memory.{slot}
use podcache.Pod.Ops.{
  Env, pod_cache_get, pod_cache_put, put_answer, spill, spill_value, spilled, retry,
}
use podcache.Pod.Reach.{Supplied, here, next, puts}
use podcache.Pod.Lasting.{pod_cache_get-Reach}
use podcache.Tests.Disk.{Disk, disk, find_path}
use podcache.Tests.Disk.Laws.{disk-Posix, disk-Separate, disk-Flushes}
use podcache.Tests.Memory.{alloc_at, empty, key, value, some-inj}
use podcache.Tests.Partitions.{env}
use podcache.Tests.Numbers.{single}
use podcache.Tests.Store.{other_hash}
use podcache.Tests.Histories.{single_created}

-- what lies at an address of a partition, and there behind the removal of its tail
abbrev node_at : ℕ → Option LruCache → Option (Option LruNode)
node_at p none = none
node_at p (some c) = some (c.nodes p)

abbrev node_left : ℕ → Option (Status × LruCache) → Option (Option LruNode)
node_left p none = none
node_left p (some (s, d)) = some (d.nodes p)

abbrev tail_left : ℕ → Option LruCache → Option (Option LruNode)
tail_left p none = none
tail_left p (some c) = node_left p (remove_tail c)

abbrev env_at : ℕ → ℕ → Env
env_at p q = record env { put_alloc = alloc_at p; retry_alloc = alloc_at q }

unused-Grants : (p : ℕ) (c : LruCache) → p ≢ null → c.nodes p ≡ none → Grants (alloc_at p) c
unused-Grants p c h unused = record {
  nonnull = h;
  unused = unused;
  key_ok = refl;
  value_ok = refl;
  hash_node_ok = refl;
  hash_key_ok = refl;
}

node-Supplied :
    (p q : ℕ) (cache : PodCache) (i : ℕ)
    → p ≢ null
    → q ≢ null
    → node_at p (get_elem? cache.partitions i) ≡ some none
    → tail_left q (get_elem? cache.partitions i) ≡ some none
    → Supplied (env_at p q) cache i
node-Supplied p q cache i hp hq first second = record {
  put = λ c h. unused-Grants p c hp (some-inj (ap (node_at p) (sym h) ∙ first));
  retry = λ c d h cut.
      unused-Grants q d hq
        (some-inj (ap (node_left q) (sym cut) ∙ ap (tail_left q) (sym h) ∙ second));
}

-- the cache and the files behind a put
unfoldable cache_after : Option (ℤ × PodCache × Disk) → PodCache
cache_after none = single empty
cache_after (some (a, cache, files)) = cache

unfoldable files_after : Option (ℤ × PodCache × Disk) → Disk
files_after none = []
files_after (some (a, cache, files)) = files

unfoldable filled : PodCache
unfolding cache_after
filled = cache_after (pod_cache_put disk (env_at 1 2) key value (single empty) [])

filled_made : pod_cache_put disk (env_at 1 2) key value (single empty) [] ≡ some (pos 0, filled, [])
unfolding filled cache_after pod_cache_put put_answer on_partition get_partition put put_found
    put_insert create_node find lock unlock read_bucket write_bucket add_to_head load set_next
    set_prev hash_key hash hash_djb2 djb2_loop
filled_made = refl

abbrev second : Option (ℤ × PodCache × Disk)
second = pod_cache_put disk (env_at 2 3) (codes "c") (codes "98765") filled []

unfoldable moved : PodCache
unfolding cache_after
moved = cache_after second

unfoldable moved_files : Disk
unfolding files_after
moved_files = files_after second

moved_made : second ≡ some (pos 0, moved, moved_files)
unfolding moved moved_files files_after filled cache_after pod_cache_put put_answer spill
    spill_value spilled retry get_tail_node copy_value on_partition get_partition put put_found
    put_insert create_node find lock unlock read_bucket write_bucket add_to_head load set_next
    set_prev hash_key hash hash_djb2 djb2_loop remove_tail remove_tail_node detach_tail drop_ptr
    release free_node cas_add_to_registry cas_put cas_create_directory create_at clear_entry
    make_path make_directories make_last put_files put_time directory substring sha256_string chunks
    pad hex hex_digit total_length big_endian print find_path str_eq
moved_made = refl

nonzero : (p : ℕ) → 0 < p → p ≢ null
nonzero p h e = omega arith

empty-Supplied : Supplied (env_at 1 2) (single empty) (slot disk (env_at 1 2) (single empty) key [])
unfolding get_partition hash hash_djb2 djb2_loop remove_tail remove_tail_node
empty-Supplied =
    node-Supplied 1 2 (single empty) _ (nonzero 1 (omega arith)) (nonzero 2 (omega arith)) refl refl

filled-Supplied : Supplied (env_at 2 3) filled (slot disk (env_at 2 3) filled (codes "c") [])
unfolding filled cache_after pod_cache_put put_answer on_partition get_partition put put_found
    put_insert create_node find lock unlock read_bucket write_bucket add_to_head load set_next
    set_prev hash_key hash hash_djb2 djb2_loop remove_tail remove_tail_node detach_tail drop_ptr
    release free_node
filled-Supplied =
    node-Supplied 2 3 filled _ (nonzero 2 (omega arith)) (nonzero 3 (omega arith)) refl refl

moved-Supplied : Supplied (env_at 4 5) moved (slot disk (env_at 4 5) moved key moved_files)
unfolding moved filled cache_after pod_cache_put put_answer spill spill_value spilled retry
    get_tail_node copy_value on_partition get_partition put put_found put_insert create_node find
    lock unlock read_bucket write_bucket add_to_head load set_next set_prev hash_key hash hash_djb2
    djb2_loop remove_tail remove_tail_node detach_tail drop_ptr release free_node
    cas_add_to_registry cas_put cas_create_directory create_at clear_entry make_path
    make_directories make_last put_files put_time directory substring sha256_string chunks pad hex
    hex_digit total_length big_endian print find_path str_eq
moved-Supplied =
    node-Supplied 4 5 moved _ (nonzero 4 (omega arith)) (nonzero 5 (omega arith)) refl refl

room :
    (c : LruCache)
    → get_elem? (single empty).partitions (slot disk (env_at 1 2) (single empty) key []) ≡ some c
    → c.current_bytes_size + 8 < 10
unfolding get_partition hash hash_djb2 djb2_loop
room c h =
    let size : 0 ≡ c.current_bytes_size =
      ap (λ (d : LruCache). d.current_bytes_size) (some-inj h) in
    omega (arith, size)

capacity_filled : filled.partition_capacity ≡ 10
unfolding filled cache_after pod_cache_put put_answer on_partition get_partition put put_found
    put_insert create_node find lock unlock read_bucket write_bucket add_to_head load set_next
    set_prev hash_key hash hash_djb2 djb2_loop
capacity_filled = refl

capacity_moved : moved.partition_capacity ≡ 10
unfolding moved filled cache_after pod_cache_put put_answer spill spill_value spilled retry
    get_tail_node copy_value on_partition get_partition put put_found put_insert create_node find
    lock unlock read_bucket write_bucket add_to_head load set_next set_prev hash_key hash hash_djb2
    djb2_loop remove_tail remove_tail_node detach_tail drop_ptr release free_node
    cas_add_to_registry cas_put cas_create_directory create_at clear_entry make_path
    make_directories make_last put_files put_time directory substring sha256_string chunks pad hex
    hex_digit total_length big_endian print find_path str_eq
capacity_moved = refl

pod_cache_get-Reach_example :
    (x : ℤ) × (last : PodCache) × (end : Disk) × (pod_cache_get disk
        (env_at 4 5)
        key
        moved
        moved_files
      ≡ some ((x, some value), last, end))
    × ((x ≡ pos (slot disk (env_at 4 5) moved key moved_files)) ⊎ (x ≡ pos 0))
pod_cache_get-Reach_example =
    pod_cache_get-Reach disk disk-Posix disk-Separate disk-Flushes 0 10 (codes "./cas") key value
      (env_at 1 2) (env_at 4 5) (omega arith) single_created here empty-Supplied (omega arith) room
      filled_made
      (next (env_at 2 3) (codes "c") (refl, other_hash) here
        (puts (codes "98765") filled-Supplied (omega (arith, capacity_filled)) moved_made))
      refl refl moved-Supplied (omega (arith, capacity_moved))
