-- ===== src/Server/Start.antt =====
-- The cache that the server in src/server_tcp.c starts with.
use podcache.Prelude.{
  ℕ, zero, suc, true, ◌*◌, ◌<◌, ◌≤◌, ◌^◌, ◌≡◌, refl, ap, ◌∙◌, arith, Bytes, Option, none, some,
  le→leb, lt→leb,
}
use podcache.Pod.{PodCache, pod_cache_create}
use podcache.Pod.Create.{pod_cache_create-IsPod, all_made}
use podcache.Pod.Invariant.{IsPod}
use podcache.Server.{Creation, get_env_int, mb_to_bytes, create_sized, initialize_cache}
use podcache.Server.Config.{get_env_int_bounds}

-- Every allocation is granted.
abbrev pub all_granted : Bytes → Creation
all_granted base_path = record {
  pod_ok = true;
  registry_ok = true;
  entries_ok = true;
  array_ok = true;
  made = all_made;
  base_path = base_path;
}

-- What the start does with a size in megabytes: below 2048 the cache is there.
created :
    (base_path : Bytes) (mb partitions : ℕ)
    → mb < 2048
    → 0 < partitions
    → (cache : PodCache) × (mb_to_bytes mb ≡ some (mb * 1024 * 1024))
      × (pod_cache_create true true true true all_made base_path (mb * 1024 * 1024) partitions
          ≡ some (some cache))
      × IsPod cache
      × (cache.partition_count ≡ partitions)
unfolding mb_to_bytes
created base_path mb zero small some_part = absurd (omega arith)
created base_path mb (suc n) small some_part =
    let (cache, made, valid, count, _, _, _, _) =
      pod_cache_create-IsPod base_path (mb * 1024 * 1024) n (omega arith) in
    (cache, rw (lt→leb (2 ^ 31) (mb * 1024 * 1024) (omega arith)) refl, made, valid, count)

-- With a size below 2048 MB in the configuration, and every allocation granted, `initialize_cache`
-- returns a valid cache with the configured number of partitions.
pub initialize_cache-IsPod :
    (base_path : Bytes) (size partitions : Option Bytes)
    → get_env_int size 100 1 4096 < 2048
    → (cache : PodCache) × (initialize_cache (all_granted base_path) size partitions
        ≡ some (some cache))
      × IsPod cache
      × (cache.partition_count ≡ get_env_int partitions 1 1 64)
unfolding initialize_cache create_sized
initialize_cache-IsPod base_path size partitions small =
    let (low, _) = get_env_int_bounds partitions 1 1 64 (omega arith) (omega arith) in
    let (cache, bytes, made, valid, count) =
      created base_path (get_env_int size 100 1 4096) (get_env_int partitions 1 1 64) small
        (omega arith) in
    (
      cache,
      ap (create_sized (all_granted base_path) (get_env_int partitions 1 1 64)) bytes ∙ made,
      valid,
      count,
    )

mb_to_bytes_large : (mb : ℕ) → 2048 ≤ mb → mb_to_bytes mb ≡ none
unfolding mb_to_bytes
mb_to_bytes_large mb large = rw (le→leb (2 ^ 31) (mb * 1024 * 1024) (omega arith)) refl

-- From 2048 MB on, which the configuration takes up to 4096, the size in bytes does not fit an `int`,
-- and `initialize_cache` is undefined, whatever the allocations.
pub initialize_cache_overflow :
    (env : Creation) (size partitions : Option Bytes)
    → 2048 ≤ get_env_int size 100 1 4096
    → initialize_cache env size partitions ≡ none
unfolding initialize_cache create_sized
initialize_cache_overflow env size partitions large =
    ap (create_sized env (get_env_int partitions 1 1 64))
      (mb_to_bytes_large (get_env_int size 100 1 4096) large)
