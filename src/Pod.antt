-- ===== src/Pod.antt =====
-- src/pod_cache.c: partitions of LRU caches over the store on disk.
pub mod Ops
pub mod Partitions
pub mod Memory
pub mod Spill
pub mod Invariant
pub mod Create
pub mod Each
pub mod Reach
pub mod Survives
pub mod Promote
pub mod Return
pub mod Lost
pub mod Lasting
pub mod Stale
pub mod Destroy
use podcache.Prelude.{
  ℕ, zero, suc, ◌+◌, ◌/◌, ◌%◌, Bytes, Bool, true, false, Option, none, some, List, [], ◌∷◌, ◌++◌,
  ltb, ◌==◌, if◌then◌else◌, length, get_elem?, replicate,
}
use podcache.Prelude.Int.{ℤ, pos, negsuc}
use podcache.Hash.Djb2.{hash}
use podcache.Lru.State.{
  LruCache, LruNode, Status, success, error, not_found, full, Cmd, load, copy_value, null,
}
use podcache.Lru.Ops.{create, get, evict, put, get_tail_node, remove_tail}
use podcache.Cas.{
  CasRegistry, CasStatus, cas_create_registry, cas_put, cas_get, cas_evict, cas_add_to_registry,
}
use podcache.Cas.Files.{FileSystem}

-- `pod_cache_t`; `partition_count` is a `u_short`
pub record PodCache : Type 0 where
  pub total_capacity : ℕ
  pub partition_capacity : ℕ
  pub partition_count : ℕ
  pub partitions : List LruCache
  pub cas_registry : CasRegistry

-- a program over the cache and the files; `none` is a fault
abbrev pub Pod : Type 0 → Type 0 → Type 0
Pod F A = PodCache → F → Option (A × PodCache × F)

module _ {F : Type 0} where
  abbrev pub pure : {A : Type 0} → A → Pod F A
  pure a cache files = some (a, cache, files)

  abbrev pub fault : {A : Type 0} → Pod F A
  fault cache files = none

  module _ {A B : Type 0} where
    abbrev pub and_then : Option (A × PodCache × F) → (A → Pod F B) → Option (B × PodCache × F)
    and_then none k = none
    and_then (some (a, cache, files)) k = k a cache files

    infixl 5 ◌>>=◌ ◌>>◌
    abbrev pub ◌>>=◌ : Pod F A → (A → Pod F B) → Pod F B
    m >>= k = λ cache files. and_then (m cache files) k

    abbrev pub ◌>>◌ : Pod F A → Pod F B → Pod F B
    m >> n = m >>= λ _. n

abbrev pub set : ℕ → LruCache → List LruCache → List LruCache
set i c [] = []
set zero c (d ∷ ds) = c ∷ ds
set (suc i) c (d ∷ ds) = d ∷ set i c ds

-- an operation on one partition
module _ {F A : Type 0} where
  abbrev pub returned : ℕ → Option (A × LruCache) → Pod F A
  returned i none = fault
  returned i (some (a, c)) =
      λ cache. pure a (record cache { partitions = set i c cache.partitions })

  abbrev pub run_at : ℕ → Cmd A → Option LruCache → Pod F A
  run_at i m none = fault
  run_at i m (some c) = returned i (m c)

  unfoldable pub on_partition : ℕ → Cmd A → Pod F A
  on_partition i m = λ cache. run_at i m (get_elem? cache.partitions i) cache

unfoldable pub get_partition : ℕ → ℕ → ℕ
get_partition hash partition_count = hash % partition_count

-- The loop over the partitions: `none` if one is not created. `made` says which allocations succeed.
unfoldable pub create_partitions : (ℕ → Bool × Bool × Bool) → ℕ → ℕ → Option (List LruCache)
create_partitions made capacity zero = some []
create_partitions made capacity (suc n) = elim (create_partitions made capacity n) [
  | none ↦ none
  | some cs ↦ elim (create (made n).0 (made n).1 (made n).2 capacity) [
    | none ↦ none
    | some c ↦ some (cs ++ c ∷ [])
  ]
]

-- A division by no partitions is a fault: `none`. NULL is `some none`.
unfoldable pub pod_cache_create :
    (pod_ok registry_ok entries_ok array_ok : Bool)
    → (ℕ → Bool × Bool × Bool)
    → Bytes
    → ℕ
    → ℕ
    → Option (Option PodCache)
pod_cache_create pod_ok registry_ok entries_ok array_ok made base_path capacity zero =
    if pod_ok then none else some none
pod_cache_create pod_ok registry_ok entries_ok array_ok made base_path capacity (suc n) =
    if pod_ok
    then elim (cas_create_registry registry_ok entries_ok base_path) [
      | none ↦ some none
      | some registry ↦
          if array_ok
          then elim (create_partitions made (capacity / suc n) (suc n)) [
            | none ↦ some none
            | some cs ↦ some (
                some (record {
                  total_capacity = capacity;
                  partition_capacity = capacity / suc n;
                  partition_count = suc n;
                  partitions = cs;
                  cas_registry = registry;
                }))
          ]
          else some none
    ]
    else some none
