-- ===== src/Pod/Create.antt =====
-- `pod_cache_create` of src/pod_cache.c.
use podcache.Prelude.{
  ℕ, zero, suc, ◌+◌, ◌*◌, ◌/◌, ◌<◌, ◌≤◌, ◌^◌, ◌≡◌, refl, sym, ap, ◌∙◌, arith, Bytes, Bool, true,
  some, List, [], ◌∷◌, ◌++◌, length, length-append, get_elem?, Bool-cases, inl, inr, ltb, ltb→lt,
}
use podcache.Lru.State.{LruCache}
use podcache.Lru.Create.{create-Represents}
use podcache.Cas.{cas_create_registry}
use podcache.Pod.{PodCache, create_partitions, pod_cache_create}
use podcache.Cas.Registry.{IsWide}
use podcache.Pod.Partitions.{Holds}
use podcache.Pod.Invariant.{IsPod}
use native.Mathlib.Nat.{div-mul-le_self, lt-div-mul-add}

get_elem?-append :
    (cs : List LruCache) (c : LruCache) (i : ℕ)
    → i < length cs
    → get_elem? (cs ++ c ∷ []) i ≡ get_elem? cs i
get_elem?-append [] c i h = absurd (omega arith)
get_elem?-append (d ∷ cs) c zero h = refl
get_elem?-append (d ∷ cs) c (suc i) h = get_elem?-append cs c i (omega arith)

get_elem?-last : (cs : List LruCache) (c : LruCache) → get_elem? (cs ++ c ∷ []) (length cs) ≡ some c
get_elem?-last [] c = refl
get_elem?-last (d ∷ cs) c = get_elem?-last cs c

-- Every allocation for a partition succeeds.
abbrev pub all_made : ℕ → Bool × Bool × Bool
all_made i = (true, true, true)

module _ (capacity : ℕ) (small : capacity < 2 ^ 64) where
  abbrev fresh : LruCache
  fresh = (create-Represents capacity small).0

  create_partitions-all :
      (n : ℕ)
      → (cs : List LruCache) × (create_partitions all_made capacity n ≡ some cs)
        × (length cs ≡ n)
        × ((i : ℕ) → i < n → get_elem? cs i ≡ some fresh)
  unfolding create_partitions
  create_partitions-all zero = ([], refl, refl, λ i h. absurd (omega arith))
  create_partitions-all (suc n) =
      let (cs, run, size, each) = create_partitions-all n in
      let (_, made, _, _) = create-Represents capacity small in
      (
        cs ++ fresh ∷ [],
        rw (run, made) refl,
        omega (arith, length-append {0} cs (fresh ∷ [])),
        λ i h. elim (Bool-cases (ltb i n)) [
          | inl below ↦
              let b = ltb→lt i n below in get_elem?-append cs fresh i (omega arith) ∙ each i b
          | inr other ↦
              let last : length cs ≡ i = ground arith in
              ap (get_elem? (cs ++ fresh ∷ [])) (sym last) ∙ get_elem?-last cs fresh
        ],
      )

-- If every allocation succeeds, `pod_cache_create` of at least one partition and a capacity below 2 ^ 64
-- returns a cache in which each partition is valid and empty. All have the same capacity, and these add
-- up to the capacity but for less than one byte per partition; and the registry's array has place for
-- its capacity, above the number of entries.
pub pod_cache_create-IsPod :
    (base_path : Bytes) (capacity n : ℕ)
    → capacity < 2 ^ 64
    → (cache : PodCache) × (pod_cache_create true true true true all_made base_path capacity (suc n)
        ≡ some (some cache))
      × IsPod cache
      × (cache.partition_count ≡ suc n)
      × (cache.partition_capacity * suc n ≤ capacity)
      × (capacity < cache.partition_capacity * suc n + suc n)
      × IsWide cache.cas_registry
      × ((i : ℕ) → i < suc n → Holds cache i [])
unfolding pod_cache_create cas_create_registry
pod_cache_create-IsPod base_path capacity n small =
    let share = capacity / suc n in
    let fits : share < 2 ^ 64 = omega arith in
    let (cs, run, size, each) = create_partitions-all share fits (suc n) in
    let (c, made, r, cap) = create-Represents share fits in
    let cache : PodCache = record {
      total_capacity = capacity;
      partition_capacity = share;
      partition_count = suc n;
      partitions = cs;
      cas_registry = record {
        base_path = base_path;
        entries = [];
        capacity = 100;
        allocated = 100;
      };
    } in
    let holds : (i : ℕ) → i < suc n → Holds cache i [] = λ i h. record {
      partition = fresh share fits;
      there = each i h;
      represents = r;
      capacity = cap;
    } in
    (
      cache,
      rw run refl,
      record { slots = omega arith; each = λ i h. ([], holds i h, tt) },
      refl,
      div-mul-le_self capacity (suc n),
      lt-div-mul-add (omega arith),
      (omega arith, omega arith),
      holds,
    )
