-- ===== src/Lru/Create.antt =====
-- `lru_cache_create`, and the loop that chooses the size of the table.
use podcache.Prelude.{
  ℕ, ◌+◌, ◌*◌, ◌/◌, ◌%◌, ◌^◌, ◌≤◌, ◌<◌, ◌≡◌, ◌⊎◌, refl, true, false, none, some, [], arith,
}
use podcache.Lru.State.{LruCache, null}
use podcache.Lru.Ops.{grow, calculate_hash_table_size, create, find}
use podcache.Lru.Layout.{layout}
use podcache.Lru.Spec.{total}
use podcache.Lru.Invariant.{Represents, cell_of}
use mathlib.Core.Path.{fun_ext}

-- the number of entries that the table is made for
abbrev pub target_size : ℕ → ℕ
target_size capacity = capacity / 1024 * 4 / 3

grow_bounds :
    (target : ℕ)
    → (16 ≤ grow 13 target 16)
      × (grow 13 target 16 ≤ 65536)
      × (65536 % grow 13 target 16 ≡ 0)
      × ((target ≤ grow 13 target 16) ⊎ (grow 13 target 16 ≡ 65536))
      × ((grow 13 target 16 ≡ 16) ⊎ (grow 13 target 16 < 2 * target))
unfolding grow
grow_bounds target = ground arith

-- `calculate_hash_table_size` is the least power of two from 16 on that reaches the target, but at
-- most 65536: it lies between these, divides 65536, reaches the target or is 65536, and is 16 or its
-- half misses the target. The fuel of the loop is enough.
pub calculate_hash_table_size_bounds :
    (capacity : ℕ)
    → let size = calculate_hash_table_size capacity in
      (16 ≤ size)
      × (size ≤ 65536)
      × (65536 % size ≡ 0)
      × ((target_size capacity ≤ size) ⊎ (size ≡ 65536))
      × ((size ≡ 16) ⊎ (size < 2 * target_size capacity))
unfolding calculate_hash_table_size
calculate_hash_table_size_bounds capacity = grow_bounds (target_size capacity)

-- If its allocations and the mutex succeed, `lru_cache_create` of a capacity below 2 ^ 64
-- returns a valid empty cache of that capacity.
pub create-Represents :
    (capacity : ℕ)
    → capacity < 2 ^ 64
    → (c : LruCache) × (create true true true capacity ≡ some c)
      × Represents c []
      × (c.max_bytes_capacity ≡ capacity)
unfolding create find total cell_of layout
create-Represents capacity h =
    let c : LruCache = record {
      head = null;
      tail = null;
      buckets = λ _. [];
      max_bytes_capacity = capacity;
      current_bytes_size = 0;
      hash_table_size = calculate_hash_table_size capacity + 1;
      locked = false;
      nodes = λ _. none;
    } in
    (
      c,
      refl,
      record {
        cells = [];
        valid = record {
          memory = λ i. record c {
            nodes = fun_ext {f = c.nodes} {g = layout null [] null} (λ a. refl) i;
          };
          distinct = tt;
          table = record { chains = λ i. tt; complete = λ k. refl };
          accounted = refl;
          bounded = omega arith;
          word = h;
          slots = omega arith;
          unlocked = refl;
        };
        shows = refl;
      },
      refl,
    )
