-- ===== src/Lru/Put/Refines.antt =====
-- `lru_cache_put` against the specification: the whole function.
use podcache.Prelude.{
  ℕ, ◌+◌, ◌^◌, ◌≤◌, ◌<◌, ◌≡◌, refl, subst, ap, ◌∙◌, Bytes, Bool, false, some, List, arith, ltb,
  length, if◌then◌else◌, Bool-cases, inl, inr, ltb→lt, Option-cases,
}
use podcache.Lru.State.{LruCache, success, full}
use podcache.Lru.Layout.{Cell}
use podcache.Lru.Ops.{Alloc, put}
use podcache.Lru.Spec.{Entries, insert, total}
use podcache.Lru.Invariant.{IsCache, Represents, Serves, view, cell_of}
use podcache.Lru.Put.Parts.{Grants}
use podcache.Lru.Put.Branches.{put_full, put_new, put_old}

module _ (c : LruCache) (alloc : Alloc) (now : ℕ) (k v : Bytes) where
  abbrev has_room : Entries → Bool
  has_room es = ltb (total es + length v) c.max_bytes_capacity

  put_cells :
      (xs : List Cell)
      → IsCache c xs
      → Grants alloc c
      → c.max_bytes_capacity + length v < 2 ^ 64
      → Serves c
          (put alloc now k v c)
          (if has_room (view xs) then success else full)
          (if has_room (view xs) then insert k v (view xs) else view xs)
  put_cells xs valid g word = elim (Bool-cases (has_room (view xs))) [
    | inl yes_room ↦ rw yes_room (elim (Option-cases (cell_of k xs)) [
      | inl absent ↦ put_new c alloc now k v xs valid g absent (ltb→lt _ _ yes_room)
      | inr (x, present) ↦ put_old c alloc now k v xs x valid g present (ltb→lt _ _ yes_room)
    ])
    | inr no_room ↦ rw no_room (record {
      final = c;
      runs =
          put_full c alloc now k v valid.unlocked
            (omega (arith, valid.accounted, valid.bounded, not_room no_room));
      represents = record { cells = xs; valid = valid; shows = refl };
      capacity = refl;
    })
  ]
    where
      not_room : has_room (view xs) ≡ false → c.max_bytes_capacity ≤ total (view xs) + length v
      not_room h = ground arith

-- `lru_cache_put` on a valid cache, with memory, while no sum wraps around. If the sizes of all
-- entries and of the new value stay below the capacity, the entry is the most recently used one
-- afterwards, and an older one of its key is gone. If not, also for a key that is there, it returns
-- -900 and changes nothing. Either way the cache is valid and its mutex is free.
pub put-refines :
    (alloc : Alloc) (now : ℕ) (k v : Bytes) (c : LruCache) {es : Entries}
    → Represents c es
    → Grants alloc c
    → c.max_bytes_capacity + length v < 2 ^ 64
    → Serves c
        (put alloc now k v c)
        (if ltb (total es + length v) c.max_bytes_capacity then success else full)
        (if ltb (total es + length v) c.max_bytes_capacity then insert k v es else es)
put-refines alloc now k v c r g word =
    subst
      (λ es.
        Serves c (put alloc now k v c)
          (if ltb (total es + length v) c.max_bytes_capacity then success else full)
          (if ltb (total es + length v) c.max_bytes_capacity then insert k v es else es))
      r.shows (put_cells c alloc now k v r.cells r.valid g word)

-- `lru_cache_put` on a valid cache, while no sum wraps around, if the sizes of all entries and of the
-- new value reach the capacity: it returns -900 and leaves the cache exactly as it was, whatever the
-- allocations.
pub put_no_room :
    (alloc : Alloc) (now : ℕ) (k v : Bytes) (c : LruCache) {es : Entries}
    → Represents c es
    → c.max_bytes_capacity + length v < 2 ^ 64
    → c.max_bytes_capacity ≤ total es + length v
    → put alloc now k v c ≡ some (full, c)
put_no_room alloc now k v c {es} r word tight =
    let valid = r.valid in
    let size = valid.accounted ∙ ap total r.shows in
    let bounded = valid.bounded in
    let same = ap total r.shows in put_full c alloc now k v valid.unlocked (omega arith)
