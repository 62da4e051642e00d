-- ===== src/Lru/Put/Parts.antt =====
-- `lru_cache_put` against the specification.
use mathlib.Core.Path.{fun_ext}
use podcache.Prelude.{
  ℕ, ◌+◌, ◌-◌, ◌%◌, ◌^◌, ◌≤◌, ◌<◌, ◌≡◌, ◌≢◌, refl, ap, ◌∙◌, Bytes, true, false, none, some, List,
  [], ◌∷◌, ◌++◌, arith, ne→==, length,
}
use podcache.Lru.State.{Ptr, null, LruCache, success, write, unlock, pure, and_then, ◌>>◌}
use podcache.Lru.Layout.{
  Cell, linked, loose, first, last, layout, layout-append, layout-none, Distinct, Distinct-middle,
  cell_node, has_key, has-append, has_key-append,
}
use podcache.Lru.Links.Head.{add_to_head-linked}
use podcache.Lru.Links.Move.{move_to_head-front}
use podcache.Lru.Links.{move_to_head}
use podcache.Lru.Table.{replace}
use podcache.Lru.Ops.{Alloc, put_update, put_insert, create_node}
use podcache.Hash.Djb2.{hash_key}
use podcache.Lru.Spec.{total}
use podcache.Lru.Invariant.{IsCache, view, index, cell_of, total-middle}
use podcache.Lru.Steps.{write_bucket-some, load_cell, IsCache-front, Holds-same}

-- Every allocation succeeds, and the new node lies at an address that is in no use.
pub record Grants (alloc : Alloc) (c : LruCache) : Type 0 where
  pub nonnull : alloc.fresh ≢ null
  pub unused : c.nodes alloc.fresh ≡ none
  pub key_ok : alloc.key_ok ≡ true
  pub value_ok : alloc.value_ok ≡ true
  pub hash_node_ok : alloc.hash_node_ok ≡ true
  pub hash_key_ok : alloc.hash_key_ok ≡ true

module _ (c : LruCache) (v : Bytes) where
  abbrev pub updated : Cell → Cell
  updated x = record x { value = v }

  -- writing a new value into the node of an entry
  layout_update :
      (x : Cell) (xs ys : List Cell)
      → Distinct (xs ++ x ∷ ys)
      → (a : Ptr)
      → write
          (layout null (xs ++ x ∷ ys) null)
          x.ptr
          (some (cell_node (updated x) (last null xs) (first ys null)))
          a
        ≡ layout null (xs ++ updated x ∷ ys) null a
  unfolding layout
  layout_update x xs ys d a =
      let (_, before, behind, _, _, _) = Distinct-middle xs x ys d in
      ground (
        arith,
        layout-append null xs (x ∷ ys) null a,
        layout-append null xs (updated x ∷ ys) null a,
        layout-none null xs x.ptr a,
      )

  Distinct-updated :
      (x : Cell) (xs ys : List Cell) → Distinct (xs ++ x ∷ ys) → Distinct (xs ++ updated x ∷ ys)
  unfolding has_key
  Distinct-updated x [] ys d = d
  Distinct-updated x (y ∷ xs) ys (nonnull, ptr, key, d) = (
    nonnull,
    ground (arith, has-append y.ptr xs (x ∷ ys), has-append y.ptr xs (updated x ∷ ys)),
    ground (arith, has_key-append y.key xs (x ∷ ys), has_key-append y.key xs (updated x ∷ ys)),
    Distinct-updated x xs ys d,
  )

  first-updated :
      (x : Cell) (xs ys : List Cell) → first (xs ++ x ∷ ys) null ≡ first (xs ++ updated x ∷ ys) null
  first-updated x [] ys = refl
  first-updated x (y ∷ xs) ys = refl

  last-updated :
      (x : Cell) (p : Ptr) (xs ys : List Cell)
      → last p (xs ++ x ∷ ys) ≡ last p (xs ++ updated x ∷ ys)
  last-updated x p [] ys = refl
  last-updated x p (y ∷ xs) ys = last-updated x y.ptr xs ys

  -- the cache after the new value is stored
  stored :
      (x : Cell) (xs ys : List Cell)
      → Distinct (xs ++ x ∷ ys)
      → ◌≡◌ {A = LruCache}
          (record (linked c (xs ++ x ∷ ys)) {
            nodes =
                write
                  (layout null (xs ++ x ∷ ys) null)
                  x.ptr
                  (some (cell_node (updated x) (last null xs) (first ys null)));
          })
          (linked c (xs ++ updated x ∷ ys))
  stored x xs ys d = λ i. record c {
    head = first-updated x xs ys i;
    tail = last-updated x null xs ys i;
    nodes = fun_ext (layout_update x xs ys d) i;
  }

module _ (c : LruCache) (v : Bytes) where
  pub put_update-run :
      (alloc : Alloc) (x : Cell) (xs ys : List Cell)
      → alloc.value_ok ≡ true
      → Distinct (xs ++ x ∷ ys)
      → put_update alloc v x.ptr (linked c (xs ++ x ∷ ys))
        ≡ some (
          success,
          linked
              (record c {
                current_bytes_size =
                    (c.current_bytes_size + (length v + 2 ^ 64 - length x.value)) % 2 ^ 64;
                locked = false;
              })
              (updated c v x ∷ (xs ++ ys)),
        )
  unfolding put_update unlock
  put_update-run alloc x xs ys ok d =
      let size = (c.current_bytes_size + (length v + 2 ^ 64 - length x.value)) % 2 ^ 64 in
      let c' : LruCache = record c { current_bytes_size = size } in
      rw (load_cell c x xs ys d, ok)
        (ap (λ s. and_then (move_to_head x.ptr s) (λ _. unlock >> pure success))
            (stored c' v x xs ys d)
          ∙ rw (move_to_head-front c' (updated c v x) xs ys (Distinct-updated c v x xs ys d)))

  -- the cache after an update
  abbrev pub replaced : Cell → List Cell → List Cell → LruCache
  replaced x xs ys =
      linked (record c { current_bytes_size = length v + total (view (xs ++ ys)); locked = false })
        (updated c v x ∷ (xs ++ ys))

  pub IsCache-replaced :
      (x : Cell) (xs ys : List Cell)
      → IsCache c (xs ++ x ∷ ys)
      → length v + total (view (xs ++ x ∷ ys)) ≤ c.max_bytes_capacity
      → IsCache (replaced x xs ys) (updated c v x ∷ (xs ++ ys))
  unfolding total cell_of
  IsCache-replaced x xs ys valid fits =
      let front = IsCache-front c x xs ys valid in
      record {
        memory = refl;
        distinct = front.distinct;
        table =
            Holds-same c.hash_table_size c.buckets (index (x ∷ (xs ++ ys)))
              (index (updated c v x ∷ (xs ++ ys))) (λ k. ground arith) front.table;
        accounted = refl;
        bounded = omega (arith, total-middle x xs ys);
        word = valid.word;
        slots = valid.slots;
        unlocked = refl;
      }

  -- the entry of a new key, and the cache with it in front
  abbrev pub new_cell : Ptr → ℕ → Bytes → Cell
  new_cell p now k = record { ptr = p; key = k; value = v; time = now }

  abbrev pub extended : Cell → List Cell → LruCache
  extended x xs =
      linked
        (record c {
          buckets =
              replace c.buckets (hash_key x.key c.hash_table_size) (
                record { key = x.key; node = x.ptr }
                ∷ c.buckets (hash_key x.key c.hash_table_size));
          current_bytes_size = (c.current_bytes_size + length v) % 2 ^ 64;
          locked = false;
        })
        (x ∷ xs)

  pub put_insert-run :
      (alloc : Alloc) (now : ℕ) (k : Bytes) (xs : List Cell)
      → Grants alloc c
      → 0 < c.hash_table_size
      → Distinct (new_cell alloc.fresh now k ∷ xs)
      → put_insert alloc now k v
          (hash_key k c.hash_table_size)
          (c.buckets (hash_key k c.hash_table_size))
          (linked c xs)
        ≡ some (success, extended (new_cell alloc.fresh now k) xs)
  unfolding put_insert create_node unlock
  put_insert-run alloc now k xs g slots d =
      let x = new_cell alloc.fresh now k in
      let b = hash_key k c.hash_table_size in
      let chain = record { key = k; node = alloc.fresh } ∷ c.buckets b in
      let c' : LruCache = record c {
        buckets = replace c.buckets b chain;
        current_bytes_size = (c.current_bytes_size + length v) % 2 ^ 64;
      } in
      rw (
        ne→== alloc.fresh null g.nonnull,
        g.key_ok,
        g.value_ok,
        ne→== alloc.fresh null g.nonnull,
        g.hash_node_ok,
        g.hash_key_ok,
        write_bucket-some (loose c x null null xs) k chain slots,
        add_to_head-linked c' x null null xs d,
      )
