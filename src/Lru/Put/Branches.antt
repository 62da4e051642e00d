-- ===== src/Lru/Put/Branches.antt =====
-- The branches of `lru_cache_put`: no room, a new key, a key that is there.
use podcache.Prelude.{
  ℕ, ◌+◌, ◌-◌, ◌%◌, ◌^◌, ◌≤◌, ◌<◌, ◌≡◌, refl, sym, subst, ap, ◌∙◌, Bytes, true, false, Option, none,
  some, List, [], ◌∷◌, ◌++◌, arith, length, lt→leb,
}
use podcache.Lru.State.{Ptr, null, LruCache, HashNode, success, full, lock, unlock}
use podcache.Lru.Layout.{Cell, linked, layout, Distinct, has}
use podcache.Lru.Table.{node_of, Holds-with_key, with_key}
use podcache.Lru.Ops.{Alloc, find, put, put_found, put_insert}
use podcache.Hash.Djb2.{hash_key}
use podcache.Lru.Spec.{remove, insert, total}
use podcache.Lru.Invariant.{
  IsCache, Serves, view, index, cell_of, find_cell, lookup-view, ptr_of, value_of, remove-Found,
  remove_none, has_key-none, total-middle,
}
use podcache.Lru.Steps.{read_bucket-some, Holds-same}
use podcache.Lru.Put.Parts.{
  Grants, updated, new_cell, extended, replaced, IsCache-replaced, put_update-run, put_insert-run,
}

-- an address without a node is not that of an entry
unused_absent : (p a : Ptr) (xs : List Cell) → layout p xs null a ≡ none → has a xs ≡ false
unfolding layout
unused_absent p a [] h = refl
unused_absent p a (x ∷ xs) h = ground (arith, unused_absent x.ptr a xs)

module _ (c : LruCache) (alloc : Alloc) (now : ℕ) (k v : Bytes) where
  abbrev opened : LruCache
  opened = record c { locked = true }

  abbrev pub chain_of : List HashNode
  chain_of = c.buckets (hash_key k c.hash_table_size)

  pub put_full :
      c.locked ≡ false
      → c.max_bytes_capacity ≤ (c.current_bytes_size + length v) % 2 ^ 64
      → put alloc now k v c ≡ some (full, c)
  unfolding put lock unlock
  put_full unlocked h = ground arith

  pub put_room :
      c.locked ≡ false
      → 0 < c.hash_table_size
      → (c.current_bytes_size + length v) % 2 ^ 64 < c.max_bytes_capacity
      → put alloc now k v c
        ≡ put_found alloc now k v (hash_key k c.hash_table_size) chain_of (find k chain_of) opened
  unfolding put lock
  put_room unlocked slots h = rw (unlocked, lt→leb _ _ h, read_bucket-some opened k slots)

  IsCache-extended :
      (p : Ptr) (xs : List Cell)
      → IsCache c xs
      → Distinct (new_cell c v p now k ∷ xs)
      → cell_of k xs ≡ none
      → total (view xs) + length v < c.max_bytes_capacity
      → IsCache (extended c v (new_cell c v p now k) xs) (new_cell c v p now k ∷ xs)
  unfolding total cell_of
  IsCache-extended p xs valid d absent fits = record {
    memory = refl;
    distinct = d;
    table =
        Holds-same c.hash_table_size _ (with_key k p (index xs)) (index (new_cell c v p now k ∷ xs))
          (λ j. ground arith) (Holds-with_key valid.table k p (ap ptr_of absent));
    accounted = omega (arith, valid.accounted, valid.word);
    bounded = omega arith;
    word = valid.word;
    slots = valid.slots;
    unlocked = refl;
  }

  -- the key is new
  pub put_new :
      (xs : List Cell)
      → IsCache c xs
      → Grants alloc c
      → cell_of k xs ≡ none
      → total (view xs) + length v < c.max_bytes_capacity
      → Serves c (put alloc now k v c) success (insert k v (view xs))
  unfolding put_found
  put_new xs valid g absent fits =
      let x = new_cell c v alloc.fresh now k in
      let apart : has alloc.fresh xs ≡ false =
        unused_absent null alloc.fresh xs
          (ap (λ (d : LruCache). d.nodes alloc.fresh) (sym valid.memory) ∙ g.unused) in
      let d : Distinct (x ∷ xs) = (g.nonnull, apart, has_key-none k xs absent, valid.distinct) in
      let g' : Grants alloc opened = record {
        nonnull = g.nonnull;
        unused = g.unused;
        key_ok = g.key_ok;
        value_ok = g.value_ok;
        hash_node_ok = g.hash_node_ok;
        hash_key_ok = g.hash_key_ok;
      } in
      let missed : find k chain_of ≡ none = ground (arith, valid.table.complete k) in
      record {
        final = extended c v x xs;
        runs =
            put_room valid.unlocked valid.slots (omega (arith, valid.accounted, valid.word))
            ∙ rw (missed, put_found)
                (ap
                    (λ (e : LruCache).
                      put_insert alloc now k v (hash_key k c.hash_table_size) chain_of
                        (record e { locked = true }))
                    valid.memory
                  ∙ put_insert-run opened v alloc now k xs g' valid.slots d);
        represents = record {
          cells = x ∷ xs;
          valid = IsCache-extended alloc.fresh xs valid d absent fits;
          shows =
              ap (λ es. (k, v) ∷ es)
                (sym (remove_none k (view xs) (lookup-view k xs ∙ ap value_of absent)));
        };
        capacity = refl;
      }

  put_found-run :
      (o : Option HashNode) (x : Cell) (xs ys : List Cell)
      → node_of o ≡ some x.ptr
      → IsCache c (xs ++ x ∷ ys)
      → Grants alloc c
      → total (view (xs ++ x ∷ ys)) + length v < c.max_bytes_capacity
      → put_found alloc now k v
          (hash_key k c.hash_table_size)
          chain_of
          o
          (linked opened (xs ++ x ∷ ys))
        ≡ some (success, replaced c v x xs ys)
  unfolding put_found
  put_found-run none x xs ys e valid g fits = cc
  put_found-run (some h) x xs ys e valid g fits =
      let at : h.node ≡ x.ptr = cc in
      let size : (c.current_bytes_size + (length v + 2 ^ 64 - length x.value)) % 2 ^ 64
          ≡ length v + total (view (xs ++ ys)) =
        omega (arith, valid.accounted, valid.word, total-middle x xs ys) in
      rw (at, put_update-run opened v alloc x xs ys g.value_ok valid.distinct, size)

  -- the key is there
  pub put_old :
      (xs : List Cell) (x : Cell)
      → IsCache c xs
      → Grants alloc c
      → cell_of k xs ≡ some x
      → total (view xs) + length v < c.max_bytes_capacity
      → Serves c (put alloc now k v c) success (insert k v (view xs))
  put_old xs x valid g present fits =
      let f = find_cell k xs x present in
      let valid' = subst (IsCache c) f.split valid in
      let fits' = subst (λ l. total (view l) + length v < c.max_bytes_capacity) f.split fits in
      let b = hash_key k c.hash_table_size in
      record {
        final = replaced c v x f.before f.behind;
        runs =
            put_room valid.unlocked valid.slots (omega (arith, valid.accounted, valid.word))
            ∙ ap
                (λ (e : LruCache).
                  put_found alloc now k v b chain_of (find k chain_of) (record e { locked = true }))
                valid'.memory
            ∙ put_found-run (find k chain_of) x f.before f.behind
                (valid.table.complete k ∙ ap ptr_of present) valid' g fits';
        represents = record {
          cells = updated c v x ∷ (f.before ++ f.behind);
          valid = IsCache-replaced c v x f.before f.behind valid' (omega arith);
          shows =
              ap (λ es. (x.key, v) ∷ es) (sym (remove-Found f valid.distinct))
              ∙ ap (λ j. (j, v) ∷ remove k (view xs)) f.key;
        };
        capacity = refl;
      }
