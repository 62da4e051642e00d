-- ===== src/Lru/Tail.antt =====
-- `lru_cache_remove_tail` and `lru_cache_get_tail_node` against the specification.
use podcache.Prelude.{
  ◌≡◌, ◌≢◌, refl, sym, subst, ap, ◌∙◌, Bytes, false, some, length, List, [], ◌∷◌, ◌++◌, arith,
  ==_refl, ne→==, snoc-cases, inl, inr, append-nil, str_eq→eq, str_eq_refl,
}
use podcache.Lru.State.{Ptr, LruNode, load, null, LruCache, success, error}
use podcache.Lru.Layout.{
  has_key, Cell, linked, loose, last, Distinct, Distinct-middle, cell_node, has, has-append,
  last-append, ne-first,
}
use podcache.Lru.Links.{unlink}
use podcache.Lru.Links.Unlink.{unlink-loose}
use podcache.Lru.Table.{replace, drop_ptr-eq}
use podcache.Lru.Ops.{drop_key, detach_tail, get_tail_node, remove_tail, remove_tail_node}
use podcache.Hash.Djb2.{hash_key}
use podcache.Lru.Spec.{Entries, drop_last, last_entry}
use podcache.Lru.Invariant.{
  IsCache, Represents, Serves, view, index, cell_of, drop_last-snoc, view-append,
}
use podcache.Lru.Steps.{
  read_bucket-some, write_bucket-some, load-some, load_cell, removed, IsCache-removed, size_removed,
  release-loose,
}

-- the address of an entry is given to its key alone
index_only :
    (x : Cell) (xs : List Cell)
    → has x.ptr xs ≡ false
    → (j : Bytes) → index (xs ++ x ∷ []) j ≡ some x.ptr
    → j ≡ x.key
unfolding cell_of
index_only x [] absent j h = sym (str_eq→eq x.key j (ground arith))
index_only x (y ∷ xs) absent j h = index_only x xs (ground arith) j (ground arith)

index_at :
    (x : Cell) (xs : List Cell) → has_key x.key xs ≡ false → index (xs ++ x ∷ []) x.key ≡ some x.ptr
unfolding cell_of has_key
index_at x [] absent = rw str_eq_refl
index_at x (y ∷ xs) absent = ground (arith, index_at x xs)

module _ (c : LruCache) (x : Cell) where
  -- At the tail, both ways to take a node off the list do the same.
  detach_tail-unlink :
      (xs : List Cell)
      → Distinct (xs ++ x ∷ [])
      → detach_tail x.ptr (linked c (xs ++ x ∷ [])) ≡ unlink x.ptr (linked c (xs ++ x ∷ []))
  unfolding detach_tail unlink
  detach_tail-unlink [] d = ground arith
  detach_tail-unlink (w ∷ ws) d =
      let (x0, x1, x2, _, _, _) = Distinct-middle (w ∷ ws) x [] d in
      ground (arith, ne-first x.ptr (w ∷ ws) x [] x1, last-append w.ptr ws (x ∷ []))

  remove_tail_node-removed :
      (xs : List Cell)
      → IsCache c (xs ++ x ∷ [])
      → remove_tail_node x.ptr (linked c (xs ++ x ∷ [])) ≡ some (success, removed c x xs [])
  unfolding remove_tail_node
  remove_tail_node-removed xs v =
      let (nonnull, before, behind, key, _, _) = Distinct-middle xs x [] v.distinct in
      let b = hash_key x.key c.hash_table_size in
      let chain = drop_key x.key (c.buckets b) in
      let c' : LruCache = record c { buckets = replace c.buckets b chain } in
      rw (
        ne→== x.ptr null nonnull,
        detach_tail-unlink xs v.distinct,
        unlink-loose c x xs [] v.distinct,
        load-some (loose c x (last null xs) null (xs ++ [])) x.ptr (cell_node x (last null xs) null)
            nonnull (rw ==_refl),
        read_bucket-some (loose c x (last null xs) null (xs ++ [])) x.key v.slots,
        drop_ptr-eq v.table x.key x.ptr (index_at x xs key) (index_only x xs before),
        write_bucket-some (loose c x (last null xs) null (xs ++ [])) x.key chain v.slots,
        release-loose c' x (last null xs) null (xs ++ []) nonnull (rw (has-append, before)),
        size_removed c x xs [] v,
      )

  remove_tail_snoc :
      (xs : List Cell)
      → IsCache c (xs ++ x ∷ [])
      → Serves c (remove_tail c) success (drop_last (view (xs ++ x ∷ [])))
  unfolding remove_tail
  remove_tail_snoc xs v = record {
    final = removed c x xs [];
    runs =
        ap (λ d. remove_tail_node d.tail d) v.memory
        ∙ ap (λ p. remove_tail_node p (linked c (xs ++ x ∷ []))) (last-append null xs (x ∷ []))
        ∙ remove_tail_node-removed xs v;
    represents = record {
      cells = xs ++ [];
      valid = IsCache-removed c x xs [] v;
      shows = rw (append-nil, view-append, drop_last-snoc);
    };
    capacity = refl;
  }

  -- what `get_tail_node` leads to, when `x` is last
  tail_at_snoc :
      (xs : List Cell)
      → IsCache c (xs ++ x ∷ [])
      → (get_tail_node c ≡ some (x.ptr, c))
        × (x.ptr ≢ null)
        × (load x.ptr c ≡ some (cell_node x (last null xs) null, c))
  unfolding get_tail_node
  tail_at_snoc xs v =
      let (nonnull, _, _, _, _, _) = Distinct-middle xs x [] v.distinct in
      let at : c.tail ≡ x.ptr =
        ap (λ (d : LruCache). d.tail) v.memory ∙ last-append null xs (x ∷ []) in
      (
        ground arith,
        nonnull,
        subst (λ d. load x.ptr d ≡ some (cell_node x (last null xs) null, d)) (sym v.memory)
            (load_cell c x xs [] v.distinct),
      )

-- `lru_cache_remove_tail` on a valid cache that is not empty succeeds, drops the least recently used
-- entry and leaves a valid cache with the others.
pub remove_tail-refines :
    (c : LruCache) {es : Entries}
    → Represents c es
    → es ≢ []
    → Serves c (remove_tail c) success (drop_last es)
remove_tail-refines c {es} r h =
    subst (λ ds. Serves c (remove_tail c) success (drop_last ds)) r.shows
      (elim (snoc-cases r.cells) [
        | inl e ↦ absurd (h (sym r.shows ∙ ap view e))
        | inr (xs, x, e) ↦
            subst (λ l. Serves c (remove_tail c) success (drop_last (view l))) (sym e)
              (remove_tail_snoc c x xs (subst (IsCache c) e r.valid))
      ])

-- the tail of a cache without entries
pub tail_empty : (c : LruCache) → Represents c [] → c.tail ≡ null
tail_empty c r = ap (λ (d : LruCache). d.tail) r.valid.memory ∙ go r.cells r.shows
  where
    go : (xs : List Cell) → view xs ≡ [] → last null xs ≡ null
    go [] e = refl
    go (x ∷ xs) e = cc

-- On an empty cache `lru_cache_remove_tail` returns -1 and changes nothing.
pub remove_tail_empty : (c : LruCache) → Represents c [] → remove_tail c ≡ some (error, c)
unfolding remove_tail remove_tail_node
remove_tail_empty c r = ground (arith, tail_empty c r)

-- The node that `lru_cache_get_tail_node` finds: it has the entry `e`.
pub record TailNode (c : LruCache) (e : Bytes × Bytes) : Type 0 where
  pub ptr : Ptr
  pub node : LruNode
  pub got : get_tail_node c ≡ some (ptr, c)
  pub nonnull : ptr ≢ null
  pub loaded : load ptr c ≡ some (node, c)
  pub key : node.key ≡ e.0
  pub value : node.value ≡ some e.1
  pub size : node.size ≡ length e.1

pub last_entry-snoc : (es : Entries) (e : Bytes × Bytes) → last_entry (es ++ e ∷ []) ≡ some e
unfolding last_entry
last_entry-snoc [] e = refl
last_entry-snoc (d ∷ []) e = refl
last_entry-snoc (d ∷ f ∷ es) e = last_entry-snoc (f ∷ es) e

pub last_entry-TailNode :
    (c : LruCache) {es : Entries} {e : Bytes × Bytes}
    → Represents c es
    → last_entry es ≡ some e
    → TailNode c e
unfolding last_entry
last_entry-TailNode c {es} {e} r h = elim (snoc-cases r.cells) [
  | inl none_there ↦ absurd (no_entry (subst (λ l. last_entry (view l) ≡ some e) none_there shown))
  | inr (xs, x, at) ↦
      let (got, nonnull, loaded) = tail_at_snoc c x xs (subst (IsCache c) at r.valid) in
      let last_one : some (x.key, x.value) ≡ some e =
        sym (last_entry-snoc (view xs) (x.key, x.value))
        ∙ ap last_entry (sym (view-append xs (x ∷ [])))
        ∙ subst (λ l. last_entry (view l) ≡ some e) at shown in
      let same : (x.key, x.value) ≡ e = cc in
      subst (TailNode c) same (record {
        ptr = x.ptr;
        node = cell_node x (last null xs) null;
        got = got;
        nonnull = nonnull;
        loaded = loaded;
        key = refl;
        value = refl;
        size = refl;
      })
]
  where
    shown : last_entry (view r.cells) ≡ some e
    shown = ap last_entry r.shows ∙ h

    no_entry : last_entry (view []) ≢ some e
    no_entry f = cc
