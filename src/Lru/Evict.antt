-- ===== src/Lru/Evict.antt =====
-- `lru_cache_evict` and `lru_cache_remove_tail` against the specification.
use podcache.Prelude.{
  ◌≡◌, refl, sym, subst, ap, ◌∙◌, Bytes, Option, none, some, List, ◌∷◌, ◌++◌, arith,
}
use podcache.Lru.State.{null, LruCache, HashNode, Status, success, not_found}
use podcache.Lru.Layout.{Cell, linked, first, last, Distinct-middle, has-append}
use podcache.Lru.Links.Unlink.{unlink-loose}
use podcache.Lru.Table.{node_of, replace}
use podcache.Lru.Ops.{find, drop_key, evict, evict_found}
use podcache.Hash.Djb2.{hash_key}
use podcache.Lru.Spec.{Entries, lookup, remove}
use podcache.Lru.Invariant.{
  IsCache, Represents, Serves, view, cell_of, find_cell, lookup-view, ptr_of, value_of,
  remove-Found, remove_none,
}
use podcache.Lru.Steps.{
  read_bucket-some, write_bucket-some, removed, IsCache-removed, size_removed, release-loose,
}

abbrev pub evict_reply : Option Bytes → Status
evict_reply none = not_found
evict_reply (some v) = success

module _ (c : LruCache) where
  evict-found :
      (k : Bytes) (xs : List Cell)
      → IsCache c xs
      → evict k c
        ≡ evict_found k
            (hash_key k c.hash_table_size)
            (c.buckets (hash_key k c.hash_table_size))
            (find k (c.buckets (hash_key k c.hash_table_size)))
            c
  unfolding evict
  evict-found k xs v = rw (read_bucket-some c k v.slots)

  evict_found-hit :
      (o : Option HashNode) (x : Cell) (xs ys : List Cell)
      → node_of o ≡ some x.ptr
      → IsCache c (xs ++ x ∷ ys)
      → evict_found x.key
          (hash_key x.key c.hash_table_size)
          (c.buckets (hash_key x.key c.hash_table_size))
          o
          (linked c (xs ++ x ∷ ys))
        ≡ some (success, removed c x xs ys)
  unfolding evict_found
  evict_found-hit none x xs ys e v = cc
  evict_found-hit (some h) x xs ys e v =
      let at : h.node ≡ x.ptr = cc in
      let (nonnull, before, behind, _, _, _) = Distinct-middle xs x ys v.distinct in
      let b = hash_key x.key c.hash_table_size in
      let chain = drop_key x.key (c.buckets b) in
      let c' : LruCache = record c { buckets = replace c.buckets b chain } in
      rw (
        at,
        write_bucket-some (linked c (xs ++ x ∷ ys)) x.key chain v.slots,
        unlink-loose c' x xs ys v.distinct,
        release-loose c' x (last null xs) (first ys null) (xs ++ ys) nonnull
            (rw (has-append, before, behind)),
        size_removed c x xs ys v,
      )

  -- the run for a key that is there
  pub evict-removed :
      (k : Bytes) (xs : List Cell) (x : Cell) (v : IsCache c xs) (e : cell_of k xs ≡ some x)
      → let f = find_cell k xs x e in evict k c ≡ some (success, removed c x f.before f.behind)
  evict-removed k xs x v e =
      let f = find_cell k xs x e in
      let v' = subst (IsCache c) f.split v in
      let o = find k (c.buckets (hash_key k c.hash_table_size)) in
      evict-found k xs v
      ∙ ap
          (λ d.
            evict_found k (hash_key k c.hash_table_size) (c.buckets (hash_key k c.hash_table_size))
              o d)
          v'.memory
      ∙ ap
          (λ j.
            evict_found j (hash_key j c.hash_table_size) (c.buckets (hash_key j c.hash_table_size))
              o (linked c (f.before ++ x ∷ f.behind)))
          (sym f.key)
      ∙ evict_found-hit o x f.before f.behind (v.table.complete k ∙ ap ptr_of e) v'

  evict_cell :
      (k : Bytes) (xs : List Cell) (o : Option Cell)
      → IsCache c xs
      → cell_of k xs ≡ o
      → Serves c (evict k c) (evict_reply (value_of o)) (remove k (view xs))
  unfolding evict_found
  evict_cell k xs none v e = record {
    final = c;
    runs = evict-found k xs v ∙ ground (arith, v.table.complete k);
    represents = record {
      cells = xs;
      valid = v;
      shows = sym (remove_none k (view xs) (lookup-view k xs ∙ ap value_of e));
    };
    capacity = refl;
  }
  evict_cell k xs (some x) v e =
      let f = find_cell k xs x e in
      let v' = subst (IsCache c) f.split v in
      record {
        final = removed c x f.before f.behind;
        runs = evict-removed k xs x v e;
        represents = record {
          cells = f.before ++ f.behind;
          valid = IsCache-removed c x f.before f.behind v';
          shows = sym (remove-Found f v.distinct);
        };
        capacity = refl;
      }

-- `lru_cache_evict` on a valid cache: it says whether the key was there, and leaves a valid cache
-- without it, the other entries in their order.
pub evict-refines :
    (c : LruCache) (k : Bytes) {es : Entries}
    → Represents c es
    → Serves c (evict k c) (evict_reply (lookup k es)) (remove k es)
evict-refines c k r =
    subst (λ es. Serves c (evict k c) (evict_reply (lookup k es)) (remove k es)) r.shows
      (rw lookup-view (evict_cell c k r.cells (cell_of k r.cells) r.valid refl))
