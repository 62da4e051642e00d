-- ===== src/Lru/Put/Failed.antt =====
-- `lru_cache_put` when the memory runs out.
use podcache.Prelude.{
  ◌+◌, ◌<◌, ◌≡◌, ◌≢◌, refl, sym, subst, ap, ◌∙◌, ℕ, Bytes, true, false, Option, none, some, arith,
  length, ==_refl,
}
use podcache.Lru.State.{Ptr, null, LruNode, LruCache, HashNode, error, copy_value, unlock, write}
use podcache.Lru.Layout.{cell_node, first, last, layout_at, Distinct-middle}
use podcache.Lru.Table.{node_of}
use podcache.Lru.Ops.{Alloc, find, put, put_found, put_update, get, get_found}
use podcache.Hash.Djb2.{hash_key}
use podcache.Lru.Spec.{Entries, lookup, total}
use podcache.Lru.Invariant.{IsCache, Represents, cell_of, find_cell, lookup-view, ptr_of}
use podcache.Lru.Get.{value_of-some}
use podcache.Lru.Steps.{read_bucket-some, load-some}
use podcache.Lru.Put.Branches.{put_room, chain_of}

-- the cache in which the node at `p` has lost its value
abbrev pub bereft : LruCache → Ptr → LruNode → LruCache
bereft c p n = record c {
  nodes = write c.nodes p (some (record n { value = none }));
  locked = false;
}

put_update-bereft :
    (c : LruCache) (alloc : Alloc) (v : Bytes) (p : Ptr) (n : LruNode)
    → p ≢ null
    → c.nodes p ≡ some n
    → alloc.value_ok ≡ false
    → put_update alloc v p (record c { locked = true }) ≡ some (error, bereft c p n)
unfolding put_update unlock
put_update-bereft c alloc v p n nonnull there failed =
    rw (load-some (record c { locked = true }) p n nonnull there, failed) refl

copy_value-none : (n : LruNode) (c : LruCache) → n.value ≡ none → copy_value n c ≡ none
unfolding copy_value
copy_value-none n c h = rw h refl

module _ (c : LruCache) (k : Bytes) where
  put_found-bereft :
      (alloc : Alloc) (now : ℕ) (v : Bytes) (o : Option HashNode) (p : Ptr) (n : LruNode)
      → node_of o ≡ some p
      → p ≢ null
      → c.nodes p ≡ some n
      → alloc.value_ok ≡ false
      → put_found alloc now k v
          (hash_key k c.hash_table_size)
          (chain_of c alloc now k v)
          o
          (record c { locked = true })
        ≡ some (error, bereft c p n)
  unfolding put_found
  put_found-bereft alloc now v none p n at nonnull there failed = cc
  put_found-bereft alloc now v (some h) p n at nonnull there failed =
      let same : h.node ≡ p = cc in rw same (put_update-bereft c alloc v p n nonnull there failed)

  get_found-bereft :
      (o : Option HashNode) (p : Ptr) (n : LruNode)
      → node_of o ≡ some p
      → p ≢ null
      → get_found true o (bereft c p n) ≡ none
  unfolding get_found
  get_found-bereft none p n at nonnull = cc
  get_found-bereft (some h) p n at nonnull =
      let same : h.node ≡ p = cc in
      rw
        (
          same,
          load-some (bereft c p n) p (record n { value = none }) nonnull (rw ==_refl refl),
          copy_value-none (record n { value = none }) (bereft c p n) refl,
        )
        refl

-- `lru_cache_put` of a key that a valid cache has, with room, when the
-- allocation of the new value fails: it returns -1, but the old value is freed already, and the next
-- `lru_cache_get` of the key, with memory for its copy, faults.
pub put_failed-get :
    (alloc : Alloc) (now : ℕ) (k v : Bytes) (c : LruCache) {es : Entries} {old : Bytes}
    → Represents c es
    → lookup k es ≡ some old
    → alloc.value_ok ≡ false
    → total es + length v < c.max_bytes_capacity
    → (final : LruCache) × (put alloc now k v c ≡ some (error, final)) × (get true k final ≡ none)
unfolding get
put_failed-get alloc now k v c {es} r h failed room =
    let valid = r.valid in
    let size = valid.accounted ∙ ap total r.shows in
    let word = valid.word in
    let (x, e) =
      value_of-some (cell_of k r.cells) (sym (lookup-view k r.cells) ∙ ap (lookup k) r.shows ∙ h) in
    let f = find_cell k r.cells x e in
    let valid' = subst (IsCache c) f.split valid in
    let (nonnull, absent, _, _, _, _) = Distinct-middle f.before x f.behind valid'.distinct in
    let n = cell_node x (last null f.before) (first f.behind null) in
    let there : c.nodes x.ptr ≡ some n =
      ap (λ (d : LruCache). d.nodes x.ptr) valid'.memory
      ∙ layout_at null f.before x f.behind null absent in
    let o = find k (chain_of c alloc now k v) in
    let at = valid.table.complete k ∙ ap ptr_of e in
    (
      bereft c x.ptr n,
      put_room c alloc now k v valid.unlocked valid.slots (omega (arith, size, word, room))
          ∙ put_found-bereft c k alloc now v o x.ptr n at nonnull there failed,
      rw (read_bucket-some (bereft c x.ptr n) k valid.slots)
          (get_found-bereft c k o x.ptr n at nonnull),
    )
