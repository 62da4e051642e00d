-- ===== src/Lru/Race.antt =====
-- Two threads on one cache of src/lru_cache.c: `lru_cache_get` and `lru_cache_evict` do not lock its
-- mutex, so that one may run between two steps of the other.
use podcache.Prelude.{
  ◌≡◌, refl, sym, subst, ap, ◌∙◌, Bytes, Bool, false, Option, none, some, ◌++◌, arith,
}
use podcache.Hash.Djb2.{hash_key}
use podcache.Lru.State.{Ptr, LruCache, HashNode, success, load}
use podcache.Lru.Layout.{Distinct, Distinct-middle, has, has-append, layout-none}
use podcache.Lru.Table.{node_of}
use podcache.Lru.Ops.{find, get_found, evict}
use podcache.Lru.Spec.{Entries, lookup}
use podcache.Lru.Invariant.{Represents, cell_of, find_cell, lookup-view, ptr_of}
use podcache.Lru.Get.{value_of-some}
use podcache.Lru.Evict.{evict-removed}
use podcache.Lru.Steps.{removed}

load-none : (c : LruCache) (p : Ptr) → c.nodes p ≡ none → load p c ≡ none
unfolding load
load-none c p h = ground arith

get_found-none :
    (b : Bool) (c : LruCache) (h : HashNode) → c.nodes h.node ≡ none → get_found b (some h) c ≡ none
unfolding get_found
get_found-none b c h gone = rw (load-none c h.node gone) refl

node_of-some :
    (o : Option HashNode) (p : Ptr)
    → node_of o ≡ some p
    → (h : HashNode) × (o ≡ some h) × (h.node ≡ p)
node_of-some none p e = cc
node_of-some (some h) p e = (h, refl, let at : h.node ≡ p = cc in at)

-- For a key of a valid cache: the loop of `lru_cache_get` finds its hash node; a whole
-- `lru_cache_evict` of the key by another thread, which no mutex keeps out, then succeeds and frees the
-- list node; and the rest of `lru_cache_get` with the hash node that it found faults, whatever the
-- memory for a copy.
pub get_found-evict :
    (malloc_ok : Bool) (c : LruCache) (k : Bytes) {es : Entries} {v : Bytes}
    → Represents c es
    → lookup k es ≡ some v
    → (found : HashNode) × (final : LruCache) × (find k (c.buckets (hash_key k c.hash_table_size))
        ≡ some found)
      × (evict k c ≡ some (success, final))
      × (get_found malloc_ok (some found) final ≡ none)
get_found-evict malloc_ok c k r there =
    let (x, e) =
      value_of-some (cell_of k r.cells)
        (sym (lookup-view k r.cells) ∙ ap (lookup k) r.shows ∙ there) in
    let f = find_cell k r.cells x e in
    let d = subst Distinct f.split r.valid.distinct in
    let (_, before, behind, _, _, _) = Distinct-middle f.before x f.behind d in
    let final = removed c x f.before f.behind in
    let absent : has x.ptr (f.before ++ f.behind) ≡ false =
      ground (arith, has-append x.ptr f.before f.behind) in
    let (found, seen, at) =
      node_of-some (find k (c.buckets (hash_key k c.hash_table_size))) x.ptr
        (r.valid.table.complete k ∙ ap ptr_of e) in
    (
      found,
      final,
      seen,
      evict-removed c k r.cells x r.valid e,
      get_found-none malloc_ok final found
          (ap final.nodes at ∙ layout-none 0 (f.before ++ f.behind) 0 x.ptr absent),
    )
