-- ===== src/Lru/Destroy.antt =====
-- `lru_cache_destroy` of src/lru_cache.c.
use mathlib.Core.Path.{fun_ext}
use podcache.Prelude.{
  ℕ, zero, suc, ◌≡◌, ◌≤◌, ◌<◌, refl, ap, ◌∙◌, arith, none, some, List, [], ◌∷◌, ◌==◌, if◌then◌else◌,
  length, ==_refl, ne→==, lt→ltb, ltb, Bool-cases, inl, inr,
}
use podcache.Lru.State.{
  Ptr, null, HashNode, LruCache, Cmd, pure, fault, and_then, ◌>>=◌, ◌>>◌, load, free_node,
  read_bucket, write_bucket, get_cache, write,
}
use podcache.Lru.Layout.{Cell, cell_node, first, layout, layout-none, Distinct}
use podcache.Hash.Djb2.{hash_key-lt}
use podcache.Lru.Table.{Index, IsChain}
use podcache.Lru.Spec.{Entries}
use podcache.Lru.Invariant.{IsCache, Represents, view, index}
use podcache.Lru.Steps.{load-some}

-- the loop over the list, with fuel for its nodes
unfoldable pub free_nodes : ℕ → Ptr → Cmd (Unit {0})
free_nodes zero current = if current == null then pure tt else fault
free_nodes (suc fuel) current =
    if current == null
    then pure tt
    else do n ← load current; free_node current; free_nodes fuel n.next

-- the loop over one chain: its nodes are freed
unfoldable pub free_chain : ℕ → Cmd (Unit {0})
free_chain i = read_bucket i >> write_bucket i []

-- the loop over the first `n` buckets
unfoldable pub free_chains : ℕ → Cmd (Unit {0})
free_chains zero = pure tt
free_chains (suc i) = free_chains i >> free_chain i

-- What is left in memory behind it: the array and the cache itself hold nothing more then.
unfoldable pub destroy : ℕ → Cmd (Unit {0})
destroy fuel = do cache ← get_cache; free_nodes fuel cache.head; free_chains cache.hash_table_size

freed_first :
    (p : Ptr) (x : Cell) (xs : List Cell)
    → Distinct (x ∷ xs)
    → write (layout p (x ∷ xs) null) x.ptr none ≡ layout x.ptr xs null
unfolding layout
freed_first p x xs (nonnull, absent, _, _) =
    fun_ext (λ a. ground (arith, layout-none x.ptr xs null a))

layout_first :
    (p : Ptr) (x : Cell) (xs : List Cell)
    → layout p (x ∷ xs) null x.ptr ≡ some (cell_node x p (first xs null))
unfolding layout
layout_first p x xs = rw ==_refl refl

free_node-first :
    (c : LruCache) (p : Ptr) (x : Cell) (xs : List Cell)
    → Distinct (x ∷ xs)
    → free_node x.ptr (record c { nodes = layout p (x ∷ xs) null })
      ≡ some (tt, record c { nodes = layout x.ptr xs null })
unfolding free_node
free_node-first c p x xs d =
    rw
      (load-some (record c { nodes = layout p (x ∷ xs) null }) x.ptr (cell_node x p (first xs null))
        d.0 (layout_first p x xs))
      (ap (λ m. some (tt, record c { nodes = m })) (freed_first p x xs d))

free_nodes-layout :
    (c : LruCache) (fuel : ℕ) (p : Ptr) (xs : List Cell)
    → Distinct xs
    → length xs ≤ fuel
    → free_nodes fuel (first xs null) (record c { nodes = layout p xs null })
      ≡ some (tt, record c { nodes = λ a. none })
unfolding free_nodes layout
free_nodes-layout c zero p [] d room = refl
free_nodes-layout c (suc fuel) p [] d room = refl
free_nodes-layout c zero p (x ∷ xs) d room = absurd (omega arith)
free_nodes-layout c (suc fuel) p (x ∷ xs) d room =
    rw
      (
        ne→== x.ptr null d.0,
        load-some (record c { nodes = layout p (x ∷ xs) null }) x.ptr
            (cell_node x p (first xs null)) d.0 (layout_first p x xs),
        free_node-first c p x xs d,
      )
      (free_nodes-layout c fuel x.ptr xs d.3 (omega arith))

-- the chains behind the first `n`
abbrev from : ℕ → (ℕ → List HashNode) → ℕ → List HashNode
from n buckets i = if ltb i n then [] else buckets i

from_zero : (buckets : ℕ → List HashNode) (i : ℕ) → buckets i ≡ from 0 buckets i
from_zero buckets i = ground arith

from-next :
    (n : ℕ) (buckets : ℕ → List HashNode) (i : ℕ)
    → (if i == n then [] else from n buckets i) ≡ from (suc n) buckets i
from-next n buckets i = ground arith

free_chain-run :
    (c : LruCache) (i : ℕ)
    → i < c.hash_table_size
    → free_chain i c ≡ some (tt, record c { buckets = λ j. if j == i then [] else c.buckets j })
unfolding free_chain read_bucket write_bucket
free_chain-run c i h = let inside = lt→ltb i c.hash_table_size h in rw (inside, inside) refl

free_chains-run :
    (c : LruCache) (n : ℕ)
    → n ≤ c.hash_table_size
    → free_chains n c ≡ some (tt, record c { buckets = from n c.buckets })
unfolding free_chains
free_chains-run c zero h =
    ap (λ b. some (tt, record c { buckets = b })) (fun_ext (λ i. from_zero c.buckets i))
free_chains-run c (suc n) h =
    rw
      (
        free_chains-run c n (omega arith),
        free_chain-run (record c { buckets = from n c.buckets }) n h,
      )
      (ap (λ b. some (tt, record c { buckets = b })) (fun_ext (from-next n c.buckets)))

-- A chain beyond the table is empty, since no key belongs there.
chain_outside :
    (n i : ℕ) (f : Index) (chain : List HashNode) → 0 < n → IsChain n i f chain → n ≤ i → chain ≡ []
chain_outside n i f [] some_slot c outside = refl
chain_outside n i f (h ∷ hs) some_slot (at, _, _, _) outside =
    absurd (omega (arith, at, hash_key-lt h.key n some_slot))

from_all :
    (c : LruCache) {cells : List Cell} (i : ℕ)
    → IsCache c cells
    → from c.hash_table_size c.buckets i ≡ []
from_all c {cells} i v = elim (Bool-cases (ltb i c.hash_table_size)) [
  | inl e ↦ rw e refl
  | inr e ↦
      let outside : c.hash_table_size ≤ i = ground arith in
      rw e (
        chain_outside c.hash_table_size i (index cells) (c.buckets i) v.slots (v.table.chains i)
          outside)
]

length-view : (xs : List Cell) → length (view xs) ≡ length xs
length-view [] = refl
length-view (x ∷ xs) = ap suc (length-view xs)

-- `lru_cache_destroy` of a valid cache returns, with no more rounds of its first loop than there are
-- entries and without touching a freed node: every node of the list and of the chains is freed, and each
-- only once.
pub destroy-frees :
    (c : LruCache) {es : Entries} (fuel : ℕ)
    → Represents c es
    → length es ≤ fuel
    → (final : LruCache) × (destroy fuel c ≡ some (tt, final))
      × ((p : Ptr) → final.nodes p ≡ none)
      × ((i : ℕ) → final.buckets i ≡ [])
unfolding destroy
destroy-frees c {es} fuel r room =
    let v = r.valid in
    let size : length r.cells ≤ fuel =
      omega (arith, room, length-view r.cells, ap length r.shows) in
    let empty : LruCache = record c { nodes = λ a. none } in
    let listed = free_nodes-layout c fuel null r.cells v.distinct size in
    let head : c.head ≡ first r.cells null = ap (λ (d : LruCache). d.head) v.memory in
    let nodes : c ≡ record c { nodes = layout null r.cells null } =
      ap (λ m. record c { nodes = m }) (ap (λ (d : LruCache). d.nodes) v.memory) in
    (
      record empty { buckets = from c.hash_table_size c.buckets },
      ap (λ o. and_then o (λ u. free_chains c.hash_table_size))
            (ap (λ d. free_nodes fuel c.head d) nodes
              ∙ ap (λ q. free_nodes fuel q (record c { nodes = layout null r.cells null })) head
              ∙ listed)
          ∙ free_chains-run empty c.hash_table_size (omega arith),
      λ p. refl,
      λ i. from_all c i v,
    )
