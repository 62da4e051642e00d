-- ===== src/Lru/Steps.antt =====
-- Facts that the proofs of several operations share.
use mathlib.Core.Path.{fun_ext}
use podcache.Prelude.{
  ℕ, ◌+◌, ◌-◌, ◌%◌, ◌^◌, ◌<◌, false, ◌≡◌, ◌≢◌, refl, sym, subst, Bytes, some, List, ◌∷◌, ◌++◌,
  arith, length, lt→ltb, take-length, le→ltb, ne→==, ==_refl,
}
use podcache.Hash.Djb2.{hash_key, hash_key-lt}
use podcache.Lru.State.{
  Ptr, null, LruNode, HashNode, LruCache, load, read_bucket, write_bucket, copy_value, free_node,
  success,
}
use podcache.Lru.Ops.{drop_key, release}
use podcache.Lru.Links.Outcome.{eq_of_Ends}
use podcache.Lru.Layout.{
  Cell, cell_node, first, last, layout-none, layout_at, Distinct, Distinct-middle, Distinct-front,
  linked, loose, has,
}
use podcache.Lru.Table.{Index, Holds, replace, without, Holds-without}
use podcache.Lru.Spec.{total}
use podcache.Lru.Invariant.{IsCache, view, index, index-front, index-middle, total-middle}

pub load-some :
    (c : LruCache) (p : Ptr) (n : LruNode) → p ≢ null → c.nodes p ≡ some n → load p c ≡ some (n, c)
unfolding load
load-some c p n h e = rw (ne→== p null h, e)

pub read_bucket-some :
    (c : LruCache) (k : Bytes)
    → 0 < c.hash_table_size
    → read_bucket (hash_key k c.hash_table_size) c
      ≡ some (c.buckets (hash_key k c.hash_table_size), c)
unfolding read_bucket
read_bucket-some c k h = rw (lt→ltb _ _ (hash_key-lt k c.hash_table_size h))

pub write_bucket-some :
    (c : LruCache) (k : Bytes) (chain : List HashNode)
    → 0 < c.hash_table_size
    → write_bucket (hash_key k c.hash_table_size) chain c
      ≡ some (tt, record c { buckets = replace c.buckets (hash_key k c.hash_table_size) chain })
unfolding write_bucket
write_bucket-some c k chain h = rw (lt→ltb _ _ (hash_key-lt k c.hash_table_size h))

pub load_cell :
    (c : LruCache) (x : Cell) (xs ys : List Cell)
    → Distinct (xs ++ x ∷ ys)
    → load x.ptr (linked c (xs ++ x ∷ ys))
      ≡ some (cell_node x (last null xs) (first ys null), linked c (xs ++ x ∷ ys))
load_cell c x xs ys d =
    let (nonnull, absent, _, _, _, _) = Distinct-middle xs x ys d in
    load-some (linked c (xs ++ x ∷ ys)) x.ptr _ nonnull (layout_at null xs x ys null absent)

pub copy_value_cell :
    (x : Cell) (p q : Ptr) (c : LruCache) → copy_value (cell_node x p q) c ≡ some (x.value, c)
unfolding copy_value
copy_value_cell x p q c = rw (le→ltb (length x.value) (length x.value) (omega arith), take-length)

pub Holds-same :
    (n : ℕ) (buckets : ℕ → List HashNode) (f g : Index)
    → ((k : Bytes) → f k ≡ g k)
    → Holds n buckets f
    → Holds n buckets g
Holds-same n buckets f g same t = subst (Holds n buckets) (fun_ext same) t

-- Moving an entry to the front keeps the invariant.
pub IsCache-front :
    (c : LruCache) (x : Cell) (xs ys : List Cell)
    → IsCache c (xs ++ x ∷ ys)
    → IsCache (linked c (x ∷ (xs ++ ys))) (x ∷ (xs ++ ys))
unfolding total
IsCache-front c x xs ys v = record {
  memory = refl;
  distinct = Distinct-front xs x ys v.distinct;
  table =
      Holds-same c.hash_table_size c.buckets (index (xs ++ x ∷ ys)) (index (x ∷ (xs ++ ys)))
        (λ k. sym (index-front x xs ys k (Distinct-middle xs x ys v.distinct).3)) v.table;
  accounted = omega (arith, v.accounted, total-middle x xs ys);
  bounded = omega (arith, v.bounded, total-middle x xs ys);
  word = v.word;
  slots = v.slots;
  unlocked = v.unlocked;
}

-- the counter less the size of an entry, in 64 bits
pub sub_size : (a b : ℕ) → a + b < 2 ^ 64 → (b + a + 2 ^ 64 - b) % 2 ^ 64 ≡ a
sub_size a b h = omega arith

-- `c` without one of its entries: list, table and counter
abbrev pub removed : LruCache → Cell → List Cell → List Cell → LruCache
removed c x xs ys =
    linked
      (record c {
        buckets =
            replace c.buckets (hash_key x.key c.hash_table_size)
              (drop_key x.key (c.buckets (hash_key x.key c.hash_table_size)));
        current_bytes_size = total (view (xs ++ ys));
      })
      (xs ++ ys)

pub IsCache-removed :
    (c : LruCache) (x : Cell) (xs ys : List Cell)
    → IsCache c (xs ++ x ∷ ys)
    → IsCache (removed c x xs ys) (xs ++ ys)
IsCache-removed c x xs ys v =
    let (_, _, _, before, behind, d) = Distinct-middle xs x ys v.distinct in
    record {
      memory = refl;
      distinct = d;
      table =
          Holds-same c.hash_table_size _ (without x.key (index (xs ++ x ∷ ys))) (index (xs ++ ys))
            (λ k. sym (index-middle x xs ys k before behind)) (Holds-without v.table x.key);
      accounted = refl;
      bounded = omega (arith, v.bounded, total-middle x xs ys);
      word = v.word;
      slots = v.slots;
      unlocked = v.unlocked;
    }

-- After unlinking, the counter and the memory are those without the entry.
pub size_removed :
    (c : LruCache) (x : Cell) (xs ys : List Cell)
    → IsCache c (xs ++ x ∷ ys)
    → (c.current_bytes_size + 2 ^ 64 - length x.value) % 2 ^ 64 ≡ total (view (xs ++ ys))
size_removed c x xs ys v = omega (arith, v.accounted, v.bounded, v.word, total-middle x xs ys)

-- freeing a loose node leaves the list
pub free_loose :
    (c : LruCache) (x : Cell) (p q : Ptr) (xs : List Cell)
    → x.ptr ≢ null
    → has x.ptr xs ≡ false
    → free_node x.ptr (loose c x p q xs) ≡ some (tt, linked c xs)
unfolding free_node
free_loose c x p q xs nonnull absent =
    eq_of_Ends _ _ (ground (arith, layout-none null xs null x.ptr))

-- The counter and the memory after the release of a loose node.
pub release-loose :
    (c : LruCache) (x : Cell) (p q : Ptr) (xs : List Cell)
    → x.ptr ≢ null
    → has x.ptr xs ≡ false
    → release x.ptr (loose c x p q xs)
      ≡ some (
        success,
        linked
            (record c {
              current_bytes_size = (c.current_bytes_size + 2 ^ 64 - length x.value) % 2 ^ 64;
            })
            xs,
      )
unfolding release
release-loose c x p q xs nonnull absent =
    let c' : LruCache = record c {
      current_bytes_size = (c.current_bytes_size + 2 ^ 64 - length x.value) % 2 ^ 64;
    } in
    rw (
      load-some (loose c x p q xs) x.ptr (cell_node x p q) nonnull (rw ==_refl),
      free_loose c' x p q xs nonnull absent,
    )
