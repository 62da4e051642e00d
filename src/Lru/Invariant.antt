-- ===== src/Lru/Invariant.antt =====
-- The invariant of a cache, and the entries that it represents.
use podcache.Prelude.{
  ◌+◌, ◌^◌, ◌≤◌, ◌<◌, ◌≡◌, refl, Bytes, false, Option, none, some, List, [], ◌∷◌, ◌++◌, map, arith,
  if◌then◌else◌, str_eq, str_eq→eq, str_eq_refl, length, Bool-cases, inl, inr, ap, sym, subst, ◌∙◌,
}
use podcache.Lru.State.{Ptr, LruCache}
use podcache.Lru.Layout.{Cell, Distinct, has_key, linked, Distinct-middle}
use podcache.Lru.Table.{Index, without, Holds}
use podcache.Lru.Spec.{Entries, lookup, remove, touch, drop_last, total}

unfoldable pub cell_of : Bytes → List Cell → Option Cell
cell_of k [] = none
cell_of k (x ∷ xs) = if str_eq x.key k then some x else cell_of k xs

abbrev pub ptr_of : Option Cell → Option Ptr
ptr_of none = none
ptr_of (some x) = some x.ptr

abbrev pub value_of : Option Cell → Option Bytes
value_of none = none
value_of (some x) = some x.value

-- where the key's node lies
abbrev pub index : List Cell → Index
index xs k = ptr_of (cell_of k xs)

abbrev pub view : List Cell → Entries
view = map (λ x. (x.key, x.value))

-- The cache holds the entries `cells`: the list links exactly their nodes, the table finds exactly
-- their keys, and the counter is the sum of their sizes, within the capacity.
pub record IsCache (c : LruCache) (cells : List Cell) : Type 0 where
  pub memory : c ≡ linked c cells
  pub distinct : Distinct cells
  pub table : Holds c.hash_table_size c.buckets (index cells)
  pub accounted : c.current_bytes_size ≡ total (view cells)
  pub bounded : total (view cells) ≤ c.max_bytes_capacity
  pub word : c.max_bytes_capacity < 2 ^ 64
  pub slots : 0 < c.hash_table_size
  pub unlocked : c.locked ≡ false

-- `c` is a valid cache with the entries `es`, most recently used first.
pub record Represents (c : LruCache) (es : Entries) : Type 0 where
  pub cells : List Cell
  pub valid : IsCache c cells
  pub shows : view cells ≡ es

-- The run of an operation from `c` returns `a` and a valid cache of the same capacity with the
-- entries `es`; it does not fault.
pub record Serves {A : Type 0} (c : LruCache) (run : Option (A × LruCache)) (a : A) (es : Entries)
    : Type 0 where
  pub final : LruCache
  pub runs : run ≡ some (a, final)
  pub represents : Represents final es
  pub capacity : final.max_bytes_capacity ≡ c.max_bytes_capacity

-- An entry that is found stands somewhere in the list.
pub record Found (k : Bytes) (xs : List Cell) (x : Cell) : Type 0 where
  pub before : List Cell
  pub behind : List Cell
  pub split : xs ≡ before ++ x ∷ behind
  pub key : x.key ≡ k
  pub absent : has_key k before ≡ false

pub find_cell : (k : Bytes) (xs : List Cell) (x : Cell) → cell_of k xs ≡ some x → Found k xs x
unfolding cell_of has_key
find_cell k [] x h = cc
find_cell k (y ∷ xs) x h = elim (Bool-cases (str_eq y.key k)) [
  | inl e ↦
      let same : y ≡ x = ground arith in
      record {
        before = [];
        behind = xs;
        split = ap (λ z. z ∷ xs) same;
        key = ap (λ (z : Cell). z.key) (sym same) ∙ str_eq→eq y.key k e;
        absent = refl;
      }
  | inr e ↦
      let f = find_cell k xs x (ground arith) in
      record {
        before = y ∷ f.before;
        behind = f.behind;
        split = ap (◌∷◌ y) f.split;
        key = f.key;
        absent = rw e f.absent;
      }
]

pub cell_of-none : (k : Bytes) (xs : List Cell) → has_key k xs ≡ false → cell_of k xs ≡ none
unfolding cell_of has_key
cell_of-none k [] h = refl
cell_of-none k (x ∷ xs) h = ground (arith, cell_of-none k xs)

pub has_key-none : (k : Bytes) (xs : List Cell) → cell_of k xs ≡ none → has_key k xs ≡ false
unfolding cell_of has_key
has_key-none k [] h = refl
has_key-none k (x ∷ xs) h = ground (arith, has_key-none k xs)

pub lookup-view : (k : Bytes) (xs : List Cell) → lookup k (view xs) ≡ value_of (cell_of k xs)
unfolding cell_of lookup
lookup-view k [] = refl
lookup-view k (x ∷ xs) = ground (arith, lookup-view k xs)

-- the index of the other entries, and of an entry in front of the others
pub index-middle :
    (x : Cell) (xs ys : List Cell) (k : Bytes)
    → has_key x.key xs ≡ false
    → has_key x.key ys ≡ false
    → index (xs ++ ys) k ≡ without x.key (index (xs ++ x ∷ ys)) k
unfolding cell_of has_key
index-middle x [] ys k h g = ground (arith, cell_of-none x.key ys g, str_eq→eq x.key k)
index-middle x (y ∷ xs) ys k h g =
    ground (arith, index-middle x xs ys k, str_eq→eq x.key k, str_eq→eq y.key k, str_eq_refl k)

pub index-front :
    (x : Cell) (xs ys : List Cell) (k : Bytes)
    → has_key x.key xs ≡ false
    → index (x ∷ (xs ++ ys)) k ≡ index (xs ++ x ∷ ys) k
unfolding cell_of has_key
index-front x [] ys k h = refl
index-front x (y ∷ xs) ys k h =
    ground (arith, index-front x xs ys k, str_eq→eq x.key k, str_eq→eq y.key k, str_eq_refl k)

pub remove-view :
    (x : Cell) (xs ys : List Cell)
    → has_key x.key xs ≡ false
    → remove x.key (view (xs ++ x ∷ ys)) ≡ view (xs ++ ys)
unfolding remove has_key
remove-view x [] ys h = ground (arith, str_eq_refl x.key)
remove-view x (y ∷ xs) ys h = ground (arith, remove-view x xs ys)

pub total-middle :
    (x : Cell) (xs ys : List Cell)
    → total (view (xs ++ x ∷ ys)) ≡ length x.value + total (view (xs ++ ys))
unfolding total
total-middle x [] ys = refl
total-middle x (y ∷ xs) ys = omega (arith, total-middle x xs ys)

pub touch-none : (k : Bytes) (es : Entries) → lookup k es ≡ none → touch k es ≡ es
unfolding touch
touch-none k es h = rw (h, touch)

pub touch-some :
    (k : Bytes) (es : Entries) (v : Bytes)
    → lookup k es ≡ some v
    → touch k es ≡ (k, v) ∷ remove k es
unfolding touch
touch-some k es v h = rw (h, touch)

-- What the specification removes with the key of an entry that was found.
pub remove-Found :
    {k : Bytes} {xs : List Cell} {x : Cell} (f : Found k xs x)
    → Distinct xs
    → remove k (view xs) ≡ view (f.before ++ f.behind)
remove-Found {k} {xs} {x} f d =
    let d' = subst Distinct f.split d in
    ap (λ l. remove k (view l)) f.split
    ∙ ap (λ j. remove j (view (f.before ++ x ∷ f.behind))) (sym f.key)
    ∙ remove-view x f.before f.behind (Distinct-middle f.before x f.behind d').3

pub remove_none : (k : Bytes) (es : Entries) → lookup k es ≡ none → remove k es ≡ es
unfolding lookup remove
remove_none k [] h = refl
remove_none k (e ∷ es) h = ground (arith, remove_none k es)

pub view-append : (xs ys : List Cell) → view (xs ++ ys) ≡ view xs ++ view ys
view-append [] ys = refl
view-append (x ∷ xs) ys = ap (◌∷◌ (x.key, x.value)) (view-append xs ys)

pub drop_last-snoc : (es : Entries) (e : Bytes × Bytes) → drop_last (es ++ e ∷ []) ≡ es
unfolding drop_last
drop_last-snoc [] e = refl
drop_last-snoc (d ∷ []) e = refl
drop_last-snoc (d ∷ f ∷ es) e = ap (◌∷◌ d) (drop_last-snoc (f ∷ es) e)
