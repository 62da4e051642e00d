-- ===== src/Lru/Layout.antt =====
-- What the memory of a cache holds, given its entries in order from head to tail.
use podcache.Prelude.{
  ℕ, ◌≡◌, ◌≢◌, refl, Bytes, Bool, false, ◌||◌, Option, none, some, List, [], ◌∷◌, ◌++◌, arith, ◌==◌,
  if◌then◌else◌, ne→==, str_eq, str_eq_sym, length,
}
use podcache.Lru.State.{Ptr, null, LruNode, LruCache}

-- An entry: the address of its node, the key, the value and the time of its creation.
pub record Cell : Type 0 where
  pub ptr : Ptr
  pub key : Bytes
  pub value : Bytes
  pub time : ℕ

-- the node of an entry, between its neighbours
abbrev pub cell_node : Cell → Ptr → Ptr → LruNode
cell_node x p q = record {
  key = x.key;
  value = some x.value;
  size = length x.value;
  creation_time = x.time;
  next = q;
  prev = p;
}

abbrev pub first : List Cell → Ptr → Ptr
first [] stop = stop
first (x ∷ xs) stop = x.ptr

abbrev pub last : Ptr → List Cell → Ptr
last p [] = p
last p (x ∷ xs) = last x.ptr xs

-- the memory of a doubly linked list behind `p` that ends at `stop`
unfoldable pub layout : Ptr → List Cell → Ptr → Ptr → Option LruNode
layout p [] stop a = none
layout p (x ∷ xs) stop a =
    if a == x.ptr then some (cell_node x p (first xs stop)) else layout x.ptr xs stop a

abbrev pub has : Ptr → List Cell → Bool
has a [] = false
has a (x ∷ xs) = (a == x.ptr) || has a xs

unfoldable pub has_key : Bytes → List Cell → Bool
has_key k [] = false
has_key k (x ∷ xs) = str_eq x.key k || has_key k xs

-- The nodes lie at different addresses, none of them NULL, and hold different keys.
abbrev pub Distinct : List Cell → Type 0
Distinct [] = Unit
Distinct (x ∷ xs) =
    (x.ptr ≢ null) × (has x.ptr xs ≡ false) × (has_key x.key xs ≡ false) × Distinct xs

-- `c` with exactly the entries `xs` in its list
abbrev pub linked : LruCache → List Cell → LruCache
linked c xs = record c { head = first xs null; tail = last null xs; nodes = layout null xs null }

-- the same, and beside the list the node of `x` with links to `p` and `q`
abbrev pub loose : LruCache → Cell → Ptr → Ptr → List Cell → LruCache
loose c x p q xs = record c {
  head = first xs null;
  tail = last null xs;
  nodes = λ a. if a == x.ptr then some (cell_node x p q) else layout null xs null a;
}

abbrev pub or_else : Option LruNode → Option LruNode → Option LruNode
or_else none o = o
or_else (some n) o = some n

pub layout-append :
    (p : Ptr) (xs ys : List Cell) (stop a : Ptr)
    → layout p (xs ++ ys) stop a
      ≡ or_else (layout p xs (first ys stop) a) (layout (last p xs) ys stop a)
unfolding layout
layout-append p [] ys stop a = refl
layout-append p (x ∷ []) ys stop a = ground arith
layout-append p (x ∷ y ∷ xs) ys stop a = ground (arith, layout-append x.ptr (y ∷ xs) ys stop a)

pub layout-none :
    (p : Ptr) (xs : List Cell) (stop a : Ptr) → has a xs ≡ false → layout p xs stop a ≡ none
unfolding layout
layout-none p [] stop a h = refl
layout-none p (x ∷ xs) stop a h = ground (arith, layout-none x.ptr xs stop a)

pub last-append : (p : Ptr) (xs ys : List Cell) → last p (xs ++ ys) ≡ last (last p xs) ys
last-append p [] ys = refl
last-append p (x ∷ xs) ys = last-append x.ptr xs ys

pub has-append : (a : Ptr) (xs ys : List Cell) → has a (xs ++ ys) ≡ (has a xs || has a ys)
has-append a [] ys = refl
has-append a (x ∷ xs) ys = ground (arith, has-append a xs ys)

pub has_key-append :
    (k : Bytes) (xs ys : List Cell) → has_key k (xs ++ ys) ≡ (has_key k xs || has_key k ys)
unfolding has_key
has_key-append k [] ys = refl
has_key-append k (x ∷ xs) ys = ground (arith, has_key-append k xs ys)

-- An entry in the middle differs from those before it and behind it.
pub Distinct-middle :
    (xs : List Cell) (y : Cell) (ys : List Cell)
    → Distinct (xs ++ y ∷ ys)
    → (y.ptr ≢ null)
      × (has y.ptr xs ≡ false)
      × (has y.ptr ys ≡ false)
      × (has_key y.key xs ≡ false)
      × (has_key y.key ys ≡ false)
      × Distinct (xs ++ ys)
unfolding has_key
Distinct-middle [] y ys d = (d.0, refl, d.1, refl, d.2, d.3)
Distinct-middle (x ∷ xs) y ys (nonnull, unique, key, d) =
    let (a, b, c, e, f, g) = Distinct-middle xs y ys d in
    (
      a,
      ground (arith, has-append x.ptr xs (y ∷ ys)),
      c,
      ground (arith, has_key-append x.key xs (y ∷ ys), str_eq_sym x.key y.key),
      f,
      (
        nonnull,
        ground (arith, has-append x.ptr xs (y ∷ ys), has-append x.ptr xs ys),
        ground (arith, has_key-append x.key xs (y ∷ ys), has_key-append x.key xs ys),
        g,
      ),
    )

-- An address that is not in a list is not that of its last entry.
pub ne-last :
    (a p : Ptr) (xs : List Cell) (y : Cell) (ys : List Cell)
    → has a (xs ++ y ∷ ys) ≡ false
    → a ≢ last p (xs ++ y ∷ ys)
ne-last a p [] y [] h = ground arith
ne-last a p [] y (z ∷ ys) h = ne-last a y.ptr [] z ys (ground arith)
ne-last a p (x ∷ xs) y ys h = ne-last a x.ptr xs y ys (ground arith)

-- A list of two entries or more has its first and its last apart.
pub first-ne-last :
    (xs : List Cell) (y z : Cell) (zs : List Cell)
    → Distinct (xs ++ y ∷ z ∷ zs)
    → (first (xs ++ y ∷ z ∷ zs) null == last null (xs ++ y ∷ z ∷ zs)) ≡ false
first-ne-last [] y z zs d = ne→== y.ptr _ (ne-last y.ptr y.ptr [] z zs d.1)
first-ne-last (x ∷ xs) y z zs d = ne→== x.ptr _ (ne-last x.ptr x.ptr xs y (z ∷ zs) d.1)

-- An entry is not the first, if one stands before it.
pub ne-first :
    (a : Ptr) (xs : List Cell) (y : Cell) (ys : List Cell)
    → has a xs ≡ false
    → a ≢ y.ptr
    → (a == first (xs ++ y ∷ ys) null) ≡ false
ne-first a [] y ys h n = ground arith
ne-first a (x ∷ xs) y ys h n = ground arith

pub first-append :
    (xs : List Cell) (y : Cell) (ys zs : List Cell) (p : Ptr)
    → first (xs ++ y ∷ ys) p ≡ first (xs ++ y ∷ zs) p
first-append [] y ys zs p = refl
first-append (x ∷ xs) y ys zs p = refl

-- the node of an entry in the middle
pub layout_at :
    (p : Ptr) (xs : List Cell) (y : Cell) (ys : List Cell) (stop : Ptr)
    → has y.ptr xs ≡ false
    → layout p (xs ++ y ∷ ys) stop y.ptr ≡ some (cell_node y (last p xs) (first ys stop))
unfolding layout
layout_at p xs y ys stop h =
    ground (arith, layout-append p xs (y ∷ ys) stop y.ptr, layout-none p xs y.ptr y.ptr)

pub Distinct-front :
    (xs : List Cell) (y : Cell) (ys : List Cell)
    → Distinct (xs ++ y ∷ ys)
    → Distinct (y ∷ (xs ++ ys))
Distinct-front xs y ys d =
    let (a, b, c, e, f, g) = Distinct-middle xs y ys d in
    (a, ground (arith, has-append y.ptr xs ys), ground (arith, has_key-append y.key xs ys), g)
