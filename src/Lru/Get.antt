-- ===== src/Lru/Get.antt =====
-- `lru_cache_get` against the specification.
use podcache.Prelude.{
  ◌≡◌, refl, sym, subst, ap, ◌∙◌, Bytes, Bool, true, false, Option, none, some, List, ◌∷◌, ◌++◌,
  arith,
}
use podcache.Lru.State.{LruCache, HashNode, Status, success, error, not_found}
use podcache.Lru.Layout.{Cell, linked, Distinct}
use podcache.Lru.Links.Move.{move_to_head-front}
use podcache.Lru.Table.{node_of}
use podcache.Lru.Ops.{find, get, get_found}
use podcache.Hash.Djb2.{hash_key}
use podcache.Lru.Spec.{Entries, lookup, touch, remove}
use podcache.Lru.Invariant.{
  touch-none, touch-some, remove-Found, value_of, ptr_of, IsCache, Represents, Serves, view,
  cell_of, find_cell, lookup-view,
}
use podcache.Lru.Steps.{read_bucket-some, load_cell, copy_value_cell, IsCache-front}

-- what `lru_cache_get` answers for the value that is looked up
abbrev pub reply : Option Bytes → Status × Option Bytes
reply none = (not_found, none)
reply (some v) = (success, some v)

module _ (c : LruCache) (k : Bytes) where
  get-found :
      (b : Bool) (xs : List Cell)
      → IsCache c xs
      → get b k c ≡ get_found b (find k (c.buckets (hash_key k c.hash_table_size))) c
  unfolding get
  get-found b xs v = rw (read_bucket-some c k v.slots)

  get_found-hit :
      (o : Option HashNode) (x : Cell) (xs ys : List Cell)
      → node_of o ≡ some x.ptr
      → Distinct (xs ++ x ∷ ys)
      → get_found true o (linked c (xs ++ x ∷ ys))
        ≡ some ((success, some x.value), linked c (x ∷ (xs ++ ys)))
  unfolding get_found
  get_found-hit none x xs ys e d = cc
  get_found-hit (some h) x xs ys e d =
      let at : h.node ≡ x.ptr = cc in
      rw (at, load_cell c x xs ys d, copy_value_cell, move_to_head-front c x xs ys d)

  get_miss :
      (b : Bool) (xs : List Cell)
      → IsCache c xs
      → cell_of k xs ≡ none
      → get b k c ≡ some ((not_found, none), c)
  unfolding get_found
  get_miss b xs v absent = get-found b xs v ∙ ground (arith, v.table.complete k)

  get_hit :
      (x : Cell) (xs ys : List Cell)
      → IsCache c (xs ++ x ∷ ys)
      → cell_of k (xs ++ x ∷ ys) ≡ some x
      → get true k c ≡ some ((success, some x.value), linked c (x ∷ (xs ++ ys)))
  get_hit x xs ys v found =
      let o = find k (c.buckets (hash_key k c.hash_table_size)) in
      get-found true (xs ++ x ∷ ys) v
      ∙ ap (get_found true o) v.memory
      ∙ get_found-hit o x xs ys (v.table.complete k ∙ ap ptr_of found) v.distinct

  get_cell :
      (xs : List Cell) (o : Option Cell)
      → IsCache c xs
      → cell_of k xs ≡ o
      → Serves c (get true k c) (reply (value_of o)) (touch k (view xs))
  get_cell xs none v e = record {
    final = c;
    runs = get_miss true xs v e;
    represents = record {
      cells = xs;
      valid = v;
      shows = sym (touch-none k (view xs) (lookup-view k xs ∙ ap value_of e));
    };
    capacity = refl;
  }
  get_cell xs (some x) v e =
      let f = find_cell k xs x e in
      let v' = subst (IsCache c) f.split v in
      record {
        final = linked c (x ∷ (f.before ++ f.behind));
        runs = get_hit x f.before f.behind v' (subst (λ l. cell_of k l ≡ some x) f.split e);
        represents = record {
          cells = x ∷ (f.before ++ f.behind);
          valid = IsCache-front c x f.before f.behind v';
          shows =
              ap (λ es. (x.key, x.value) ∷ es) (sym (remove-Found f v.distinct))
              ∙ ap (λ j. (j, x.value) ∷ remove k (view xs)) f.key
              ∙ sym (touch-some k (view xs) x.value (lookup-view k xs ∙ ap value_of e));
        };
        capacity = refl;
      }

  get_found-refused :
      (o : Option HashNode) (x : Cell) (xs ys : List Cell)
      → node_of o ≡ some x.ptr
      → Distinct (xs ++ x ∷ ys)
      → get_found false o (linked c (xs ++ x ∷ ys)) ≡ some ((error, none), linked c (xs ++ x ∷ ys))
  unfolding get_found
  get_found-refused none x xs ys e d = cc
  get_found-refused (some h) x xs ys e d =
      let at : h.node ≡ x.ptr = cc in rw (at, load_cell c x xs ys d) refl

  get_refused_cell :
      (xs : List Cell) (x : Cell)
      → IsCache c xs
      → cell_of k xs ≡ some x
      → get false k c ≡ some ((error, none), c)
  get_refused_cell xs x v e =
      let f = find_cell k xs x e in
      let o = find k (c.buckets (hash_key k c.hash_table_size)) in
      let v' = subst (IsCache c) f.split v in
      get-found false xs v
      ∙ ap (get_found false o) v'.memory
      ∙ get_found-refused o x f.before f.behind (v.table.complete k ∙ ap ptr_of e) v'.distinct
      ∙ ap (λ d. some ((error, none), d)) (sym v'.memory)

value_of-none : (o : Option Cell) → value_of o ≡ none → o ≡ none
value_of-none none h = refl
value_of-none (some x) h = cc

pub value_of-some : (o : Option Cell) {v : Bytes} → value_of o ≡ some v → (x : Cell) × (o ≡ some x)
value_of-some none h = cc
value_of-some (some x) h = (x, refl)

-- Without memory for the copy, `lru_cache_get` of a key that a valid cache has returns -1 and changes
-- nothing.
pub get_refused :
    (c : LruCache) (k : Bytes) {es : Entries} {v : Bytes}
    → Represents c es
    → lookup k es ≡ some v
    → get false k c ≡ some ((error, none), c)
get_refused c k r h =
    let shown = ap (lookup k) r.shows in
    let (x, e) = value_of-some (cell_of k r.cells) (sym (lookup-view k r.cells) ∙ shown ∙ h) in
    get_refused_cell c k r.cells x r.valid e

-- A key without an entry is not found, whatever the memory, and nothing changes.
pub get_absent :
    (b : Bool) (c : LruCache) (k : Bytes) {es : Entries}
    → Represents c es
    → lookup k es ≡ none
    → get b k c ≡ some ((not_found, none), c)
get_absent b c k r h =
    get_miss c k b r.cells r.valid
      (value_of-none (cell_of k r.cells) (sym (lookup-view k r.cells) ∙ ap (lookup k) r.shows ∙ h))

-- `lru_cache_get` on a valid cache, with memory for the copy: it returns the value of the key, or
-- -100 if the key has none, and leaves a valid cache in which the key is the most recently used.
pub get-refines :
    (c : LruCache) (k : Bytes) {es : Entries}
    → Represents c es
    → Serves c (get true k c) (reply (lookup k es)) (touch k es)
get-refines c k r =
    subst (λ es. Serves c (get true k c) (reply (lookup k es)) (touch k es)) r.shows
      (rw lookup-view (get_cell c k r.cells (cell_of k r.cells) r.valid refl))
