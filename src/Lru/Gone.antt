-- ===== src/Lru/Gone.antt =====
-- Keys that an operation of src/lru_cache.c has taken out of a cache, and keys that it leaves.
use podcache.Prelude.{
  ◌+◌, ◌≡◌, length, refl, sym, subst, ap, ◌∙◌, arith, Bytes, none, some, List, [], ◌∷◌, ◌++◌, inl,
  inr, snoc-cases, str_eq, false, ◌≢◌, str_eq→eq, str_eq_refl, ne→str_eq, Bool-cases,
}
use podcache.Lru.State.{LruCache}
use podcache.Lru.Layout.{Cell, Distinct, Distinct-middle}
use podcache.Lru.Spec.{Entries, lookup, insert, remove, drop_last, last_entry, total}
use podcache.Lru.Invariant.{
  Represents, view, view-append, drop_last-snoc, lookup-view, cell_of-none, value_of,
}
use podcache.Lru.Tail.{last_entry-snoc}

-- A key without an entry has none after another key is taken out.
pub lookup-remove_none :
    (j k : Bytes) (es : Entries) → lookup j es ≡ none → lookup j (remove k es) ≡ none
unfolding lookup remove
lookup-remove_none j k [] h = refl
lookup-remove_none j k ((i, v) ∷ es) h = ground (arith, lookup-remove_none j k es)

gone_snoc :
    (xs : List Cell) (x : Cell) {e : Bytes × Bytes}
    → Distinct (xs ++ x ∷ [])
    → last_entry (view (xs ++ x ∷ [])) ≡ some e
    → lookup e.0 (drop_last (view (xs ++ x ∷ []))) ≡ none
gone_snoc xs x {e} d h =
    let (_, _, _, absent, _, _) = Distinct-middle xs x [] d in
    let shown : view (xs ++ x ∷ []) ≡ view xs ++ (x.key, x.value) ∷ [] = view-append xs (x ∷ []) in
    let last_one : some (x.key, x.value) ≡ some e =
      sym (last_entry-snoc (view xs) (x.key, x.value)) ∙ ap last_entry (sym shown) ∙ h in
    let same : e.0 ≡ x.key = cc in
    ap (λ k. lookup k (drop_last (view (xs ++ x ∷ [])))) same
    ∙ ap (λ l. lookup x.key (drop_last l)) shown
    ∙ ap (lookup x.key) (drop_last-snoc (view xs) (x.key, x.value))
    ∙ lookup-view x.key xs
    ∙ ap value_of (cell_of-none x.key xs absent)

-- A key is out of a valid cache with its least recently used entry.
pub lookup-drop_last :
    (c : LruCache) {es : Entries} {e : Bytes × Bytes}
    → Represents c es
    → last_entry es ≡ some e
    → lookup e.0 (drop_last es) ≡ none
unfolding last_entry
lookup-drop_last c {es} {e} r h =
    subst (λ ds. lookup e.0 (drop_last ds) ≡ none) r.shows
      (elim (snoc-cases r.cells) [
        | inl bare ↦ absurd (no_entry (subst (λ l. last_entry (view l) ≡ some e) bare shown))
        | inr (xs, x, at) ↦
            subst (λ l. lookup e.0 (drop_last (view l)) ≡ none) (sym at)
              (gone_snoc xs x (subst Distinct at r.valid.distinct)
                (subst (λ l. last_entry (view l) ≡ some e) at shown))
      ])
  where
    shown : last_entry (view r.cells) ≡ some e
    shown = ap last_entry r.shows ∙ h

    no_entry : last_entry (view []) ≡ some e → ⊥
    no_entry f = cc

-- the sizes of the entries, the last one apart
pub total-last :
    (es : Entries) {e : Bytes × Bytes}
    → last_entry es ≡ some e
    → total es ≡ total (drop_last es) + length e.1
unfolding total drop_last last_entry
total-last [] h = cc
total-last (d ∷ []) {e} h = let same : d.1 ≡ e.1 = cc in omega (arith, ap length same)
total-last (d ∷ f ∷ es) h = omega (arith, total-last (f ∷ es) h)

-- A new key is neither among the entries without the last one nor the last one's.
pub lookup-drop_last-none :
    (k : Bytes) (es : Entries) → lookup k es ≡ none → lookup k (drop_last es) ≡ none
unfolding lookup drop_last
lookup-drop_last-none k [] h = refl
lookup-drop_last-none k (d ∷ []) h = refl
lookup-drop_last-none k (d ∷ f ∷ es) h = ground (arith, lookup-drop_last-none k (f ∷ es))

pub last_entry-other :
    (k : Bytes) (es : Entries) {e : Bytes × Bytes}
    → last_entry es ≡ some e
    → lookup k es ≡ none
    → str_eq e.0 k ≡ false
unfolding lookup last_entry
last_entry-other k [] h absent = cc
last_entry-other k (d ∷ []) h absent = ground arith
last_entry-other k (d ∷ f ∷ es) h absent = last_entry-other k (f ∷ es) h (ground arith)

pub lookup-remove_other :
    (j k : Bytes) (es : Entries) → j ≢ k → lookup k (remove j es) ≡ lookup k es
unfolding lookup remove
lookup-remove_other j k [] ne = refl
lookup-remove_other j k ((i, w) ∷ es) ne =
    let rest = lookup-remove_other j k es ne in
    let other = ne→str_eq j k ne in
    elim (Bool-cases (str_eq i j)) [
      | inl e ↦ let at : i ≡ j = str_eq→eq i j e in ground (arith, ap (λ x. str_eq x k) at)
      | inr e ↦ ground arith
    ]

pub lookup-insert_other :
    (j w k : Bytes) (es : Entries) → j ≢ k → lookup k (insert j w es) ≡ lookup k es
unfolding lookup
lookup-insert_other j w k es ne = rw (ne→str_eq j k ne) (lookup-remove_other j k es ne)

pub lookup-drop_last_other :
    (k : Bytes) (es : Entries) {e : Bytes × Bytes}
    → last_entry es ≡ some e
    → e.0 ≢ k
    → lookup k (drop_last es) ≡ lookup k es
unfolding lookup drop_last last_entry
lookup-drop_last_other k [] h ne = cc
lookup-drop_last_other k ((j, w) ∷ []) {e} h ne =
    let at : e.0 ≡ j = cc in
    let other : j ≢ k = λ same. ne (at ∙ same) in rw (ne→str_eq j k other) refl
lookup-drop_last_other k ((j, w) ∷ f ∷ es) h ne =
    ground (arith, lookup-drop_last_other k (f ∷ es) h ne)

-- The last entry is found, unless its key stands before it.
pub last_entry-lookup :
    (es : Entries) {e : Bytes × Bytes}
    → last_entry es ≡ some e
    → lookup e.0 (drop_last es) ≡ none
    → lookup e.0 es ≡ some e.1
unfolding lookup drop_last last_entry
last_entry-lookup [] h gone = cc
last_entry-lookup ((j, w) ∷ []) {e} h gone =
    let at : e.0 ≡ j = cc in let same : e.1 ≡ w = cc in rw (at, same, str_eq_refl j) refl
last_entry-lookup ((j, w) ∷ f ∷ es) {e} h gone = elim (Bool-cases (str_eq j e.0)) [
  | inl same ↦ absurd (there_is w (rw same at gone))
  | inr other ↦ rw other (last_entry-lookup (f ∷ es) h (rw other at gone))
]
  where
    there_is : (x : Bytes) → some x ≡ none → ⊥
    there_is x e = cc
