-- ===== src/Resp/Memory/Frees.antt =====
-- Strings that src/resp_parser.c frees, and the blocks around them.
use podcache.Prelude.{
  ℕ, ◌≤◌, ◌<◌, ◌≡◌, ◌≢◌, refl, ap, subst, ◌∙◌, true, Option, none, some, List, [], ◌∷◌, ◌++◌, ne→==,
  ==_refl, arith, Bool-cases, inl, inr,
}
use podcache.Resp.Memory.{Heap, is_live, without, free, free_strings, free_string_array}

abbrev pub heap : List ℕ → ℕ → Heap
heap l n = record { live = l; next = n }

-- Freeing the strings leaves the blocks `m` of `l`.
abbrev pub Freed : List (Option ℕ) → List ℕ → List ℕ → Type 0
Freed ps l m = (n : ℕ) → free_strings ps (heap l n) ≡ some (tt, heap m n)

-- The strings lie between two addresses.
abbrev pub Within : ℕ → ℕ → List (Option ℕ) → Type 0
Within e n [] = Unit {0}
Within e n (none ∷ ps) = Within e n ps
Within e n (some p ∷ ps) = (e < p) × (p < n) × Within e n ps

abbrev pub done : Heap → Option (Unit {0} × Heap)
done h = some (tt, h)

no_fault : {h : Heap} → none ≢ done h
no_fault e = cc

abbrev pub blocks_of : Option (Unit {0} × Heap) → List ℕ
blocks_of none = []
blocks_of (some (u, h)) = h.live

-- the two outcomes of a `free` in front of others
pub Freed-live :
    (p : ℕ) (ps : List (Option ℕ)) (l m : List ℕ)
    → Freed (some p ∷ ps) l m
    → (is_live p l ≡ true) × Freed ps (without p l) m
unfolding free_strings free
Freed-live p ps l m h = elim (Bool-cases (is_live p l)) [
  | inl e ↦ (e, λ n. rw e at h n)
  | inr e ↦ absurd (no_fault (rw e at h 0))
]

Freed-cons :
    (p : ℕ) (ps : List (Option ℕ)) (l m : List ℕ)
    → is_live p l ≡ true
    → Freed ps (without p l) m
    → Freed (some p ∷ ps) l m
unfolding free_strings free
Freed-cons p ps l m e h n = rw e (h n)

-- A block above all the strings stays.
pub frame :
    (e q : ℕ) (ps : List (Option ℕ)) (l m : List ℕ)
    → Within e q ps
    → Freed ps l m
    → Freed ps (q ∷ l) (q ∷ m)
unfolding free_strings free
frame e q [] l m w h =
    λ n. let same : l ≡ m = ap blocks_of (h 0) in ap (λ ds. done (heap (q ∷ ds) n)) same
frame e q (none ∷ ps) l m w h = frame e q ps l m w h
frame e q (some p ∷ ps) l m (_, below, w) h =
    let (there, rest) = Freed-live p ps l m h in
    let other = ne→== q p (λ same. omega (arith, same)) in
    Freed-cons p ps (q ∷ l) (q ∷ m) (rw (other, there) refl)
      (rw other (frame e q ps (without p l) m w rest))

without-without : (p q : ℕ) (l : List ℕ) → without p (without q l) ≡ without q (without p l)
without-without p q [] = refl
without-without p q (x ∷ l) = ground (arith, without-without p q l)

is_live-without : (p q : ℕ) (l : List ℕ) → p ≢ q → is_live p (without q l) ≡ is_live p l
is_live-without p q [] ne = refl
is_live-without p q (x ∷ l) ne = ground (arith, is_live-without p q l ne)

is_live_before : (p q : ℕ) (l : List ℕ) → is_live p (without q l) ≡ true → is_live p l ≡ true
is_live_before p q [] h = h
is_live_before p q (x ∷ l) h = ground (arith, is_live_before p q l)

-- A block that is none of the strings may be freed first.
pub sooner :
    (e n : ℕ) (ps : List (Option ℕ)) (l m : List ℕ)
    → Within e n ps
    → Freed ps l m
    → Freed ps (without e l) (without e m)
unfolding free_strings free
sooner e n [] l m w h =
    λ k. let same : l ≡ m = ap blocks_of (h 0) in ap (λ ds. done (heap (without e ds) k)) same
sooner e n (none ∷ ps) l m w h = sooner e n ps l m w h
sooner e n (some p ∷ ps) l m (above, _, w) h =
    let (there, rest) = Freed-live p ps l m h in
    let other : p ≢ e = λ same. omega (arith, same) in
    Freed-cons p ps (without e l) (without e m) (is_live-without p e l other ∙ there) (
      subst (λ ds. Freed ps ds (without e m)) (without-without e p l)
        (sooner e n ps (without p l) m w rest))

-- What the strings leave was there.
pub left_live :
    (e : ℕ) (ps : List (Option ℕ)) (l m : List ℕ)
    → Freed ps l m
    → is_live e m ≡ true
    → is_live e l ≡ true
unfolding free_strings free
left_live e [] l m h there = let same : l ≡ m = ap blocks_of (h 0) in rw same there
left_live e (none ∷ ps) l m h there = left_live e ps l m h there
left_live e (some p ∷ ps) l m h there =
    let (_, rest) = Freed-live p ps l m h in
    is_live_before e p l (left_live e ps (without p l) m rest there)

-- The strings and one more behind them.
pub Freed-snoc :
    (p : ℕ) (ps : List (Option ℕ)) (l m : List ℕ)
    → Freed ps l m
    → is_live p m ≡ true
    → Freed (ps ++ some p ∷ []) l (without p m)
unfolding free_strings free
Freed-snoc p [] l m h there = let same : l ≡ m = ap blocks_of (h 0) in λ n. rw (same, there) refl
Freed-snoc p (none ∷ ps) l m h there = Freed-snoc p ps l m h there
Freed-snoc p (some q ∷ ps) l m h there =
    let (live, rest) = Freed-live q ps l m h in
    Freed-cons q (ps ++ some p ∷ []) l (without p m) live
      (Freed-snoc p ps (without q l) m rest there)

pub Freed-none : (ps : List (Option ℕ)) (l m : List ℕ) → Freed ps l m → Freed (ps ++ none ∷ []) l m
unfolding free_strings free
Freed-none [] l m h = h
Freed-none (none ∷ ps) l m h = Freed-none ps l m h
Freed-none (some q ∷ ps) l m h =
    let (live, rest) = Freed-live q ps l m h in
    Freed-cons q (ps ++ none ∷ []) l m live (Freed-none ps (without q l) m rest)

pub Within-snoc :
    (e n k p : ℕ) (ps : List (Option ℕ))
    → n ≤ k
    → e < p
    → p < k
    → Within e n ps
    → Within e k (ps ++ some p ∷ [])
Within-snoc e n k p [] wide above below w = (above, below, tt)
Within-snoc e n k p (none ∷ ps) wide above below w = Within-snoc e n k p ps wide above below w
Within-snoc e n k p (some q ∷ ps) wide above below (a, b, w) =
    (a, omega arith, Within-snoc e n k p ps wide above below w)

pub Within-none : (e n : ℕ) (ps : List (Option ℕ)) → Within e n ps → Within e n (ps ++ none ∷ [])
Within-none e n [] w = tt
Within-none e n (none ∷ ps) w = Within-none e n ps w
Within-none e n (some q ∷ ps) (a, b, w) = (a, b, Within-none e n ps w)

-- `free_string_array` of an array and its strings
pub array_freed :
    (e n : ℕ) (ps : List (Option ℕ)) (l m : List ℕ)
    → Freed ps l (e ∷ m)
    → free_string_array (some e) ps (heap l n) ≡ done (heap m n)
unfolding free_string_array free
array_freed e n ps l m h = rw (h n, ==_refl) refl
