-- ===== src/Lru/Table.antt =====
-- The hash table of a cache as a finite map from keys to node addresses.
use podcache.Prelude.{
  ℕ, ◌≡◌, ◌≢◌, refl, Bytes, false, Option, none, some, List, [], ◌∷◌, arith, ◌==◌, if◌then◌else◌,
  str_eq, str_eq→eq, str_eq_refl, str_eq_sym, Bool-cases, inl, inr, ==_refl, ne→==, subst, sym,
}
use native.Mathlib.Decide.{ℕ_discrete}
use podcache.Hash.Djb2.{hash_key}
use podcache.Lru.State.{Ptr, HashNode}
use podcache.Lru.Ops.{find, drop_key, drop_ptr}

abbrev pub Index : Type 0
Index = Bytes → Option Ptr

-- the index without a key, and with a key at an address
abbrev pub without : Bytes → Index → Index
without k f j = if str_eq k j then none else f j

abbrev pub with_key : Bytes → Ptr → Index → Index
with_key k p f j = if str_eq k j then some p else f j

abbrev pub node_of : Option HashNode → Option Ptr
node_of none = none
node_of (some h) = some h.node

-- The nodes of chain `i` carry keys of that bucket, no key twice, and point where the index says.
abbrev pub IsChain : ℕ → ℕ → Index → List HashNode → Type 0
IsChain n i f [] = Unit
IsChain n i f (h ∷ hs) =
    (hash_key h.key n ≡ i) × (f h.key ≡ some h.node) × (find h.key hs ≡ none) × IsChain n i f hs

-- A table of `n` buckets holds exactly the index.
pub record Holds (n : ℕ) (buckets : ℕ → List HashNode) (f : Index) : Type 0 where
  pub chains : (i : ℕ) → IsChain n i f (buckets i)
  pub complete : (k : Bytes) → node_of (find k (buckets (hash_key k n))) ≡ f k

abbrev pub replace : (ℕ → List HashNode) → ℕ → List HashNode → ℕ → List HashNode
replace buckets i chain j = if j == i then chain else buckets j

module _ (n i : ℕ) (f : Index) where
  -- chains of other buckets, and chains without the key, do not notice a change at the key
  IsChain-other :
      (g : Index) (k : Bytes) (hs : List HashNode)
      → ((j : Bytes) → str_eq k j ≡ false → g j ≡ f j)
      → find k hs ≡ none
      → IsChain n i f hs
      → IsChain n i g hs
  unfolding find
  IsChain-other g k [] same absent c = tt
  IsChain-other g k (h ∷ hs) same absent (at, points, once, c) = (
    at,
    ground (arith, same h.key, str_eq_sym k h.key),
    once,
    IsChain-other g k hs same (ground arith) c,
  )

  find-other :
      (k : Bytes) (hs : List HashNode) → hash_key k n ≢ i → IsChain n i f hs → find k hs ≡ none
  unfolding find
  find-other k [] ne c = refl
  find-other k (h ∷ hs) ne (at, points, once, c) =
      ground (arith, find-other k hs ne c, str_eq→eq h.key k)

  find-drop_key-none :
      (j k : Bytes) (hs : List HashNode) → find j hs ≡ none → find j (drop_key k hs) ≡ none
  unfolding find drop_key
  find-drop_key-none j k [] h = refl
  find-drop_key-none j k (x ∷ hs) h = ground (arith, find-drop_key-none j k hs)

  find-drop_key_self :
      (k : Bytes) (hs : List HashNode) → IsChain n i f hs → find k (drop_key k hs) ≡ none
  unfolding find drop_key
  find-drop_key_self k [] c = refl
  find-drop_key_self k (x ∷ hs) (at, points, once, c) =
      ground (arith, find-drop_key_self k hs c, str_eq→eq x.key k)

  IsChain-drop_key :
      (k : Bytes) (hs : List HashNode)
      → IsChain n i f hs
      → IsChain n i (without k f) (drop_key k hs)
  unfolding drop_key
  IsChain-drop_key k [] c = tt
  IsChain-drop_key k (x ∷ hs) (at, points, once, c) = elim (Bool-cases (str_eq x.key k)) [
    | inl e ↦
        rw e (IsChain-other (without k f) k hs (λ j ne. rw ne) (rw (str_eq→eq x.key k e) at once) c)
    | inr e ↦
        rw e (
          at,
          rw (str_eq_sym, e) points,
          find-drop_key-none x.key k hs once,
          IsChain-drop_key k hs c,
        )
  ]

find-drop_key_ne :
    (j k : Bytes) (hs : List HashNode) → str_eq k j ≡ false → find j (drop_key k hs) ≡ find j hs
unfolding find drop_key
find-drop_key_ne j k [] h = refl
find-drop_key_ne j k (x ∷ hs) h =
    ground (arith, find-drop_key_ne j k hs h, str_eq→eq x.key k, str_eq→eq x.key j, str_eq_refl k)

-- Removing by address is removing by key, where the index gives the address to that key alone.
drop_ptr-drop_key :
    (n i : ℕ) (f : Index) (k : Bytes) (p : Ptr) (hs : List HashNode)
    → f k ≡ some p
    → ((j : Bytes) → f j ≡ some p → j ≡ k)
    → IsChain n i f hs
    → drop_ptr p hs ≡ drop_key k hs
unfolding drop_ptr drop_key
drop_ptr-drop_key n i f k p [] at only c = refl
drop_ptr-drop_key n i f k p (x ∷ hs) at only (_, points, once, c) =
    ground (
      arith,
      drop_ptr-drop_key n i f k p hs at only c,
      only x.key,
      str_eq→eq x.key k,
      str_eq_refl k,
    )

-- What holds of the new chain and of the others holds of every chain.
replace_all :
    (P : ℕ → List HashNode → Type 0) (buckets : ℕ → List HashNode) (b : ℕ) (chain : List HashNode)
    → P b chain
    → ((i : ℕ) → b ≢ i → P i (buckets i))
    → (i : ℕ) → P i (replace buckets b chain i)
replace_all P buckets b chain new old i = elim (ℕ_discrete i b) [
  | yes e ↦ subst (λ m. P m (replace buckets b chain m)) (sym e) (rw ==_refl new)
  | no e ↦ rw (ne→== i b e) (old i (λ p. e (sym p)))
]

module _ {n : ℕ} {buckets : ℕ → List HashNode} {f : Index} (t : Holds n buckets f) (k : Bytes) where
  abbrev pub bucket : ℕ
  bucket = hash_key k n

  IsChain-ne :
      (g : Index) (i : ℕ)
      → ((j : Bytes) → str_eq k j ≡ false → g j ≡ f j)
      → bucket ≢ i
      → IsChain n i g (buckets i)
  IsChain-ne g i same ne =
      let c = t.chains i in
      IsChain-other n i f g k (buckets i) same (find-other n i f k (buckets i) ne c) c

  -- Dropping a key from its chain drops it from the index.
  pub Holds-without : Holds n (replace buckets bucket (drop_key k (buckets bucket))) (without k f)
  Holds-without = record {
    chains =
        replace_all (λ i. IsChain n i (without k f)) buckets bucket _
          (IsChain-drop_key n bucket f k (buckets bucket) (t.chains bucket))
          (λ i. IsChain-ne (without k f) i (λ j ne. rw ne));
    complete = λ j. elim (Bool-cases (str_eq k j)) [
      | inl e ↦
          ground (
            arith,
            str_eq→eq k j,
            find-drop_key_self n bucket f k (buckets bucket) (t.chains bucket),
          )
      | inr e ↦ ground (arith, find-drop_key_ne j k (buckets bucket) e, t.complete j)
    ];
  }

  -- A new node in front of its chain adds its key to the index.
  pub Holds-with_key :
      (p : Ptr)
      → f k ≡ none
      → Holds n
          (replace buckets bucket (record { key = k; node = p } ∷ buckets bucket))
          (with_key k p f)
  unfolding find
  Holds-with_key p new = record {
    chains =
        replace_all (λ i. IsChain n i (with_key k p f)) buckets bucket _
          (
            refl,
            rw str_eq_refl,
            absent,
            IsChain-other n bucket f (with_key k p f) k (buckets bucket) (λ j ne. rw ne) absent
                (t.chains bucket),
          )
          (λ i. IsChain-ne (with_key k p f) i (λ j ne. rw ne));
    complete = λ j. ground (arith, str_eq→eq k j, t.complete j);
  }
    where
      absent : find k (buckets bucket) ≡ none
      absent = ground (arith, t.complete k)

  -- `lru_cache_remove_tail` removes by address.
  pub drop_ptr-eq :
      (p : Ptr)
      → f k ≡ some p
      → ((j : Bytes) → f j ≡ some p → j ≡ k)
      → drop_ptr p (buckets bucket) ≡ drop_key k (buckets bucket)
  drop_ptr-eq p at only =
      drop_ptr-drop_key n bucket f k p (buckets bucket) at only (t.chains bucket)
