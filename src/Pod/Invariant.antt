-- ===== src/Pod/Invariant.antt =====
-- The invariant of a cache of partitions, for src/pod_cache.c.
use podcache.Prelude.{
  ℕ, ◌<◌, ◌≡◌, sym, subst, ◌∙◌, arith, Bytes, [], ◌∷◌, Bool-cases, Option-cases, inl, inr, false,
  ◌==◌, ==_iff,
}
use podcache.Hash.Djb2.{hash}
use podcache.Lru.Spec.{Entries, lookup, remove, touch, insert, drop_last}
use podcache.Lru.Invariant.{touch-none, touch-some}
use podcache.Pod.{PodCache, get_partition}
use podcache.Pod.Partitions.{Holds, SameBeside}

-- Every key of the entries belongs in partition `i` of `n`.
abbrev pub Placed : ℕ → ℕ → Entries → Type 0
Placed n i [] = Unit {0}
Placed n i ((k, v) ∷ es) = (get_partition (hash k) n ≡ i) × Placed n i es

-- Every partition is a valid cache of the same capacity, whose entries belong there.
pub record IsPod (cache : PodCache) : Type 0 where
  pub slots : 0 < cache.partition_count
  pub each :
      (i : ℕ)
      → i < cache.partition_count
      → (es : Entries) × Holds cache i es × Placed cache.partition_count i es

pub Placed-remove : (n i : ℕ) (k : Bytes) (es : Entries) → Placed n i es → Placed n i (remove k es)
unfolding remove
Placed-remove n i k [] h = tt
Placed-remove n i k ((j, v) ∷ es) (here, h) = ground (arith, Placed-remove n i k es h)

pub Placed-insert :
    (n i : ℕ) (k v : Bytes) (es : Entries)
    → get_partition (hash k) n ≡ i
    → Placed n i es
    → Placed n i (insert k v es)
Placed-insert n i k v es here h = (here, Placed-remove n i k es h)

pub Placed-touch :
    (n i : ℕ) (k : Bytes) (es : Entries)
    → get_partition (hash k) n ≡ i
    → Placed n i es
    → Placed n i (touch k es)
Placed-touch n i k es here h = elim (Option-cases (lookup k es)) [
  | inl e ↦ rw (touch-none k es e) h
  | inr (v, e) ↦ rw (touch-some k es v e) (Placed-insert n i k v es here h)
]

pub Placed-drop_last : (n i : ℕ) (es : Entries) → Placed n i es → Placed n i (drop_last es)
unfolding drop_last
Placed-drop_last n i [] h = tt
Placed-drop_last n i (e ∷ []) h = tt
Placed-drop_last n i (e ∷ d ∷ es) (here, h) = (here, Placed-drop_last n i (d ∷ es) h)

not_same : (j i : ℕ) → j ≡ i → (j == i) ≡ false → ⊥
not_same j i e h = ground arith

-- An operation on one partition keeps the invariant.
pub SameBeside-IsPod :
    {cache final : PodCache} {i : ℕ} {es : Entries}
    → IsPod cache
    → SameBeside i cache final
    → Holds final i es
    → Placed cache.partition_count i es
    → IsPod final
SameBeside-IsPod {cache} {final} {i} {es} p beside held placed = record {
  slots = rw beside.count p.slots;
  each = λ j below. elim (Bool-cases (j == i)) [
    | inl same ↦
        let at : i ≡ j = sym ((==_iff j i).0 same) in
        subst (λ m. (ds : Entries) × Holds final m ds × Placed final.partition_count m ds) at
          (es, held, subst (λ m. Placed m i es) (sym beside.count) placed)
    | inr other ↦
        let (ds, was, where_it_was) = p.each j (rw beside.count at below) in
        (
          ds,
          record {
            partition = was.partition;
            there = beside.others j (λ e. not_same j i e other) ∙ was.there;
            represents = was.represents;
            capacity = was.capacity ∙ sym beside.capacity;
          },
          subst (λ m. Placed m j ds) (sym beside.count) where_it_was,
        )
  ];
}
