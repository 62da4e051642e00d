-- ===== src/Pod/Destroy.antt =====
-- `pod_cache_destroy` of src/pod_cache.c.
use podcache.Prelude.{
  ℕ, zero, suc, ◌≡◌, ◌<◌, ◌≤◌, refl, sym, ◌∙◌, subst, arith, none, some, [], length, get_elem?,
  Bool-cases, inl, inr, ◌==◌, ==_iff,
}
use podcache.Lru.State.{Ptr, LruCache}
use podcache.Lru.Destroy.{destroy, destroy-frees}
use podcache.Lru.Spec.{Entries}
use podcache.Cas.Cleanup.{cas_registry_destroy}
use podcache.Cas.Files.{FileSystem}
use podcache.Pod.{PodCache, Pod, pure, ◌>>◌, on_partition}
use podcache.Pod.Ops.{finish}
use podcache.Pod.Invariant.{IsPod}
use podcache.Pod.Partitions.{
  Holds, with_partition, with_partition-SameBeside, on_partition-runs, set-same,
}

-- the loop over the first `n` partitions, with fuel for the list of each
unfoldable pub destroy_partitions : {F : Type 0} → ℕ → ℕ → Pod F (Unit {0})
destroy_partitions fuel zero = pure tt
destroy_partitions fuel (suc i) = destroy_partitions fuel i >> on_partition i (destroy fuel)

-- The store, with fuel for its depth, and the partitions. What is left is behind it; the array and the
-- cache itself are freed.
unfoldable pub pod_cache_destroy : {F : Type 0} → FileSystem F → (depth fuel : ℕ) → Pod F (Unit {0})
pod_cache_destroy fs depth fuel = λ cache files.
    (finish fs (cas_registry_destroy fs depth cache.cas_registry files)
        >> destroy_partitions fuel cache.partition_count)
      cache files

-- Nothing is left of the nodes and the chains of a partition.
pub record Freed (cache : PodCache) (i : ℕ) : Type 0 where
  pub partition : LruCache
  pub there : get_elem? cache.partitions i ≡ some partition
  pub nodes : (p : Ptr) → partition.nodes p ≡ none
  pub chains : (j : ℕ) → partition.buckets j ≡ []

-- The first `n` partitions are freed, and the others are as they were.
record FreedBelow (n : ℕ) (cache final : PodCache) : Type 0 where
  below : (i : ℕ) → i < n → Freed final i
  others : (i : ℕ) → n ≤ i → get_elem? final.partitions i ≡ get_elem? cache.partitions i
  count : final.partition_count ≡ cache.partition_count
  capacity : final.partition_capacity ≡ cache.partition_capacity

module _ {F : Type 0} (cache : PodCache) (files : F) (fuel : ℕ) (p : IsPod cache)
    (enough : (i : ℕ) (es : Entries) → Holds cache i es → length es ≤ fuel) where
  -- the next partition
  free_next :
      (n : ℕ) (mid : PodCache)
      → n < cache.partition_count
      → FreedBelow n cache mid
      → (final : PodCache) × (on_partition n (destroy fuel) mid files ≡ some (tt, final, files))
        × FreedBelow (suc n) cache final
  free_next n mid inside done =
      let (es, held, _) = p.each n inside in
      let here : Holds mid n es = record {
        partition = held.partition;
        there = done.others n (omega arith) ∙ held.there;
        represents = held.represents;
        capacity = held.capacity ∙ sym done.capacity;
      } in
      let (c, run, nodes, chains) =
        destroy-frees held.partition fuel held.represents (enough n es held) in
      let final = with_partition mid n here c in
      let beside = with_partition-SameBeside mid n here c in
      (
        final,
        on_partition-runs mid n here files (destroy fuel) c run,
        record {
          below = λ i less. elim (Bool-cases (i == n)) [
            | inl e ↦
                let same : n ≡ i = sym ((==_iff i n).0 e) in
                subst (Freed final) same (record {
                  partition = c;
                  there = set-same n c held.partition mid.partitions here.there;
                  nodes = nodes;
                  chains = chains;
                })
            | inr e ↦
                let old = done.below i (ground arith) in
                record {
                  partition = old.partition;
                  there = beside.others i (λ f. ground arith) ∙ old.there;
                  nodes = old.nodes;
                  chains = old.chains;
                }
          ];
          others = λ i less. beside.others i (λ f. ground arith) ∙ done.others i (omega arith);
          count = done.count;
          capacity = done.capacity;
        },
      )

  free_all :
      (n : ℕ)
      → n ≤ cache.partition_count
      → (final : PodCache) × (destroy_partitions fuel n cache files ≡ some (tt, final, files))
        × FreedBelow n cache final
  unfolding destroy_partitions
  free_all zero inside = (
    cache,
    refl,
    record {
      below = λ i h. absurd (omega arith);
      others = λ i h. refl;
      count = refl;
      capacity = refl;
    },
  )
  free_all (suc n) inside =
      let (mid, first, done) = free_all n (omega arith) in
      let (final, run, more) = free_next n mid (omega arith) done in
      (final, rw (first, run) refl, more)

-- `pod_cache_destroy` of a valid cache, when the destruction of the store returns and the fuel is as
-- large as the number of entries of any partition: it returns without a fault, with the files that the
-- store left, and nothing is left of any partition's nodes and chains.
pub pod_cache_destroy-frees :
    {F : Type 0} (fs : FileSystem F) (depth fuel : ℕ) (cache : PodCache) (files : F) {after : F}
    → IsPod cache
    → ((i : ℕ) (es : Entries) → Holds cache i es → length es ≤ fuel)
    → cas_registry_destroy fs depth cache.cas_registry files ≡ some (tt, after)
    → (final : PodCache) × (pod_cache_destroy fs depth fuel cache files ≡ some (tt, final, after))
      × ((i : ℕ) → i < cache.partition_count → Freed final i)
unfolding pod_cache_destroy
pod_cache_destroy-frees fs depth fuel cache files {after} p enough emptied =
    let (final, run, done) =
      free_all cache after fuel p enough cache.partition_count (omega arith) in
    (final, rw (emptied, run) refl, done.below)
