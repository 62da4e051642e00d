-- ===== src/Pod/Each.antt =====
-- Invariants of the partitions of src/pod_cache.c and of the files, and what keeps them.
pub mod Put
pub mod Get
use podcache.Prelude.{
  ℕ, ◌<◌, ◌≡◌, ◌≢◌, refl, sym, subst, ◌∙◌, ap, arith, Bytes, Option, none, some, false, ◌==◌,
  ==_iff, Bool-cases, inl, inr,
}
use podcache.Hash.Djb2.{hash}
use podcache.Lru.State.{LruCache}
use podcache.Lru.Spec.{Entries, insert, remove, drop_last, last_entry}
use podcache.Lru.Invariant.{Represents, Serves}
use podcache.Cas as Cas
use podcache.Cas.{CasRegistry, CasStatus, cas_put, cas_evict}
use podcache.Cas.Files.{FileSystem}
use podcache.Pod.{PodCache, Pod, and_then, get_partition}
use podcache.Pod.Ops.{finish}
use podcache.Pod.Partitions.{
  Holds, SameBeside, with_partition, with_partition-Holds, with_partition-SameBeside,
}

not_same : (j i : ℕ) → (j == i) ≡ false → j ≢ i
not_same j i h e = ground arith

-- What is said of the entries of a partition among `n` and of the files, for a store in `base`.
module _ {F : Type 0} (fs : FileSystem F) (n : ℕ) (base : Bytes)
    (P : F → ℕ → Entries → Type 0) where
  -- Every partition is a valid cache of the same capacity, of whose entries it holds.
  pub record Each (cache : PodCache) (files : F) : Type 0 where
    pub count : cache.partition_count ≡ n
    pub store : cache.cas_registry.base_path ≡ base
    pub each : (i : ℕ) → i < n → (es : Entries) × Holds cache i es × P files i es

-- One invariant may turn into another.
module _ {F : Type 0} (fs : FileSystem F) (n : ℕ) (base : Bytes)
    (P Q : F → ℕ → Entries → Type 0) where
  -- An operation on one partition, which may change the files too.
  pub Each-beside :
      {cache final : PodCache} {files after : F} {i : ℕ} {es : Entries}
      → Each fs n base P cache files
      → SameBeside i cache final
      → Holds final i es
      → Q after i es
      → ((j : ℕ) (ds : Entries) → j ≢ i → P files j ds → Q after j ds)
      → Each fs n base Q final after
  Each-beside {cache} {final} {files} {after} {i} {es} p beside held said others = record {
    count = beside.count ∙ p.count;
    store = beside.store ∙ p.store;
    each = λ j below. elim (Bool-cases (j == i)) [
      | inl same ↦
          let at : i ≡ j = sym ((==_iff j i).0 same) in
          subst (λ m. (ds : Entries) × Holds final m ds × Q after m ds) at (es, held, said)
      | inr other ↦
          let (ds, was, told) = p.each j below in
          let ne = not_same j i other in
          (
            ds,
            record {
              partition = was.partition;
              there = beside.others j ne ∙ was.there;
              represents = was.represents;
              capacity = was.capacity ∙ sym beside.capacity;
            },
            others j ds ne told,
          )
    ];
  }

module _ {F : Type 0} (fs : FileSystem F) (n : ℕ) (base : Bytes)
    (P : F → ℕ → Entries → Type 0) where
  -- It survives the steps of an operation on the key: changes of the key's entry, the spill of the last
  -- entry of its partition, whether it succeeds or not, and the removal of the key from the disk.
  pub record Kept (alloc : Cas.Alloc) (now : ℕ) (key : Bytes) : Type 0 where
    pub removed : {files : F} {i : ℕ} {es : Entries} → P files i es → P files i (remove key es)
    pub inserted :
        (value : Bytes) {files : F} {i : ℕ} {es : Entries}
        → get_partition (hash key) n ≡ i
        → P files i es
        → P files i (insert key value es)
    pub spilled :
        (c : LruCache) (registry : CasRegistry) (path : Bytes) {files after : F} {i : ℕ}
        {es : Entries} {e : Bytes × Bytes}
        → Represents c es
        → last_entry es ≡ some e
        → registry.base_path ≡ base
        → cas_put fs alloc now registry e.0 e.1 files ≡ some ((Cas.success, path), after)
        → P files i es
        → P after i (drop_last es)
    pub unspilled :
        (c : LruCache) (registry : CasRegistry) (r : CasStatus × Bytes) {files after : F} {i : ℕ}
        {es : Entries} {e : Bytes × Bytes}
        → Represents c es
        → last_entry es ≡ some e
        → registry.base_path ≡ base
        → cas_put fs alloc now registry e.0 e.1 files ≡ some (r, after)
        → P files i es
        → P after i es
    pub beside :
        (registry : CasRegistry) (r : CasStatus × Bytes) {files after : F} {i j : ℕ}
        {es ds : Entries} {e : Bytes × Bytes}
        → last_entry es ≡ some e
        → registry.base_path ≡ base
        → cas_put fs alloc now registry e.0 e.1 files ≡ some (r, after)
        → P files i es
        → j ≢ i
        → P files j ds
        → P after j ds
    pub evicted :
        (registry : CasRegistry) (r : CasStatus × CasRegistry) {files after : F} {i : ℕ}
        {es : Entries}
        → registry.base_path ≡ base
        → cas_evict fs alloc key registry files ≡ some (r, after)
        → P files i es
        → P after i es

  -- The run, if it does not fault, leaves it true.
  abbrev pub Keeps : {A : Type 0} → Option (A × PodCache × F) → Type 0
  Keeps none = Unit {0}
  Keeps (some (a, final, files)) = Each fs n base P final files

  pub Each-registry :
      {cache : PodCache} {files : F} (r : CasRegistry)
      → r.base_path ≡ base
      → Each fs n base P cache files
      → Each fs n base P (record cache { cas_registry = r }) files
  Each-registry r same p = record {
    count = p.count;
    store = same;
    each = λ j below.
        let (ds, was, said) = p.each j below in
        (
          ds,
          record {
            partition = was.partition;
            there = was.there;
            represents = was.represents;
            capacity = was.capacity;
          },
          said,
        );
  }

  -- A change of the files alone.
  pub Each-files :
      {cache : PodCache} {files after : F}
      → ((i : ℕ) (es : Entries) → P files i es → P after i es)
      → Each fs n base P cache files
      → Each fs n base P cache after
  Each-files keep p = record {
    count = p.count;
    store = p.store;
    each = λ j below. let (ds, was, said) = p.each j below in (ds, was, keep j ds said);
  }

  -- the cache behind an operation of partition `i`
  pub served-Each :
      (cache : PodCache) (i : ℕ) (files : F) {es ds : Entries} (held : Holds cache i es)
      {A : Type 0} {run : Option (A × LruCache)} {a : A}
      → Each fs n base P cache files
      → (s : Serves held.partition run a ds) → P files i ds
      → Each fs n base P (with_partition cache i held s.final) files
  served-Each cache i files held p s said =
      Each-beside fs n base P P p (with_partition-SameBeside cache i held s.final)
        (with_partition-Holds cache i held s.final s.represents s.capacity) said (λ j ds ne t. t)

  -- an operation of the store, with what follows it
  pub on_disk-Keeps :
      {A B : Type 0} (o : Option (A × F)) (cache : PodCache) (files : F) (k : A → Pod F B)
      → ((a : A) (after : F) → o ≡ some (a, after) → Keeps (k a cache after))
      → Keeps (and_then (finish fs o cache files) k)
  on_disk-Keeps none cache files k h = tt
  on_disk-Keeps (some (a, after)) cache files k h = h a after refl
