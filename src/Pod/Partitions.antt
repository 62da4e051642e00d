-- ===== src/Pod/Partitions.antt =====
-- What an operation on one partition does to a cache of them, for src/pod_cache.c.
use podcache.Prelude.{
  ℕ, zero, suc, Option, some, List, [], ◌∷◌, get_elem?, ◌≡◌, ◌≢◌, refl, sym, ◌∙◌, ap, Bytes, ◌+◌,
  ◌<◌, ◌^◌, length, lt→ltb, arith,
}
use podcache.Lru.State.{LruCache, Cmd, success}
use podcache.Lru.Ops.{Alloc, put}
use podcache.Lru.Put.{Grants, put-refines}
use podcache.Lru.Spec.{Entries, insert, total}
use podcache.Lru.Invariant.{Represents, Serves}
use podcache.Pod.{PodCache, set, on_partition}

-- Partition `i` is a valid cache with the entries `es`.
pub record Holds (cache : PodCache) (i : ℕ) (es : Entries) : Type 0 where
  pub partition : LruCache
  pub there : get_elem? cache.partitions i ≡ some partition
  pub represents : Represents partition es
  pub capacity : partition.max_bytes_capacity ≡ cache.partition_capacity

-- The two caches differ in partition `i` and in the entries of the registry at most.
pub record SameBeside (i : ℕ) (cache final : PodCache) : Type 0 where
  pub others : (j : ℕ) → j ≢ i → get_elem? final.partitions j ≡ get_elem? cache.partitions j
  pub count : final.partition_count ≡ cache.partition_count
  pub capacity : final.partition_capacity ≡ cache.partition_capacity
  pub store : final.cas_registry.base_path ≡ cache.cas_registry.base_path

-- The run returns `a`, with the files `after` behind it; partition `i` holds `es` then, and the others
-- are as they were.
pub record Works {F A : Type 0} (cache : PodCache) (i : ℕ) (run : Option (A × PodCache × F)) (a : A)
    (es : Entries) (after : F) : Type 0 where
  pub final : PodCache
  pub runs : run ≡ some (a, final, after)
  pub holds : Holds final i es
  pub beside : SameBeside i cache final

pub set-same :
    (i : ℕ) (c d : LruCache) (cs : List LruCache)
    → get_elem? cs i ≡ some d
    → get_elem? (set i c cs) i ≡ some c
set-same i c d [] h = cc
set-same zero c d (x ∷ cs) h = refl
set-same (suc i) c d (x ∷ cs) h = set-same i c d cs h

set-other :
    (i j : ℕ) (c : LruCache) (cs : List LruCache)
    → j ≢ i
    → get_elem? (set i c cs) j ≡ get_elem? cs j
set-other i j c [] h = refl
set-other zero zero c (x ∷ cs) h = absurd (h refl)
set-other zero (suc j) c (x ∷ cs) h = refl
set-other (suc i) zero c (x ∷ cs) h = refl
set-other (suc i) (suc j) c (x ∷ cs) h = set-other i j c cs (λ e. h (ap suc e))

set_self : (i : ℕ) (c : LruCache) (cs : List LruCache) → get_elem? cs i ≡ some c → set i c cs ≡ cs
set_self i c [] h = cc
set_self zero c (x ∷ cs) h = let same : x ≡ c = cc in ap (λ y. y ∷ cs) (sym same)
set_self (suc i) c (x ∷ cs) h = ap (◌∷◌ x) (set_self i c cs h)

pub SameBeside-trans :
    {i : ℕ} {a b c : PodCache} → SameBeside i a b → SameBeside i b c → SameBeside i a c
SameBeside-trans p q = record {
  others = λ j h. q.others j h ∙ p.others j h;
  count = q.count ∙ p.count;
  capacity = q.capacity ∙ p.capacity;
  store = q.store ∙ p.store;
}

module _ (cache : PodCache) (i : ℕ) {es : Entries} (held : Holds cache i es) where
  -- the cache with another partition `i`
  abbrev pub with_partition : LruCache → PodCache
  with_partition c = record cache { partitions = set i c cache.partitions }

  pub with_partition-Holds :
      (c : LruCache) {ds : Entries}
      → Represents c ds
      → c.max_bytes_capacity ≡ held.partition.max_bytes_capacity
      → Holds (with_partition c) i ds
  with_partition-Holds c r e = record {
    partition = c;
    there = set-same i c held.partition cache.partitions held.there;
    represents = r;
    capacity = e ∙ held.capacity;
  }

  pub with_partition-SameBeside : (c : LruCache) → SameBeside i cache (with_partition c)
  with_partition-SameBeside c = record {
    others = λ j h. set-other i j c cache.partitions h;
    count = refl;
    capacity = refl;
    store = refl;
  }

  pub on_partition-runs :
      {F A : Type 0} (files : F) (m : Cmd A) {a : A} (c : LruCache)
      → m held.partition ≡ some (a, c)
      → on_partition i m cache files ≡ some (a, with_partition c, files)
  unfolding on_partition
  on_partition-runs files m c h = rw (held.there, h) refl

  -- an operation that only reads
  pub on_partition-reads :
      {F A : Type 0} (files : F) (m : Cmd A) {a : A}
      → m held.partition ≡ some (a, held.partition)
      → on_partition i m cache files ≡ some (a, cache, files)
  on_partition-reads files m {a} h =
      on_partition-runs files m held.partition h
      ∙ ap (λ cs. some (a, record cache { partitions = cs }, files))
          (set_self i held.partition cache.partitions held.there)

module _ {F : Type 0} (cache : PodCache) (i : ℕ) (files : F) where
  -- an operation of the partition, carried over to the cache
  pub on_partition-Works :
      {A : Type 0} {es ds : Entries} {a : A} (m : Cmd A) (held : Holds cache i es)
      → Serves held.partition (m held.partition) a ds
      → Works cache i (on_partition i m cache files) a ds files
  on_partition-Works m held s = record {
    final = with_partition cache i held s.final;
    runs = on_partition-runs cache i held files m s.final s.runs;
    holds = with_partition-Holds cache i held s.final s.represents s.capacity;
    beside = with_partition-SameBeside cache i held s.final;
  }

  -- `lru_cache_put` into the partition, with room
  pub put_room-Works :
      {es : Entries} (alloc : Alloc) (now : ℕ) (k v : Bytes) (held : Holds cache i es)
      → Grants alloc held.partition
      → cache.partition_capacity + length v < 2 ^ 64
      → total es + length v < cache.partition_capacity
      → Works cache i (on_partition i (put alloc now k v) cache files) success (insert k v es) files
  put_room-Works {es} alloc now k v held g word room =
      let full_capacity = held.capacity in
      let r = put-refines alloc now k v held.partition held.represents g (omega arith) in
      on_partition-Works (put alloc now k v) held
        (rw (lt→ltb (total es + length v) held.partition.max_bytes_capacity (omega arith)) at r)
