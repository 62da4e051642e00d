-- ===== src/Pod/Reach.antt =====
-- The states that the operations of src/pod_cache.c lead to.
use podcache.Prelude.{
  ℕ, suc, ◌+◌, ◌<◌, ◌^◌, ◌≡◌, refl, sym, ap, subst, ◌∙◌, arith, Bytes, true, Option, some, length,
  get_elem?,
}
use podcache.Prelude.Int.{ℤ}
use podcache.Lru.State.{LruCache, success}
use podcache.Lru.Ops.{remove_tail}
use podcache.Lru.Put.{Grants}
use podcache.Hash.Djb2.{hash}
use podcache.Lru.Spec.{Entries}
use podcache.Cas as Cas
use podcache.Cas.{cas_get}
use podcache.Cas.Files.{FileSystem}
use podcache.Pod.{PodCache, get_partition, pod_cache_create}
use podcache.Pod.Ops.{Env, pod_cache_put, pod_cache_get, pod_cache_evict}
use podcache.Pod.Memory.{slot}
use podcache.Pod.Create.{pod_cache_create-IsPod, all_made}
use podcache.Pod.Invariant.{IsPod, Placed, Placed-remove, Placed-insert, Placed-drop_last}
use podcache.Pod.Partitions.{Holds}
use podcache.Pod.Each.{Each, Kept, Keeps}
use podcache.Pod.Each.Put.{pod_cache_put-Keeps}
use podcache.Pod.Each.Get.{pod_cache_get-Keeps, pod_cache_evict-Keeps}

-- The key's partition has memory for a new entry, and for one behind the removal of its tail.
pub record Supplied (env : Env) (cache : PodCache) (i : ℕ) : Type 0 where
  pub put : (c : LruCache) → get_elem? cache.partitions i ≡ some c → Grants env.put_alloc c
  pub retry :
      (c d : LruCache)
      → get_elem? cache.partitions i ≡ some c
      → remove_tail c ≡ some (success, d)
      → Grants env.retry_alloc d

pub same_start : {a b : PodCache} → some (some a) ≡ some (some b) → a ≡ b
same_start h = cc

pub slot_below :
    {F : Type 0} (fs : FileSystem F) (env : Env) (cache : PodCache) (key : Bytes) (files : F)
    (n : ℕ)
    → 0 < n
    → cache.partition_count ≡ n
    → slot fs env cache key files < n
unfolding get_partition
slot_below fs env cache key files n some_slot count = omega arith

module _ {F : Type 0} (fs : FileSystem F) where
  -- A call of an operation on a key that returns; what the disk holds may be anything that fits a size.
  pub data Step (env : Env) (key : Bytes) (cache : PodCache) (files : F)
      : PodCache → F → Type 0 where
    puts :
        (value : Bytes) {a : ℤ} {final : PodCache} {after : F}
        → Supplied env cache (slot fs env cache key files)
        → cache.partition_capacity + length value < 2 ^ 64
        → pod_cache_put fs env key value cache files ≡ some (a, final, after)
        → Step env key cache files final after
    gets :
        {a : ℤ × Option Bytes} {final : PodCache} {after : F}
        → Supplied env cache (slot fs env cache key files)
        → ((v : Bytes) (loaded : F)
            → cas_get fs env.cas_alloc cache.cas_registry key files ≡ some (some v, loaded)
            → cache.partition_capacity + length v < 2 ^ 64)
        → pod_cache_get fs env key cache files ≡ some (a, final, after)
        → Step env key cache files final after
    evicts :
        {a : ℕ} {final : PodCache} {after : F}
        → pod_cache_evict fs env key cache files ≡ some (a, final, after)
        → Step env key cache files final after

  -- The states behind calls, each on a key and in an environment of which `Fair` holds.
  pub data Reach (Fair : Env → Bytes → Type 0) (start : PodCache) (before : F)
      : PodCache → F → Type 0 where
    here : Reach Fair start before start before
    next :
        (env : Env) (key : Bytes) {cache final : PodCache} {files after : F}
        → Fair env key
        → Reach Fair start before cache files
        → Step env key cache files final after
        → Reach Fair start before final after

  module _ (n : ℕ) (some_slot : 0 < n) (base : Bytes) (P : F → ℕ → Entries → Type 0) where
    Step-Each :
        (env : Env) (key : Bytes) {cache final : PodCache} {files after : F}
        → Kept fs n base P env.cas_alloc env.now key
        → Step env key cache files final after
        → Each fs n base P cache files
        → Each fs n base P final after
    Step-Each env key {cache} {files = files} kept (puts value supplied word run) p =
        let i = slot fs env cache key files in
        let at = ap (get_partition (hash key)) (sym p.count) in
        let (es, held, said) = p.each i (slot_below fs env cache key files n some_slot p.count) in
        subst (Keeps fs n base P) run (
          pod_cache_put-Keeps fs n base P env key kept i value at cache files held p said
            (λ d h. supplied.retry held.partition d held.there h) word
            (supplied.put held.partition held.there))
    Step-Each env key {cache} {files = files} kept (gets supplied word run) p =
        let i = slot fs env cache key files in
        let at = ap (get_partition (hash key)) (sym p.count) in
        let (es, held, said) = p.each i (slot_below fs env cache key files n some_slot p.count) in
        subst (Keeps fs n base P) run (
          pod_cache_get-Keeps fs n base P env key kept i at cache files held p said
            (supplied.put held.partition held.there) word)
    Step-Each env key {cache} {files = files} kept (evicts run) p =
        let i = slot fs env cache key files in
        let at = ap (get_partition (hash key)) (sym p.count) in
        let (es, held, said) = p.each i (slot_below fs env cache key files n some_slot p.count) in
        subst (Keeps fs n base P) run
          (pod_cache_evict-Keeps fs n base P env key kept i at cache files held p said)

    -- An invariant that survives the steps of every fair call holds wherever they lead.
    pub Reach-Each :
        (Fair : Env → Bytes → Type 0) {start : PodCache} {before : F} {cache : PodCache} {files : F}
        → ((env : Env) (key : Bytes) → Fair env key → Kept fs n base P env.cas_alloc env.now key)
        → Each fs n base P start before
        → Reach Fair start before cache files
        → Each fs n base P cache files
    Reach-Each Fair kept p here = p
    Reach-Each Fair kept p (next env key fair r step) =
        Step-Each env key (kept env key fair) step (Reach-Each Fair kept p r)

  -- the invariant of `IsPod`, among `n` partitions
  abbrev AllPlaced : ℕ → F → ℕ → Entries → Type 0
  AllPlaced n files i es = Placed n i es

  AllPlaced-Kept :
      (n : ℕ) (base : Bytes) (alloc : Cas.Alloc) (now : ℕ) (key : Bytes)
      → Kept fs n base (AllPlaced n) alloc now key
  AllPlaced-Kept n base alloc now key = record {
    removed = λ {files} {i} {es} said. Placed-remove n i key es said;
    inserted = λ value {files} {i} {es} at said. Placed-insert n i key value es at said;
    spilled = λ c registry path {files} {after} {i} {es} r last same run said.
        Placed-drop_last n i es said;
    unspilled = λ c registry r rep last same run said. said;
    beside = λ registry r last same run said ne told. told;
    evicted = λ registry r same run said. said;
  }

  -- any call
  abbrev pub Any : Env → Bytes → Type 0
  Any env key = Unit {0}

  -- From the cache that `pod_cache_create` returns with every allocation granted, any sequence of
  -- calls of put, get and evict that return, in any order and with any file system, leads to a valid
  -- cache: every partition is a valid LRU cache within the capacity of a partition, and holds only keys
  -- that belong there. The allocations for nodes are granted, and no sum of sizes wraps around.
  pub Reach-IsPod :
      (base_path : Bytes) (capacity n : ℕ) (before : F) {start cache : PodCache} {files : F}
      → capacity < 2 ^ 64
      → pod_cache_create true true true true all_made base_path capacity (suc n) ≡ some (some start)
      → Reach Any start before cache files
      → IsPod cache
  Reach-IsPod base_path capacity n before {start} {cache} {files} small made reached =
      let (first, run, valid, count, _, _, _, _) =
        pod_cache_create-IsPod base_path capacity n small in
      let same : first ≡ start = same_start (sym run ∙ made) in
      let q =
        Reach-Each (suc n) (omega arith) start.cas_registry.base_path (AllPlaced (suc n)) Any
          (λ env key fair.
            AllPlaced-Kept (suc n) start.cas_registry.base_path env.cas_alloc env.now key)
          (record {
            count = subst (λ (c : PodCache). c.partition_count ≡ suc n) same count;
            store = refl;
            each =
                subst
                  (λ (c : PodCache).
                    (i : ℕ) → i < suc n → (es : Entries) × Holds c i es × Placed (suc n) i es)
                  same
                  (subst (λ m. (i : ℕ) → i < m → (es : Entries) × Holds first i es × Placed m i es)
                    count valid.each);
          })
          reached in
      record {
        slots = omega (arith, q.count);
        each =
            subst (λ m. (i : ℕ) → i < m → (es : Entries) × Holds cache i es × Placed m i es)
              (sym q.count) q.each;
      }
