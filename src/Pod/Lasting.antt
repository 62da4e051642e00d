-- ===== src/Pod/Lasting.antt =====
-- `pod_cache_get` of src/pod_cache.c behind `pod_cache_put` of the key and any calls on other keys.
use podcache.Prelude.{
  ℕ, suc, ◌<◌, ◌^◌, ◌+◌, ◌≡◌, ◌≢◌, ◌⊎◌, inl, inr, refl, sym, ap, subst, ◌∙◌, arith, Bytes, true,
  some, [], str_eq_refl, length, get_elem?,
}
use podcache.Prelude.Int.{ℤ, pos}
use podcache.Hash.Djb2.{hash}
use podcache.Hash.Sha256.{sha256_string}
use podcache.Lru.State.{LruCache}
use podcache.Lru.Spec.{Entries, lookup, insert, total}
use podcache.Lru.Invariant.{Represents}
use podcache.Cas.{directory}
use podcache.Cas.Files.{FileSystem}
use podcache.Cas.Posix.{Posix, Separate, Flushes}
use podcache.Cas.Stored.{granted, Stored}
use podcache.Pod.{PodCache, get_partition, pod_cache_create}
use podcache.Pod.Ops.{Env, pod_cache_get, pod_cache_put}
use podcache.Pod.Memory.{slot, pod_cache_put-room, pod_cache_get-hit}
use podcache.Pod.Create.{pod_cache_create-IsPod, all_made}
use podcache.Pod.Invariant.{Placed, Placed-remove, Placed-insert, Placed-drop_last}
use podcache.Pod.Partitions.{Holds}
use podcache.Pod.Each.{Each, Each-beside, Kept, Keeps}
use podcache.Pod.Return.{pod_cache_get-Stored}
use podcache.Pod.Reach.{Reach, Reach-Each, Supplied, slot_below, same_start}
use podcache.Pod.Survives.{Apart, Apart-remove, Apart-drop_last, Has, Says, Says-Kept}

-- A call on a key with another SHA-256 hash, with the store's allocations granted.
abbrev pub OnOther : Bytes → Env → Bytes → Type 0
OnOther k env key = (env.cas_alloc ≡ granted) × (sha256_string true k ≢ sha256_string true key)

lookup-insert : (j w : Bytes) (es : Entries) → lookup j (insert j w es) ≡ some w
unfolding lookup
lookup-insert j w es = rw (str_eq_refl j) refl

used : (c : LruCache) (es : Entries) → Represents c es → c.current_bytes_size ≡ total es
used c es r = r.valid.accounted ∙ ap total r.shows

module _ {F : Type 0} (fs : FileSystem F) (laws : Posix fs) (apart : Separate fs)
    (flushes : Flushes fs) (n : ℕ) (base k v : Bytes) where
  -- what is said of each partition before the key is used
  abbrev Keys : F → ℕ → Entries → Type 0
  Keys files i es = Placed n i es × Apart fs laws apart flushes n base k v es

  Keys-Kept :
      (env : Env) (key : Bytes) → OnOther k env key → Kept fs n base Keys env.cas_alloc env.now key
  Keys-Kept env key (ok, other) = record {
    removed = λ {files} {i} {es} said. (
      Placed-remove n i key es said.0,
      Apart-remove fs laws apart flushes n base k v key es said.1,
    );
    inserted = λ value {files} {i} {es} at said. (
      Placed-insert n i key value es at said.0,
      (inr other, Apart-remove fs laws apart flushes n base k v key es said.1),
    );
    spilled = λ c registry path {files} {after} {i} {es} r last same run said. (
      Placed-drop_last n i es said.0,
      Apart-drop_last fs laws apart flushes n base k v es said.1,
    );
    unspilled = λ c registry q r last same run said. said;
    beside = λ registry q last same run said ne told. told;
    evicted = λ registry q same run said. said;
  }

  Others-Kept :
      (env : Env) (key : Bytes)
      → OnOther k env key
      → Kept fs n base (Says fs laws apart flushes n base k v) env.cas_alloc env.now key
  Others-Kept env key (ok, other) =
      subst (λ a. Kept fs n base (Says fs laws apart flushes n base k v) a env.now key) (sym ok)
        (Says-Kept fs laws apart flushes n base k v env.now key other)

  -- `pod_cache_put` of the key into a partition with room
  put-Says :
      (env : Env) (cache between : PodCache) (files mid : F) {a : ℤ}
      → 0 < n
      → Each fs n base Keys cache files
      → Supplied env cache (slot fs env cache k files)
      → cache.partition_capacity + length v < 2 ^ 64
      → ((c : LruCache)
          → get_elem? cache.partitions (slot fs env cache k files) ≡ some c
          → c.current_bytes_size + length v < cache.partition_capacity)
      → pod_cache_put fs env k v cache files ≡ some (a, between, mid)
      → Each fs n base (Says fs laws apart flushes n base k v) between mid
  put-Says env cache between files mid some_slot p supplied word room run =
      let i = slot fs env cache k files in
      let (es, held, said) = p.each i (slot_below fs env cache k files n some_slot p.count) in
      let index : i ≡ get_partition (hash k) n = ap (get_partition (hash k)) p.count in
      let w =
        pod_cache_put-room fs env cache k files v held (supplied.put held.partition held.there) word
          (omega (arith, used held.partition es held.represents, room held.partition held.there)) in
      let q =
        Each-beside fs n base Keys (Says fs laws apart flushes n base k v) p w.beside w.holds
          (
            Placed-insert n i k v es (sym index) said.0,
            (inl refl, Apart-remove fs laws apart flushes n base k v k es said.1),
            λ at. inl (lookup-insert k v es),
          )
          (λ j ds ne told. (told.0, told.1, λ at. absurd (ne (at ∙ sym index)))) in
      subst (Keeps fs n base (Says fs laws apart flushes n base k v)) (sym w.runs ∙ run) q

  -- `pod_cache_get` of the key
  get-Says :
      (env : Env) (cache : PodCache) (files : F)
      → 0 < n
      → Each fs n base (Says fs laws apart flushes n base k v) cache files
      → env.get_ok ≡ true
      → env.cas_alloc ≡ granted
      → Supplied env cache (slot fs env cache k files)
      → cache.partition_capacity + length v < 2 ^ 64
      → (x : ℤ) × (final : PodCache) × (end : F) × (pod_cache_get fs env k cache files
          ≡ some ((x, some v), final, end))
        × ((x ≡ pos (slot fs env cache k files)) ⊎ (x ≡ pos 0))
  get-Says env cache files some_slot p got ok supplied word =
      let i = slot fs env cache k files in
      let (es, held, said) = p.each i (slot_below fs env cache k files n some_slot p.count) in
      answered es held (said.2 (ap (get_partition (hash k)) p.count))
    where
      answered :
          (es : Entries) (held : Holds cache (slot fs env cache k files) es)
          → Has fs laws apart flushes n base k v files es
          → (x : ℤ) × (final : PodCache) × (end : F) × (pod_cache_get fs env k cache files
              ≡ some ((x, some v), final, end))
            × ((x ≡ pos (slot fs env cache k files)) ⊎ (x ≡ pos 0))
      answered es held (inl there) =
          let w = pod_cache_get-hit fs env cache k files held got there in
          (pos (slot fs env cache k files), w.final, files, w.runs, inl refl)
      answered es held (inr (absent, s)) =
          let (end, _, w) =
            pod_cache_get-Stored fs laws env (slot fs env cache k files) k v cache files ok refl
              held absent
              (subst (λ b. Stored fs laws (directory b (sha256_string true k) 4) v files)
                (sym p.store) s)
              (supplied.put held.partition held.there) word in
          (pos 0, w.final, end, w.runs, inr refl)

created_start :
    {F : Type 0} (fs : FileSystem F) (laws : Posix fs) (apart : Separate fs) (flushes : Flushes fs)
    (n capacity : ℕ) (base_path k v : Bytes) {start : PodCache} {before : F}
    → capacity < 2 ^ 64
    → pod_cache_create true true true true all_made base_path capacity (suc n) ≡ some (some start)
    → Each fs
        (suc n)
        start.cas_registry.base_path
        (Keys fs laws apart flushes (suc n) start.cas_registry.base_path k v)
        start
        before
created_start fs laws apart flushes n capacity base_path k v {start} small made =
    let (first, run, _, count, _, _, _, holds) =
      pod_cache_create-IsPod base_path capacity n small in
    let same : first ≡ start = same_start (sym run ∙ made) in
    record {
      count = subst (λ (c : PodCache). c.partition_count ≡ suc n) same count;
      store = refl;
      each = λ i below. ([], subst (λ c. Holds c i []) same (holds i below), (tt, tt));
    }

-- From a cache that `pod_cache_create` returns: after any calls on other keys, `pod_cache_put` of a key,
-- with room for its value in its partition, and again any calls on other keys, which may move the entry
-- to disk, `pod_cache_get` of the key returns its value, with the partition's index or 0. The calls
-- return, in any order; the other keys have other SHA-256 hashes; every allocation that the store
-- makes, and every one for a node, is granted; no sum of sizes wraps around; and the file system does
-- what POSIX says, with no `fclose` that fails behind a whole `fwrite`.
pub pod_cache_get-Reach :
    {F : Type 0} (fs : FileSystem F) (laws : Posix fs) (apart : Separate fs) (flushes : Flushes fs)
    (n capacity : ℕ) (base_path k v : Bytes) (env later : Env)
    {start cache between final : PodCache} {before files mid after : F} {a : ℤ}
    → capacity < 2 ^ 64
    → pod_cache_create true true true true all_made base_path capacity (suc n) ≡ some (some start)
    → Reach fs (OnOther k) start before cache files
    → Supplied env cache (slot fs env cache k files)
    → cache.partition_capacity + length v < 2 ^ 64
    → ((c : LruCache)
        → get_elem? cache.partitions (slot fs env cache k files) ≡ some c
        → c.current_bytes_size + length v < cache.partition_capacity)
    → pod_cache_put fs env k v cache files ≡ some (a, between, mid)
    → Reach fs (OnOther k) between mid final after
    → later.get_ok ≡ true
    → later.cas_alloc ≡ granted
    → Supplied later final (slot fs later final k after)
    → final.partition_capacity + length v < 2 ^ 64
    → (x : ℤ) × (last : PodCache) × (end : F) × (pod_cache_get fs later k final after
        ≡ some ((x, some v), last, end))
      × ((x ≡ pos (slot fs later final k after)) ⊎ (x ≡ pos 0))
pod_cache_get-Reach fs laws apart flushes n capacity base_path k v env later {start} {cache}
      {between} {final} {before} {files} {mid} {after} small made early supplied word room put late
      got ok supplied' word' =
    let base = start.cas_registry.base_path in
    let m = suc n in
    let p =
      Reach-Each fs m (omega arith) base (Keys fs laws apart flushes m base k v) (OnOther k)
        (Keys-Kept fs laws apart flushes m base k v)
        (created_start fs laws apart flushes n capacity base_path k v small made) early in
    let q =
      put-Says fs laws apart flushes m base k v env cache between files mid (omega arith) p supplied
        word room put in
    let r =
      Reach-Each fs m (omega arith) base (Says fs laws apart flushes m base k v) (OnOther k)
        (Others-Kept fs laws apart flushes m base k v) q late in
    get-Says fs laws apart flushes m base k v later final after (omega arith) r got ok supplied'
      word'
