-- ===== src/Pod/Return.antt =====
-- An entry that `pod_cache_put` of src/pod_cache.c moved to disk, and `pod_cache_get` brings back.
use podcache.Prelude.{
  ℕ, ◌+◌, ◌<◌, ◌≤◌, ◌^◌, ◌≡◌, sym, subst, ap, ◌∙◌, arith, Bytes, true, none, some, length,
  get_elem?, str_eq_sym, le→ltb, if◌then◌else◌,
}
use podcache.Prelude.Int.{pos}
use podcache.Hash.Djb2.{hash}
use podcache.Hash.Sha256.{sha256_string}
use podcache.Lru.State.{LruCache, success}
use podcache.Lru.Spec.{Entries, lookup, insert, total, drop_last, last_entry}
use podcache.Lru.Ops.{remove_tail}
use podcache.Lru.Put.{Grants}
use podcache.Lru.Invariant.{Represents, remove_none}
use podcache.Lru.Gone.{
  lookup-remove_none, lookup-drop_last, total-last, lookup-drop_last-none, last_entry-other,
}
use podcache.Cas as Cas
use podcache.Cas.{CasRegistry, cas_put, cas_get, cas_evict, directory}
use podcache.Cas.Files.{FileSystem}
use podcache.Cas.Registry.{IsWide}
use podcache.Cas.Posix.{Posix, Flushes}
use podcache.Cas.Stored.{granted, Stored, put-Stored}
use podcache.Cas.RoundTrip.{StoredIn, cas_get-Stored, cas_evict-Stored}
use podcache.Pod.{PodCache, get_partition}
use podcache.Pod.Ops.{Env, pod_cache_get, pod_cache_put}
use podcache.Pod.Partitions.{Holds, Works}
use podcache.Pod.Promote.{stored_in, pod_cache_get-promoted}
use podcache.Pod.Spill.{pod_cache_put-spill}

-- The entry that makes room is not the new one, and is found no more.
lookup-spilled :
    (c : LruCache) (key value : Bytes) {es : Entries} {e : Bytes × Bytes}
    → Represents c es
    → last_entry es ≡ some e
    → lookup key es ≡ none
    → lookup e.0 (insert key value (drop_last es)) ≡ none
unfolding lookup
lookup-spilled c key value {es} {e} r last new =
    rw (str_eq_sym key e.0, last_entry-other key es last new)
      (lookup-remove_none e.0 key (drop_last es) (lookup-drop_last c r last))

-- the bytes of the entries when one has taken the place of another
total-spilled :
    (key value : Bytes) (es : Entries) {e : Bytes × Bytes}
    → last_entry es ≡ some e
    → lookup key es ≡ none
    → total (insert key value (drop_last es)) + length e.1 ≡ total es + length value
unfolding total
total-spilled key value es {e} last new =
    rw (remove_none key (drop_last es) (lookup-drop_last-none key es new))
      (omega (arith, total-last es last))

module _ {F : Type 0} (fs : FileSystem F) (laws : Posix fs) where
  -- the same directory, under another registry
  StoredIn-registry :
      (a b : CasRegistry) (key value : Bytes) (files : F)
      → b.base_path ≡ a.base_path
      → StoredIn fs laws a key value files
      → StoredIn fs laws b key value files
  StoredIn-registry a b key value files e s =
      subst (λ base. Stored fs laws (directory base (sha256_string true key) 4) value files) (sym e)
        s

  -- `pod_cache_get` of a key that its partition lacks and that is stored on disk
  pub pod_cache_get-Stored :
      (env : Env) (i : ℕ) (key value : Bytes) (cache : PodCache) (files : F) {es : Entries}
      → env.cas_alloc ≡ granted
      → get_partition (hash key) cache.partition_count ≡ i
      → (held : Holds cache i es) → lookup key es ≡ none
      → StoredIn fs laws cache.cas_registry key value files
      → Grants env.put_alloc held.partition
      → cache.partition_capacity + length value < 2 ^ 64
      → (end : F) × (cas_evict fs granted key cache.cas_registry files
          ≡ some ((Cas.error, cache.cas_registry), end))
        × Works cache i
            (pod_cache_get fs env key cache files)
            (pos 0, some value)
            (stored_in cache key value es)
            end
  pod_cache_get-Stored env i key value cache files {es} ok place held absent s grants word =
      let (end, evicted) = cas_evict-Stored fs laws cache.cas_registry key value files s in
      let found = cas_get-Stored fs laws cache.cas_registry key value files s in
      (
        end,
        evicted,
        subst
            (λ j.
              (h : Holds cache j es)
              → Grants env.put_alloc h.partition
              → Works cache j (pod_cache_get fs env key cache files) (pos 0, some value)
                  (stored_in cache key value es) end)
            place
            (λ h g.
              pod_cache_get-promoted fs env key cache files h absent
                (subst (λ a. cas_get fs a cache.cas_registry key files ≡ some (some value, files))
                  (sym ok) found)
                (subst
                  (λ a.
                    cas_evict fs a key cache.cas_registry files
                    ≡ some ((Cas.error, cache.cas_registry), end))
                  (sym ok) evicted)
                g word)
            held grants,
      )

  -- without room for it
  pub stored_in_full :
      (cache : PodCache) (key value : Bytes) (es : Entries)
      → cache.partition_capacity ≤ total es + length value
      → stored_in cache key value es ≡ es
  stored_in_full cache key value es tight =
      ap (λ b. if b then insert key value es else es)
        (le→ltb (total es + length value) cache.partition_capacity tight)

  -- For the least recently used entry `e` of a valid partition without room: `pod_cache_put` of a
  -- new key, which has room once `e` is out, returns the partition's index and puts the new entry in
  -- front; `pod_cache_get` of the key of `e` right behind it returns 0 and the value of `e`, and
  -- leaves the partition as it is, since there is no room for `e`. The partition's keys belong there,
  -- every allocation is granted, `cas_put` stores `e`, the registry's
  -- array has place for its capacity, above the number of entries, no sum wraps around, and the file system does
  -- what POSIX says, with no `fclose` that fails behind a whole `fwrite`.
  pub pod_cache_get-pod_cache_put :
      (flushes : Flushes fs) (env later : Env) (i : ℕ) (key value : Bytes) (cache : PodCache)
      (files after : F) (path : Bytes) {es : Entries} {e : Bytes × Bytes}
      → env.cas_alloc ≡ granted
      → later.cas_alloc ≡ granted
      → i ≡ get_partition (hash key) cache.partition_count
      → get_partition (hash e.0) cache.partition_count ≡ i
      → (held : Holds cache i es) → last_entry es ≡ some e
      → IsWide cache.cas_registry
      → lookup key es ≡ none
      → cas_put fs env.cas_alloc env.now cache.cas_registry e.0 e.1 files
        ≡ some ((Cas.success, path), after)
      → ((c : LruCache) → remove_tail held.partition ≡ some (success, c) → Grants env.retry_alloc c)
      → ((between : PodCache) (c : LruCache)
          → pod_cache_put fs env key value cache files ≡ some (pos i, between, after)
          → get_elem? between.partitions i ≡ some c
          → Grants later.put_alloc c)
      → cache.partition_capacity + length value < 2 ^ 64
      → cache.partition_capacity + length e.1 < 2 ^ 64
      → cache.partition_capacity ≤ total es + length value
      → total (drop_last es) + length value < cache.partition_capacity
      → (w : Works cache i
          (pod_cache_put fs env key value cache files)
          (pos i)
          (insert key value (drop_last es))
          after)
        × (end : F) × Works w.final i
            (pod_cache_get fs later e.0 w.final after)
            (pos 0, some e.1)
            (insert key value (drop_last es))
            end
  pod_cache_get-pod_cache_put flushes env later i key value cache files after path {es} {e} ok ok'
        at place held last wide new stored grants regrants word word' tight room =
      let s = put-Stored fs laws flushes granted env.now cache.cas_registry e.0 e.1 files (
        subst
          (λ a.
            cas_put fs a env.now cache.cas_registry e.0 e.1 files
            ≡ some ((Cas.success, path), after))
          ok stored) in
      let w =
        pod_cache_put-spill fs env i key value cache files after path at held last wide stored
          grants word tight room in
      let (end, _, back) =
        pod_cache_get-Stored later i e.0 e.1 w.final after ok'
          (ap (get_partition (hash e.0)) w.beside.count ∙ place) w.holds
          (lookup-spilled held.partition key value held.represents last new)
          (StoredIn-registry cache.cas_registry w.final.cas_registry e.0 e.1 after w.beside.store s)
          (regrants w.final w.holds.partition w.runs w.holds.there)
          (omega (arith, w.beside.capacity)) in
      let full =
        stored_in_full w.final e.0 e.1 (insert key value (drop_last es))
          (omega (arith, w.beside.capacity, total-spilled key value es last new)) in
      (
        w,
        end,
        subst
            (λ ds.
              Works w.final i (pod_cache_get fs later e.0 w.final after) (pos 0, some e.1) ds end)
            full back,
      )
