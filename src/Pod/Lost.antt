-- ===== src/Pod/Lost.antt =====
-- A key on disk that `pod_cache_get` of src/pod_cache.c cannot bring back to memory.
use podcache.Prelude.{
  ℕ, ◌+◌, ◌<◌, ◌≤◌, ◌^◌, ◌≡◌, sym, subst, ap, ◌∙◌, Bytes, true, none, some, length,
}
use podcache.Prelude.Int.{pos}
use podcache.Hash.Djb2.{hash}
use podcache.Lru.Spec.{Entries, lookup, total}
use podcache.Lru.Put.{Grants}
use podcache.Cas.{cas_get}
use podcache.Cas.Files.{FileSystem}
use podcache.Cas.Posix.{Posix, Separate}
use podcache.Cas.Stored.{granted}
use podcache.Cas.RoundTrip.{StoredIn}
use podcache.Cas.Lost.{value_path, cas_get-cas_evict}
use podcache.Pod.{PodCache, get_partition}
use podcache.Pod.Ops.{Env, pod_cache_get, minus_one}
use podcache.Pod.Partitions.{Holds}
use podcache.Pod.Promote.{pod_cache_get-missing}
use podcache.Pod.Return.{pod_cache_get-Stored, stored_in_full}

-- For a key that is stored on disk, and which its partition, a valid one, neither has nor has room
-- for: `pod_cache_get` returns 0 and the value, and `pod_cache_get` of the same key right behind it
-- returns -1, since the value was taken off the disk though it is not in memory. Every allocation is
-- granted, no sum wraps around, and the file system does what POSIX says and removes the value's file.
pub pod_cache_get-pod_cache_get :
    {F : Type 0} (fs : FileSystem F) (laws : Posix fs) (apart : Separate fs) (env later : Env)
    (i : ℕ) (key value : Bytes) (cache : PodCache) (files : F) {es : Entries}
    → env.cas_alloc ≡ granted
    → later.cas_alloc ≡ granted
    → get_partition (hash key) cache.partition_count ≡ i
    → (held : Holds cache i es) → lookup key es ≡ none
    → StoredIn fs laws cache.cas_registry key value files
    → (fs.remove (value_path cache.cas_registry key) files).0 ≡ true
    → Grants env.put_alloc held.partition
    → cache.partition_capacity + length value < 2 ^ 64
    → cache.partition_capacity ≤ total es + length value
    → (final : PodCache) × (end : F) × (pod_cache_get fs env key cache files
        ≡ some ((pos 0, some value), final, end))
      × (pod_cache_get fs later key final end ≡ some ((minus_one, none), final, end))
pod_cache_get-pod_cache_get fs laws apart env later i key value cache files {es} ok ok' place held
      absent s removed grants word tight =
    let (end, evicted, w) =
      pod_cache_get-Stored fs laws env i key value cache files ok place held absent s grants word in
    let kept = subst (Holds w.final i) (stored_in_full fs laws cache key value es tight) w.holds in
    let gone =
      cas_get-cas_evict fs apart laws cache.cas_registry w.final.cas_registry key value files end s
        removed evicted w.beside.store in
    let at = sym (ap (get_partition (hash key)) w.beside.count ∙ place) in
    (
      w.final,
      end,
      w.runs,
      pod_cache_get-missing fs later key w.final end (subst (λ j. Holds w.final j es) at kept)
          absent
          (subst (λ a. cas_get fs a w.final.cas_registry key end ≡ some (none, end)) (sym ok')
            gone),
    )
