-- ===== src/Tests/Returns.antt =====
-- Runs of the theorems about keys on disk.
use podcache.Prelude.{ℕ, none, some, [], ◌≡◌, refl, sym, subst, ap, ◌∙◌, arith, str_eq, str_eq_refl}
use podcache.Prelude.Int.{pos}
use podcache.Hash.Djb2.{hash, hash_djb2, djb2_loop, hash_key}
use podcache.Lru.State.{
  LruCache, success, load, set_next, set_prev, free_node, read_bucket, write_bucket, lock, unlock,
}
use podcache.Lru.Ops.{
  put, put_found, put_insert, create_node, find, evict, evict_found, drop_key, release,
}
use podcache.Lru.Links.{add_to_head, unlink}
use podcache.Lru.Spec.{Entries, lookup}
use podcache.Lru.Invariant.{Represents}
use podcache.Lru.Put.{Grants}
use podcache.Cas.{cas_get}
use podcache.Cas.Stored.{granted}
use podcache.Cas.RoundTrip.{cas_get-cas_put, cas_evict-cas_put}
use podcache.Pod.{PodCache, get_partition}
use podcache.Pod.Memory.{slot}
use podcache.Pod.Ops.{pod_cache_get, pod_cache_evict}
use podcache.Pod.Partitions.{Holds, Works}
use podcache.Pod.Promote.{stored_in, pod_cache_get-promoted}
use podcache.Pod.Stale.{pod_cache_get-pod_cache_evict}
use podcache.Tests.Disk.{Disk, disk}
use podcache.Tests.Disk.Laws.{disk-Posix, disk-Flushes}
use podcache.Tests.Memory.{
  empty, empty-Represents, key, value, entries, alloc_at, alloc_at-Grants, one_capacity, served,
}
use podcache.Tests.Partitions.{cache_of, outcome, filled, filled-put, filled-Represents}
use podcache.Tests.Numbers.{single}
use podcache.Tests.Server.{env}
use podcache.Tests.Store.{registry, stored, put_a}

abbrev place : PodCache → ℕ
place cache = slot disk env cache key stored

held_at :
    (c : LruCache) (es : Entries)
    → Represents c es
    → c.max_bytes_capacity ≡ 10
    → Holds (single c) (place (single c)) es
unfolding get_partition hash
held_at c es r e = record { partition = c; there = refl; represents = r; capacity = e }

held_empty : Holds (single empty) (place (single empty)) []
held_empty = held_at empty [] empty-Represents refl

held_empty_partition : held_empty.partition ≡ empty
unfolding held_empty held_at
held_empty_partition = refl

on_disk : cas_get disk granted registry key stored ≡ some (some value, stored)
on_disk = cas_get-cas_put disk disk-Posix disk-Flushes 7 registry key value [] put_a

abbrev left : Disk
left = (cas_evict-cas_put disk disk-Posix 7 registry key value [] put_a).0

nothing : lookup key [] ≡ none
unfolding lookup
nothing = refl

pod_cache_get-promoted_example :
    Works
      (single empty)
      (place (single empty))
      (pod_cache_get disk env key (single empty) stored)
      (pos 0, some value)
      (stored_in (single empty) key value [])
      left
pod_cache_get-promoted_example =
    pod_cache_get-promoted disk env key (single empty) stored held_empty nothing on_disk
      (cas_evict-cas_put disk disk-Posix 7 registry key value [] put_a).1
      (subst (Grants (alloc_at 1)) (sym held_empty_partition)
        (alloc_at-Grants 1 (λ e. omega arith)))
      (omega arith)

held_filled : Holds (single filled) (place (single filled)) entries
held_filled = held_at filled entries filled-Represents (
    ap (λ (c : LruCache). c.max_bytes_capacity) (outcome (sym filled-put ∙ served.runs))
    ∙ one_capacity)

unfoldable evicted : LruCache
unfolding cache_of
evicted = cache_of (evict key filled)

evicted_made : evict key filled ≡ some (success, evicted)
unfolding evicted filled cache_of put put_found put_insert create_node find lock unlock read_bucket
    write_bucket add_to_head load set_next set_prev hash_key hash hash_djb2 djb2_loop evict
    evict_found drop_key unlink release free_node str_eq
evicted_made = refl

evicted_unused : evicted.nodes 1 ≡ none
unfolding evicted filled cache_of put put_found put_insert create_node find lock unlock read_bucket
    write_bucket add_to_head load set_next set_prev hash_key hash hash_djb2 djb2_loop evict
    evict_found drop_key unlink release free_node str_eq
evicted_unused = refl

regranted :
    (c : LruCache) → evict key held_filled.partition ≡ some (success, c) → Grants (alloc_at 1) c
unfolding held_filled held_at
regranted c h = record {
  nonnull = λ e. omega arith;
  unused = ap (λ (d : LruCache). d.nodes 1) (outcome (sym h ∙ evicted_made)) ∙ evicted_unused;
  key_ok = refl;
  value_ok = refl;
  hash_node_ok = refl;
  hash_key_ok = refl;
}

lookup_key : lookup key entries ≡ some value
unfolding lookup
lookup_key = rw (str_eq_refl key) refl

pod_cache_get-pod_cache_evict_example :
    (between final : PodCache) × (pod_cache_evict disk env key (single filled) stored
      ≡ some (1, between, stored))
    × (pod_cache_get disk env key between stored ≡ some ((pos 0, some value), final, left))
pod_cache_get-pod_cache_evict_example =
    pod_cache_get-pod_cache_evict disk env env key (single filled) stored held_filled lookup_key
      on_disk (cas_evict-cas_put disk disk-Posix 7 registry key value [] put_a).1 regranted
      (omega arith)
