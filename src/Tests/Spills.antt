-- ===== src/Tests/Spills.antt =====
-- Runs of the theorems about entries that go to disk and come back.
use podcache.Prelude.{
  codes, true, Option, none, some, [], ◌≡◌, subst, refl, sym, ap, ◌∙◌, arith, get_elem?, str_eq,
}
use podcache.Prelude.Decimal.{print}
use podcache.Prelude.Int.{ℤ, pos}
use podcache.Hash.Djb2.{hash, hash_djb2, djb2_loop, hash_key}
use podcache.Hash.Sha256.{sha256_string, chunks, pad, hex, hex_digit, total_length, big_endian}
use podcache.Lru.State.{
  LruCache, LruNode, load, set_next, set_prev, free_node, read_bucket, write_bucket, lock, unlock,
  copy_value,
}
use podcache.Lru.Ops.{
  put, put_found, put_insert, create_node, find, remove_tail, remove_tail_node, detach_tail,
  drop_ptr, release, get_tail_node,
}
use podcache.Lru.Links.{add_to_head}
use podcache.Lru.Spec.{lookup, remove, insert, total, drop_last, last_entry}
use podcache.Lru.Put.{Grants}
use podcache.Cas.{
  cas_put, cas_create_directory, create_at, clear_entry, make_path, make_directories, make_last,
  put_files, put_time, directory, inner, substring, cas_add_to_registry,
}
use podcache.Cas.Stored.{granted, Stored, put-Stored}
use podcache.Cas.RoundTrip.{StoredIn}
use podcache.Pod.{PodCache, get_partition, on_partition}
use podcache.Pod.Ops.{
  Env, minus_one, pod_cache_get, pod_cache_put, put_answer, spill, spill_value, spilled, retry,
}
use podcache.Pod.Partitions.{Works}
use podcache.Pod.Spill.{pod_cache_put-spill}
use podcache.Pod.Return.{pod_cache_get-pod_cache_put}
use podcache.Pod.Lost.{pod_cache_get-pod_cache_get}
use podcache.Tests.Disk.{Disk, disk, find_path, is_full, below}
use podcache.Tests.Disk.Laws.{disk-Posix, disk-Separate, disk-Flushes}
use podcache.Tests.Memory.{alloc_at, entries, value, some-inj}
use podcache.Tests.Partitions.{
  env, two, filled, filled-Holds, filled_partition, retry-Grants, cache_of,
}
use podcache.Tests.Store.{registry, put_a, stored, path}

-- what lies at address 3 of partition 0
abbrev node_in : Option LruCache → Option (Option LruNode)
node_in none = none
node_in (some c) = some (c.nodes 3)

abbrev node_after : Option (ℤ × PodCache × Disk) → Option (Option LruNode)
node_after none = none
node_after (some (a, cache, files)) = node_in (get_elem? cache.partitions 0)

unused_after :
    node_after (pod_cache_put disk env (codes "c") (codes "98765") (two filled) []) ≡ some none
unfolding pod_cache_put put_answer spill spill_value spilled retry get_tail_node copy_value
    on_partition get_partition filled cache_of put put_found put_insert create_node find lock unlock
    read_bucket write_bucket add_to_head load set_next set_prev hash_key hash hash_djb2 djb2_loop
    remove_tail remove_tail_node detach_tail drop_ptr release free_node cas_add_to_registry cas_put
    cas_create_directory create_at clear_entry make_path make_directories make_last put_files
    put_time directory substring sha256_string chunks pad hex hex_digit total_length big_endian
    print find_path str_eq
unused_after = refl

abbrev later : Env
later = record env { put_alloc = alloc_at 3 }

later-Grants :
    (between : PodCache) (c : LruCache)
    → pod_cache_put disk env (codes "c") (codes "98765") (two filled) []
      ≡ some (pos 0, between, stored)
    → get_elem? between.partitions 0 ≡ some c
    → Grants (alloc_at 3) c
later-Grants between c run at = record {
  nonnull = λ e. omega arith;
  unused = some-inj (ap node_in (sym at) ∙ ap node_after (sym run) ∙ unused_after);
  key_ok = refl;
  value_ok = refl;
  hash_node_ok = refl;
  hash_key_ok = refl;
}

pod_cache_get-pod_cache_put_example :
    (w : Works
      (two filled)
      0
      (pod_cache_put disk env (codes "c") (codes "98765") (two filled) [])
      (pos 0)
      (insert (codes "c") (codes "98765") (drop_last entries))
      stored)
    × (end : Disk) × Works w.final 0
        (pod_cache_get disk later (codes "a") w.final stored)
        (pos 0, some value)
        (insert (codes "c") (codes "98765") (drop_last entries))
        end
unfolding total drop_last last_entry get_partition hash hash_djb2 djb2_loop lookup str_eq
pod_cache_get-pod_cache_put_example =
    pod_cache_get-pod_cache_put disk disk-Posix disk-Flushes env later 0 (codes "c") (codes "98765")
      (two filled) [] stored path refl refl refl refl filled-Holds refl (omega arith, omega arith)
      refl put_a (λ c h. retry-Grants c (ap remove_tail (sym filled_partition) ∙ h)) later-Grants
      (omega arith) (omega arith) (omega arith) (omega arith)

put_away_works :
    Works
      (two filled)
      0
      (pod_cache_put disk env (codes "c") (codes "98765") (two filled) [])
      (pos 0)
      (insert (codes "c") (codes "98765") (drop_last entries))
      stored
unfolding total drop_last last_entry get_partition hash hash_djb2 djb2_loop
put_away_works =
    pod_cache_put-spill disk env 0 (codes "c") (codes "98765") (two filled) [] stored path refl
      filled-Holds refl (omega arith, omega arith) put_a
      (λ c h. retry-Grants c (ap remove_tail (sym filled_partition) ∙ h)) (omega arith)
      (omega arith) (omega arith)

-- the cache behind the put
abbrev put_away :
    Works
      (two filled)
      0
      (pod_cache_put disk env (codes "c") (codes "98765") (two filled) [])
      (pos 0)
      (insert (codes "c") (codes "98765") (drop_last entries))
      stored
put_away = put_away_works

removable :
    (disk.remove
      (inner (codes "./cas") (sha256_string true (codes "a")) (codes "value.dat"))
      stored).0
    ≡ true
unfolding inner directory substring sha256_string chunks pad hex hex_digit total_length big_endian
    find_path is_full below str_eq
removable = refl

stored_there : StoredIn disk disk-Posix (two filled).cas_registry (codes "a") value stored
stored_there = put-Stored disk disk-Posix disk-Flushes granted 7 registry (codes "a") value [] put_a

pod_cache_get-pod_cache_get_example :
    (final : PodCache) × (end : Disk) × (pod_cache_get disk later (codes "a") put_away.final stored
      ≡ some ((pos 0, some value), final, end))
    × (pod_cache_get disk later (codes "a") final end ≡ some ((minus_one, none), final, end))
unfolding total drop_last remove get_partition hash hash_djb2 djb2_loop lookup str_eq
pod_cache_get-pod_cache_get_example =
    pod_cache_get-pod_cache_get disk disk-Posix disk-Separate later later 0 (codes "a") value
      put_away.final stored refl refl (ap (get_partition (hash (codes "a"))) put_away.beside.count)
      put_away.holds refl
      (subst
        (λ b. Stored disk disk-Posix (directory b (sha256_string true (codes "a")) 4) value stored)
        (sym put_away.beside.store) stored_there)
      (subst
        (λ b.
          (disk.remove (inner b (sha256_string true (codes "a")) (codes "value.dat")) stored).0
          ≡ true)
        (sym put_away.beside.store) removable)
      (later-Grants put_away.final put_away.holds.partition put_away.runs put_away.holds.there)
      (omega (arith, put_away.beside.capacity)) (omega (arith, put_away.beside.capacity))
