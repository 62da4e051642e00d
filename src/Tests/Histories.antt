-- ===== src/Tests/Histories.antt =====
-- Runs of the theorems about histories of the cache, and about names of commands.
use podcache.Prelude.{
  ◌∷◌, ℕ, zero, suc, List, ◌≤◌, ◌<◌, ◌≢◌, ap, length, codes, true, Option, some, [], ◌≡◌, refl, sym,
  subst, ◌∙◌, arith, map, get_elem?,
}
use podcache.Hash.Djb2.{hash}
use podcache.Lru.State.{Status, LruCache, success, error}
use podcache.Lru.Ops.{create, calculate_hash_table_size, grow, remove_tail}
use podcache.Lru.Put.{Grants}
use podcache.Lru.Spec.{Entries, total, insert}
use podcache.Lru.Tail.{remove_tail_empty}
use podcache.Resp.{c_string, to_upper}
use podcache.Cas.{cas_create_registry}
use podcache.Pod.{PodCache, pod_cache_create, create_partitions, get_partition}
use podcache.Pod.Create.{all_made}
use podcache.Pod.Destroy.{pod_cache_destroy, pod_cache_destroy-frees, Freed}
use podcache.Lru.Layout.{Cell}
use podcache.Lru.Invariant.{Represents, IsCache, view}
use podcache.Tests.Store as Store
use podcache.Tests.Store.{emptied}
use podcache.Pod.Invariant.{IsPod}
use podcache.Pod.Memory.{slot, pod_cache_put-room}
use podcache.Pod.Ops.{pod_cache_put}
use podcache.Pod.Partitions.{Holds, Works}
use podcache.Prelude.Int.{pos}
use podcache.Pod.Reach.{Supplied, here, next, puts, Reach-IsPod}
use podcache.Server.{send_error_response}
use podcache.Server.Handlers.{dispatch_command}
use podcache.Server.Names.{dispatch_command-unlink}
use podcache.Tests.Disk.{disk}
use podcache.Tests.Memory.{empty, empty-Represents, alloc_at, alloc_at-Grants, key, value, some-inj}
use podcache.Tests.Numbers.{single, single_empty, single_empty_partition}
use podcache.Tests.Server.{env, command, three}

pub single_created :
    pod_cache_create true true true true all_made (codes "./cas") 10 1 ≡ some (some (single empty))
unfolding pod_cache_create cas_create_registry create_partitions create calculate_hash_table_size
    grow
single_created = refl

only :
    (c : LruCache)
    → get_elem? (single empty).partitions (slot disk env (single empty) (c_string key) []) ≡ some c
    → empty ≡ c
unfolding get_partition hash c_string
only c h = some-inj h

no_success :
    {c d : LruCache}
    → ◌≡◌ {A = Option (Status × LruCache)} (some (error, c)) (some (success, d))
    → ⊥
no_success h = cc

supplied : Supplied env (single empty) (slot disk env (single empty) (c_string key) [])
supplied = record {
  put = λ c h. subst (Grants (alloc_at 1)) (only c h) (alloc_at-Grants 1 (λ e. omega arith));
  retry = λ c d h cut. absurd (
      no_success (
        sym (remove_tail_empty empty empty-Represents)
        ∙ subst (λ b. remove_tail b ≡ some (success, d)) (sym (only c h)) cut));
}

abbrev place : ℕ
place = slot disk env (single empty) (c_string key) []

nothing_yet : total [] ≡ 0
unfolding total
nothing_yet = refl

abbrev stored :
    Works
      (single empty)
      place
      (pod_cache_put disk env (c_string key) value (single empty) [])
      (pos place)
      (insert (c_string key) value [])
      []
stored =
    pod_cache_put-room disk env (single empty) (c_string key) [] value single_empty
      (subst (Grants (alloc_at 1)) (sym single_empty_partition)
        (alloc_at-Grants 1 (λ e. omega arith)))
      (omega arith) (omega (arith, nothing_yet))

Reach-IsPod_example : IsPod stored.final
Reach-IsPod_example =
    Reach-IsPod disk (codes "./cas") 10 0 [] (omega arith) single_created
      (next env (c_string key) tt here (puts value supplied (omega arith) stored.runs))

shouted : map to_upper (c_string (codes "unLink")) ≡ codes "UNLINK"
unfolding c_string
shouted = refl

dispatch_command-unlink_example :
    dispatch_command disk command (record { command = some (codes "unLink"); args = [] }) three []
    ≡ some (send_error_response true (codes "unknown command"), three, [])
dispatch_command-unlink_example =
    dispatch_command-unlink disk command (codes "unLink") [] three [] shouted

single-IsPod : IsPod (single empty)
single-IsPod = Reach-IsPod disk (codes "./cas") 10 0 [] (omega arith) single_created here

no_entry : (es : Entries) → Represents empty es → es ≡ []
no_entry es r = go r.cells r.valid r.shows
  where
    go : (xs : List Cell) → IsCache empty xs → view xs ≡ es → es ≡ []
    go [] v shows = sym shows
    go (x ∷ xs) v shows = absurd (v.distinct.0 (sym (ap (λ (c : LruCache). c.head) v.memory)))

enough : (i : ℕ) (es : Entries) → Holds (single empty) i es → length es ≤ 1
enough zero es held =
    let same : empty ≡ held.partition = some-inj held.there in
    let none_left = no_entry es (subst (λ c. Represents c es) (sym same) held.represents) in
    omega (arith, ap length none_left)
enough (suc i) es held = absurd (nothing_there held.there)
  where
    nothing_there : get_elem? (single empty).partitions (suc i) ≢ some held.partition
    nothing_there e = cc

pod_cache_destroy-frees_example :
    (final : PodCache) × (pod_cache_destroy disk 6 1 (single empty) Store.stored
      ≡ some (tt, final, []))
    × ((i : ℕ) → i < 1 → Freed final i)
pod_cache_destroy-frees_example =
    pod_cache_destroy-frees disk 6 1 (single empty) Store.stored single-IsPod enough emptied
