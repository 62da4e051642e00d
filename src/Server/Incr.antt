-- ===== src/Server/Incr.antt =====
-- INCR in src/server_tcp.c of a number in memory.
use podcache.Prelude.{
  ℕ, ◌+◌, ◌<◌, ◌^◌, ◌≡◌, refl, ap, ◌∙◌, arith, Bytes, true, Option, some, List, [], ◌∷◌, ◌++◌, ◌==◌,
  length, suc, ne→==, ==_refl,
}
use podcache.Prelude.Int.{pos}
use podcache.Prelude.Decimal.{decimal, AllDigits, print_lem, strtol-decimal_end}
use podcache.Resp.{c_string}
use podcache.Lru.State.{LruCache, success}
use podcache.Lru.Ops.{get}
use podcache.Lru.Get.{get-refines, reply}
use podcache.Lru.Put.{Grants}
use podcache.Lru.Spec.{lookup, insert, total, touch}
use podcache.Cas.Files.{FileSystem}
use podcache.Pod.{PodCache}
use podcache.Pod.Ops.{pod_cache_get, get_answer}
use podcache.Pod.Memory.{slot, pod_cache_put-room}
use podcache.Pod.Partitions.{
  Holds, Works, SameBeside-trans, with_partition, set-same, with_partition-SameBeside,
  on_partition-runs,
}
use podcache.Server.{send_integer_response}
use podcache.Server.Handlers.{Request, handle_incr, incr_found, incr_value, incr_store}

-- The digits of a number have no NUL among them.
c_string_digits : (s t : Bytes) → AllDigits s → c_string (s ++ 0 ∷ t) ≡ s
unfolding c_string
c_string_digits [] t h = refl
c_string_digits (c ∷ s) t (d, h) = ground (arith, c_string_digits s t h)

-- INCR of a key in a valid partition 0 of which the value is the decimal text of `n`, with n + 1 below
-- 2 ^ 63, a NUL behind the value's copy, with memory and room, and while no sum wraps around: it answers
-- with n + 1, and stores the decimal text of n + 1 as the most recently used entry. The other partitions
-- and the files stay.
pub handle_incr-decimal :
    {F : Type 0} (fs : FileSystem F) (r : Request) (name behind : Bytes) (n : ℕ)
    (args : List (Option Bytes)) (cache : PodCache) (files : F) {es : _}
    → let key = c_string name in
      let at = slot fs r.first cache key files in
      at ≡ 0
      → (held : Holds cache at es) → lookup key es ≡ some (decimal n)
      → n + 1 < 2 ^ 63
      → r.behind ≡ 0 ∷ behind
      → r.first.get_ok ≡ true
      → ((c : LruCache)
          → get true key held.partition ≡ some ((success, some (decimal n)), c)
          → Grants r.second.put_alloc c)
      → cache.partition_capacity + length (decimal (n + 1)) < 2 ^ 64
      → total (touch key es) + length (decimal (n + 1)) < cache.partition_capacity
      → Works cache at
          (handle_incr fs r (some name ∷ args) cache files)
          (send_integer_response r.send_ok (pos (n + 1)))
          (insert key (decimal (n + 1)) (touch key es))
          files
unfolding handle_incr incr_found incr_value incr_store pod_cache_get get_answer
handle_incr-decimal fs r name behind n args cache files {es} first held found small nul ok grants
      word room =
    let key = c_string name in
    let at = slot fs r.first cache key files in
    let s = get-refines held.partition key held.represents in
    let hit = s.runs ∙ ap (λ v. some (reply v, s.final)) found in
    let cache1 = with_partition cache at held s.final in
    let held1 : Holds cache1 at (touch key es) = record {
      partition = s.final;
      there = set-same at s.final held.partition cache.partitions held.there;
      represents = s.represents;
      capacity = s.capacity ∙ held.capacity;
    } in
    let run = on_partition-runs cache at held files (get true key) s.final hit in
    let w =
      pod_cache_put-room fs r.second cache1 key files (decimal (n + 1)) held1 (grants s.final hit)
        word room in
    let digits = (print_lem (suc n) n (omega arith)).0 in
    let text =
      ap (λ b. c_string (decimal n ++ b)) nul ∙ c_string_digits (decimal n) behind digits in
    let read = strtol-decimal_end n (omega arith) in
    let here : (at == 0) ≡ true = rw first refl in
    record {
      final = w.final;
      runs =
          rw (ok, run, here, text, read, ==_refl, ne→== (n + 1) (2 ^ 63) (omega arith), w.runs)
            refl;
      holds = w.holds;
      beside = SameBeside-trans (with_partition-SameBeside cache at held s.final) w.beside;
    }
