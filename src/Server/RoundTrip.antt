-- ===== src/Server/RoundTrip.antt =====
-- SET, GET and INCR of src/server_tcp.c one behind the other.
use podcache.Prelude.{
  ℕ, ◌+◌, ◌<◌, ◌^◌, ◌≡◌, refl, sym, ap, subst, ◌∙◌, arith, Bytes, true, Option, none, some, List,
  [], ◌∷◌, ◌++◌, ◌==◌, if◌then◌else◌, length, str_eq_refl,
}
use podcache.Resp.{c_string}
use podcache.Lru.Put.{Grants}
use podcache.Lru.Spec.{lookup, insert, total}
use podcache.Cas.Files.{FileSystem}
use podcache.Pod.{PodCache, get_partition}
use podcache.Pod.Memory.{slot, pod_cache_put-room}
use podcache.Pod.Partitions.{Holds, Works}
use podcache.Server.{Outcome, send_bulk_string_response, send_ok_response}
use podcache.Server.Handlers.{Request, handle_get, handle_set, set_reply}
use podcache.Server.Get.{handle_get-hit}
use podcache.Prelude.{codes}
use podcache.Hash.Djb2.{hash}

-- A C string ends where its NUL is.
c_string-append : (s t : Bytes) → c_string (c_string s ++ 0 ∷ t) ≡ c_string s
unfolding c_string
c_string-append [] t = refl
c_string-append (c ∷ s) t = ground (arith, c_string-append s t)

lookup-insert : (k v : Bytes) (es : _) → lookup k (insert k v es) ≡ some v
unfolding lookup
lookup-insert k v es = rw (str_eq_refl k) refl

-- What SET answers.
set-room :
    {F : Type 0} (fs : FileSystem F) (r : Request) (name value : Bytes) (args : List (Option Bytes))
    (cache : PodCache) (files : F) {es : _}
    (held : Holds cache (slot fs r.first cache (c_string name) files) es)
    → Grants r.first.put_alloc held.partition
    → cache.partition_capacity + length (c_string value) < 2 ^ 64
    → total es + length (c_string value) < cache.partition_capacity
    → Works cache
        (slot fs r.first cache (c_string name) files)
        (handle_set fs r (some name ∷ some value ∷ args) cache files)
        (send_ok_response r.send_ok (codes "OK"))
        (insert (c_string name) (c_string value) es)
        files
unfolding handle_set set_reply
set-room fs r name value args cache files held grants word room =
    let w =
      pod_cache_put-room fs r.first cache (c_string name) files (c_string value) held grants word
        room in
    record { final = w.final; runs = rw w.runs refl; holds = w.holds; beside = w.beside }

-- SET of a key in a valid partition with room, with memory and while no sum wraps around, answers OK.
-- GET of the same key right behind it, with memory and if the value's copy is followed by a NUL, then
-- answers with the value as far as its first NUL, if the key's partition is the first one, and as for a
-- missing key else.
pub handle_get-handle_set :
    {F : Type 0} (fs : FileSystem F) (r q : Request) (name value behind : Bytes)
    (args more : List (Option Bytes)) (cache : PodCache) (files : F) {es : _}
    (held : Holds cache (slot fs r.first cache (c_string name) files) es)
    → Grants r.first.put_alloc held.partition
    → cache.partition_capacity + length (c_string value) < 2 ^ 64
    → total es + length (c_string value) < cache.partition_capacity
    → q.first.get_ok ≡ true
    → q.behind ≡ 0 ∷ behind
    → (mid final : PodCache) × (handle_set fs r (some name ∷ some value ∷ args) cache files
        ≡ some (send_ok_response r.send_ok (codes "OK"), mid, files))
      × (handle_get fs q (some name ∷ more) mid files
          ≡ some (
            send_bulk_string_response q.send_ok (
                if slot fs r.first cache (c_string name) files == 0
                then some (c_string value)
                else none),
            final,
            files,
          ))
handle_get-handle_set {F} fs r q name value behind args more cache files {es} held grants word room
      ok nul =
    let w = set-room fs r name value args cache files held grants word room in
    let same = ap (get_partition (hash (c_string name))) w.beside.count in
    let there =
      subst (λ i. Holds w.final i (insert (c_string name) (c_string value) es)) (sym same)
        w.holds in
    let g =
      handle_get-hit fs q name (c_string value) more w.final files there ok
        (lookup-insert (c_string name) (c_string value) es) in
    let text = ap (λ b. c_string (c_string value ++ b)) nul ∙ c_string-append value behind in
    let reply : ℕ → Bytes → Option (Outcome × PodCache × F) = λ i u.
      some
        (send_bulk_string_response q.send_ok (if i == 0 then some u else none), g.final, files) in
    (w.final, g.final, w.runs, g.runs ∙ ap (reply _) text ∙ ap (λ i. reply i (c_string value)) same)
