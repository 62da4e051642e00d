-- ===== src/Server/Get.antt =====
-- GET in src/server_tcp.c of a key that memory has.
use podcache.Prelude.{
  Bytes, true, Option, none, some, List, ◌∷◌, ◌++◌, ◌==◌, if◌then◌else◌, ◌≡◌, refl, Bool-cases, inl,
  inr,
}
use podcache.Resp.{c_string}
use podcache.Lru.Spec.{lookup, touch}
use podcache.Cas.Files.{FileSystem}
use podcache.Pod.{PodCache}
use podcache.Pod.Memory.{slot, pod_cache_get-hit}
use podcache.Pod.Partitions.{Holds, Works}
use podcache.Server.{send_bulk_string_response}
use podcache.Server.Handlers.{Request, handle_get, get_reply}

-- `handle_get` of a key that its partition, a valid one, has, with memory for the copy. In
-- partition 0 it replies with the value up to its first NUL, with what lies behind it in memory
-- if it has none; in any other partition with the bulk string of a missing key. Either way the
-- key becomes its partition's most recently used one, and the other partitions and the files
-- stay.
pub handle_get-hit :
    {F : Type 0} (fs : FileSystem F) (r : Request) (name v : Bytes) (args : List (Option Bytes))
    (cache : PodCache) (files : F) {es : _}
    → Holds cache (slot fs r.first cache (c_string name) files) es
    → r.first.get_ok ≡ true
    → lookup (c_string name) es ≡ some v
    → let at = slot fs r.first cache (c_string name) files in
      Works cache at
        (handle_get fs r (some name ∷ args) cache files)
        (send_bulk_string_response r.send_ok
          (if at == 0 then some (c_string (v ++ r.behind)) else none))
        (touch (c_string name) es)
        files
unfolding handle_get get_reply
handle_get-hit fs r name v args cache files held ok found =
    let at = slot fs r.first cache (c_string name) files in
    let w = pod_cache_get-hit fs r.first cache (c_string name) files held ok found in
    elim (Bool-cases (at == 0)) [
      | inl e ↦ record {
        final = w.final;
        runs = rw (w.runs, e) refl;
        holds = w.holds;
        beside = w.beside;
      }
      | inr e ↦ record {
        final = w.final;
        runs = rw (w.runs, e) refl;
        holds = w.holds;
        beside = w.beside;
      }
    ]
