-- ===== src/Tests/Server.antt =====
-- Runs of the theorems about the server.
use podcache.Prelude.{
  ℕ, Bytes, codes, true, none, some, [], ◌∷◌, ◌++◌, ◌==◌, ◌≡◌, refl, arith, str_eq_refl,
  if◌then◌else◌,
}
use podcache.Hash.Djb2.{hash, hash_djb2, djb2_loop}
use podcache.Lru.Spec.{lookup, touch}
use podcache.Resp as Resp
use podcache.Resp.{c_string}
use podcache.Cas.Stored.{granted}
use podcache.Pod.{PodCache, get_partition}
use podcache.Pod.Memory.{slot}
use podcache.Pod.Ops.{Env}
use podcache.Pod.Partitions.{Holds, Works}
use podcache.Server.{send_bulk_string_response}
use podcache.Server.Handlers.{Request, handle_get}
use podcache.Server.Get.{handle_get-hit}
use podcache.Server.Loop.{process, process_fuel}
use podcache.Tests.Disk.{disk}
use podcache.Tests.Memory.{empty, alloc_at, value, key, entries, one, one-Represents, one_capacity}

abbrev pub env : Env
env = record {
  put_alloc = alloc_at 1;
  retry_alloc = alloc_at 2;
  get_ok = true;
  cas_alloc = granted;
  realloc_ok = true;
  malloc_ok = true;
  now = 7;
}

abbrev pub command : Request
command = record { first = env; second = env; send_ok = true; behind = [] }

-- three partitions; the key belongs in the second one
abbrev pub three : PodCache
three = record {
  total_capacity = 30;
  partition_capacity = 10;
  partition_count = 3;
  partitions = empty ∷ one ∷ empty ∷ [];
  cas_registry = record {
    base_path = codes "./cas";
    entries = [];
    capacity = 100;
    allocated = 100;
  };
}

abbrev pub place : ℕ
place = slot disk command.first three (c_string key) []

three-Holds : Holds three place entries
unfolding get_partition hash hash_djb2 djb2_loop c_string
three-Holds = record {
  partition = one;
  there = refl;
  represents = one-Represents;
  capacity = one_capacity;
}

lookup_key : lookup (c_string key) entries ≡ some value
unfolding lookup c_string
lookup_key = rw (str_eq_refl key) refl

handle_get-hit_example :
    Works three place
      (handle_get disk command (some key ∷ []) three [])
      (send_bulk_string_response true (if place == 0 then some (c_string (value ++ [])) else none))
      (touch (c_string key) entries)
      []
handle_get-hit_example =
    handle_get-hit disk command key value [] three [] three-Holds refl lookup_key

abbrev ping : Bytes
ping = 42 ∷ 49 ∷ 13 ∷ 10 ∷ 36 ∷ 52 ∷ 13 ∷ 10 ∷ 80 ∷ 73 ∷ 78 ∷ 71 ∷ 13 ∷ 10 ∷ []

process_fuel_example :
    process disk (λ _. Resp.granted) (λ _. command) 14 0 ping three []
    ≡ process disk (λ _. Resp.granted) (λ _. command) 20 0 ping three []
process_fuel_example =
    process_fuel disk (λ _. Resp.granted) (λ _. command) 14 20 0 ping (omega arith) (omega arith)
      three []
