-- ===== src/Tests/Requests.antt =====
-- Runs of the theorems about whole requests.
use podcache.Prelude.{
  Bytes, ◌⊎◌, false, ◌<◌, ◌+◌, ◌++◌, ℕ, codes, true, none, some, [], ◌∷◌, ◌≡◌, ◌<◌, ◌≤◌, ◌*◌, arith,
  List, length, drop, ◌≢◌, refl,
}
use podcache.Server.Start.{all_granted, initialize_cache-IsPod, initialize_cache_overflow}
use podcache.Server.{
  buffer_size, send_bulk_string_response, initialize_cache, get_env_int, in_bounds,
}
use podcache.Prelude.Decimal.{strtol, strtol_from, strtol_sign, converted, scan, print}
use podcache.Pod.{PodCache, pod_cache_create}
use podcache.Pod.Invariant.{IsPod}
use podcache.Pod.Partitions.{Holds}
use podcache.Cas.Registry.{IsWide}
use podcache.Pod.Create.{pod_cache_create-IsPod, all_made}
use podcache.Resp as Resp
use podcache.Server.Replies.{read_bulk_string-send_bulk_string_response}
use podcache.Resp.{ok, incomplete, error, parse, read_bulk_string}
use podcache.Resp.Encode.{bulk_length, request}
use podcache.Server.Loop.{process}
use podcache.Resp.Prefix.{begins, parse_prefix}
use podcache.Server.Pipeline.{Call, requests_of, AllSmall, serve, process-serve}
use podcache.Tests.Disk.{disk}
use podcache.Tests.Server.{command, three}

pod_cache_create-IsPod_example :
    (cache : PodCache) × (pod_cache_create true true true true all_made (codes "./cas") 1000 3
      ≡ some (some cache))
    × IsPod cache
    × (cache.partition_count ≡ 3)
    × (cache.partition_capacity * 3 ≤ 1000)
    × (1000 < cache.partition_capacity * 3 + 3)
    × IsWide cache.cas_registry
    × ((i : ℕ) → i < 3 → Holds cache i [])
pod_cache_create-IsPod_example = pod_cache_create-IsPod (codes "./cas") 1000 2 (omega arith)

size : get_env_int (some (codes "64")) 100 1 4096 < 2048
unfolding get_env_int in_bounds strtol strtol_from strtol_sign converted scan
size = omega arith

large_size : 2048 ≤ get_env_int (some (codes "4096")) 100 1 4096
unfolding get_env_int in_bounds strtol strtol_from strtol_sign converted scan
large_size = omega arith

initialize_cache-IsPod_example :
    (cache : PodCache) × (initialize_cache (all_granted (codes "./cas")) (some (codes "64")) none
      ≡ some (some cache))
    × IsPod cache
    × (cache.partition_count ≡ get_env_int none 1 1 64)
initialize_cache-IsPod_example =
    initialize_cache-IsPod (codes "./cas") (some (codes "64")) none size

initialize_cache_overflow_example :
    initialize_cache (all_granted (codes "./cas")) (some (codes "4096")) none ≡ none
initialize_cache_overflow_example =
    initialize_cache_overflow (all_granted (codes "./cas")) (some (codes "4096")) none large_size

abbrev calls : List Call
calls = (codes "PING", []) ∷ (codes "GET", codes "a" ∷ []) ∷ []

small : AllSmall calls
small = (omega arith, (omega arith, tt), (omega arith, (omega arith, (omega arith, tt)), tt))

room : length (requests_of calls) ≤ 60
unfolding print
room = omega arith

process-serve_example :
    process disk (λ _. Resp.granted) (λ _. command) 60 0 (requests_of calls) three []
    ≡ serve disk (λ _. command) 0 calls three []
process-serve_example = process-serve disk (λ _. command) 60 0 calls small room three []

abbrev words : List Bytes
words = codes "GET" ∷ codes "a" ∷ []

-- the first five bytes of a request, and the others
abbrev early : Bytes
early = b'*' ∷ b'2' ∷ 13 ∷ 10 ∷ b'$' ∷ []

abbrev late : Bytes
late = drop 5 (request words [])

words_cut : request words [] ≡ early ++ late
unfolding print
words_cut = refl

late_left : late ≢ []
unfolding print
late_left e = cc

parse_prefix_example :
    (parse Resp.granted early ≡ incomplete)
    ⊎ ((ts us : List Bytes) × (words ≡ ts ++ us)
        × (early ≡ begins (length words) ts)
        × (parse Resp.granted early ≡ error))
parse_prefix_example =
    parse_prefix words early late (omega arith) (omega arith) (omega arith, (omega arith, tt))
      words_cut late_left

read_bulk_string-send_bulk_string_response_example :
    let reply = send_bulk_string_response true (some (codes "xyz")) in
    ((buffer_size ≤ bulk_length (codes "xyz")) × (reply ≡ record { goes_on = false; sent = [] }))
    ⊎ ((bulk_length (codes "xyz") < buffer_size)
        × (reply.goes_on ≡ true)
        × (read_bulk_string true (record { rest = reply.sent; pos = 0 })
            ≡ ok (some (codes "xyz")) (record { rest = []; pos = bulk_length (codes "xyz") })))
read_bulk_string-send_bulk_string_response_example =
    read_bulk_string-send_bulk_string_response (codes "xyz")
