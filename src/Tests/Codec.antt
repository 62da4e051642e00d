-- ===== src/Tests/Codec.antt =====
-- Runs of the theorems about the parser.
use podcache.Prelude.{Bytes, codes, true, some, [], ◌∷◌, ◌≡◌, ◌<◌, ◌+◌, arith, length, ◌==◌, not}
use podcache.Resp.Memory.{Heap, CommandBlocks, parse_blocks}
use podcache.Resp.Memory.Agrees.{Same}
use podcache.Resp.Memory.Owns.{Settled, resp_command_free-parse_blocks}
use podcache.Resp.{Parsed, Alloc, ok, granted, parse}
use podcache.Resp.Encode.{request}
use podcache.Resp.Whole.{parse-request, command_of, request_length}
use podcache.Resp.Partial.{parse_bounds}

-- *2 with "GET" and "k", and the first byte of the next request
abbrev get_k : Bytes
get_k = request (codes "GET" ∷ codes "k" ∷ []) (codes "*")

parse-request_example :
    parse granted get_k
    ≡ ok
        (command_of (codes "GET") (codes "k" ∷ []))
        (record { rest = codes "*"; pos = request_length (codes "GET" ∷ codes "k" ∷ []) })
parse-request_example =
    parse-request (codes "GET") (codes "k" ∷ []) (codes "*") (omega arith)
      (omega arith, (omega arith, tt))

parse_bounds_example :
    (0 < request_length (codes "GET" ∷ codes "k" ∷ []))
    × (request_length (codes "GET" ∷ codes "k" ∷ []) + 1 ≡ length get_k)
parse_bounds_example = parse_bounds granted get_k parse-request_example

-- the memory for the last string is not found
abbrev last_fails : Alloc
last_fails = record { elements_ok = true; string_ok = λ behind. not (behind == 0); args_ok = true }

resp_command_free-parse_blocks_example :
    (r : Parsed CommandBlocks) × (h : Heap) × (parse_blocks last_fails
        (request (codes "GET" ∷ codes "a" ∷ []) [])
        (record { live = 3 ∷ []; next = 7 })
      ≡ some (r, h))
    × Settled (3 ∷ []) r h
    × Same r (parse last_fails (request (codes "GET" ∷ codes "a" ∷ []) []))
resp_command_free-parse_blocks_example =
    resp_command_free-parse_blocks last_fails (request (codes "GET" ∷ codes "a" ∷ []) []) (3 ∷ []) 7
