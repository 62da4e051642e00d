-- ===== src/Resp/Whole.antt =====
-- A whole request is parsed back.
use podcache.Prelude.{
  ℕ, suc, ◌+◌, ◌<◌, ◌≡◌, refl, Bytes, some, List, [], ◌∷◌, ◌++◌, map, ne→==, le→ltb, le→leb, length,
  length-append, arith,
}
use podcache.Prelude.Decimal.{decimal, print_lem}
use podcache.Resp.{Buffer, ok, Command, max_args, granted, parse, parse_elements, assemble}
use podcache.Resp.Encode.{
  bulks, request, AllShort, bulks_length, read_integer-decimal, read_elements-bulks, length-bulks,
}

-- the bytes of a request
abbrev pub request_length : List Bytes → ℕ
request_length ss = 1 + (length (decimal (length ss)) + 2) + bulks_length ss

pub length-request :
    (ss : List Bytes) (t : Bytes) → length (request ss t) ≡ request_length ss + length t
length-request ss t =
    omega (arith, length-append {0} (decimal (length ss)) (13 ∷ 10 ∷ bulks ss t), length-bulks ss t)

abbrev pub command_of : Bytes → List Bytes → Command
command_of s ss = record { command = some s; args = map some ss }

assemble_all :
    (s : Bytes) (ss : List Bytes) (buf : Buffer)
    → assemble granted (map some (s ∷ ss)) buf ≡ ok (command_of s ss) buf
unfolding assemble
assemble_all s [] buf = refl
assemble_all s (r ∷ ss) buf = refl

-- With memory, a request of one to 100 strings, each of at most 2 ^ 20 bytes, is parsed back to
-- its command and arguments, whatever follows it; the parser consumes exactly the bytes of the
-- request.
pub parse-request :
    (s : Bytes) (ss : List Bytes) (t : Bytes)
    → length ss < max_args
    → AllShort (s ∷ ss)
    → parse granted (request (s ∷ ss) t)
      ≡ ok (command_of s ss) (record { rest = t; pos = request_length (s ∷ ss) })
unfolding parse parse_elements
parse-request s ss t few short =
    let n = suc (length ss) in
    let behind = decimal n ++ 13 ∷ 10 ∷ bulks (s ∷ ss) t in
    let room = length-request (s ∷ ss) t in
    rw (
      le→ltb (suc (length behind)) 4 (omega (arith, (print_lem (suc n) n (omega arith)).2)),
      le→leb 1 (suc (length behind)) (omega arith),
      le→ltb (suc (length behind)) 1 (omega arith),
      read_integer-decimal n 1 (bulks (s ∷ ss) t) (omega arith),
      ne→== n 0 (omega arith),
      le→ltb max_args n (omega arith),
      read_elements-bulks (s ∷ ss) t (1 + (length (decimal n) + 2)) short,
      assemble_all s ss,
    )
