-- ===== src/Resp/Waits.antt =====
-- Input of src/resp_parser.c that stops inside a bulk string.
use podcache.Prelude.{
  ℕ, zero, suc, ◌+◌, ◌≤◌, ◌<◌, ◌≡◌, Bytes, true, List, [], ◌∷◌, ◌++◌, le→ltb, le→leb, lt→leb, ne→==,
  length, length-append, arith,
}
use podcache.Prelude.Int.{pos}
use podcache.Prelude.Decimal.{decimal, print_lem}
use podcache.Resp.{
  incomplete, max_args, max_str_len, granted, bulk_body, read_bulk_string, read_elements, always,
  parse_elements, parse,
}
use podcache.Resp.Encode.{bulk_length, bulks, AllShort, read_integer-decimal, read_bulk_string-bulk}

-- a bulk string of `len` bytes of which only `part` has arrived, its CRLF counted
abbrev pub begun : ℕ → Bytes → Bytes
begun len part = b'$' ∷ (decimal len ++ 13 ∷ 10 ∷ part)

bulk_body_short :
    (len p : ℕ) (part : Bytes)
    → len ≤ max_str_len
    → length part < len + 2
    → bulk_body true (pos len) (record { rest = part; pos = p }) ≡ incomplete
unfolding bulk_body
bulk_body_short len p part small less =
    rw (le→ltb max_str_len len small, lt→leb (len + 2) (length part) less)

pub read_bulk_string-begun :
    (len p : ℕ) (part : Bytes)
    → len ≤ max_str_len
    → length part < len + 2
    → read_bulk_string true (record { rest = begun len part; pos = p }) ≡ incomplete
unfolding read_bulk_string
read_bulk_string-begun len p part small less =
    let behind = decimal len ++ 13 ∷ 10 ∷ part in
    rw (
      le→leb 1 (suc (length behind)) (omega arith),
      le→ltb (suc (length behind)) 1 (omega arith),
      read_integer-decimal len (p + 1) part (omega arith),
      bulk_body_short len (p + 1 + (length (decimal len) + 2)) part small less,
    )

read_elements-begun :
    (ss : List Bytes) (n p len : ℕ) (part : Bytes)
    → AllShort ss
    → length ss < n
    → len ≤ max_str_len
    → length part < len + 2
    → read_elements always n (record { rest = bulks ss (begun len part); pos = p }) ≡ incomplete
unfolding read_elements
read_elements-begun ss zero p len part short h small less = absurd (omega arith)
read_elements-begun [] (suc n) p len part short h small less =
    rw (read_bulk_string-begun len p part small less)
read_elements-begun (s ∷ ss) (suc n) p len part (hs, short) h small less = rw (
  read_bulk_string-bulk s (bulks ss (begun len part)) p hs,
  read_elements-begun ss n (p + bulk_length s) len part short (omega arith) small less,
)

-- the header for `n` elements, the whole ones among them that have arrived, and one begun
abbrev pub begun_request : ℕ → List Bytes → ℕ → Bytes → Bytes
begun_request n ss len part = b'*' ∷ (decimal n ++ 13 ∷ 10 ∷ bulks ss (begun len part))

-- With memory, a request that stops inside the bytes of an element, or in the CRLF behind them, is
-- incomplete. The header says at most 100 elements, and each has at most 2 ^ 20 bytes.
pub parse-begun :
    (n : ℕ) (ss : List Bytes) (len : ℕ) (part : Bytes)
    → n ≤ max_args
    → length ss < n
    → AllShort ss
    → len ≤ max_str_len
    → length part < len + 2
    → parse granted (begun_request n ss len part) ≡ incomplete
unfolding parse parse_elements
parse-begun n ss len part few less short small cut =
    let behind = decimal n ++ 13 ∷ 10 ∷ bulks ss (begun len part) in
    let room = length-append {0} (decimal n) (13 ∷ 10 ∷ bulks ss (begun len part)) in
    rw (
      le→ltb (suc (length behind)) 4 (omega (arith, (print_lem (suc n) n (omega arith)).2)),
      le→leb 1 (suc (length behind)) (omega arith),
      le→ltb (suc (length behind)) 1 (omega arith),
      read_integer-decimal n 1 (bulks ss (begun len part)) (omega arith),
      ne→== n 0 (omega arith),
      le→ltb max_args n (omega arith),
      read_elements-begun ss n (1 + (length (decimal n) + 2)) len part short less small cut,
    )
