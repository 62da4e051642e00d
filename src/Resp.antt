-- ===== src/Resp.antt =====
-- src/resp_parser.c and include/resp_parser.h: the parser of requests in the Redis protocol.
pub mod Encode
pub mod Whole
pub mod Partial
pub mod Waits
pub mod Prefix
pub mod Memory
use podcache.Prelude.{
  ℕ, zero, suc, ◌+◌, ◌-◌, ◌*◌, ◌^◌, ◌≤◌, ◌<◌, ◌≡◌, refl, Bytes, codes, Bool, true, false, ◌&&◌,
  ◌||◌, not, Option, none, some, List, [], ◌∷◌, ◌++◌, map, ltb, leb, ◌==◌, if◌then◌else◌, str_eq,
  length, take, drop, get_or, min,
}
use podcache.Prelude.Int.{ℤ, pos, negsuc, within}
use podcache.Prelude.Decimal.{Strtol, strtol}
use mathlib.Core.Option

abbrev pub max_args : ℕ
max_args = 100

abbrev pub max_str_len : ℕ
max_str_len = 1024 * 1024

abbrev pub min_buffer_size : ℕ
min_buffer_size = 4

-- `buffer_t`: `rest` are the bytes from `pos` up to `len`. The parser never goes back.
pub record Buffer : Type 0 where
  pub rest : Bytes
  pub pos : ℕ

-- `resp_command_e`
pub data CommandType : Type 0 where
  set get del ping quit client unknow incr unlink : CommandType

-- `resp_command_t`; a NULL bulk string is `none`
pub record Command : Type 0 where
  pub command : Option Bytes
  pub args : List (Option Bytes)

-- `parse_result_t`, with what is read and the buffer behind it
pub data Parsed {ℓ} (A : Type ℓ) : Type ℓ where
  ok : A → Buffer → Parsed A
  incomplete : Parsed A
  error : Parsed A

infixl 5 ◌>>=◌
abbrev pub ◌>>=◌ {ℓ κ} : {A : Type ℓ} {B : Type κ} → Parsed A → (A → Buffer → Parsed B) → Parsed B
ok a buf >>= f = f a buf
incomplete >>= f = incomplete
error >>= f = error

abbrev pub has_bytes : Buffer → ℕ → Bool
has_bytes buf count = leb count (length buf.rest)

-- `buffer_peek`: NUL at the end
abbrev pub peek : Buffer → ℕ
peek buf = if has_bytes buf 1 then get_or buf.rest 0 0 else 0

abbrev pub skip : Buffer → ℕ → Buffer
skip buf count = record {
  rest = drop count buf.rest;
  pos = buf.pos + (if ltb (length buf.rest) count then length buf.rest else count);
}

-- `buffer_find_crlf`: how far the first CRLF is from the position
unfoldable pub find_crlf : Bytes → Option ℕ
find_crlf [] = none
find_crlf (x ∷ []) = none
find_crlf (x ∷ y ∷ s) =
    let behind = Option.map suc (find_crlf (y ∷ s)) in if x == 13 && y == 10 then some 0 else behind

-- The number in front of the CRLF at distance `num_len`; `strtol` starts where the number should.
unfoldable pub integer_before : Buffer → ℕ → Parsed ℤ
integer_before buf num_len =
    let val = strtol buf.rest in
    if num_len == 0 || ltb 20 num_len
    then error
    else if val.range_error
        || (not (val.end == num_len) || not (within (2 ^ 31) (2 ^ 31 - 1) val.value))
    then error
    else ok val.value (record { rest = drop (num_len + 2) buf.rest; pos = buf.pos + (num_len + 2) })

unfoldable pub integer_at : Buffer → Option ℕ → Parsed ℤ
integer_at buf none = incomplete
integer_at buf (some num_len) = integer_before buf num_len

unfoldable pub read_integer : Buffer → Parsed ℤ
unfolding integer_at
read_integer buf = integer_at buf (find_crlf buf.rest)

-- `string_ok`: whether `strndup_safe` finds memory
unfoldable pub bulk_body : Bool → ℤ → Buffer → Parsed (Option Bytes)
bulk_body string_ok (negsuc n) buf = if n == 0 then ok none buf else error
bulk_body string_ok (pos str_len) buf =
    if ltb max_str_len str_len
    then error
    else if not (has_bytes buf (str_len + 2))
    then incomplete
    else if not string_ok
    then error
    else if not (get_or buf.rest str_len 0 == 13) || not (get_or buf.rest (str_len + 1) 0 == 10)
    then error
    else ok (some (take str_len buf.rest)) (skip buf (str_len + 2))

unfoldable pub read_bulk_string : Bool → Buffer → Parsed (Option Bytes)
read_bulk_string string_ok buf =
    if not (peek buf == b'$') then error else read_integer (skip buf 1) >>= bulk_body string_ok

-- the loop that reads all elements
unfoldable pub read_elements : (ℕ → Bool) → ℕ → Buffer → Parsed (List (Option Bytes))
read_elements string_ok zero buf = ok [] buf
read_elements string_ok (suc n) buf = read_bulk_string (string_ok n) buf >>= λ e buf'.
    read_elements string_ok n buf' >>= λ es buf''. ok (e ∷ es) buf''

-- The outcome of the allocations of one `resp_parse`. A string's is found under the number of elements
-- behind it.
pub record Alloc : Type 0 where
  pub elements_ok : Bool
  pub string_ok : ℕ → Bool
  pub args_ok : Bool

-- the command of the elements read
unfoldable pub assemble : Alloc → List (Option Bytes) → Buffer → Parsed Command
assemble alloc [] buf = error
assemble alloc (e ∷ []) buf = ok (record { command = e; args = [] }) buf
assemble alloc (e ∷ a ∷ es) buf =
    if alloc.args_ok then ok (record { command = e; args = a ∷ es }) buf else error

unfoldable pub parse_elements : Alloc → ℤ → Buffer → Parsed Command
parse_elements alloc (negsuc n) buf = error
parse_elements alloc (pos num_elements) buf =
    if num_elements == 0 || ltb max_args num_elements
    then error
    else if not alloc.elements_ok
    then error
    else read_elements alloc.string_ok num_elements buf >>= assemble alloc

-- `resp_parse`: the bytes consumed are the position of the buffer.
unfoldable pub parse : Alloc → Bytes → Parsed Command
parse alloc input =
    let buf : Buffer = record { rest = input; pos = 0 } in
    if ltb (length input) min_buffer_size
    then incomplete
    else if not (peek buf == b'*')
    then error
    else read_integer (skip buf 1) >>= parse_elements alloc

-- A C string is read up to its NUL.
unfoldable pub c_string : Bytes → Bytes
c_string [] = []
c_string (c ∷ s) = if c == 0 then [] else c ∷ c_string s

abbrev pub to_upper : ℕ → ℕ
to_upper c = if leb b'a' c && leb c b'z' then c - 32 else c

abbrev pub command_table : List (Bytes × CommandType)
command_table =
    (codes "PING", ping)
    ∷ (codes "QUIT", quit)
    ∷ (codes "SET", set)
    ∷ (codes "GET", get)
    ∷ (codes "DEL", del)
    ∷ (codes "CLIENT", client)
    ∷ (codes "INCR", incr)
    ∷ []

unfoldable pub table_lookup : Bytes → List (Bytes × CommandType) → CommandType
table_lookup name [] = unknow
table_lookup name ((entry, value) ∷ table) =
    if str_eq name entry then value else table_lookup name table

-- `resp_decode_command` of the bytes of a C string
unfoldable pub decode_command : Option Bytes → CommandType
decode_command none = unknow
decode_command (some command) =
    if ltb 32 (length command) then unknow else table_lookup (map to_upper command) command_table

abbrev pub always : ℕ → Bool
always n = true

abbrev pub granted : Alloc
granted = record { elements_ok = true; string_ok = always; args_ok = true }
