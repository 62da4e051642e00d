-- ===== src/Resp/Partial.antt =====
-- Input that stops early, and how much a parse consumes.
use podcache.Prelude.{
  ℕ, zero, suc, ◌+◌, ◌≤◌, ◌<◌, ◌≡◌, refl, Bytes, Bool, Option, some, List, [], ◌∷◌, ◌++◌, ltb, ◌==◌,
  not, ne→==, le→ltb, le→leb, length, length-append, length-drop, arith, Option-cases, Bool-cases,
  inl, inr, sym, subst, ◌||◌,
}
use podcache.Prelude.Int.{ℤ, pos, negsuc}
use podcache.Prelude.Decimal.{decimal, print_lem}
use podcache.Resp.{
  Buffer, Parsed, ok, error, incomplete, ◌>>=◌, Command, Alloc, max_args, granted, min_buffer_size,
  peek, skip, find_crlf, integer_before, read_integer, bulk_body, read_bulk_string, read_elements,
  always, assemble, parse_elements, parse,
}
use podcache.Resp.Encode.{bulk_length, bulks, AllShort, read_integer-decimal, read_bulk_string-bulk}

-- After whole elements, with none of the next one there, reading the others is refused.
read_elements_cut :
    (ss : List Bytes) (n p : ℕ)
    → AllShort ss
    → length ss < n
    → read_elements always n (record { rest = bulks ss []; pos = p }) ≡ error
unfolding read_elements read_bulk_string
read_elements_cut ss zero p short h = absurd (omega arith)
read_elements_cut [] (suc n) p short h = refl
read_elements_cut (s ∷ ss) (suc n) p (hs, short) h = rw (
  read_bulk_string-bulk s (bulks ss []) p hs,
  read_elements_cut ss n (p + bulk_length s) short (omega arith),
)

-- With memory, a request of which the header and some whole elements have arrived, at least one
-- less than the header says, is refused as malformed, where it is only incomplete. The header
-- says at most 100, and each element has at most 2 ^ 20 bytes.
pub parse_cut :
    (n : ℕ) (ss : List Bytes)
    → n ≤ max_args
    → length ss < n
    → AllShort ss
    → parse granted (b'*' ∷ (decimal n ++ 13 ∷ 10 ∷ bulks ss [])) ≡ error
unfolding parse parse_elements
parse_cut n ss few less short =
    let behind = decimal n ++ 13 ∷ 10 ∷ bulks ss [] in
    let room = length-append {0} (decimal n) (13 ∷ 10 ∷ bulks ss []) in
    rw (
      le→ltb (suc (length behind)) 4 (omega (arith, (print_lem (suc n) n (omega arith)).2)),
      le→leb 1 (suc (length behind)) (omega arith),
      le→ltb (suc (length behind)) 1 (omega arith),
      read_integer-decimal n 1 (bulks ss []) (omega arith),
      ne→== n 0 (omega arith),
      le→ltb max_args n (omega arith),
      read_elements_cut ss n (1 + (length (decimal n) + 2)) short less,
    )

-- `buf'` lies behind `buf` in the same input
pub record Behind (buf buf' : Buffer) : Type 0 where
  pub same : buf'.pos + length buf'.rest ≡ buf.pos + length buf.rest
  pub further : buf.pos ≤ buf'.pos

find_crlf_room : (s : Bytes) (n : ℕ) → find_crlf s ≡ some n → n + 2 ≤ length s
unfolding find_crlf
find_crlf_room [] n h = cc
find_crlf_room (x ∷ []) n h = cc
find_crlf_room (x ∷ y ∷ s) n h = elim (Option-cases (find_crlf (y ∷ s))) [
  | inl e ↦ ground arith
  | inr (m, e) ↦ ground (arith, find_crlf_room (y ∷ s) m e)
]

integer_before-Behind :
    (buf : Buffer) (n : ℕ) {v : ℤ} {buf' : Buffer}
    → n + 2 ≤ length buf.rest
    → integer_before buf n ≡ ok v buf'
    → Behind buf buf' × (buf.pos < buf'.pos)
unfolding integer_before
integer_before-Behind buf n room h = ground (arith, length-drop {0} (n + 2) buf.rest)

read_integer-Behind :
    (buf : Buffer) {v : ℤ} {buf' : Buffer}
    → read_integer buf ≡ ok v buf'
    → Behind buf buf' × (buf.pos < buf'.pos)
unfolding read_integer
read_integer-Behind buf h = elim (Option-cases (find_crlf buf.rest)) [
  | inl e ↦ ground arith
  | inr (n, e) ↦ integer_before-Behind buf n (find_crlf_room buf.rest n e) (rw e at h)
]

skip-Behind : (buf : Buffer) (n : ℕ) → Behind buf (skip buf n)
skip-Behind buf n = ground (arith, length-drop {0} n buf.rest)

bulk_body-Behind :
    (b : Bool) (v : ℤ) (buf : Buffer) {e : Option Bytes} {buf' : Buffer}
    → bulk_body b v buf ≡ ok e buf'
    → Behind buf buf'
unfolding bulk_body
bulk_body-Behind b (negsuc n) buf h = ground arith
bulk_body-Behind b (pos n) buf h = ground (arith, length-drop {0} (n + 2) buf.rest)

Behind-trans : {a b c : Buffer} → Behind a b → Behind b c → Behind a c
Behind-trans p q = record { same = omega arith; further = omega arith }

-- inversion of a successful step
>>=-eq-ok :
    {A B : Type 0} (m : Parsed A) (f : A → Buffer → Parsed B) {b : B} {buf : Buffer}
    → (m >>= f) ≡ ok b buf
    → (a : A) × (mid : Buffer) × (m ≡ ok a mid) × (f a mid ≡ ok b buf)
>>=-eq-ok (ok a mid) f h = (a, mid, refl, h)
>>=-eq-ok incomplete f h = cc
>>=-eq-ok error f h = cc

read_bulk_string-Behind :
    (b : Bool) (buf : Buffer) {e : Option Bytes} {buf' : Buffer}
    → read_bulk_string b buf ≡ ok e buf'
    → Behind buf buf'
unfolding read_bulk_string
read_bulk_string-Behind b buf h = elim (Bool-cases (not (peek buf == b'$'))) [
  | inl stop ↦ ground arith
  | inr go ↦
      let (v, mid, number, body) =
        >>=-eq-ok (read_integer (skip buf 1)) (bulk_body b) (rw go at h) in
      Behind-trans (skip-Behind buf 1)
        (Behind-trans (read_integer-Behind (skip buf 1) number).0 (bulk_body-Behind b v mid body))
]

read_elements-Behind :
    (b : ℕ → Bool) (n : ℕ) (buf : Buffer) {es : List (Option Bytes)} {buf' : Buffer}
    → read_elements b n buf ≡ ok es buf'
    → Behind buf buf'
unfolding read_elements
read_elements-Behind b zero buf h = ground arith
read_elements-Behind b (suc n) buf {buf'} h =
    let (e, mid, first, others) = >>=-eq-ok (read_bulk_string (b n) buf) _ h in
    let (es, end, next, done) = >>=-eq-ok (read_elements b n mid) _ others in
    let last : end ≡ buf' = cc in
    Behind-trans (read_bulk_string-Behind (b n) buf first)
      (subst (Behind mid) last (read_elements-Behind b n mid next))

assemble-same :
    (alloc : Alloc) (es : List (Option Bytes)) (buf : Buffer) {c : Command} {buf' : Buffer}
    → assemble alloc es buf ≡ ok c buf'
    → buf' ≡ buf
unfolding assemble
assemble-same alloc [] buf h = cc
assemble-same alloc (e ∷ []) buf h = cc
assemble-same alloc (e ∷ a ∷ es) buf h = ground arith

parse_elements-Behind :
    (alloc : Alloc) (v : ℤ) (buf : Buffer) {c : Command} {buf' : Buffer}
    → parse_elements alloc v buf ≡ ok c buf'
    → Behind buf buf'
unfolding parse_elements
parse_elements-Behind alloc (negsuc n) buf h = cc
parse_elements-Behind alloc (pos n) buf h = elim (Bool-cases (n == 0 || ltb max_args n)) [
  | inl stop ↦ ground arith
  | inr count ↦ elim (Bool-cases (not alloc.elements_ok)) [
    | inl stop ↦ ground arith
    | inr go ↦
        let (es, mid, read, done) =
          >>=-eq-ok (read_elements alloc.string_ok n buf) (assemble alloc) (rw (count, go) at h) in
        subst (Behind buf) (sym (assemble-same alloc es mid done))
          (read_elements-Behind alloc.string_ok n buf read)
  ]
]

-- A parsed command has consumed at least one byte, and the bytes consumed and the bytes left in
-- the buffer are together as many as the input has, whichever allocations succeed.
pub parse_bounds :
    (alloc : Alloc) (input : Bytes) {c : Command} {buf : Buffer}
    → parse alloc input ≡ ok c buf
    → (0 < buf.pos) × (buf.pos + length buf.rest ≡ length input)
unfolding parse
parse_bounds alloc input {buf} h =
    let start : Buffer = record { rest = input; pos = 0 } in
    elim (Bool-cases (ltb (length input) min_buffer_size)) [
      | inl stop ↦ ground arith
      | inr long ↦ elim (Bool-cases (not (peek start == b'*'))) [
        | inl stop ↦ ground arith
        | inr go ↦
            let (v, mid, number, body) =
              >>=-eq-ok (read_integer (skip start 1)) (parse_elements alloc) (rw (long, go) at h) in
            let (ahead, far) = read_integer-Behind (skip start 1) number in
            let onward = parse_elements-Behind alloc v mid body in
            let rest = Behind-trans (skip-Behind start 1) (Behind-trans ahead onward) in
            let same = rest.same in let further = onward.further in (omega arith, omega arith)
      ]
    ]
