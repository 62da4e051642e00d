-- ===== src/Resp/Encode.antt =====
-- What a client writes, and how the parts of it are read back.
use podcache.Prelude.{
  ℕ, suc, ◌+◌, ◌-◌, ◌^◌, ◌≤◌, ◌<◌, ◌≡◌, refl, ap, Bytes, true, some, List, [], ◌∷◌, ◌++◌, map,
  ne→==, ==_refl, le→ltb, le→leb, length, length-append, take-append, drop, get_or, arith,
}
use podcache.Prelude.Int.{pos}
use podcache.Prelude.Decimal.{decimal, strtol-decimal, print_lem, length-print-le, AllDigits}
use podcache.Resp.{
  ok, max_str_len, find_crlf, integer_before, read_integer, bulk_body, read_bulk_string,
  read_elements, always,
}
use native.Mathlib.Numerals.{add-one, towards_suc}

-- `$<length>\r\n<bytes>\r\n`, in front of `rest`
abbrev pub bulk : Bytes → Bytes → Bytes
bulk s rest = b'$' ∷ (decimal (length s) ++ 13 ∷ 10 ∷ (s ++ 13 ∷ 10 ∷ rest))

abbrev pub bulks : List Bytes → Bytes → Bytes
bulks [] rest = rest
bulks (s ∷ ss) rest = bulk s (bulks ss rest)

-- `*<count>\r\n` and the elements
abbrev pub request : List Bytes → Bytes → Bytes
request ss rest = b'*' ∷ (decimal (length ss) ++ 13 ∷ 10 ∷ bulks ss rest)

find_crlf_digits : (s t : Bytes) → AllDigits s → find_crlf (s ++ 13 ∷ 10 ∷ t) ≡ some (length s)
unfolding find_crlf
find_crlf_digits [] t h = refl
find_crlf_digits (c ∷ []) t h = ground arith
find_crlf_digits (c ∷ d ∷ s) t (hc, h) = ground (arith, find_crlf_digits (d ∷ s) t h)

drop_past_suc : (s : Bytes) (x y : ℕ) (t : Bytes) → drop (suc (suc (length s))) (s ++ x ∷ y ∷ t) ≡ t
drop_past_suc [] x y t = refl
drop_past_suc (c ∷ s) x y t = drop_past_suc s x y t

drop_past : (s : Bytes) (x y : ℕ) (t : Bytes) → drop (length s + 2) (s ++ x ∷ y ∷ t) ≡ t
drop_past s x y t = simp towards_suc (drop_past_suc s x y t)

get_or_at : (s : Bytes) (x : ℕ) (t : Bytes) → get_or (s ++ x ∷ t) (length s) 0 ≡ x
get_or_at [] x t = refl
get_or_at (c ∷ s) x t = get_or_at s x t

get_or_next : (s : Bytes) (x y : ℕ) (t : Bytes) → get_or (s ++ x ∷ y ∷ t) (suc (length s)) 0 ≡ y
get_or_next [] x y t = refl
get_or_next (c ∷ s) x y t = get_or_next s x y t

integer_before-decimal :
    (n p : ℕ) (t : Bytes)
    → n < 2 ^ 31
    → integer_before (record { rest = decimal n ++ 13 ∷ 10 ∷ t; pos = p }) (length (decimal n))
      ≡ ok (pos n) (record { rest = t; pos = p + (length (decimal n) + 2) })
unfolding integer_before
integer_before-decimal n p t h =
    let (digits, value, room) = print_lem (suc n) n (omega arith) in
    let len = length (decimal n) in
    let short : len ≤ 10 = length-print-le (suc n) n 9 (omega arith) in
    rw (
      ne→== len 0 (omega arith),
      le→ltb 20 len (omega arith),
      strtol-decimal n 13 (10 ∷ t) (omega arith) refl,
      ==_refl,
      le→leb n (2 ^ 31 - 1) (omega arith),
      drop_past (decimal n) 13 10 t,
    )

-- A number that is written in decimal is read back.
pub read_integer-decimal :
    (n p : ℕ) (t : Bytes)
    → n < 2 ^ 31
    → read_integer (record { rest = decimal n ++ 13 ∷ 10 ∷ t; pos = p })
      ≡ ok (pos n) (record { rest = t; pos = p + (length (decimal n) + 2) })
unfolding read_integer
read_integer-decimal n p t h =
    rw (find_crlf_digits (decimal n) t (print_lem (suc n) n (omega arith)).0)
      (integer_before-decimal n p t h)

-- the bytes of a bulk string
bulk_body_bytes :
    (s t : Bytes) (p : ℕ)
    → length s ≤ max_str_len
    → bulk_body true (pos (length s)) (record { rest = s ++ 13 ∷ 10 ∷ t; pos = p })
      ≡ ok (some s) (record { rest = t; pos = p + (length s + 2) })
unfolding bulk_body
bulk_body_bytes s t p h =
    let len = length s in
    let fits : len + 2 ≤ length (s ++ 13 ∷ 10 ∷ t) =
      omega (arith, length-append {0} s (13 ∷ 10 ∷ t)) in
    rw (
      le→ltb max_str_len len h,
      le→leb (len + 2) (length (s ++ 13 ∷ 10 ∷ t)) fits,
      get_or_at s 13 (10 ∷ t),
      add-one len,
      get_or_next s 13 10 t,
      take-append s (13 ∷ 10 ∷ t),
      drop_past s 13 10 t,
      le→ltb (length (s ++ 13 ∷ 10 ∷ t)) (len + 2) fits,
    )

-- the bytes that a bulk string takes
abbrev pub bulk_length : Bytes → ℕ
bulk_length s = 1 + (length (decimal (length s)) + 2) + (length s + 2)

-- A bulk string that a client writes is read back, and nothing behind it is touched.
pub read_bulk_string-bulk :
    (s t : Bytes) (p : ℕ)
    → length s ≤ max_str_len
    → read_bulk_string true (record { rest = bulk s t; pos = p })
      ≡ ok (some s) (record { rest = t; pos = p + bulk_length s })
unfolding read_bulk_string
read_bulk_string-bulk s t p h =
    let behind = decimal (length s) ++ 13 ∷ 10 ∷ (s ++ 13 ∷ 10 ∷ t) in
    rw
      (
        le→leb 1 (suc (length behind)) (omega arith),
        le→ltb (suc (length behind)) 1 (omega arith),
        read_integer-decimal (length s) (p + 1) (s ++ 13 ∷ 10 ∷ t) (omega arith),
        bulk_body_bytes s t (p + 1 + (length (decimal (length s)) + 2)) h,
      )
      (ap (λ n. ok (some s) (record { rest = t; pos = n })) (omega arith))

abbrev pub AllShort : List Bytes → Type 0
AllShort [] = Unit
AllShort (s ∷ ss) = (length s ≤ max_str_len) × AllShort ss

abbrev pub bulks_length : List Bytes → ℕ
bulks_length [] = 0
bulks_length (s ∷ ss) = bulk_length s + bulks_length ss

pub read_elements-bulks :
    (ss : List Bytes) (t : Bytes) (p : ℕ)
    → AllShort ss
    → read_elements always (length ss) (record { rest = bulks ss t; pos = p })
      ≡ ok (map some ss) (record { rest = t; pos = p + bulks_length ss })
unfolding read_elements
read_elements-bulks [] t p h = ap (λ n. ok [] (record { rest = t; pos = n })) (omega arith)
read_elements-bulks (s ∷ ss) t p (hs, h) =
    rw (read_bulk_string-bulk s (bulks ss t) p hs, read_elements-bulks ss t (p + bulk_length s) h)
      (ap (λ n. ok (some s ∷ map some ss) (record { rest = t; pos = n })) (omega arith))

-- the length of what a client writes
pub length-bulk : (s t : Bytes) → length (bulk s t) ≡ bulk_length s + length t
length-bulk s t = omega (
  arith,
  length-append {0} (decimal (length s)) (13 ∷ 10 ∷ (s ++ 13 ∷ 10 ∷ t)),
  length-append {0} s (13 ∷ 10 ∷ t),
)

pub length-bulks : (ss : List Bytes) (t : Bytes) → length (bulks ss t) ≡ bulks_length ss + length t
length-bulks [] t = omega arith
length-bulks (s ∷ ss) t = omega (arith, length-bulk s (bulks ss t), length-bulks ss t)
