-- ===== src/Prelude/Decimal.antt =====
-- Decimal text as `printf` writes it and as `strtol` of the C library reads it.
use podcache.Prelude.{
  ℕ, zero, suc, ◌+◌, ◌-◌, ◌*◌, ◌/◌, ◌%◌, ◌^◌, ◌≤◌, ◌<◌, ◌≡◌, refl, ◌∙◌, ap, sym, append-nil, Bytes,
  codes, Bool, true, false, ◌&&◌, ◌||◌, [], ◌∷◌, ◌++◌, leb, ltb, ◌==◌, if◌then◌else◌, length,
  length-append, arith, Bool-cases, inl, inr,
}
use podcache.Prelude.Int.{ℤ, pos, negsuc, neg}
use native.Mathlib.Nat.{pow-suc}

-- `"%zu"`, with fuel for the digits
unfoldable pub print : ℕ → ℕ → Bytes
print zero n = []
print (suc fuel) n =
    let front = print fuel (n / 10) in
    if ltb n 10 then (b'0' + n) ∷ [] else front ++ (b'0' + n % 10) ∷ []

abbrev pub decimal : ℕ → Bytes
decimal n = print (suc n) n

-- `"%ld"`
abbrev pub decimal_ℤ : ℤ → Bytes
decimal_ℤ (pos n) = decimal n
decimal_ℤ (negsuc n) = b'-' ∷ decimal (suc n)

abbrev pub is_digit : ℕ → Bool
is_digit c = leb b'0' c && leb c b'9'

abbrev pub is_space : ℕ → Bool
is_space c = c == 32 || (leb 9 c && leb c 13)

-- the digits at the front: what they spell behind `acc`, and how many they are behind `count`
unfoldable pub scan : ℕ → ℕ → Bytes → ℕ × ℕ
scan acc count [] = (acc, count)
scan acc count (c ∷ s) =
    let rest = scan (acc * 10 + (c - b'0')) (count + 1) s in
    if is_digit c then rest else (acc, count)

-- The results of `strtol(s, &end, 10)`: the value, the distance from `s` to `end`, and whether
-- `errno` is set. A value out of range is clamped.
pub record Strtol : Type 0 where
  pub value : ℤ
  pub end : ℕ
  pub range_error : Bool

abbrev pub nothing_read : Strtol
nothing_read = record { value = pos 0; end = 0; range_error = false }

-- the result for digits behind `offset` other bytes
unfoldable pub converted : (negative : Bool) → ℕ → ℕ × ℕ → Strtol
converted negative offset (n, count) =
    if count == 0
    then nothing_read
    else if negative
    then (record {
      value = neg (if leb n (2 ^ 63) then n else 2 ^ 63);
      end = offset + count;
      range_error = ltb (2 ^ 63) n;
    })
    else (record {
      value = pos (if ltb n (2 ^ 63) then n else 2 ^ 63 - 1);
      end = offset + count;
      range_error = leb (2 ^ 63) n;
    })

unfoldable pub strtol_sign : ℕ → Bytes → Strtol
unfolding converted scan
strtol_sign offset [] = nothing_read
strtol_sign offset (c ∷ s) =
    if c == b'-'
    then converted true (offset + 1) (scan 0 0 s)
    else if c == b'+'
    then converted false (offset + 1) (scan 0 0 s)
    else converted false offset (scan 0 0 (c ∷ s))

unfoldable pub strtol_from : ℕ → Bytes → Strtol
unfolding strtol_sign
strtol_from offset [] = nothing_read
strtol_from offset (c ∷ s) =
    let rest = strtol_from (offset + 1) s in if is_space c then rest else strtol_sign offset (c ∷ s)

unfoldable pub strtol : Bytes → Strtol
unfolding strtol_from
strtol s = strtol_from 0 s

reads :
    (strtol (codes " -42x") ≡ record { value = negsuc 41; end = 4; range_error = false })
    × (decimal 1203 ≡ codes "1203")
unfolding strtol print
reads = (refl, refl)

abbrev pub AllDigits : Bytes → Type 0
AllDigits [] = Unit
AllDigits (c ∷ s) = (is_digit c ≡ true) × AllDigits s

AllDigits-snoc : (s : Bytes) (c : ℕ) → AllDigits s → is_digit c ≡ true → AllDigits (s ++ c ∷ [])
AllDigits-snoc [] c h d = (d, tt)
AllDigits-snoc (b ∷ s) c h d = (h.0, AllDigits-snoc s c h.1 d)

abbrev spelled : ℕ → Bytes → ℕ
spelled acc [] = acc
spelled acc (c ∷ s) = spelled (acc * 10 + (c - b'0')) s

spelled-snoc :
    (acc : ℕ) (s : Bytes) (c : ℕ) → spelled acc (s ++ c ∷ []) ≡ spelled acc s * 10 + (c - b'0')
spelled-snoc acc [] c = refl
spelled-snoc acc (b ∷ s) c = spelled-snoc (acc * 10 + (b - b'0')) s c

scan-append :
    (acc count : ℕ) (s t : Bytes)
    → AllDigits s
    → scan acc count (s ++ t) ≡ scan (spelled acc s) (count + length s) t
unfolding scan
scan-append acc count [] t h = ap (λ n. scan acc n t) (omega arith)
scan-append acc count (c ∷ s) t (d, h) = rw d (
    scan-append (acc * 10 + (c - b'0')) (count + 1) s t h
    ∙ ap (λ n. scan (spelled (acc * 10 + (c - b'0')) s) n t) (omega arith))

-- what `print` writes, with fuel for the digits
pub print_lem :
    (fuel n : ℕ)
    → n < fuel
    → AllDigits (print fuel n) × (spelled 0 (print fuel n) ≡ n) × (0 < length (print fuel n))
unfolding print
print_lem zero n h = absurd (omega arith)
print_lem (suc fuel) n h = elim (Bool-cases (ltb n 10)) [
  | inl e ↦ rw e ((ground arith, tt), omega arith, omega arith)
  | inr e ↦
      let (digits, value, some_digit) = print_lem fuel (n / 10) (ground arith) in
      rw e (
        AllDigits-snoc (print fuel (n / 10)) (b'0' + n % 10) digits (ground arith),
        omega (arith, spelled-snoc 0 (print fuel (n / 10)) (b'0' + n % 10)),
        omega (arith, length-append {0} (print fuel (n / 10)) ((b'0' + n % 10) ∷ [])),
      )
]

pub length-print-le : (fuel n k : ℕ) → n < 10 ^ suc k → length (print fuel n) ≤ suc k
unfolding print
length-print-le zero n k h = omega arith
length-print-le (suc fuel) n zero h = ground arith
length-print-le (suc fuel) n (suc k) h =
    let less : n / 10 < 10 ^ suc k = omega (arith, pow-suc 10 (suc k)) in
    ground (
      arith,
      length-print-le fuel (n / 10) k less,
      length-append {0} (print fuel (n / 10)) ((b'0' + n % 10) ∷ []),
    )

scan_stop :
    (acc count c : ℕ) (t : Bytes) → is_digit c ≡ false → scan acc count (c ∷ t) ≡ (acc, count)
unfolding scan
scan_stop acc count c t h = rw h

strtol_digits :
    (s t : Bytes)
    → AllDigits s
    → 0 < length s
    → spelled 0 s < 2 ^ 63
    → ((acc count : ℕ) → scan acc count t ≡ (acc, count))
    → strtol (s ++ t) ≡ record { value = pos (spelled 0 s); end = length s; range_error = false }
unfolding strtol
strtol_digits [] t h room small stop = absurd (omega arith)
strtol_digits (d ∷ s) t (first, h) room small stop =
    let read : scan 0 0 (d ∷ s ++ t) ≡ (spelled 0 (d ∷ s), suc (length s)) =
      scan-append 0 0 (d ∷ s) t (first, h)
      ∙ stop (spelled 0 (d ∷ s)) (0 + suc (length s))
      ∙ ap (λ n. (spelled 0 (d ∷ s), n)) (omega arith) in
    let plain : is_space d ≡ false = ground arith in
    let unsigned : ((d == b'-') ≡ false) × ((d == b'+') ≡ false) = ground arith in
    rw (plain, unsigned.0, unsigned.1, read) (ground arith)

-- A number is read back in front of anything that does not continue it.
strtol_number :
    (n : ℕ) (t : Bytes)
    → n < 2 ^ 63
    → ((acc count : ℕ) → scan acc count t ≡ (acc, count))
    → strtol (decimal n ++ t)
      ≡ record { value = pos n; end = length (decimal n); range_error = false }
strtol_number n t small stop =
    let (digits, value, room) = print_lem (suc n) n (omega arith) in
    strtol_digits (decimal n) t digits room (rw value small) stop ∙ λ i. record {
      value = pos (value i);
      end = length (decimal n);
      range_error = false;
    }

-- `strtol` reads back what `"%zu"` writes, and stops behind it.
pub strtol-decimal :
    (n c : ℕ) (t : Bytes)
    → n < 2 ^ 63
    → is_digit c ≡ false
    → strtol (decimal n ++ c ∷ t)
      ≡ record { value = pos n; end = length (decimal n); range_error = false }
strtol-decimal n c t small stop =
    strtol_number n (c ∷ t) small (λ acc count. scan_stop acc count c t stop)

-- The same for a number that ends the text.
pub strtol-decimal_end :
    (n : ℕ)
    → n < 2 ^ 63
    → strtol (decimal n) ≡ record { value = pos n; end = length (decimal n); range_error = false }
unfolding scan
strtol-decimal_end n small =
    ap strtol (sym (append-nil (decimal n))) ∙ strtol_number n [] small (λ acc count. refl)
