-- ===== src/Hash/Sha256/Output.antt =====
-- The text that `sha256_string` writes.
use podcache.Prelude.{
  ℕ, zero, suc, ◌+◌, ◌/◌, ◌%◌, ◌^◌, ◌≤◌, ◌<◌, ◌≡◌, ◌⊎◌, refl, Bytes, true, [], ◌∷◌, ◌++◌, length,
  length-append, arith,
}
use podcache.Hash.Sha256.{hex_digit, hex, sha256_string}

-- a digit that `"%08x"` writes
abbrev pub IsHex : ℕ → Type 0
IsHex c = ((b'0' ≤ c) × (c ≤ b'9')) ⊎ ((b'a' ≤ c) × (c ≤ b'f'))

abbrev pub AllHex : Bytes → Type 0
AllHex [] = Unit
AllHex (c ∷ s) = IsHex c × AllHex s

AllHex-append : (s t : Bytes) → AllHex s → AllHex t → AllHex (s ++ t)
AllHex-append [] t hs ht = ht
AllHex-append (c ∷ s) t hs ht = (hs.0, AllHex-append s t hs.1 ht)

hex_digit-IsHex : (d : ℕ) → d < 16 → IsHex (hex_digit d)
unfolding hex_digit
hex_digit-IsHex d h = ground arith

-- a text of `n` digits
abbrev pub IsWord : ℕ → Bytes → Type 0
IsWord n s = (length s ≡ n) × AllHex s

hex-IsWord : (n x : ℕ) → IsWord n (hex n x)
unfolding hex
hex-IsWord zero x = (refl, tt)
hex-IsWord (suc n) x =
    let (len, all) = hex-IsWord n x in
    (omega arith, (hex_digit-IsHex ((x / 16 ^ n) % 16) (omega arith), all))

IsWord-append : (m n : ℕ) (s t : Bytes) → IsWord m s → IsWord n t → IsWord (m + n) (s ++ t)
IsWord-append m n s t (ls, hs) (lt, ht) =
    (omega (arith, length-append {0} s t), AllHex-append s t hs ht)

-- With memory for the padded message, `sha256_string` writes 64 lower-case hexadecimal digits.
pub sha256_string-AllHex :
    (str : Bytes) → (length (sha256_string true str) ≡ 64) × AllHex (sha256_string true str)
unfolding sha256_string
sha256_string-AllHex str = IsWord-append 8 56 _ _ (hex-IsWord 8 _) (
    IsWord-append 8 48 _ _ (hex-IsWord 8 _) (
      IsWord-append 8 40 _ _ (hex-IsWord 8 _) (
        IsWord-append 8 32 _ _ (hex-IsWord 8 _) (
          IsWord-append 8 24 _ _ (hex-IsWord 8 _) (
            IsWord-append 8 16 _ _ (hex-IsWord 8 _)
              (IsWord-append 8 8 _ _ (hex-IsWord 8 _) (hex-IsWord 8 _)))))))
