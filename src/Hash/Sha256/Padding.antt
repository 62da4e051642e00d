-- ===== src/Hash/Sha256/Padding.antt =====
-- The padding of `sha256_string`: its loop ends, and the message fills whole chunks.
use podcache.Prelude.{
  ℕ, zero, suc, ◌+◌, ◌-◌, ◌*◌, ◌%◌, ◌^◌, ◌≤◌, ◌<◌, ◌≡◌, refl, Bytes, length, replicate,
  length-append, length-replicate, arith,
}
use podcache.Hash.Sha256.{pad_to, total_length, big_endian, pad}

-- how far `n` is from the next number that leaves 56 modulo 64
abbrev missing : ℕ → ℕ
missing n = (120 - n % 64) % 64

pad_to-eq : (fuel n : ℕ) → missing n < fuel → n + missing n < 2 ^ 64 → pad_to fuel n ≡ n + missing n
unfolding pad_to
pad_to-eq zero n h w = absurd (omega arith)
pad_to-eq (suc fuel) n h w = ground (arith, pad_to-eq fuel ((n + 1) % 2 ^ 64))

-- For less than 2 ^ 63 bytes the loop that pads the length ends within its fuel. The padded
-- length is the least multiple of 64 with room for the message, the byte 0x80 and the eight
-- bytes of the length.
pub total_length_bounds :
    (n : ℕ)
    → n < 2 ^ 63
    → (total_length n % 64 ≡ 0) × (n + 9 ≤ total_length n) × (total_length n < n + 9 + 64)
unfolding total_length
total_length_bounds n h = omega (arith, pad_to-eq 64 (n + 1) (omega arith) (omega arith))

length-big_endian : (k n : ℕ) → length (big_endian k n) ≡ k
unfolding big_endian
length-big_endian zero n = refl
length-big_endian (suc k) n = omega (arith, length-big_endian k n)

-- For a message of less than 2 ^ 63 bytes the padded message has exactly the padded length, so
-- that the chunks cover it.
pub length-pad : (str : Bytes) → length str < 2 ^ 63 → length (pad str) ≡ total_length (length str)
unfolding pad
length-pad str h =
    let (_, room, _) = total_length_bounds (length str) h in
    let zeros = total_length (length str) - 8 - length str - 1 in
    rw length-append (
      omega (
        arith,
        length-append {0} (replicate zeros 0) (big_endian 8 ((length str * 8) % 2 ^ 64)),
        length-replicate {0} {A = ℕ} zeros 0,
        length-big_endian 8 ((length str * 8) % 2 ^ 64),
      ))
