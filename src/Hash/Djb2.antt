-- ===== src/Hash/Djb2.antt =====
-- `hash_djb2`, `hash` and `hash_key` of src/hash_func_nossl.c. A plain `char` is signed, as on
-- x86-64: a byte from 128 on is added as a negative `int`, modulo 2 ^ 32.
use podcache.Prelude.{
  ℕ, ◌+◌, ◌-◌, ◌*◌, ◌%◌, ◌^◌, ◌<◌, ◌≡◌, refl, [], ◌∷◌, arith, Bytes, codes, ltb, if◌then◌else◌,
}
use native.Mathlib.Nat.{mod-lt}

-- `(uint32_t)(int)c` for a `char` given by its byte
abbrev pub char_bits : ℕ → ℕ
char_bits c = if ltb c 128 then c else 2 ^ 32 - 256 + c

-- the `while` loop of `hash_djb2`
unfoldable pub djb2_loop : ℕ → Bytes → ℕ
djb2_loop h [] = h
djb2_loop h (c ∷ str) = djb2_loop (((h * 2 ^ 5) % 2 ^ 32 + h + char_bits c) % 2 ^ 32) str

unfoldable pub hash_djb2 : Bytes → ℕ
unfolding djb2_loop
hash_djb2 str = djb2_loop 5381 str

unfoldable pub hash : Bytes → ℕ
unfolding hash_djb2
hash key = hash_djb2 key

unfoldable pub hash_key : Bytes → ℕ → ℕ
unfolding hash
hash_key key hash_table_capacity = hash key % hash_table_capacity

hash_a : hash (codes "a") ≡ 177670
unfolding hash
hash_a = refl

pub hash_key-lt : (key : Bytes) (capacity : ℕ) → 0 < capacity → hash_key key capacity < capacity
unfolding hash_key
hash_key-lt key capacity h = mod-lt (hash key) h

djb2_loop-lt : (h : ℕ) (str : Bytes) → h < 2 ^ 32 → djb2_loop h str < 2 ^ 32
unfolding djb2_loop
djb2_loop-lt h [] lt = lt
djb2_loop-lt h (c ∷ str) lt =
    djb2_loop-lt (((h * 2 ^ 5) % 2 ^ 32 + h + char_bits c) % 2 ^ 32) str (omega arith)

-- the hash is a 32-bit word
pub hash-lt : (key : Bytes) → hash key < 2 ^ 32
unfolding hash
hash-lt key = djb2_loop-lt 5381 key (omega arith)
