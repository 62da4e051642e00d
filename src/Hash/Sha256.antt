-- ===== src/Hash/Sha256.antt =====
-- `sha256_string` of src/hash_func_nossl.c. Words are numbers below 2 ^ 32, and every sum wraps there.
pub mod Padding
pub mod Output
use Prim.Native.Nat.{bit_and, bit_or, bit_xor}
use podcache.Prelude.{
  ℕ, zero, suc, ◌+◌, ◌-◌, ◌*◌, ◌/◌, ◌%◌, ◌^◌, ◌≡◌, refl, Bytes, codes, Bool, true, List, [], ◌∷◌,
  ◌++◌, ◌==◌, leb, if◌then◌else◌, length, get_or, drop, replicate,
}

abbrev K : List ℕ
K =
    0x428a2f98 ∷ 0x71374491 ∷ 0xb5c0fbcf ∷ 0xe9b5dba5 ∷ 0x3956c25b ∷ 0x59f111f1 ∷ 0x923f82a4
    ∷ 0xab1c5ed5 ∷ 0xd807aa98 ∷ 0x12835b01 ∷ 0x243185be ∷ 0x550c7dc3 ∷ 0x72be5d74 ∷ 0x80deb1fe
    ∷ 0x9bdc06a7 ∷ 0xc19bf174 ∷ 0xe49b69c1 ∷ 0xefbe4786 ∷ 0x0fc19dc6 ∷ 0x240ca1cc ∷ 0x2de92c6f
    ∷ 0x4a7484aa ∷ 0x5cb0a9dc ∷ 0x76f988da ∷ 0x983e5152 ∷ 0xa831c66d ∷ 0xb00327c8 ∷ 0xbf597fc7
    ∷ 0xc6e00bf3 ∷ 0xd5a79147 ∷ 0x06ca6351 ∷ 0x14292967 ∷ 0x27b70a85 ∷ 0x2e1b2138 ∷ 0x4d2c6dfc
    ∷ 0x53380d13 ∷ 0x650a7354 ∷ 0x766a0abb ∷ 0x81c2c92e ∷ 0x92722c85 ∷ 0xa2bfe8a1 ∷ 0xa81a664b
    ∷ 0xc24b8b70 ∷ 0xc76c51a3 ∷ 0xd192e819 ∷ 0xd6990624 ∷ 0xf40e3585 ∷ 0x106aa070 ∷ 0x19a4c116
    ∷ 0x1e376c08 ∷ 0x2748774c ∷ 0x34b0bcb5 ∷ 0x391c0cb3 ∷ 0x4ed8aa4a ∷ 0x5b9cca4f ∷ 0x682e6ff3
    ∷ 0x748f82ee ∷ 0x78a5636f ∷ 0x84c87814 ∷ 0x8cc70208 ∷ 0x90befffa ∷ 0xa4506ceb ∷ 0xbef9a3f7
    ∷ 0xc67178f2 ∷ []

abbrev word : ℕ → ℕ
word x = x % 2 ^ 32

rotr : ℕ → ℕ → ℕ
rotr x n = bit_or (x / 2 ^ n) (word (x * 2 ^ (32 - n)))

ch : ℕ → ℕ → ℕ → ℕ
ch x y z = bit_xor (bit_and x y) (bit_and (2 ^ 32 - 1 - x) z)

maj : ℕ → ℕ → ℕ → ℕ
maj x y z = bit_xor (bit_xor (bit_and x y) (bit_and x z)) (bit_and y z)

sigma0 : ℕ → ℕ
unfolding rotr
sigma0 x = bit_xor (bit_xor (rotr x 2) (rotr x 13)) (rotr x 22)

sigma1 : ℕ → ℕ
unfolding rotr
sigma1 x = bit_xor (bit_xor (rotr x 6) (rotr x 11)) (rotr x 25)

gamma0 : ℕ → ℕ
unfolding rotr
gamma0 x = bit_xor (bit_xor (rotr x 7) (rotr x 18)) (x / 2 ^ 3)

gamma1 : ℕ → ℕ
unfolding rotr
gamma1 x = bit_xor (bit_xor (rotr x 17) (rotr x 19)) (x / 2 ^ 10)

-- the loop `while (total_len % 64 != 56) total_len++`
unfoldable pub pad_to : ℕ → ℕ → ℕ
pad_to zero total_len = total_len
pad_to (suc fuel) total_len =
    let more = pad_to fuel ((total_len + 1) % 2 ^ 64) in
    if total_len % 64 == 56 then total_len else more

-- `total_len` of a message of `msg_len` bytes
unfoldable pub total_length : ℕ → ℕ
unfolding pad_to
total_length msg_len = pad_to 64 (msg_len + 1) + 8

-- the length as eight bytes, the most significant first
unfoldable pub big_endian : ℕ → ℕ → Bytes
big_endian zero n = []
big_endian (suc k) n = (n / 2 ^ (k * 8)) % 256 ∷ big_endian k n

-- the padded message
unfoldable pub pad : Bytes → Bytes
pad str =
    str
    ++ (0x80
        ∷ (replicate (total_length (length str) - 8 - length str - 1) 0
            ++ big_endian 8 ((length str * 8) % 2 ^ 64)))

-- the first 16 words of the schedule
chunk_words : ℕ → Bytes → List ℕ
chunk_words zero msg = []
chunk_words (suc n) msg =
    bit_or
      (bit_or (bit_or (word (get_or msg 0 0 * 2 ^ 24)) (get_or msg 1 0 * 2 ^ 16))
        (get_or msg 2 0 * 2 ^ 8))
      (get_or msg 3 0)
    ∷ chunk_words n (drop 4 msg)

-- the words that follow, from index `i` on
extend : ℕ → ℕ → List ℕ → List ℕ
unfolding gamma0 gamma1
extend zero i w = w
extend (suc n) i w = extend n (i + 1) (
    w
    ++ word (
        gamma1 (get_or w (i - 2) 0)
        + get_or w (i - 7) 0
        + gamma0 (get_or w (i - 15) 0)
        + get_or w (i - 16) 0)
      ∷ [])

pub record Digest : Type 0 where
  pub a : ℕ
  pub b : ℕ
  pub c : ℕ
  pub d : ℕ
  pub e : ℕ
  pub f : ℕ
  pub g : ℕ
  pub h : ℕ

-- one round of the main loop, for the constant `k` and the word `w`
round : ℕ → ℕ → Digest → Digest
unfolding sigma0 sigma1 ch maj
round k w s =
    let t1 = word (s.h + sigma1 s.e + ch s.e s.f s.g + k + w) in
    let t2 = word (sigma0 s.a + maj s.a s.b s.c) in
    record {
      a = word (t1 + t2);
      b = s.a;
      c = s.b;
      d = s.c;
      e = word (s.d + t1);
      f = s.e;
      g = s.f;
      h = s.g;
    }

rounds : List ℕ → List ℕ → Digest → Digest
unfolding round
rounds [] ws s = s
rounds (k ∷ ks) [] s = s
rounds (k ∷ ks) (w ∷ ws) s = rounds ks ws (round k w s)

-- the hash after one chunk
compress : Bytes → Digest → Digest
unfolding rounds extend chunk_words
compress msg s =
    let t = rounds K (extend 48 16 (chunk_words 16 msg)) s in
    record {
      a = word (s.a + t.a);
      b = word (s.b + t.b);
      c = word (s.c + t.c);
      d = word (s.d + t.d);
      e = word (s.e + t.e);
      f = word (s.f + t.f);
      g = word (s.g + t.g);
      h = word (s.h + t.h);
    }

-- the loop over the chunks
unfoldable pub chunks : ℕ → Bytes → Digest → Digest
unfolding compress
chunks zero msg s = s
chunks (suc n) msg s = chunks n (drop 64 msg) (compress msg s)

abbrev initial : Digest
initial = record {
  a = 0x6a09e667;
  b = 0xbb67ae85;
  c = 0x3c6ef372;
  d = 0xa54ff53a;
  e = 0x510e527f;
  f = 0x9b05688c;
  g = 0x1f83d9ab;
  h = 0x5be0cd19;
}

unfoldable pub hex_digit : ℕ → ℕ
hex_digit n = if leb 10 n then b'a' + (n - 10) else b'0' + n

-- `"%08x"`
unfoldable pub hex : ℕ → ℕ → Bytes
unfolding hex_digit
hex zero x = []
hex (suc n) x = hex_digit ((x / 16 ^ n) % 16) ∷ hex n x

-- The text in `output`; it is empty if the padded message cannot be allocated.
unfoldable pub sha256_string : Bool → Bytes → Bytes
sha256_string calloc_ok str =
    if calloc_ok
    then (let s = chunks (total_length (length str) / 64) (pad str) initial in
        hex 8 s.a
        ++ (hex 8 s.b
            ++ (hex 8 s.c
                ++ (hex 8 s.d ++ (hex 8 s.e ++ (hex 8 s.f ++ (hex 8 s.g ++ hex 8 s.h)))))))
    else []

sha256_abc :
    sha256_string true (codes "abc")
    ≡ codes "ba7816bf8f01cfea414140de5dae2223b00361a396177a9cb410ff61f20015ad"
unfolding sha256_string chunks pad hex total_length big_endian
sha256_abc = refl
