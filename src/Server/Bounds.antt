-- ===== src/Server/Bounds.antt =====
-- The command buffer of src/server_tcp.c never overflows.
use podcache.Prelude.{
  ℕ, zero, suc, [], ◌∷◌, leb→le, Bytes, ◌+◌, ◌≤◌, ◌≡◌, refl, arith, length, length-append,
  length-drop, Bool-cases, inl, inr, leb, drop,
}
use podcache.Server.{CommandBuffer, buffer_append, buffer_consume}

-- The bytes in the buffer are no more than it holds.
abbrev pub Fits : CommandBuffer → Type 0
Fits buf = length buf.buffer ≤ buf.capacity

-- `buffer_append` keeps a buffer within its capacity, which stays, and it takes a chunk exactly
-- when there is room for the whole of it.
pub buffer_append-Fits :
    (buf : CommandBuffer) (chunk : Bytes)
    → Fits buf
    → let appended = buffer_append buf chunk in
      Fits appended.1
      × (appended.1.capacity ≡ buf.capacity)
      × (appended.0 ≡ leb (length buf.buffer + length chunk) buf.capacity)
unfolding buffer_append
buffer_append-Fits buf chunk h = ground (arith, length-append {0} buf.buffer chunk)

drop_all : (n : ℕ) (xs : Bytes) → length xs ≤ n → drop n xs ≡ []
drop_all zero [] h = refl
drop_all zero (x ∷ xs) h = absurd (omega arith)
drop_all (suc n) [] h = refl
drop_all (suc n) (x ∷ xs) h = drop_all n xs (omega arith)

-- `buffer_consume` of a buffer within its capacity leaves exactly the bytes behind the consumed
-- ones, and the capacity as it was.
pub buffer_consume-Fits :
    (buf : CommandBuffer) (bytes : ℕ)
    → Fits buf
    → let after = buffer_consume buf bytes in
      Fits after × (after.buffer ≡ drop bytes buf.buffer) × (after.capacity ≡ buf.capacity)
unfolding buffer_consume
buffer_consume-Fits buf bytes h = elim (Bool-cases (leb (length buf.buffer) bytes)) [
  | inl e ↦
      let empty = drop_all bytes buf.buffer (leb→le (length buf.buffer) bytes e) in
      rw (e, empty) (omega arith, refl, refl)
  | inr e ↦ rw e (omega (arith, length-drop {0} bytes buf.buffer), refl, refl)
]
