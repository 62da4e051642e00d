-- ===== src/Prelude/Int.antt =====
-- Signed integers over the native numbers: `negsuc n` is -(n + 1).
use podcache.Prelude.{ℕ, suc, ◌-◌, Bool, leb, if◌then◌else◌}

pub data ℤ : Type 0 where
  pos : ℕ → ℤ
  negsuc : ℕ → ℤ

-- - n
abbrev pub neg : ℕ → ℤ
neg n = if leb 1 n then negsuc (n - 1) else pos 0

-- between - b and a
abbrev pub within : ℕ → ℕ → ℤ → Bool
within b a (pos n) = leb n a
within b a (negsuc n) = leb (suc n) b
