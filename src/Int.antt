-- ===== src/Int.antt =====
-- Go's `int` as far as the configuration uses it: a number of either sign.
use gcisco_exporter.Base.{ℕ, Bool, false, nat_eq}

-- `negsuc n` is -(n + 1)
pub data ℤ : Type 0 where
  pos : ℕ → ℤ
  negsuc : ℕ → ℤ

abbrev pub is_zero : ℤ → Bool
is_zero (pos n) = nat_eq n 0
is_zero (negsuc n) = false
