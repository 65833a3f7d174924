-- ===== src/Base/Int.antt =====
-- Integers over the native numbers; `negsuc n` is -(n + 1).
use aerial_ran_platform.Base.{ℕ, zero, suc, ◌+◌, ◌-◌, Bool, true, false, ltb, leb, if◌then◌else◌}

pub data ℤ : Type 0 where
  pos : ℕ → ℤ
  negsuc : ℕ → ℤ

abbrev pub is_zero : ℤ → Bool
is_zero (pos zero) = true
is_zero _ = false

abbrev pub less : ℤ → ℤ → Bool
less (pos m) (pos n) = ltb m n
less (pos m) (negsuc n) = false
less (negsuc m) (pos n) = true
less (negsuc m) (negsuc n) = ltb n m

-- `m - n`
abbrev pub difference : ℕ → ℕ → ℤ
difference m n = if leb n m then pos (m - n) else negsuc (n - suc m)

infixl 60 ◌+ℤ◌
abbrev pub ◌+ℤ◌ : ℤ → ℤ → ℤ
pos m +ℤ pos n = pos (m + n)
pos m +ℤ negsuc n = difference m (suc n)
negsuc m +ℤ pos n = difference n (suc m)
negsuc m +ℤ negsuc n = negsuc (suc (m + n))

-- The values of a column of type INTEGER.
abbrev pub in_int4 : ℤ → Bool
in_int4 (pos n) = ltb n 2147483648
in_int4 (negsuc n) = ltb n 2147483648
