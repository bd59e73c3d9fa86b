-- ===== src/Base/Int.antt =====
-- Signed integers over the native numbers, and the value of a 32-bit pattern.
use Prim.Native.Nat.{ℕ, zero, suc, ◌-◌, ◌%◌, ◌^◌}
use mathlib.Core.Bool.{Bool, true, false}
use vs2017code.Base.Tests.{◌==◌, ltb, leb, if◌then◌else◌}

-- `negsuc n` is -(n + 1).
pub data ℤ : Type 0 where
  pos : ℕ → ℤ
  negsuc : ℕ → ℤ

-- The C conversion to `int32_t` of an unsigned value.
abbrev pub to_int32 : ℕ → ℤ
to_int32 n = let w = n % 2 ^ 32 in if ltb w (2 ^ 31) then pos w else negsuc (2 ^ 32 - w - 1)

-- The conversion of a `long` to `unsigned long`.
abbrev pub to_word64 : ℤ → ℕ
to_word64 (pos n) = n % 2 ^ 64
to_word64 (negsuc n) = 2 ^ 64 - 1 - n % 2 ^ 64

-- The conversion of an `unsigned long` to `long`.
abbrev pub to_int64 : ℕ → ℤ
to_int64 n = let w = n % 2 ^ 64 in if ltb w (2 ^ 63) then pos w else negsuc (2 ^ 64 - w - 1)

-- `a >= b` of two `int`s.
abbrev pub is_ge : ℤ → ℤ → Bool
is_ge (pos a) (pos b) = leb b a
is_ge (pos a) (negsuc b) = true
is_ge (negsuc a) (pos b) = false
is_ge (negsuc a) (negsuc b) = leb a b

abbrev pub is_negative : ℤ → Bool
is_negative (pos n) = false
is_negative (negsuc n) = true

-- `-1 == r`, the failure test of the callers.
abbrev pub is_minus_one : ℤ → Bool
is_minus_one (pos n) = false
is_minus_one (negsuc zero) = true
is_minus_one (negsuc (suc n)) = false

-- `a == b` of two `int`s.
abbrev pub int_eq : ℤ → ℤ → Bool
int_eq (pos a) (pos b) = a == b
int_eq (pos a) (negsuc b) = false
int_eq (negsuc a) (pos b) = false
int_eq (negsuc a) (negsuc b) = a == b
