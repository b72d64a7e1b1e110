-- ===== src/Prelude/Int.antt =====
-- Integers over the native numbers, and the wrap-around of a 32-bit `int`.
use Prim.Native.Nat.{ℕ, zero, suc, ◌+◌, ◌-◌, ◌%◌}
use mathlib.Core.Path.{◌≡◌}
use mathlib.Core.Bool.{Bool, true, false}
use native.Mathlib.Omega.{arith}
use linyaps.Prelude.Tests.{◌==◌, leb, if◌then◌else◌}

-- `negsuc n` is -(n + 1).
pub data ℤ : Type 0 where
  pos : ℕ → ℤ
  negsuc : ℕ → ℤ

abbrev pub pos_part : ℤ → ℕ
pos_part (pos n) = n
pos_part (negsuc n) = 0

abbrev pub neg_part : ℤ → ℕ
neg_part (pos n) = 0
neg_part (negsuc n) = suc n

abbrev pub sub_ℕ : ℕ → ℕ → ℤ
sub_ℕ a b = if leb b a then pos (a - b) else negsuc (b - a - 1)

infixl 65 ◌-ℤ◌
abbrev pub ◌-ℤ◌ : ℤ → ℤ → ℤ
a -ℤ b = sub_ℕ (pos_part a + neg_part b) (neg_part a + pos_part b)

abbrev pub int_eq : ℤ → ℤ → Bool
int_eq (pos m) (pos n) = m == n
int_eq (negsuc m) (negsuc n) = m == n
int_eq a b = false

-- The 32-bit two's complement value of an integer of magnitude at most 2^32.
abbrev pub wrap_int : ℤ → ℤ
wrap_int z = sub_ℕ ((pos_part z + 6442450944 - neg_part z) % 4294967296) 2147483648

abbrev pub is_negative : ℤ → Bool
is_negative (pos n) = false
is_negative (negsuc n) = true

abbrev pub is_positive : ℤ → Bool
is_positive (pos zero) = false
is_positive (pos (suc n)) = true
is_positive (negsuc n) = false

abbrev pub is_zero : ℤ → Bool
is_zero (pos zero) = true
is_zero (pos (suc n)) = false
is_zero (negsuc n) = false

abbrev pub int_lt : ℤ → ℤ → Bool
int_lt a b = is_negative (a -ℤ b)

pub int_lt-asym : (a b : ℤ) → int_lt a b ≡ true → int_lt b a ≡ false
int_lt-asym a b h = ground arith

pub int_lt-total : (a b : ℤ) → int_lt a b ≡ false → int_lt b a ≡ false → a ≡ b
int_lt-total a b h k = ground arith

pub int_le_trans : (a b c : ℤ) → int_lt b a ≡ false → int_lt c b ≡ false → int_lt c a ≡ false
int_le_trans a b c h k = ground arith

pub int_eq→eq : (a b : ℤ) → int_eq a b ≡ true → a ≡ b
int_eq→eq a b h = ground arith

pub int_eq_refl : (a : ℤ) → int_eq a a ≡ true
int_eq_refl a = ground arith

pub int_lt-not_eq : (a b : ℤ) → int_lt a b ≡ true → int_eq b a ≡ false
int_lt-not_eq a b h = ground arith
