-- ===== src/Prelude/Ints.antt =====
-- Signed machine integers that do not overflow, over the native numbers.
use Prim.Native.Nat.{ℕ, Ordering, compare, ◌+◌, ◌-◌, ◌≤◌}
use mathlib.Core.Bool.{Bool, true, false}
use mathlib.Core.Path.{◌≡◌}
use native.Mathlib.Omega.{arith}
use srt_vpn.Prelude.Tests.{ltb, ◌==◌, if◌then◌else◌}

-- `negsuc n` is the integer -(n + 1).
pub data ℤ : Type 0 where
  pos negsuc : ℕ → ℤ

-- The difference of two numbers.
abbrev pub minus : ℕ → ℕ → ℤ
minus m n = if ltb m n then negsuc (n - m - 1) else pos (m - n)

abbrev pub neg : ℤ → ℤ
neg (pos n) = minus 0 n
neg (negsuc n) = pos (n + 1)

-- `abs(m - n)`
abbrev pub distance : ℕ → ℕ → ℕ
distance m n = if ltb m n then n - m else m - n

-- `i < 0`
abbrev pub is_negative : ℤ → Bool
is_negative (pos n) = false
is_negative (negsuc n) = true

-- -1, 0 or 1, as `lt`, `eq` and `gt`
abbrev pub sign : ℤ → Ordering
sign (pos n) = compare n 0
sign (negsuc n) = Ordering.lt

-- `a < b` and `a == b`
abbrev pub int_lt : ℤ → ℤ → Bool
int_lt (pos m) (pos n) = ltb m n
int_lt (pos m) (negsuc n) = false
int_lt (negsuc m) (pos n) = true
int_lt (negsuc m) (negsuc n) = ltb n m

abbrev pub int_eq : ℤ → ℤ → Bool
int_eq (pos m) (pos n) = m == n
int_eq (pos m) (negsuc n) = false
int_eq (negsuc m) (pos n) = false
int_eq (negsuc m) (negsuc n) = m == n

-- The number that an integer is, for one that is not negative.
abbrev pub to_nat : ℤ → ℕ
to_nat (pos n) = n
to_nat (negsuc n) = 0

pub at_least-to_nat : (z : ℤ) (n : ℕ) → int_lt z (pos n) ≡ false → n ≤ to_nat z
at_least-to_nat (pos m) n h = ground arith
at_least-to_nat (negsuc m) n h = cc

pub at_most-to_nat : (z : ℤ) (n : ℕ) → int_lt (pos n) z ≡ false → to_nat z ≤ n
at_most-to_nat (pos m) n h = ground arith
at_most-to_nat (negsuc m) n h = omega arith
