-- ===== src/Base/Numbers.antt =====
-- JavaScript numbers where the program tests them with `Number.isInteger`: an integer, or a value
-- that is none (a fraction, an infinity, NaN).
use Prim.Native.Nat.{ℕ}
use mathlib.Core.Bool.{Bool, true, false}

-- `negsuc n` is -(n + 1).
pub data ℤ : Type 0 where
  pos : ℕ → ℤ
  negsuc : ℕ → ℤ

pub data Number : Type 0 where
  integer : ℤ → Number
  not_integer : Number

-- `Number.isInteger(n)`.
abbrev pub is_integer : Number → Bool
is_integer (integer z) = true
is_integer not_integer = false

-- `n < 0`, on an integer.
abbrev pub is_negative : Number → Bool
is_negative (integer (pos n)) = false
is_negative (integer (negsuc n)) = true
is_negative not_integer = false

-- `BigInt(n)`, where `n` is an integer and not negative.
abbrev pub bigint : Number → ℕ
bigint (integer (pos n)) = n
bigint (integer (negsuc n)) = 0
bigint not_integer = 0
