-- ===== src/Base/BigInts.antt =====
-- `BigInt(value)` on a string or a bigint, and the arithmetic of bigints that the amounts use.
use Prim.Native.Nat.{ℕ, zero, suc, ◌+◌, ◌-◌, ◌*◌}
use mathlib.Core.Path.{◌≡◌, refl}
use mathlib.Core.Logic.{◌≢◌}
use native.Mathlib.Omega.{arith}
use mathlib.Core.Bool.{Bool, true, false, ◌&&◌}
use mathlib.Core.List.{[], ◌∷◌}
use mathlib.Core.Option.{Option, none, some}
use zonk_fun.Base.Tests.{ltb, leb, ◌==◌, if◌then◌else◌}
use zonk_fun.Base.Lists.{every}
use zonk_fun.Base.Numbers.{ℤ, pos, negsuc}
use zonk_fun.Base.Texts.{Text, is_digits, is_hex_digit, parse_digits, trim, to_lower}

-- `string | bigint`.
pub data Numeric : Type 0 where
  text : Text → Numeric
  big : ℤ → Numeric

-- `-n`, and a function of the absolute value, which keeps the sign.
abbrev pub negate : ℕ → ℤ
negate zero = pos 0
negate (suc n) = negsuc n

abbrev pub map_magnitude : (ℕ → ℕ) → ℤ → ℤ
map_magnitude f (pos n) = pos (f n)
map_magnitude f (negsuc n) = negate (f (suc n))

abbrev pub magnitude : ℤ → ℕ
magnitude (pos n) = n
magnitude (negsuc n) = suc n

abbrev pub is_below_zero : ℤ → Bool
is_below_zero (pos n) = false
is_below_zero (negsuc n) = true

-- The value of digits to a base; a letter stands for 10 and up.
abbrev digit_value : ℕ → ℕ
digit_value c = if leb b'a' c then c - b'a' + 10 else c - b'0'

abbrev value_from : ℕ → ℕ → Text → ℕ
value_from base acc [] = acc
value_from base acc (c ∷ s) = value_from base (acc * base + digit_value c) s

abbrev in_base : (ℕ → Bool) → ℕ → Text → Option ℤ
in_base test base [] = none
in_base test base (c ∷ s) =
    if every test (c ∷ s) then some (pos (value_from base 0 (c ∷ s))) else none

abbrev decimal_of : (ℕ → ℤ) → Text → Option ℤ
decimal_of sign s = if is_digits s then some (sign (parse_digits s)) else none

-- The texts that stand for an integer: blanks, digits with an optional sign, or digits to the base
-- 16, 8 or 2 behind their prefix.
abbrev literal_of : Text → Option ℤ
literal_of [] = some (pos 0)
literal_of (c ∷ []) = decimal_of pos (c ∷ [])
literal_of (c ∷ d ∷ s) =
    if c == b'-'
    then decimal_of negate (d ∷ s)
    else if c == b'+'
    then decimal_of pos (d ∷ s)
    else if (c == b'0') && (d == b'x')
    then in_base is_hex_digit 16 s
    else if (c == b'0') && (d == b'o')
    then in_base (λ e. leb b'0' e && leb e b'7') 8 s
    else if (c == b'0') && (d == b'b')
    then in_base (λ e. leb b'0' e && leb e b'1') 2 s
    else decimal_of pos (c ∷ d ∷ s)

-- `BigInt(value)`, where it does not throw. Letters count in either case.
unfoldable pub bigint_of : Numeric → Option ℤ
bigint_of (text s) = literal_of (to_lower (trim s))
bigint_of (big z) = some z

-- The sign of a difference, as a comparison function of `sort` gives it.
pub data Sign : Type 0 where
  below equal above : Sign

abbrev compare_ℕ : ℕ → ℕ → Sign
compare_ℕ a b = if ltb a b then below else if ltb b a then above else equal

-- The sign of `a - b`.
unfoldable pub compare_ℤ : ℤ → ℤ → Sign
compare_ℤ (pos a) (pos b) = compare_ℕ a b
compare_ℤ (pos a) (negsuc b) = above
compare_ℤ (negsuc a) (pos b) = below
compare_ℤ (negsuc a) (negsuc b) = compare_ℕ b a

pub compare_ℤ-flip : (a b : ℤ) → compare_ℤ a b ≡ above → compare_ℤ b a ≢ above
unfolding compare_ℤ
compare_ℤ-flip (pos a) (pos b) h = λ e. ground (arith, h, e)
compare_ℤ-flip (pos a) (negsuc b) h = λ e. ground (arith, e)
compare_ℤ-flip (negsuc a) (pos b) h = absurd (ground (arith, h))
compare_ℤ-flip (negsuc a) (negsuc b) h = λ e. ground (arith, h, e)

pub compare_ℤ-trans :
    (a b c : ℤ) → compare_ℤ a b ≢ above → compare_ℤ b c ≢ above → compare_ℤ a c ≢ above
unfolding compare_ℤ
compare_ℤ-trans (pos a) (pos b) (pos c) h k = λ e. ground (arith, h, k, e)
compare_ℤ-trans (pos a) (pos b) (negsuc c) h k = absurd (k refl)
compare_ℤ-trans (pos a) (negsuc b) c h k = absurd (h refl)
compare_ℤ-trans (negsuc a) (pos b) (pos c) h k = λ e. ground (arith, e)
compare_ℤ-trans (negsuc a) (pos b) (negsuc c) h k = absurd (k refl)
compare_ℤ-trans (negsuc a) (negsuc b) (pos c) h k = λ e. ground (arith, e)
compare_ℤ-trans (negsuc a) (negsuc b) (negsuc c) h k = λ e. ground (arith, h, k, e)
