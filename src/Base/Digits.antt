-- ===== src/Base/Digits.antt =====
-- Decimal texts: zeros on the right multiply the value by powers of ten.
use Prim.Native.Nat.{ℕ, zero, suc, ◌+◌, ◌-◌, ◌*◌, ◌^◌}
use mathlib.Core.Path.{◌≡◌, refl, ◌∙◌}
use mathlib.Core.List.{[], ◌∷◌, ◌++◌}
use native.Mathlib.Nat.{pow-suc}
use native.Mathlib.Omega.{arith}
use zonk_fun.Base.Lists.{replicate}
use zonk_fun.Base.Texts.{Text, digits_from, parse_digits}

pub digits_from-append :
    (s t : Text) (acc : ℕ) → digits_from acc (s ++ t) ≡ digits_from (digits_from acc s) t
unfolding digits_from
digits_from-append [] t acc = refl
digits_from-append (c ∷ s) t acc = digits_from-append s t (acc * 10 + (c - b'0'))

pub digits_from-zeros : (acc k : ℕ) → digits_from acc (replicate k b'0') ≡ acc * 10 ^ k
unfolding digits_from
digits_from-zeros acc zero = omega arith
digits_from-zeros acc (suc k) = digits_from-zeros (acc * 10 + 0) k ∙ rw pow-suc (omega arith)

pub parse_digits-zeros :
    (s : Text) (k : ℕ) → parse_digits (s ++ replicate k b'0') ≡ parse_digits s * 10 ^ k
unfolding parse_digits
parse_digits-zeros s k = digits_from-append s _ 0 ∙ digits_from-zeros _ k
