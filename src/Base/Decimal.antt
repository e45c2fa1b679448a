-- ===== src/Base/Decimal.antt =====
-- `n.toString()` of a `bigint` that is not negative, and that `BigInt` reads it back.
use Prim.Native.Nat.{ℕ, zero, suc, ◌+◌, ◌-◌, ◌/◌, ◌%◌, ◌^◌, ◌≤◌, ◌<◌}
use mathlib.Core.Path.{◌≡◌, refl, ap}
use mathlib.Core.Logic.{◌⊎◌, inl, inr}
use mathlib.Core.Bool.{true}
use mathlib.Core.List.{[], ◌∷◌}
use native.Mathlib.Nat.{pow-suc}
use zonk_fun.Base.Lists.{length, every}
use native.Mathlib.Omega.{arith}
use zonk_fun.Base.Tests.{◌==◌, Bool-cases, if◌then◌else◌}
use zonk_fun.Base.Texts.{Text, is_digit, is_digits, digits_from, parse_digits}

-- The digits of `n` in front of `behind`; the fuel is above `n`.
print_from : ℕ → ℕ → Text → Text
print_from zero n behind = behind
print_from (suc fuel) n behind =
    let digit = b'0' + n % 10 in
    let more = print_from fuel (n / 10) (digit ∷ behind) in
    if n / 10 == 0 then digit ∷ behind else more

unfoldable pub to_string : ℕ → Text
unfolding print_from
to_string n = print_from (suc n) n []

digits_from-print_from :
    (fuel n : ℕ) (behind : Text)
    → n < fuel
    → digits_from 0 (print_from fuel n behind) ≡ digits_from n behind
unfolding print_from digits_from
digits_from-print_from zero n behind h = absurd (omega arith)
digits_from-print_from (suc fuel) n behind h =
    ground (arith, digits_from-print_from fuel (n / 10) ((b'0' + n % 10) ∷ behind))

pub parse-to_string : (n : ℕ) → parse_digits (to_string n) ≡ n
unfolding parse_digits to_string digits_from
parse-to_string n = digits_from-print_from (suc n) n [] (omega arith)

every-print_from :
    (fuel n : ℕ) (behind : Text)
    → every is_digit behind ≡ true
    → every is_digit (print_from fuel n behind) ≡ true
unfolding print_from
every-print_from zero n behind h = h
every-print_from (suc fuel) n behind h =
    ground (arith, every-print_from fuel (n / 10) ((b'0' + n % 10) ∷ behind))

print_from-ne_nil :
    (fuel n d : ℕ) (behind : Text) → (e : ℕ) × (t : Text) × (print_from fuel n (d ∷ behind) ≡ e ∷ t)
unfolding print_from
print_from-ne_nil zero n d behind = (d, behind, refl)
print_from-ne_nil (suc fuel) n d behind =
    let (e, t, more) = print_from-ne_nil fuel (n / 10) (b'0' + n % 10) (d ∷ behind) in
    elim (Bool-cases (n / 10 == 0)) [
      | inl last ↦ (b'0' + n % 10, d ∷ behind, rw last)
      | inr many ↦ (e, t, rw many more)
    ]

is_digits_of_every :
    (s : Text) → (c : ℕ) × (t : Text) × (s ≡ c ∷ t) → every is_digit s ≡ true → is_digits s ≡ true
unfolding is_digits
is_digits_of_every [] (c, t, e) h = absurd (ground arith)
is_digits_of_every (d ∷ s) e h = h

to_string-ne_nil : (n : ℕ) → (c : ℕ) × (t : Text) × (to_string n ≡ c ∷ t)
unfolding to_string
to_string-ne_nil n =
    let (e, t, more) = print_from-ne_nil n (n / 10) (b'0' + n % 10) [] in
    elim (Bool-cases (n / 10 == 0)) [
      | inl last ↦ (b'0' + n % 10, [], rw last)
      | inr many ↦ (e, t, rw many more)
    ]

pub is_digits-to_string : (n : ℕ) → is_digits (to_string n) ≡ true
unfolding to_string
is_digits-to_string n =
    is_digits_of_every (print_from (suc n) n []) (to_string-ne_nil n)
      (every-print_from (suc n) n [] refl)

-- A number in front of a text has as many digits as powers of ten do not exceed it.
print_from-size :
    (fuel n : ℕ) (behind : Text)
    → n < fuel
    → (k : ℕ) × (length (print_from fuel n behind) ≡ suc k + length behind)
      × (n < 10 ^ suc k)
      × ((k ≡ 0) ⊎ (10 ^ k ≤ n))
unfolding print_from
print_from-size zero n behind h = absurd (omega arith)
print_from-size (suc fuel) n behind h = elim (Bool-cases (n / 10 == 0)) [
  | inl last ↦ (0, rw last (omega arith), ground (arith, last), inl refl)
  | inr many ↦
      let (k, size, above, below) =
        print_from-size fuel (n / 10) ((b'0' + n % 10) ∷ behind) (ground (arith, many)) in
      (
        suc k,
        rw many (omega (arith, size)),
        rw (pow-suc 10 (suc k)) (omega (arith, above)),
        inr (elim below [
          | inl one_left ↦ rw one_left (ground (arith, many))
          | inr reached ↦ rw (pow-suc 10 k) (omega (arith, reached))
        ]),
      )
]

-- A number is below the power of ten that its number of digits gives, and, where it has more than
-- one digit, not below the power before.
pub to_string-size :
    (n : ℕ)
    → (n < 10 ^ length (to_string n))
      × ((length (to_string n) ≡ 1) ⊎ (10 ^ (length (to_string n) - 1) ≤ n))
unfolding to_string
to_string-size n =
    let (k, size, above, below) = print_from-size (suc n) n [] (omega arith) in
    let same : length (print_from (suc n) n []) ≡ suc k = omega (arith, size) in
    let before : suc k - 1 ≡ k = omega arith in
    rw same (
      above,
      elim below [ inl single ↦ inl (ap suc single) | inr reached ↦ inr (rw before reached) ],
    )
