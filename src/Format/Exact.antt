-- ===== src/Format/Exact.antt =====
-- What the parsed ETH/USD reference and the progress of a curve are worth.
use mathlib.Core.Path.{subst}
use zonk_fun.Base.{
  ℕ, ◌+◌, ◌-◌, ◌*◌, ◌^◌, ◌<◌, ◌≡◌, inl, inr, refl, sym, ap, ◌∙◌, arith, true, not, ◌||◌, Option,
  none, some, Text, parse_digits, parse_digits-zeros, before_dot, after_dot, length, ◌==◌,
  if◌then◌else◌, Bool-cases,
}
use zonk_fun.Inputs.{is_decimal, is_empty}
use zonk_fun.Format.{EthUsdReference, Dates, dated, parse_eth_usd_reference}

-- What a reference is worth that was made of a price, at a time.
abbrev pub IsExact : Dates → Text → Text → EthUsdReference → Type 0
IsExact dates price as_of reference =
    (is_decimal 8 price ≡ true)
    × (0 < reference.scaled_usd_per_eth)
    × (reference.scaled_usd_per_eth
        ≡ parse_digits (before_dot price) * 10 ^ 8
          + parse_digits (after_dot price) * 10 ^ (8 - length (after_dot price)))
    × ((time : dates.Time) × (dates.parse as_of ≡ some time)
        × (reference.as_of ≡ dates.to_iso_string time))

nonzero :
    (n : ℕ) (t : Text) (reference : EthUsdReference)
    → (if n == 0 then none else some (record { scaled_usd_per_eth = n; as_of = t }))
      ≡ some reference
    → (0 < n) × (reference.scaled_usd_per_eth ≡ n) × (reference.as_of ≡ t)
nonzero n t reference h = elim (Bool-cases (n == 0)) [
  | inl none_left ↦ absurd (ground (arith, none_left))
  | inr left ↦ (ground arith, ground (arith, left), ground (arith, left))
]

dated_worth :
    (dates : Dates) (price as_of : Text) (time : Option dates.Time) (reference : EthUsdReference)
    → dates.parse as_of ≡ time
    → is_decimal 8 price ≡ true
    → dated dates price time ≡ some reference
    → IsExact dates price as_of reference
dated_worth dates price as_of none reference et decimal h = absurd (ground arith)
dated_worth dates price as_of (some time) reference et decimal h =
    let (above, worth, when) = nonzero _ (dates.to_iso_string time) reference h in
    (
      decimal,
      subst (λ n. 0 < n) (sym worth) above,
      worth
          ∙ ap (λ n. parse_digits (before_dot price) * 10 ^ 8 + n)
              (parse_digits-zeros (after_dot price) (8 - length (after_dot price))),
      (time, et, when),
    )

-- A reference that is accepted was made of a price with at most eight places and a date. It is
-- above zero, and is the exact value of the price in units of 10^-8: the whole part times 10^8, plus
-- the places times the power of ten that is left. Its time is that of the date.
pub reference-IsExact :
    (dates : Dates) (price as_of : Text) (reference : EthUsdReference)
    → parse_eth_usd_reference dates (some price) (some as_of) ≡ some reference
    → IsExact dates price as_of reference
unfolding parse_eth_usd_reference
reference-IsExact dates price as_of reference h =
    let test = is_empty price || is_empty as_of || not (is_decimal 8 price) in
    elim (Bool-cases test) [
      | inl bad ↦ absurd (let g = rw bad at h in ground (arith, g))
      | inr good ↦
          dated_worth dates price as_of (dates.parse as_of) reference refl (ground (arith, good))
            (rw good at h)
    ]
