-- ===== src/Inputs/Amounts.antt =====
-- What parsed amounts and presets are worth.
use mathlib.Core.Path.{subst}
use zonk_fun.Base.{
  ℕ, zero, suc, ◌+◌, ◌-◌, ◌*◌, ◌^◌, ◌≤◌, ◌≡◌, ◌⊎◌, inl, inr, refl, sym, ap, ◌∙◌, arith, true, false,
  ◌++◌, Text, integer, pos, codes, ok, trim, before_dot, after_dot, includes, is_digits,
  parse_digits, parse_digits-zeros, length, take, replicate, ltb, leb→le, not_ltb→le, Bool-cases,
  and_true, if◌then◌else◌, [], ◌∷◌,
}
use zonk_fun.Sdk.Slippage.{validate_slippage}
use zonk_fun.Inputs.{
  is_decimal, max_dev_buy_wei, padded_fraction, dev_buy_of, is_empty, parse_dev_buy_amount,
  hundredths, parse_slippage_bps, buy_max_gas_reserve_wei, AmountPreset, ten, fifty, max,
  percent_of_balance, buy_preset, sell_preset,
}

take-zeros : (n m : ℕ) → n ≤ m → take {A = ℕ} n (replicate m b'0') ≡ replicate n b'0'
take-zeros zero m h = refl
take-zeros (suc n) zero h = absurd (omega arith)
take-zeros (suc n) (suc m) h = ap (λ t. b'0' ∷ t) (take-zeros n m (omega arith))

-- A text that is filled up with zeros and cut to a length that it does not exceed is the text with
-- the zeros that are missing.
take-pad :
    (s : Text) (n m : ℕ)
    → length s ≤ n
    → n ≤ m
    → take n (s ++ replicate m b'0') ≡ s ++ replicate (n - length s) b'0'
take-pad [] n m short enough =
    let all : n - 0 ≡ n = omega arith in
    take-zeros n m enough ∙ ap (λ k. replicate k b'0') (sym all)
take-pad (c ∷ s) zero m short enough = absurd (omega arith)
take-pad (c ∷ s) (suc n) m short enough =
    let same : n - length s ≡ suc n - suc (length s) = omega arith in
    ap (λ t. c ∷ t) (take-pad s n m (omega arith) (omega arith))
    ∙ ap (λ k. c ∷ (s ++ replicate k b'0')) same

padded_fraction-value :
    (s : Text) → length s ≤ 18 → padded_fraction s ≡ parse_digits s * 10 ^ (18 - length s)
unfolding padded_fraction
padded_fraction-value s h =
    ap parse_digits (take-pad s 18 18 h (omega arith)) ∙ parse_digits-zeros s (18 - length s)

percent_le :
    (balance : ℕ)
    → (percent_of_balance balance 10 * 2 ≤ balance) × (percent_of_balance balance 50 * 2 ≤ balance)
unfolding percent_of_balance
percent_le balance = (ground arith, ground arith)

-- A preset never asks for more than the balance, and a buy's either asks for at most half of it, or
-- for nothing, or leaves the gas reserve.
pub presets_bounded :
    (balance : ℕ) (preset : AmountPreset)
    → (buy_preset balance preset ≤ balance)
      × (sell_preset balance preset ≤ balance)
      × ((buy_preset balance preset * 2 ≤ balance)
          ⊎ (buy_preset balance preset + buy_max_gas_reserve_wei ≤ balance))
unfolding buy_preset sell_preset
presets_bounded balance ten =
    let half = (percent_le balance).0 in (omega (arith, half), omega (arith, half), inl half)
presets_bounded balance fifty =
    let half = (percent_le balance).1 in (omega (arith, half), omega (arith, half), inl half)
presets_bounded balance max = ground arith

no_dot : (t : Text) → includes (codes ".") t ≡ false → length (after_dot t) ≤ 0
unfolding includes after_dot
no_dot [] h = omega arith
no_dot (c ∷ t) h = ground (arith, no_dot t)

places_le : (n : ℕ) (t : Text) → is_decimal n t ≡ true → length (after_dot t) ≤ n
unfolding is_decimal
places_le n t h =
    let places = (and_true (is_digits (before_dot t)) _ h).1 in
    elim (Bool-cases (includes (codes ".") t)) [
      | inl dot ↦ leb→le _ _ (and_true (is_digits (after_dot t)) _ (rw dot at places)).1
      | inr dotless ↦ let empty = no_dot t dotless in omega (arith, empty)
    ]

dev_buy_of_exact :
    (t : Text) (amount : ℕ)
    → dev_buy_of t ≡ ok amount
    → (amount ≤ max_dev_buy_wei)
      × (is_decimal 18 t ≡ true)
      × (amount
          ≡ parse_digits (before_dot t) * 10 ^ 18
            + parse_digits (after_dot t) * 10 ^ (18 - length (after_dot t)))
unfolding dev_buy_of
dev_buy_of_exact t amount h = elim (Bool-cases (is_decimal 18 t)) [
  | inr bad ↦ absurd (ground (arith, bad))
  | inl good ↦
      let fraction = padded_fraction-value (after_dot t) (places_le 18 t good) in
      let parsed = parse_digits (before_dot t) * 10 ^ 18 + padded_fraction (after_dot t) in
      elim (Bool-cases (ltb max_dev_buy_wei parsed)) [
        | inl large ↦ absurd (ground (arith, good, large))
        | inr small ↦
            let exact : amount ≡ parsed = ground (arith, good, small) in
            (
              subst (λ n. n ≤ max_dev_buy_wei) (sym exact) (not_ltb→le _ _ small),
              good,
              exact ∙ ap (λ n. parse_digits (before_dot t) * 10 ^ 18 + n) fraction,
            )
      ]
]

blank_or :
    (t : Text) (amount : ℕ)
    → (if is_empty t then ok 0 else dev_buy_of t) ≡ ok amount
    → (amount ≤ max_dev_buy_wei)
      × (((t ≡ []) × (amount ≡ 0))
          ⊎ ((is_decimal 18 t ≡ true)
              × (amount
                  ≡ parse_digits (before_dot t) * 10 ^ 18
                    + parse_digits (after_dot t) * 10 ^ (18 - length (after_dot t)))))
blank_or [] amount h =
    let zero_amount : amount ≡ 0 = ground arith in
    (omega (arith, zero_amount), inl (refl, zero_amount))
blank_or (c ∷ t) amount h =
    let (small, decimal, exact) = dev_buy_of_exact (c ∷ t) amount h in (small, inr (decimal, exact))

-- An amount that `parseDevBuyAmount` accepts is at most the graduation limit. It is 0 for a blank
-- text; otherwise the text without the blanks around it is a decimal number with at most 18 places,
-- and the amount is its exact value in wei: the whole part times 10^18, plus the places times the
-- power of ten that is left.
pub dev_buy_exact :
    (value : Text) (amount : ℕ)
    → parse_dev_buy_amount value ≡ ok amount
    → (amount ≤ max_dev_buy_wei)
      × (((trim value ≡ []) × (amount ≡ 0))
          ⊎ ((is_decimal 18 (trim value) ≡ true)
              × (amount
                  ≡ parse_digits (before_dot (trim value)) * 10 ^ 18
                    + parse_digits (after_dot (trim value))
                      * 10 ^ (18 - length (after_dot (trim value))))))
unfolding parse_dev_buy_amount
dev_buy_exact value amount h = blank_or (trim value) amount h

hundredths-value :
    (t : Text)
    → is_decimal 2 t ≡ true
    → hundredths t
      ≡ parse_digits (before_dot t) * 100
        + parse_digits (after_dot t) * 10 ^ (2 - length (after_dot t))
unfolding hundredths
hundredths-value t good =
    let places = places_le 2 t good in
    ap (λ n. parse_digits (before_dot t) * 100 + n)
      (ap parse_digits (take-pad (after_dot t) 2 2 places (omega arith))
        ∙ parse_digits-zeros (after_dot t) (2 - length (after_dot t)))

-- A slippage that the panel accepts is the exact number of hundredths of a percent of a decimal text
-- with at most two places, it is at most 5000 basis points, and the SDK's check accepts it. (The range
-- in docs/users/buy-tokens.mdx is 0.01% through 20%.)
pub slippage_accepted :
    (value : Text) (bps : ℕ)
    → parse_slippage_bps value ≡ ok bps
    → (bps ≤ 5000)
      × (validate_slippage (integer (pos bps)) ≡ ok tt)
      × (is_decimal 2 (trim value) ≡ true)
      × (bps
          ≡ parse_digits (before_dot (trim value)) * 100
            + parse_digits (after_dot (trim value)) * 10 ^ (2 - length (after_dot (trim value))))
unfolding parse_slippage_bps validate_slippage
slippage_accepted value bps h = elim (Bool-cases (is_decimal 2 (trim value))) [
  | inr bad ↦ absurd (ground (arith, bad))
  | inl good ↦ elim (Bool-cases (ltb 5000 (hundredths (trim value)))) [
    | inl large ↦ absurd (ground (arith, good, large))
    | inr small ↦
        let same : bps ≡ hundredths (trim value) = ground (arith, good, small) in
        let bound : bps ≤ 5000 = subst (λ n. n ≤ 5000) (sym same) (not_ltb→le _ _ small) in
        (bound, ground (arith, bound), good, same ∙ hundredths-value (trim value) good)
  ]
]
