-- ===== src/Inputs.antt =====
-- What the user types or picks: `parseDevBuyAmount` of apps/web/src/lib/transactions.ts,
-- `parseSlippageBps` of apps/web/src/components/token-trade-panel.tsx, and the amount presets of
-- apps/web/src/lib/trade-amount-presets.ts.
pub mod Amounts
use zonk_fun.Base.{
  ℕ, ◌+◌, ◌-◌, ◌*◌, ◌/◌, ◌^◌, Bool, true, false, not, ◌&&◌, ◌||◌, [], ◌∷◌, ◌++◌, Option, none, some,
  Text, codes, Result, ok, err, new_error, trim, before_dot, after_dot, includes, is_digits,
  parse_digits, length, take, replicate, ltb, leb, ◌==◌, if◌then◌else◌,
}

-- `/^\d+(\.\d{1,n})?$/`.
unfoldable pub is_decimal : ℕ → Text → Bool
is_decimal n t =
    is_digits (before_dot t)
    && (not (includes (codes ".") t) || (is_digits (after_dot t) && leb (length (after_dot t)) n))

-- `EXACT_GRADUATION_GROSS`.
abbrev pub max_dev_buy_wei : ℕ
max_dev_buy_wei = 3030303030303030303

unfoldable pub bad_dev_buy : Text
bad_dev_buy = codes "Dev buy must be a valid ETH amount with up to 18 decimals."

unfoldable pub too_large : Text
too_large = codes "Dev buy cannot exceed the current curve graduation limit."

-- `BigInt((fraction + "0".repeat(18)).slice(0, 18))`.
unfoldable pub padded_fraction : Text → ℕ
padded_fraction fraction = parse_digits (take 18 (fraction ++ replicate 18 b'0'))

-- A value of decimal texts is never negative, so the test for that has no branch.
unfoldable pub dev_buy_of : Text → Result ℕ
unfolding is_decimal padded_fraction
dev_buy_of trimmed =
    if not (is_decimal 18 trimmed)
    then err (new_error bad_dev_buy)
    else let parsed =
        parse_digits (before_dot trimmed) * 10 ^ 18 + padded_fraction (after_dot trimmed) in
      if ltb max_dev_buy_wei parsed then err (new_error too_large) else ok parsed

abbrev pub is_empty : Text → Bool
is_empty [] = true
is_empty (c ∷ s) = false

unfoldable pub parse_dev_buy_amount : Text → Result ℕ
unfolding dev_buy_of
parse_dev_buy_amount value =
    let trimmed = trim value in if is_empty trimmed then ok 0 else dev_buy_of trimmed

unfoldable pub bad_slippage_text : Text
bad_slippage_text = codes "Enter slippage with at most two decimal places."

unfoldable pub slippage_out_of_range : Text
slippage_out_of_range = codes "Slippage must be between 0% and 50%."

-- `Math.round(Number(value) * 100)`: the number of hundredths, which is the exact product for every
-- text that the range lets pass.
unfoldable pub hundredths : Text → ℕ
hundredths t =
    parse_digits (before_dot t) * 100 + parse_digits (take 2 (after_dot t ++ replicate 2 b'0'))

unfoldable pub parse_slippage_bps : Text → Result ℕ
unfolding is_decimal hundredths
parse_slippage_bps value =
    let t = trim value in
    if not (is_decimal 2 t)
    then err (new_error bad_slippage_text)
    else if ltb 5000 (hundredths t)
    then err (new_error slippage_out_of_range)
    else ok (hundredths t)

abbrev pub buy_max_gas_reserve_wei : ℕ
buy_max_gas_reserve_wei = 10 ^ 15

pub data AmountPreset : Type 0 where
  ten fifty max : AmountPreset

unfoldable pub percent_of_balance : ℕ → ℕ → ℕ
percent_of_balance balance percent = if balance == 0 then 0 else balance * percent / 100

unfoldable pub buy_preset : ℕ → AmountPreset → ℕ
unfolding percent_of_balance
buy_preset balance max =
    if ltb buy_max_gas_reserve_wei balance then balance - buy_max_gas_reserve_wei else 0
buy_preset balance ten = percent_of_balance balance 10
buy_preset balance fifty = percent_of_balance balance 50

unfoldable pub buy_preset_wei : Option ℕ → AmountPreset → Option ℕ
unfolding buy_preset
buy_preset_wei none preset = none
buy_preset_wei (some balance) preset = some (buy_preset balance preset)

unfoldable pub sell_preset : ℕ → AmountPreset → ℕ
unfolding percent_of_balance
sell_preset balance max = balance
sell_preset balance ten = percent_of_balance balance 10
sell_preset balance fifty = percent_of_balance balance 50

unfoldable pub sell_preset_amount : Option ℕ → AmountPreset → Option ℕ
unfolding sell_preset
sell_preset_amount none preset = none
sell_preset_amount (some balance) preset = some (sell_preset balance preset)

unfoldable pub is_preset_enabled : Option ℕ → Bool
is_preset_enabled none = false
is_preset_enabled (some amount) = ltb 0 amount
