-- ===== src/Sdk/Slippage.antt =====
-- `maxInputWithSlippage`, `minOutputWithSlippage`, `validateSlippage`.
pub mod Bounds
use zonk_fun.Base.{
  ℕ, ◌+◌, ◌-◌, ◌*◌, ◌/◌, not, ◌||◌, codes, Result, ok, err, new_error, ◌>>=?◌, Number, is_integer,
  is_negative, bigint, ltb, if◌then◌else◌, Text,
}

abbrev pub bps_scale : ℕ
bps_scale = 10000

unfoldable pub slippage_message : Text
slippage_message = codes "Slippage must be between 0% and 50%."

unfoldable pub validate_slippage : Number → Result (Unit {0})
validate_slippage bps =
    if not (is_integer bps) || is_negative bps || ltb 5000 (bigint bps)
    then err (new_error slippage_message)
    else ok tt

unfoldable pub max_input_with_slippage : ℕ → Number → Result ℕ
unfolding validate_slippage
max_input_with_slippage amount bps = validate_slippage bps >>=? λ _.
    ok ((amount * (bps_scale + bigint bps) + bps_scale - 1) / bps_scale)

unfoldable pub min_output_with_slippage : ℕ → Number → Result ℕ
unfolding validate_slippage
min_output_with_slippage amount bps =
    validate_slippage bps >>=? λ _. ok (amount * (bps_scale - bigint bps) / bps_scale)
