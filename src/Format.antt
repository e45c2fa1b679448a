-- ===== src/Format.antt =====
-- apps/web/src/lib/format.ts: amounts as they are shown. viem's `formatEther` and `formatUnits`, the
-- dates, and `Intl` with floating-point numbers are parameters.
pub mod Exact
use zonk_fun.Base.{
  get_or, Numeric, bigint_of, map_magnitude, magnitude, is_below_zero, ℕ, ◌+◌, ◌-◌, ◌*◌, ◌/◌, ◌%◌,
  ◌^◌, Bool, true, false, not, ◌&&◌, ◌||◌, [], ◌∷◌, ◌++◌, Option, none, some, Text, codes, ℤ, pos,
  negsuc, to_string, parse_digits, before_dot, after_dot, length, take, replicate, ltb, leb, ◌==◌,
  if◌then◌else◌,
}
use zonk_fun.Inputs.{is_decimal, is_empty}

abbrev pub usd_scale : ℕ
usd_scale = 10 ^ 8

abbrev pub wei_per_eth : ℕ
wei_per_eth = 10 ^ 18

pub record EthUsdReference : Type 0 where
  pub scaled_usd_per_eth : ℕ
  pub as_of : Text

-- `Date.parse`, whose result may be NaN, and `toISOString` of the date it gives.
pub record Dates : Type 1 where
  pub Time : Type 0
  pub parse : Text → Option Time
  pub to_iso_string : Time → Text

-- `s.padEnd(n, "0")` and `s.padStart(n, "0")`.
abbrev pub pad_end : ℕ → Text → Text
pad_end n s = s ++ replicate (n - length s) b'0'

abbrev pub pad_start : ℕ → Text → Text
pad_start n s = replicate (n - length s) b'0' ++ s

-- The reference, behind the tests of the two texts.
abbrev reference_of : Text → Text → Option EthUsdReference
reference_of price as_of =
    let scaled =
      parse_digits (before_dot price) * usd_scale + parse_digits (pad_end 8 (after_dot price)) in
    if scaled == 0 then none else some (record { scaled_usd_per_eth = scaled; as_of = as_of })

abbrev dated : (dates : Dates) → Text → Option dates.Time → Option EthUsdReference
dated dates price none = none
dated dates price (some time) = reference_of price (dates.to_iso_string time)

unfoldable pub parse_eth_usd_reference : Dates → Option Text → Option Text → Option EthUsdReference
parse_eth_usd_reference dates (some price) (some as_of) =
    if is_empty price || is_empty as_of || not (is_decimal 8 price)
    then none
    else dated dates price (dates.parse as_of)
parse_eth_usd_reference dates _ _ = none

-- A quotient of integers is cut towards zero.
abbrev scaled_by : ℕ → Option ℤ → Option ℤ
scaled_by n none = none
scaled_by n (some z) = some (map_magnitude (λ wei. wei * n / wei_per_eth) z)

unfoldable pub wei_to_usd_units : Numeric → Option EthUsdReference → Option ℤ
wei_to_usd_units v none = none
wei_to_usd_units v (some reference) = scaled_by reference.scaled_usd_per_eth (bigint_of v)

-- `s.replace(/0+$/, "")`.
unfoldable pub strip_zeros : Text → Text
strip_zeros [] = []
strip_zeros (c ∷ s) =
    let rest = strip_zeros s in if (c == b'0') && is_empty rest then [] else c ∷ rest

abbrev dash : Text
dash = codes "—"

-- `compact`.
unfoldable pub compact : Text → ℕ → ℕ → Text → Text
compact sign absolute divisor suffix =
    let tenths = absolute * 10 / divisor in
    let decimal = if tenths % 10 == 0 then codes "" else codes "." ++ to_string (tenths % 10) in
    sign ++ codes "$" ++ to_string (tenths / 10) ++ decimal ++ suffix

abbrev or_zero : Text → Text
or_zero [] = codes "0"
or_zero (c ∷ s) = c ∷ s

-- `formatUsdUnits` of a sign and an absolute value. The whole part that is printed with
-- `toLocaleString` is below 1000, and so has no separators.
unfoldable pub format_usd_magnitude : Text → ℕ → Text
unfolding compact strip_zeros
format_usd_magnitude sign absolute =
    let fraction = pad_start 8 (to_string (absolute % usd_scale)) in
    let whole = absolute / usd_scale in
    let decimals = if leb (10 ^ 6) absolute then 4 else 8 in
    if leb (usd_scale * 10 ^ 9) absolute
    then compact sign absolute (usd_scale * 10 ^ 9) (codes "B")
    else if leb (usd_scale * 10 ^ 6) absolute
    then compact sign absolute (usd_scale * 10 ^ 6) (codes "M")
    else if leb (usd_scale * 10 ^ 3) absolute
    then compact sign absolute (usd_scale * 10 ^ 3) (codes "K")
    else if ltb 0 whole
    then sign ++ codes "$" ++ to_string whole ++ codes "." ++ take 2 fraction
    else if absolute == 0
    then codes "$0.00"
    else sign ++ codes "$0." ++ or_zero (strip_zeros (take decimals fraction))

unfoldable pub format_usd_units : ℤ → Text
unfolding format_usd_magnitude
format_usd_units units =
    format_usd_magnitude (if is_below_zero units then codes "−" else codes "") (magnitude units)

abbrev usd_or_dash : Option ℤ → Text
usd_or_dash none = dash
usd_or_dash (some units) = format_usd_units units

-- A missing value is `null` or `undefined`.
unfoldable pub format_wei_usd : Option Numeric → Option EthUsdReference → Text
unfolding wei_to_usd_units format_usd_units
format_wei_usd none reference = dash
format_wei_usd (some v) none = codes "USD unavailable"
format_wei_usd (some v) (some reference) = usd_or_dash (wei_to_usd_units v (some reference))

-- `trimDecimal`, for a text with one dot at most.
unfoldable pub trim_decimal : Text → ℕ → Text
unfolding strip_zeros
trim_decimal s digits =
    let trimmed = strip_zeros (take digits (after_dot s)) in
    if is_empty trimmed then before_dot s else before_dot s ++ codes "." ++ trimmed

abbrev is_zero_text : Text → Bool
is_zero_text (c ∷ []) = c == b'0'
is_zero_text _ = false

abbrev is_above_zero : ℤ → Bool
is_above_zero (pos n) = ltb 0 n
is_above_zero (negsuc n) = false

-- What viem and the platform print: `formatEther`, `formatUnits`, and the compact form that `Intl`
-- gives to a text whose number is finite and at least 1000 in absolute value, where it is.
pub record Printer : Type 0 where
  pub format_ether : ℤ → Text
  pub format_units : ℤ → ℕ → Text
  pub compact_thousands : Text → Option Text

module _ (printer : Printer) where
  abbrev native_of : Bool → Option ℤ → Text
  native_of suffix none = dash
  native_of suffix (some wei) =
      let formatted = trim_decimal (printer.format_ether wei) 6 in
      let display =
        if is_zero_text formatted && is_above_zero wei then codes "<0.000001" else formatted in
      if suffix then display ++ codes " ETH" else display

  unfoldable pub format_native : Option Numeric → Bool → Text
  unfolding trim_decimal
  format_native none suffix = dash
  format_native (some v) suffix = native_of suffix (bigint_of v)

  -- `compactDecimal`.
  abbrev compact_or_trimmed : Option Text → Text → Text
  compact_or_trimmed none s = trim_decimal s 6
  compact_or_trimmed (some short) s = short

  unfoldable pub compact_decimal : Text → Text
  unfolding trim_decimal
  compact_decimal s = compact_or_trimmed (printer.compact_thousands s) s

  abbrev with_symbol : Option Text → Text → Text
  with_symbol none display = display
  with_symbol (some symbol) display =
      if is_empty symbol then display else display ++ codes " " ++ symbol

  abbrev amount_of : Option ℤ → ℕ → Option Text → Text
  amount_of none decimals symbol = dash
  amount_of (some z) decimals symbol =
      with_symbol symbol (compact_decimal (printer.format_units z decimals))

  unfoldable pub format_token_amount : Option Numeric → ℕ → Option Text → Text
  unfolding compact_decimal
  format_token_amount none decimals symbol = dash
  format_token_amount (some v) decimals symbol = amount_of (bigint_of v) decimals symbol

-- `Number(text)` where it is finite, and 0.
pub record Floats (F : Type 0) : Type 0 where
  pub finite_number : Text → Option F
  pub zero : F

unfoldable pub presentation_number : {F : Type 0} → Printer → Floats F → ℤ → ℕ → F
presentation_number printer floats amount decimals =
    get_or (floats.finite_number (printer.format_units amount decimals)) floats.zero

-- The basis points of `sold`, cut off at the whole; a number that is not negative is compared.
abbrev capped : ℤ → ℤ
capped (pos n) = if ltb 10000 n then pos 10000 else pos n
capped (negsuc n) = negsuc n

abbrev progress_of : Option ℤ → Option ℤ → Option ℤ
progress_of (some sold) (some (pos threshold)) =
    if threshold == 0 then none else some (capped (map_magnitude (λ n. n * 10000 / threshold) sold))
progress_of _ _ = none

-- `graduationProgress`, in hundredths of a percent: the number that is divided by 100 at the end.
unfoldable pub graduation_progress : Option Text → Option Text → Option ℤ
graduation_progress (some sold) (some threshold) =
    if is_empty sold || is_empty threshold
    then none
    else progress_of (bigint_of (Numeric.text sold)) (bigint_of (Numeric.text threshold))
graduation_progress _ _ = none
