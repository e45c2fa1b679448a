-- ===== src/Chart/Data.antt =====
-- `chartDisplayData` of apps/web/src/components/token-chart.tsx.
use zonk_fun.Base.{
  ℕ, ◌*◌, ◌/◌, List, [], ◌∷◌, Option, none, some, Text, ℤ, pos, Numeric, bigint_of, map_magnitude,
  parse_digits,
}
use zonk_fun.Format.{
  EthUsdReference, Printer, Floats, wei_per_eth, wei_to_usd_units, presentation_number,
}
use zonk_fun.Chart.{
  ChartPoint, CanonicalCandle, Candle, Bar, candle_colors, candle_direction, complete_candles,
}

pub data ChartView : Type 0 where
  price fdv : ChartView

abbrev pub option_map {ℓ κ} : {A : Type ℓ} {B : Type κ} → (A → B) → Option A → Option B
option_map f none = none
option_map f (some a) = some (f a)

module _ {F : Type 0} (printer : Printer) (floats : Floats F)
    (reference : Option EthUsdReference) where
  abbrev usd_or_wei : Option ℤ → ℤ → F
  usd_or_wei none wei = presentation_number printer floats wei 18
  usd_or_wei (some usd) wei = presentation_number printer floats usd 8

  unfoldable pub shown_wei : ℤ → F
  shown_wei wei = usd_or_wei (wei_to_usd_units (Numeric.big wei) reference) wei

  abbrev diluted : ℕ → ℤ → ℤ
  diluted wei supply = map_magnitude (λ n. wei * n / wei_per_eth) supply

  -- `priceValue` of a decimal text, and `volumeValue`, where `BigInt` does not throw.
  unfoldable pub price_value : ChartView → Option Text → Text → Option F
  unfolding shown_wei
  price_value price supply s = some (shown_wei (pos (parse_digits s)))
  price_value fdv none s = some floats.zero
  price_value fdv (some []) s = some floats.zero
  price_value fdv (some (c ∷ supply)) s =
      option_map (λ n. shown_wei (diluted (parse_digits s) n))
        (bigint_of (Numeric.text (c ∷ supply)))

  unfoldable pub volume_value : Text → Option F
  unfolding shown_wei
  volume_value s = option_map shown_wei (bigint_of (Numeric.text s))

  abbrev pub candle_with :
      CanonicalCandle → Option F → Option F → Option F → Option F → Option (Candle F)
  candle_with point (some o) (some h) (some l) (some c) =
      let colors = candle_colors (candle_direction point) in
      some (record {
        time = point.bucket_start;
        opening = o;
        high = h;
        low = l;
        closing = c;
        color = colors.body;
        wick_color = colors.wick;
      })
  candle_with point _ _ _ _ = none

  unfoldable pub display_candle : ChartView → Option Text → CanonicalCandle → Option (Candle F)
  unfolding price_value
  display_candle view supply point =
      candle_with point (price_value view supply point.open_price)
        (price_value view supply point.high_price) (price_value view supply point.low_price)
        (price_value view supply point.close_price)

  unfoldable pub display_bar : CanonicalCandle → Option (Bar F)
  unfolding volume_value
  display_bar point =
      option_map
        (λ height. record {
          time = point.bucket_start;
          height = height;
          color = (candle_colors (candle_direction point)).volume;
        })
        (volume_value point.volume)

-- `xs.map(f)`, where `f` may throw.
abbrev pub cons_with {ℓ} : {A : Type ℓ} → Option A → Option (List A) → Option (List A)
cons_with (some a) (some rest) = some (a ∷ rest)
cons_with _ _ = none

abbrev pub map_or_throw {ℓ κ} :
    {A : Type ℓ} {B : Type κ} → (A → Option B) → List A → Option (List B)
map_or_throw f [] = some []
map_or_throw f (a ∷ rest) = cons_with (f a) (map_or_throw f rest)

abbrev pub both {ℓ κ} : {A : Type ℓ} {B : Type κ} → Option A → Option B → Option (A × B)
both (some a) (some b) = some (a, b)
both _ _ = none

-- `chartDisplayData`: the candles and the bars of the volume, or a throw.
unfoldable pub chart_display_data :
    {F : Type 0}
    → Printer
    → Floats F
    → List ChartPoint
    → ChartView
    → Option Text
    → Option EthUsdReference
    → Option (List (Candle F) × List (Bar F))
unfolding complete_candles display_candle display_bar
chart_display_data printer floats points view supply reference =
    let complete = complete_candles points in
    both (map_or_throw (display_candle printer floats reference view supply) complete)
      (map_or_throw (display_bar printer floats reference) complete)
