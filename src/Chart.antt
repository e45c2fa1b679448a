-- ===== src/Chart.antt =====
-- The data of apps/web/src/components/token-chart.tsx: its candles, `chartCandles`
-- and `headerCandle`.
pub mod Scale
pub mod Data
pub mod Display
use zonk_fun.Base.{
  ℕ, ◌+◌, ◌-◌, ◌*◌, ◌/◌, ◌^◌, Bool, true, false, ◌&&◌, List, [], ◌∷◌, map, Option, none, some, Text,
  codes, ℤ, pos, Numeric, bigint_of, map_magnitude, to_string, parse_digits, is_digits, length,
  find, ltb, leb, ◌==◌, if◌then◌else◌,
}
use zonk_fun.Format.{
  EthUsdReference, Printer, Floats, wei_per_eth, wei_to_usd_units, presentation_number,
}

-- `ChartPoint`, the fields that the chart reads.
pub record ChartPoint : Type 0 where
  pub bucket_start : ℕ
  pub volume : Text
  pub open_price : Option Text
  pub high_price : Option Text
  pub low_price : Option Text
  pub close_price : Option Text

-- `CanonicalCandle`: a point whose prices are there.
pub record CanonicalCandle : Type 0 where
  pub bucket_start : ℕ
  pub volume : Text
  pub open_price : Text
  pub high_price : Text
  pub low_price : Text
  pub close_price : Text

pub data Direction : Type 0 where
  bullish bearish : Direction

pub record Colors : Type 0 where
  pub body : Text
  pub wick : Text
  pub volume : Text

-- `CANDLE_COLORS`.
unfoldable pub candle_colors : Direction → Colors
candle_colors bullish = record {
  body = codes "#10b981";
  wick = codes "#34d399";
  volume = codes "rgb(16 185 129 / 0.32)";
}
candle_colors bearish = record {
  body = codes "#f43f5e";
  wick = codes "#fb7185";
  volume = codes "rgb(244 63 94 / 0.32)";
}

-- A candle and a bar of the chart.
pub record Candle (F : Type 0) : Type 0 where
  pub time : ℕ
  pub opening : F
  pub high : F
  pub low : F
  pub closing : F
  pub color : Text
  pub wick_color : Text

pub record Bar (F : Type 0) : Type 0 where
  pub time : ℕ
  pub height : F
  pub color : Text

-- `decimalPrice`: the text of a price that is there and has digits only.
unfoldable pub decimal_price : Option Text → Option Text
decimal_price none = none
decimal_price (some s) = if is_digits s then some s else none

-- `completeCandle`, and the candle that the point then is.
abbrev candle_of :
    ChartPoint → Option Text → Option Text → Option Text → Option Text → Option CanonicalCandle
candle_of point (some o) (some h) (some l) (some c) = some (record {
  bucket_start = point.bucket_start;
  volume = point.volume;
  open_price = o;
  high_price = h;
  low_price = l;
  close_price = c;
})
candle_of point _ _ _ _ = none

unfoldable pub complete_candle : ChartPoint → Option CanonicalCandle
unfolding decimal_price
complete_candle point =
    candle_of point (decimal_price point.open_price) (decimal_price point.high_price)
      (decimal_price point.low_price) (decimal_price point.close_price)

abbrev add_some : Option CanonicalCandle → List CanonicalCandle → List CanonicalCandle
add_some none rest = rest
add_some (some candle) rest = candle ∷ rest

-- `points.filter(completeCandle)`.
unfoldable pub complete_candles : List ChartPoint → List CanonicalCandle
unfolding complete_candle
complete_candles [] = []
complete_candles (point ∷ points) = add_some (complete_candle point) (complete_candles points)

unfoldable pub candle_direction : CanonicalCandle → Direction
candle_direction point =
    if leb (parse_digits point.open_price) (parse_digits point.close_price)
    then bullish
    else bearish

-- The four prices of every candle, and the largest number among them.
abbrev pub prices_of : List CanonicalCandle → List Text
prices_of [] = []
prices_of (p ∷ points) =
    p.open_price ∷ p.high_price ∷ p.low_price ∷ p.close_price ∷ prices_of points

abbrev pub largest_from : ℕ → List Text → ℕ
largest_from most [] = most
largest_from most (s ∷ prices) =
    let rest = largest_from (if ltb most (parse_digits s) then parse_digits s else most) prices in
    rest

unfoldable pub scale_for : ℕ → ℕ
scale_for largest =
    let digits = length (to_string largest) in if ltb 12 digits then 10 ^ (digits - 12) else 1

abbrev pub scaled_candle : ℕ → CanonicalCandle → Candle ℕ
scaled_candle scale point =
    let colors = candle_colors (candle_direction point) in
    record {
      time = point.bucket_start;
      opening = parse_digits point.open_price / scale;
      high = parse_digits point.high_price / scale;
      low = parse_digits point.low_price / scale;
      closing = parse_digits point.close_price / scale;
      color = colors.body;
      wick_color = colors.wick;
    }

-- `chartCandles`: the candles and the scale. For no complete candle the largest price is 0, which
-- has one digit, so the scale of the early return is that of the rest.
unfoldable pub chart_candles : List ChartPoint → List (Candle ℕ) × ℕ
unfolding complete_candles scale_for
chart_candles points =
    let complete = complete_candles points in
    let scale = scale_for (largest_from 0 (prices_of complete)) in
    (map (scaled_candle scale) complete, scale)

abbrev last_of {ℓ} : {A : Type ℓ} → List A → Option A
last_of [] = none
last_of (a ∷ []) = some a
last_of (a ∷ b ∷ rest) = last_of (b ∷ rest)

abbrev or_else {ℓ} : {A : Type ℓ} → Option A → Option A → Option A
or_else none o = o
or_else (some a) o = some a

-- `headerCandle`: the candle under the pointer, or else the last.
unfoldable pub header_candle : {F : Type 0} → List (Candle F) → Option ℕ → Option (Candle F)
header_candle candles none = last_of candles
header_candle candles (some time) = or_else (find (λ c. c.time == time) candles) (last_of candles)
