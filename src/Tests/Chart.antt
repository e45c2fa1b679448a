-- ===== src/Tests/Chart.antt =====
-- The candles of two points, of which one has no prices, and a price of ether.
use mathlib.Core.List.{Memᴰ}
use zonk_fun.Base.{parse_digits}
use zonk_fun.Base.{after_dot}
use zonk_fun.Base.{includes}
use zonk_fun.Base.{before_dot}
use zonk_fun.Inputs.{is_decimal}
use zonk_fun.Base.{trim}
use zonk_fun.Base.{to_lower}
use zonk_fun.Base.{is_digits}
use zonk_fun.Base.{
  ℕ, ◌≡◌, ◌≤◌, ◌/◌, ◌^◌, ◌⊎◌, refl, true, List, [], ◌∷◌, map, none, some, codes, Numeric, bigint_of,
  every, is_some,
}
use zonk_fun.Format.{EthUsdReference, Dates, Printer, Floats, parse_eth_usd_reference}
use zonk_fun.Format.Exact.{IsExact, reference-IsExact}
use zonk_fun.Chart.Data.{price, chart_display_data}
use zonk_fun.Chart.{
  ChartPoint, CanonicalCandle, Candle, Bar, complete_candles, chart_candles, largest_from,
  prices_of,
}
use zonk_fun.Chart.Scale.{IsSmall, IsDrawnFor, drawn_candles}
use zonk_fun.Chart.Display.{stamp, bar_stamp, bar_stamp_of, chart_shows}

abbrev points : List ChartPoint
points =
    record {
      bucket_start = 60;
      volume = codes "12";
      open_price = some (codes "20000000000000000");
      high_price = some (codes "30000000000000000");
      low_price = some (codes "10000000000000000");
      close_price = some (codes "25000000000000000");
    }
    ∷ record {
      bucket_start = 120;
      volume = codes "0";
      open_price = none;
      high_price = none;
      low_price = none;
      close_price = none;
    }
    ∷ []

drawn_candles_example :
    ((c : Candle ℕ)
      → Memᴰ c (chart_candles points).0
      → IsSmall c
        × (p : CanonicalCandle) × Memᴰ p (complete_candles points)
        × IsDrawnFor (chart_candles points).1 p c)
    × (((chart_candles points).1 ≡ 1)
        ⊎ (10 ^ 11
            ≤ largest_from 0 (prices_of (complete_candles points)) / (chart_candles points).1))
drawn_candles_example = drawn_candles points

abbrev printer : Printer
printer = record {
  format_ether = λ _. [];
  format_units = λ _ _. codes "0.02";
  compact_thousands = λ _. none;
}

abbrev floats : Floats ℕ
floats = record { finite_number = λ _. some 2; zero = 0 }

readable : every (λ p. is_some (bigint_of (Numeric.text p.volume))) (complete_candles points) ≡ true
unfolding complete_candles is_digits bigint_of to_lower trim
readable = refl

chart_shows_example :
    (candles : List (Candle ℕ)) × (bars : List (Bar ℕ)) × (chart_display_data printer floats points
        price none none
      ≡ some (candles, bars))
    × (map stamp candles ≡ map stamp (chart_candles points).0)
    × (map bar_stamp bars ≡ map bar_stamp_of (complete_candles points))
chart_shows_example = chart_shows printer floats none price none points refl readable

abbrev dates : Dates
dates = record {
  Time = ℕ;
  parse = λ _. some 1700000000000;
  to_iso_string = λ t. codes "2023-11-14T22:13:20.000Z";
}

abbrev reference : EthUsdReference
reference = record { scaled_usd_per_eth = 350012000000; as_of = codes "2023-11-14T22:13:20.000Z" }

parsed :
    parse_eth_usd_reference dates (some (codes "3500.12")) (some (codes "2023-11-14T22:13:20Z"))
    ≡ some reference
unfolding parse_eth_usd_reference is_decimal is_digits before_dot includes after_dot parse_digits
parsed = refl

reference-IsExact_example : IsExact dates (codes "3500.12") (codes "2023-11-14T22:13:20Z") reference
reference-IsExact_example =
    reference-IsExact dates (codes "3500.12") (codes "2023-11-14T22:13:20Z") reference parsed
