-- ===== src/Chart/Display.antt =====
-- The data that the chart draws, beside the candles of `chartCandles`.
use zonk_fun.Base.{
  ℕ, ◌≡◌, inl, inr, refl, sym, ap, ◌∙◌, arith, Bool, true, List, [], ◌∷◌, map, Option, none, some,
  is_some, Text, Numeric, bigint_of, every, and_true, Option-cases,
}
use zonk_fun.Format.{EthUsdReference, Printer, Floats}
use zonk_fun.Chart.Data.{
  ChartView, price, fdv, price_value, volume_value, display_candle, display_bar, chart_display_data,
  candle_with, map_or_throw, option_map,
}
use zonk_fun.Chart.{
  ChartPoint, CanonicalCandle, Candle, Bar, complete_candles, candle_colors, candle_direction,
  scaled_candle, scale_for, chart_candles, largest_from, prices_of,
}

-- The time and the colors of a candle, and those of a bar.
abbrev pub stamp : {F : Type 0} → Candle F → ℕ × Text × Text
stamp c = (c.time, c.color, c.wick_color)

abbrev pub bar_stamp : {F : Type 0} → Bar F → ℕ × Text
bar_stamp b = (b.time, b.color)

abbrev stamp_of : CanonicalCandle → ℕ × Text × Text
stamp_of p =
    let colors = candle_colors (candle_direction p) in (p.bucket_start, colors.body, colors.wick)

-- The time and the color of the bar of a candle.
abbrev pub bar_stamp_of : CanonicalCandle → ℕ × Text
bar_stamp_of p = (p.bucket_start, (candle_colors (candle_direction p)).volume)

-- `BigInt` reads the supply where it is used.
abbrev pub is_readable : ChartView → Option Text → Bool
is_readable price supply = true
is_readable fdv none = true
is_readable fdv (some []) = true
is_readable fdv (some (c ∷ s)) = is_some (bigint_of (Numeric.text (c ∷ s)))

-- A map that throws nowhere gives a list, whose entries share with their arguments what every result
-- does.
mapped_alike :
    {A B C : Type 0} (f : A → Option B) (g : B → C) (k : A → C)
    → ((x : A) (y : B) → f x ≡ some y → g y ≡ k x)
    → (xs : List A) → every (λ x. is_some (f x)) xs ≡ true
    → (ys : List B) × (map_or_throw f xs ≡ some ys) × (map g ys ≡ map k xs)
mapped_alike f g k alike [] h = ([], refl, refl)
mapped_alike f g k alike (x ∷ xs) h =
    let (here, more) = and_true (is_some (f x)) _ h in
    let (ys, rest, same) = mapped_alike f g k alike xs more in
    elim (Option-cases (f x)) [
      | inl throws ↦ absurd (ground (arith, here, throws))
      | inr (y, e) ↦ (y ∷ ys, rw e (rw rest refl), rw (alike x y e) (ap (λ t. k x ∷ t) same))
    ]

option_map-some :
    {A B : Type 0} (f : A → B) (o : Option A)
    → is_some o ≡ true
    → (b : B) × (option_map f o ≡ some b)
option_map-some f none h = absurd (ground arith)
option_map-some f (some a) h = (f a, refl)

map-map :
    {A B C : Type 0} (g : B → C) (f : A → B) (xs : List A)
    → map g (map f xs) ≡ map (λ x. g (f x)) xs
map-map g f [] = refl
map-map g f (x ∷ xs) = ap (λ t. g (f x) ∷ t) (map-map g f xs)

every-implied :
    {A : Type 0} (p q : A → Bool)
    → ((x : A) → p x ≡ true → q x ≡ true)
    → (xs : List A) → every p xs ≡ true
    → every q xs ≡ true
every-implied p q implied [] h = refl
every-implied p q implied (x ∷ xs) h =
    let (here, more) = and_true (p x) _ h in rw (implied x here) (every-implied p q implied xs more)

every-true : {A : Type 0} (xs : List A) → every (λ _. true) xs ≡ true
every-true [] = refl
every-true (x ∷ xs) = every-true xs

module _ {F : Type 0} (printer : Printer) (floats : Floats F) (reference : Option EthUsdReference)
    (view : ChartView) (supply : Option Text) where
  price_shown :
      (s : Text)
      → is_readable view supply ≡ true
      → (v : F) × (price_value printer floats reference view supply s ≡ some v)
  unfolding price_value
  price_shown s h = shown view supply h
    where
      shown :
          (view : ChartView) (supply : Option Text)
          → is_readable view supply ≡ true
          → (v : F) × (price_value printer floats reference view supply s ≡ some v)
      shown price supply h = (_, refl)
      shown fdv none h = (_, refl)
      shown fdv (some []) h = (_, refl)
      shown fdv (some (c ∷ t)) h = option_map-some _ (bigint_of (Numeric.text (c ∷ t))) h

  candle_shown :
      (p : CanonicalCandle)
      → is_readable view supply ≡ true
      → is_some (display_candle printer floats reference view supply p) ≡ true
  unfolding display_candle
  candle_shown p h =
      let (_, o) = price_shown p.open_price h in
      let (_, hi) = price_shown p.high_price h in
      let (_, lo) = price_shown p.low_price h in
      let (_, c) = price_shown p.close_price h in rw o (rw hi (rw lo (rw c refl)))

  candle_alike :
      (p : CanonicalCandle) (c : Candle F)
      → display_candle printer floats reference view supply p ≡ some c
      → stamp c ≡ stamp_of p
  unfolding display_candle
  candle_alike p c h =
      stamped (price_value printer floats reference view supply p.open_price)
        (price_value printer floats reference view supply p.high_price)
        (price_value printer floats reference view supply p.low_price)
        (price_value printer floats reference view supply p.close_price) h
    where
      stamped :
          (o h l k : Option F)
          → candle_with printer floats reference p o h l k ≡ some c
          → stamp c ≡ stamp_of p
      stamped (some o) (some h) (some l) (some k) e = cc
      stamped none h l k e = absurd (ground arith)
      stamped (some o) none l k e = absurd (ground arith)
      stamped (some o) (some h) none k e = absurd (ground arith)
      stamped (some o) (some h) (some l) none e = absurd (ground arith)

  bar_shown :
      (p : CanonicalCandle)
      → is_some (bigint_of (Numeric.text p.volume)) ≡ true
      → is_some (display_bar printer floats reference p) ≡ true
  unfolding display_bar volume_value
  bar_shown p h = elim (Option-cases (bigint_of (Numeric.text p.volume))) [
    | inl throws ↦ absurd (ground (arith, h, throws))
    | inr (z, e) ↦ rw e refl
  ]

  bar_alike :
      (p : CanonicalCandle) (b : Bar F)
      → display_bar printer floats reference p ≡ some b
      → bar_stamp b ≡ bar_stamp_of p
  unfolding display_bar
  bar_alike p b h = stamped (volume_value printer floats reference p.volume) h
    where
      stamped :
          (o : Option F)
          → option_map
              (λ height. record {
                time = p.bucket_start;
                height = height;
                color = (candle_colors (candle_direction p)).volume;
              })
              o
            ≡ some b
          → bar_stamp b ≡ bar_stamp_of p
      stamped none e = absurd (ground arith)
      stamped (some v) e = cc

  -- Where `BigInt` reads the volume of every complete candle, and the supply that an FDV view uses,
  -- `chartDisplayData` does not throw: it gives the candles of `chartCandles`, in their order with
  -- their times and colors, and one bar for each, at its time and in the color of its direction.
  pub chart_shows :
      (points : List ChartPoint)
      → is_readable view supply ≡ true
      → every (λ p. is_some (bigint_of (Numeric.text p.volume))) (complete_candles points) ≡ true
      → (candles : List (Candle F)) × (bars : List (Bar F)) × (chart_display_data printer floats
            points view supply reference
          ≡ some (candles, bars))
        × (map stamp candles ≡ map stamp (chart_candles points).0)
        × (map bar_stamp bars ≡ map bar_stamp_of (complete_candles points))
  unfolding chart_display_data chart_candles
  chart_shows points readable volumes =
      let complete = complete_candles points in
      let (candles, shown, same) =
        mapped_alike (display_candle printer floats reference view supply) stamp stamp_of
          candle_alike complete
          (every-implied (λ _. true)
            (λ p. is_some (display_candle printer floats reference view supply p))
            (λ p _. candle_shown p readable) complete (every-true complete)) in
      let (bars, drawn, alike) =
        mapped_alike (display_bar printer floats reference) bar_stamp bar_stamp_of bar_alike
          complete
          (every-implied (λ p. is_some (bigint_of (Numeric.text p.volume)))
            (λ p. is_some (display_bar printer floats reference p)) bar_shown complete volumes) in
      (
        candles,
        bars,
        rw shown (rw drawn refl),
        same
            ∙ sym (
                map-map stamp (scaled_candle (scale_for (largest_from 0 (prices_of complete))))
                  complete),
        alike,
      )
