-- ===== src/Chart/Scale.antt =====
-- The scale of the candles that `chartCandles` gives.
use mathlib.Core.List.{Memᴰ}
use mathlib.Core.Path.{subst}
use native.Mathlib.Nat.{
  div-lt_iff_lt-mul, le-div_iff_mul-le, pow-le-pow_right, one-le-pow, div-one, pow-suc, mul_assoc,
}
use zonk_fun.Base.{
  ℕ, zero, suc, ◌+◌, ◌-◌, ◌*◌, ◌/◌, ◌^◌, ◌≤◌, ◌<◌, ◌≡◌, ◌⊎◌, inl, inr, refl, sym, ap, ◌∙◌, arith,
  List, [], ◌∷◌, map, Text, to_string, to_string-size, parse_digits, length, ltb, if◌then◌else◌,
  Bool-cases, not_ltb→le, leb, leb→le, not_leb→lt, codes,
}
use zonk_fun.Chart.{
  ChartPoint, CanonicalCandle, Candle, complete_candles, prices_of, largest_from, scale_for,
  scaled_candle, chart_candles, candle_colors, candle_direction,
}

-- The candle's values have at most twelve digits.
abbrev pub IsSmall : Candle ℕ → Type 0
IsSmall c = (c.opening < 10 ^ 12) × (c.high < 10 ^ 12) × (c.low < 10 ^ 12) × (c.closing < 10 ^ 12)

starting_price_le : (most : ℕ) (prices : List Text) → most ≤ largest_from most prices
starting_price_le most [] = omega arith
starting_price_le most (s ∷ prices) = elim (Bool-cases (ltb most (parse_digits s))) [
  | inl less ↦
      rw less (let on = starting_price_le (parse_digits s) prices in ground (arith, on, less))
  | inr not_less ↦ rw not_less (starting_price_le most prices)
]

price_le :
    (prices : List Text) (most : ℕ) (s : Text)
    → Memᴰ s prices
    → parse_digits s ≤ largest_from most prices
price_le [] most t at = elim at [ ]
price_le (s ∷ prices) most t (Memᴰ.head e) =
    let more =
      starting_price_le (if ltb most (parse_digits s) then parse_digits s else most) prices in
    elim (Bool-cases (ltb most (parse_digits s))) [
      | inl less ↦ rw less (rw e (rw less at more))
      | inr not_less ↦
          rw not_less (rw e (let m = rw not_less at more in ground (arith, m, not_less)))
    ]
price_le (s ∷ prices) most t (Memᴰ.tail at) =
    price_le prices (if ltb most (parse_digits s) then parse_digits s else most) t at

pow_add : (m k : ℕ) → 10 ^ m * 10 ^ k ≡ 10 ^ (k + m)
pow_add m zero = let none_added : 0 + m ≡ m = omega arith in rw none_added (omega arith)
pow_add m (suc k) =
    let next : suc k + m ≡ suc (k + m) = omega arith in
    rw (pow-suc 10 k) (
      sym (mul_assoc (10 ^ m) (10 ^ k) 10)
      ∙ ap (λ n. n * 10) (pow_add m k)
      ∙ sym (pow-suc 10 (k + m))
      ∙ ap (λ n. 10 ^ n) (sym next))

-- What a number up to the largest price is at the scale: less than 10^12. The scale is 1, or the
-- largest price keeps twelve digits.
scaled_lt :
    (n largest : ℕ)
    → n ≤ largest
    → (n / scale_for largest < 10 ^ 12)
      × ((scale_for largest ≡ 1) ⊎ (10 ^ 11 ≤ largest / scale_for largest))
unfolding scale_for
scaled_lt n largest h =
    let (above, below) = to_string-size largest in
    let digits = length (to_string largest) in
    elim (Bool-cases (ltb 12 digits)) [
      | inl long ↦
          let more : 10 ^ 12 * 10 ^ (digits - 12) ≡ 10 ^ digits =
            let sum : digits - 12 + 12 ≡ digits = ground (arith, long) in
            pow_add 12 (digits - 12) ∙ ap (λ n. 10 ^ n) sum in
          let positive : 0 < 10 ^ (digits - 12) = one-le-pow (digits - 12) 10 (omega arith) in
          rw long (
            (div-lt_iff_lt-mul positive).1 (rw more (omega (arith, above, h))),
            elim below [
              | inl single ↦ absurd (ground (arith, long, single))
              | inr reached ↦
                  let short_of : digits - 12 + 11 ≡ digits - 1 = ground (arith, long) in
                  let eleven = pow_add 11 (digits - 12) ∙ ap (λ n. 10 ^ n) short_of in
                  inr ((le-div_iff_mul-le positive).1 (rw eleven reached))
            ],
          )
      | inr short ↦
          let twelve = pow-le-pow_right {n = 10} (omega arith) (not_ltb→le 12 digits short) in
          rw short (rw (div-one n) (omega (arith, above, h, twelve)), inl refl)
    ]

from_mapped :
    {A : Type 0} {B : Type 0} (f : A → B) (xs : List A) (b : B)
    → Memᴰ b (map f xs)
    → (a : A) × Memᴰ a xs × (b ≡ f a)
from_mapped f [] b at = elim at [ ]
from_mapped f (x ∷ xs) b (Memᴰ.head e) = (x, Memᴰ.head refl, e)
from_mapped f (x ∷ xs) b (Memᴰ.tail at) =
    let (a, in_rest, same) = from_mapped f xs b at in (a, Memᴰ.tail in_rest, same)

are_listed :
    (points : List CanonicalCandle) (p : CanonicalCandle)
    → Memᴰ p points
    → Memᴰ p.open_price (prices_of points)
      × Memᴰ p.high_price (prices_of points)
      × Memᴰ p.low_price (prices_of points)
      × Memᴰ p.close_price (prices_of points)
are_listed [] p at = elim at [ ]
are_listed (q ∷ points) p (Memᴰ.head e) = (
  Memᴰ.head (ap (λ x. x.open_price) e),
  Memᴰ.tail (Memᴰ.head (ap (λ x. x.high_price) e)),
  Memᴰ.tail (Memᴰ.tail (Memᴰ.head (ap (λ x. x.low_price) e))),
  Memᴰ.tail (Memᴰ.tail (Memᴰ.tail (Memᴰ.head (ap (λ x. x.close_price) e)))),
)
are_listed (q ∷ points) p (Memᴰ.tail at) =
    let (o, h, l, c) = are_listed points p at in (further o, further h, further l, further c)
  where
    further : {s : Text} → Memᴰ s (prices_of points) → Memᴰ s (prices_of (q ∷ points))
    further m = Memᴰ.tail (Memᴰ.tail (Memᴰ.tail (Memᴰ.tail m)))

-- The candle is green where the exact prices went up or stayed, and red where they went down.
abbrev pub IsColored : CanonicalCandle → Candle ℕ → Type 0
IsColored p c =
    ((parse_digits p.open_price ≤ parse_digits p.close_price)
      × (c.color ≡ codes "#10b981")
      × (c.wick_color ≡ codes "#34d399"))
    ⊎ ((parse_digits p.close_price < parse_digits p.open_price)
        × (c.color ≡ codes "#f43f5e")
        × (c.wick_color ≡ codes "#fb7185"))

-- The candle is drawn for the complete one: at its time, with its prices in units of the scale, and in
-- the colors of the way it went.
abbrev pub IsDrawnFor : ℕ → CanonicalCandle → Candle ℕ → Type 0
IsDrawnFor scale p c =
    (c.time ≡ p.bucket_start)
    × (c.opening ≡ parse_digits p.open_price / scale)
    × (c.high ≡ parse_digits p.high_price / scale)
    × (c.low ≡ parse_digits p.low_price / scale)
    × (c.closing ≡ parse_digits p.close_price / scale)
    × IsColored p c

scaled-IsDrawnFor : (scale : ℕ) (p : CanonicalCandle) → IsDrawnFor scale p (scaled_candle scale p)
unfolding candle_direction candle_colors
scaled-IsDrawnFor scale p = (
  refl,
  refl,
  refl,
  refl,
  refl,
  elim (Bool-cases (leb (parse_digits p.open_price) (parse_digits p.close_price))) [
    | inl up ↦ inl (leb→le _ _ up, rw up refl, rw up refl)
    | inr down ↦ inr (not_leb→lt _ _ down, rw down refl, rw down refl)
  ],
)

scaled-IsSmall :
    (points : List CanonicalCandle) (p : CanonicalCandle)
    → Memᴰ p points
    → IsSmall (scaled_candle (scale_for (largest_from 0 (prices_of points))) p)
scaled-IsSmall points p at =
    let largest = largest_from 0 (prices_of points) in
    let (o, h, l, c) = are_listed points p at in (fits o, fits h, fits l, fits c)
  where
    fits :
        {s : Text}
        → Memᴰ s (prices_of points)
        → parse_digits s / scale_for (largest_from 0 (prices_of points)) < 10 ^ 12
    fits {s} m = (scaled_lt (parse_digits s) _ (price_le (prices_of points) 0 s m)).0

-- Every candle of `chartCandles` is drawn for a complete one of the points, with its prices in units of
-- the scale, rounded down, which have at most twelve digits, so that a JavaScript number holds them
-- exactly, and in green where its exact prices went up or stayed and in red where they went down. The
-- scale is 1, or so small that the largest price of the complete candles keeps twelve digits.
pub drawn_candles :
    (points : List ChartPoint)
    → ((c : Candle ℕ)
        → Memᴰ c (chart_candles points).0
        → IsSmall c
          × (p : CanonicalCandle) × Memᴰ p (complete_candles points)
          × IsDrawnFor (chart_candles points).1 p c)
      × (((chart_candles points).1 ≡ 1)
          ⊎ (10 ^ 11
              ≤ largest_from 0 (prices_of (complete_candles points)) / (chart_candles points).1))
unfolding chart_candles
drawn_candles points =
    let complete = complete_candles points in
    let largest = largest_from 0 (prices_of complete) in
    let scale = scale_for largest in
    (
      λ c at.
          let (p, listed, same) = from_mapped (scaled_candle scale) complete c at in
          (
            subst IsSmall (sym same) (scaled-IsSmall complete p listed),
            p,
            listed,
            subst (IsDrawnFor scale p) (sym same) (scaled-IsDrawnFor scale p),
          ),
      (scaled_lt largest largest (omega arith)).1,
    )
