-- ===== src/Tests/Marketplace.antt =====
-- Three tokens in order.
use mathlib.Core.List.{Permᴰ}
use zonk_fun.Base.{is_digits}
use zonk_fun.Base.{trim}
use zonk_fun.Base.{to_lower}
use zonk_fun.Base.{bigint_of}
use zonk_fun.Base.{
  ◌≡◌, refl, true, List, [], ◌∷◌, some, none, codes, Text, Option, every, is_some, filter,
}
use zonk_fun.Marketplace.{Token, arrange_tokens, top, near, value_of, has_progress, progress}
use zonk_fun.Marketplace.Order.{IsRanked, value_or_zero, arranged}

abbrev token : Text → Option Text → Option Text → Token
token address value sold = record {
  address = address;
  x_url = none;
  curve = some (record { sold_supply = codes "40"; graduation_threshold = sold });
  fully_diluted_value = value;
}

abbrev items : List Token
items =
    token (codes "a") (some (codes "90")) (some (codes "80"))
    ∷ token (codes "b") none none
    ∷ token (codes "c") (some (codes "1000")) (some (codes "50"))
    ∷ []

readable : every (λ t. is_some (value_of t)) items ≡ true
unfolding value_of bigint_of to_lower trim is_digits
readable = refl

arranged_example :
    Permᴰ items (arrange_tokens items top)
    × IsRanked value_or_zero (arrange_tokens items top)
    × Permᴰ (filter has_progress items) (arrange_tokens items near)
    × IsRanked progress (arrange_tokens items near)
arranged_example = arranged items readable
