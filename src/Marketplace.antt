-- ===== src/Marketplace.antt =====
-- The order of the tokens in apps/web/src/components/discovery-marketplace.tsx: `arrangeTokens` and
-- what it calls.
pub mod Order
use zonk_fun.Base.{
  Bool, List, [], ◌∷◌, Option, none, some, is_some, get_or, filter, Text, ℤ, pos, negsuc, Numeric,
  bigint_of, Sign, below, equal, above, compare_ℤ, if◌then◌else◌, not,
}
use zonk_fun.Inputs.{is_empty}
use zonk_fun.Format.{graduation_progress}

-- `Token`, the fields that the order depends on.
pub record CurveOfToken : Type 0 where
  pub sold_supply : Text
  pub graduation_threshold : Option Text

pub record Token : Type 0 where
  pub address : Text
  pub x_url : Option Text
  pub curve : Option CurveOfToken
  pub fully_diluted_value : Option Text

-- `FilterId`.
pub data Filter : Type 0 where
  trending newest top near linked : Filter

-- `xs.sort(compare)`, which is stable: an entry moves behind those that it has to follow. Where the
-- comparison function is not consistent, the platform may choose another order.
module _ {ℓ} {A : Type ℓ} (compare : A → A → Sign) where
  abbrev pub is_behind : Sign → Bool
  is_behind above = Bool.true
  is_behind _ = Bool.false

  abbrev pub insert : A → List A → List A
  insert x [] = x ∷ []
  insert x (y ∷ ys) =
      let rest = insert x ys in if is_behind (compare x y) then y ∷ rest else x ∷ y ∷ ys

  abbrev pub sort : List A → List A
  sort [] = []
  sort (x ∷ xs) = insert x (sort xs)

-- `graduationProgress(token.curve?.sold_supply, token.curve?.graduation_threshold)`.
abbrev curve_progress : Option CurveOfToken → Option ℤ
curve_progress none = graduation_progress none none
curve_progress (some c) = graduation_progress (some c.sold_supply) c.graduation_threshold

-- `progressOf`, in hundredths of a percent, where a progress of -1 stands for none.
unfoldable pub progress : Token → ℤ
progress token = get_or (curve_progress token.curve) (negsuc 99)

-- `value ?? 0`.
abbrev or_zero : Option Text → Numeric
or_zero none = Numeric.big (pos 0)
or_zero (some s) = Numeric.text s

abbrev sign_of : Option ℤ → Option ℤ → Sign
sign_of (some a) (some b) = compare_ℤ a b
sign_of _ _ = equal

-- `compareIntegerStrings`.
unfoldable pub compare_integer_strings : Option Text → Option Text → Sign
compare_integer_strings left right = sign_of (bigint_of (or_zero left)) (bigint_of (or_zero right))

abbrev pub has_progress : Token → Bool
has_progress token = is_some (curve_progress token.curve)

abbrev pub by_progress : Token → Token → Sign
by_progress a b = compare_ℤ (progress b) (progress a)

abbrev pub by_value : Token → Token → Sign
by_value a b = compare_integer_strings b.fully_diluted_value a.fully_diluted_value

-- `Boolean(token.x_url)`.
abbrev pub is_linked : Token → Bool
is_linked token = not (is_empty (get_or token.x_url []))

unfoldable pub arrange_tokens : List Token → Filter → List Token
unfolding compare_integer_strings progress
arrange_tokens items linked = filter is_linked items
arrange_tokens items near = sort by_progress (filter has_progress items)
arrange_tokens items top = sort by_value items
arrange_tokens items trending = items
arrange_tokens items newest = items

-- The fully diluted value of a token, where `BigInt` reads it; a missing one counts as 0.
unfoldable pub value_of : Token → Option ℤ
value_of token = bigint_of (or_zero token.fully_diluted_value)
