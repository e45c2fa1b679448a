-- ===== src/PendingTrade/Json.antt =====
-- JSON values, and the property reads of the type guards.
use zonk_fun.Base.{
  ℕ, ◌^◌, ◌-◌, Bool, false, ◌&&◌, Option, none, some, Text, text_eq, ℤ, pos, negsuc, ltb, leb,
  if◌then◌else◌,
}

-- A number: an integer, or a value that is none and is positive or not, finite or not.
pub data JsonNumber : Type 0 where
  whole : ℤ → JsonNumber
  other : (positive finite : Bool) → JsonNumber

mutual
  pub data Json : Type 0 where
    null : Json
    boolean : Bool → Json
    number : JsonNumber → Json
    text : Text → Json
    array : Items → Json
    object : Fields → Json

  pub data Items : Type 0 where
    end : Items
    item : Json → Items → Items

  pub data Fields : Type 0 where
    nil : Fields
    field : Text → Json → Fields → Fields

-- `value.name`: `none` is `undefined`.
unfoldable pub property : Text → Fields → Option Json
unfolding text_eq
property name nil = none
property name (field key v fields) = if text_eq key name then some v else property name fields

-- `Number.isFinite(n) && n > 0`.
abbrev pub is_finite_positive : JsonNumber → Bool
is_finite_positive (whole (pos n)) = ltb 0 n
is_finite_positive (whole (negsuc n)) = false
is_finite_positive (other positive finite) = finite && positive

-- `Number.isSafeInteger(n) && n >= 0`, as the natural number it is.
abbrev pub safe_natural : JsonNumber → Option ℕ
safe_natural (whole (pos n)) = if leb n (2 ^ 53 - 1) then some n else none
safe_natural (whole (negsuc n)) = none
safe_natural (other positive finite) = none

-- `n === 1`.
abbrev pub is_one : Option Json → Bool
is_one (some (number (whole (pos n)))) = leb n 1 && leb 1 n
is_one _ = false
