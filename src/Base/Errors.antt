-- ===== src/Base/Errors.antt =====
-- What a promise or a call yields: a value, or what was thrown. A thrown `Error` has a name and a
-- message; anything else that is thrown is kept by its `String(value)`.
use mathlib.Core.Path.{◌≡◌, refl}
use mathlib.Core.Logic.{◌⊎◌, inl, inr}
use mathlib.Core.Bool.{Bool, true, false}
use zonk_fun.Base.Texts.{Text, codes}

pub data Thrown : Type 0 where
  error : Text → Text → Thrown
  value : Text → Thrown

-- `new Error(message)`.
abbrev pub new_error : Text → Thrown
new_error message = error (codes "Error") message

pub data Result (A : Type 0) : Type 0 where
  ok : A → Result A
  err : Thrown → Result A

infixl 5 ◌>>=?◌
abbrev pub ◌>>=?◌ : {A B : Type 0} → Result A → (A → Result B) → Result B
ok a >>=? f = f a
err e >>=? f = err e

abbrev pub is_ok : {A : Type 0} → Result A → Bool
is_ok (ok _) = true
is_ok (err _) = false

-- `reason instanceof Error ? reason.message : String(reason)`.
unfoldable pub message_or_string : Thrown → Text
message_or_string (error name message) = message
message_or_string (value shown) = shown

pub Result-cases :
    {A : Type 0} (r : Result A) → ((a : A) × (r ≡ ok a)) ⊎ ((e : Thrown) × (r ≡ err e))
Result-cases (ok a) = inl (a, refl)
Result-cases (err e) = inr (e, refl)
