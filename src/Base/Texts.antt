-- ===== src/Base/Texts.antt =====
-- JavaScript strings as lists of code units, with the built-ins and the regular expressions that
-- the program uses on them. `toLowerCase` and the flag `i` are modelled on ASCII letters: the
-- program folds the case of hexadecimal texts, host names and of patterns that are ASCII.
use Prim.Native.Nat.{ℕ, ◌+◌, ◌-◌, ◌*◌}
use Prim.Native.Char.{code}
use Prim.Native.String.{String}
use mathlib.Core.Path.{◌≡◌, refl}
use mathlib.Core.Logic.{◌↔◌}
use mathlib.Core.Bool.{Bool, true, false, ◌&&◌, ◌||◌}
use mathlib.Core.List.{List, [], ◌∷◌, map}
use native.Mathlib.Omega.{arith}
use zonk_fun.Base.Tests.{leb, ◌==◌, if◌then◌else◌}
use zonk_fun.Base.Lists.{length, every}

abbrev pub Text : Type 0
Text = List ℕ

abbrev pub codes : String → Text
codes String.[] = []
codes (String.◌∷◌ c s) = code c ∷ codes s

-- `a === b` on strings.
unfoldable pub text_eq : Text → Text → Bool
text_eq [] [] = true
text_eq [] (d ∷ t) = false
text_eq (c ∷ s) [] = false
text_eq (c ∷ s) (d ∷ t) = (c == d) && text_eq s t

pub text_eq_refl : (s : Text) → text_eq s s ≡ true
unfolding text_eq
text_eq_refl [] = refl
text_eq_refl (c ∷ s) = ground (arith, text_eq_refl s)

pub text_eq_sound : (s t : Text) → text_eq s t ≡ true → s ≡ t
unfolding text_eq
text_eq_sound [] [] h = refl
text_eq_sound [] (d ∷ t) h = cc
text_eq_sound (c ∷ s) [] h = cc
text_eq_sound (c ∷ s) (d ∷ t) h = ground (arith, text_eq_sound s t)

pub text_eq_iff : (s t : Text) → (text_eq s t ≡ true) ↔ (s ≡ t)
text_eq_iff s t = (text_eq_sound s t, λ e. subst_right e)
  where
    subst_right : s ≡ t → text_eq s t ≡ true
    subst_right e = rw e (text_eq_refl t)

abbrev pub lower_code : ℕ → ℕ
lower_code c = if leb b'A' c && leb c b'Z' then c + 32 else c

-- `s.toLowerCase()`.
unfoldable pub to_lower : Text → Text
to_lower = map lower_code

abbrev pub upper_code : ℕ → ℕ
upper_code c = if leb b'a' c && leb c b'z' then c - 32 else c

-- `s.toUpperCase()`, on ASCII letters.
unfoldable pub to_upper : Text → Text
to_upper = map upper_code

abbrev pub is_digit : ℕ → Bool
is_digit c = leb b'0' c && leb c b'9'

abbrev pub is_hex_digit : ℕ → Bool
is_hex_digit c = is_digit c || (leb b'a' c && leb c b'f') || (leb b'A' c && leb c b'F')

-- `/^\d+$/`.
unfoldable pub is_digits : Text → Bool
is_digits [] = false
is_digits (c ∷ s) = every is_digit (c ∷ s)

-- `/^0x[0-9a-fA-F]*$/`, with the number of digits; the anchored patterns fix the number.
unfoldable pub is_hex_text : Text → Bool
is_hex_text (z ∷ x ∷ s) = (z == b'0') && (x == b'x') && every is_hex_digit s
is_hex_text _ = false

-- `/^0x[0-9a-fA-F]{n}$/`.
unfoldable pub is_hex_of_length : ℕ → Text → Bool
unfolding is_hex_text
is_hex_of_length n s = is_hex_text s && (length s == n + 2)

-- `BigInt(s)` on a text of decimal digits.
unfoldable pub digits_from : ℕ → Text → ℕ
digits_from acc [] = acc
digits_from acc (c ∷ s) = digits_from (acc * 10 + (c - b'0')) s

unfoldable pub parse_digits : Text → ℕ
unfolding digits_from
parse_digits s = digits_from 0 s

-- White space and line terminators, which `trim` removes.
unfoldable pub is_space : ℕ → Bool
is_space c =
    (leb 9 c && leb c 13)
    || c == 32
    || c == 160
    || c == 0x1680
    || (leb 0x2000 c && leb c 0x200a)
    || c == 0x2028
    || c == 0x2029
    || c == 0x202f
    || c == 0x205f
    || c == 0x3000
    || c == 0xfeff

abbrev trim_start : Text → Text
trim_start [] = []
trim_start (c ∷ s) = elim (is_space c) [ true ↦ trim_start s | false ↦ c ∷ s ]

abbrev trim_end : Text → Text
trim_end [] = []
trim_end (c ∷ s) = keep (trim_end s)
  where
    keep : Text → Text
    keep [] = if is_space c then [] else c ∷ []
    keep (d ∷ t) = c ∷ d ∷ t

-- `s.trim()`.
unfoldable pub trim : Text → Text
unfolding is_space
trim s = trim_end (trim_start s)

-- The part before the first dot, and the part behind it: `const [whole, fraction = ""] = s.split(".")`
-- for a text with one dot at most.
unfoldable pub before_dot : Text → Text
before_dot [] = []
before_dot (c ∷ s) = let rest = before_dot s in if c == b'.' then [] else c ∷ rest

unfoldable pub after_dot : Text → Text
after_dot [] = []
after_dot (c ∷ s) = let rest = after_dot s in if c == b'.' then s else rest

-- Whether `s` begins with `p`.
abbrev starts_with : Text → Text → Bool
starts_with [] s = true
starts_with (c ∷ p) [] = false
starts_with (c ∷ p) (d ∷ s) = (c == d) && starts_with p s

-- `s.includes(p)`.
unfoldable pub includes : Text → Text → Bool
includes p [] = starts_with p []
includes p (d ∷ s) = starts_with p (d ∷ s) || includes p s

-- `/p/i.test(s)` for a literal `p` in small letters.
unfoldable pub matches_ci : Text → Text → Bool
unfolding includes to_lower
matches_ci p s = includes p (to_lower s)

-- The part of `s` before its first line terminator, which `.` in a pattern does not match.
unfoldable pub first_line : Text → Text
first_line [] = []
first_line (c ∷ s) =
    let rest = first_line s in
    if c == 10 || c == 13 || c == 0x2028 || c == 0x2029 then [] else c ∷ rest

abbrev behind : Text → Text → Text
behind [] s = s
behind (_ ∷ p) [] = []
behind (_ ∷ p) (_ ∷ s) = behind p s

-- `/p.*q/i.test(s)` for literals in small letters.
unfoldable pub joined_on_line : Text → Text → Text → Bool
unfolding first_line includes
joined_on_line p q [] = false
joined_on_line p q (c ∷ s) =
    (starts_with p (c ∷ s) && includes q (first_line (behind p (c ∷ s)))) || joined_on_line p q s

unfoldable pub includes_on_line : Text → Text → Text → Bool
unfolding joined_on_line to_lower
includes_on_line p q s = joined_on_line p q (to_lower s)
