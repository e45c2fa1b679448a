-- ===== src/CreateForm/Validate/Valid.antt =====
-- What an input that `validateCreateToken` accepts is.
use zonk_fun.Base.{
  ℕ, ◌≤◌, ◌≡◌, ◌≢◌, ◌⊎◌, inl, inr, refl, sym, ap, arith, Bool, true, false, not, ◌&&◌, ◌||◌,
  not-false, not_ltb→le, leb→le, Bool-cases, List, [], ◌∷◌, ◌++◌, Option, none, some, Text, codes,
  text_eq, text_eq_sound, to_lower, trim, length, any, ok, Result-cases, ltb, leb,
}
use zonk_fun.Inputs.{parse_dev_buy_amount, dev_buy_of, is_empty}
use zonk_fun.Launch.{ImageFile, ImageSource, file, url, CreateTokenInput}
use zonk_fun.CreateForm.Validate.{
  Url, Urls, Key, Errors, encoded_length, max_image_bytes, accepted_image_types, x_hosts,
  telegram_hosts, discord_hosts, ends_with, is_host, is_https, is_http, is_plain, is_allowed,
  error_if, is_good_found, is_https_found, is_https_image_url, is_good_url, validate_optional_url,
  validate_file, validate_image_url, validate_image, validate_dev_buy, validate_create_token,
  name_key, symbol_key, website_key, x_key, telegram_key, discord_key,
}

-- The host of the URL is one of the hosts, or below one of them.
abbrev pub IsBelow : Text → List Text → Type 0
IsBelow name [] = ⊥
IsBelow name (host ∷ hosts) =
    (name ≡ host) ⊎ ((sub : Text) × (name ≡ sub ++ (codes "." ++ host))) ⊎ IsBelow name hosts

abbrev pub IsRestricted : Option (List Text) → Url → Type 0
IsRestricted none u = Unit
IsRestricted (some hosts) u = IsBelow (to_lower u.hostname) hosts

-- A URL without credentials and with a host, of a length that is allowed.
abbrev pub IsPlain : Url → Text → Type 0
IsPlain u t = (u.username ≡ []) × (u.password ≡ []) × (u.hostname ≢ []) × (length t ≤ 2048)

abbrev pub IsWebUrl : Urls → Option (List Text) → Text → Type 0
IsWebUrl urls hosts t =
    (u : Url) × (urls.parse t ≡ some u)
    × ((u.protocol ≡ codes "http:") ⊎ (u.protocol ≡ codes "https:"))
    × IsPlain u t
    × IsRestricted hosts u

abbrev pub IsOptionalUrl : Urls → Option (List Text) → Text → Type 0
IsOptionalUrl urls hosts value = (trim value ≡ []) ⊎ IsWebUrl urls hosts (trim value)

abbrev pub IsImageUrl : Urls → Text → Type 0
IsImageUrl urls t =
    (u : Url) × (urls.parse t ≡ some u) × (u.protocol ≡ codes "https:") × IsPlain u t

abbrev pub IsOneOf : Text → List Text → Type 0
IsOneOf t [] = ⊥
IsOneOf t (x ∷ l) = (t ≡ x) ⊎ IsOneOf t l

abbrev pub IsImage : Urls → ImageSource → CreateTokenInput → Type 0
IsImage urls file input =
    (f : ImageFile) × (input.image_file ≡ some f)
    × IsOneOf f.mime accepted_image_types
    × (f.size ≤ max_image_bytes)
IsImage urls url input = IsImageUrl urls (trim input.image_url)

-- The text is not blank and has at most so many bytes.
abbrev pub IsShort : ℕ → Text → Type 0
IsShort n value = (trim value ≢ []) × (encoded_length (trim value) ≤ n)

append_nil : (a b : Errors) → a ++ b ≡ [] → (a ≡ []) × (b ≡ [])
append_nil [] b h = (refl, h)
append_nil (x ∷ a) b h = absurd (ground arith)

nil_ne : (x : Key × Text) (l : Errors) → ¬ (x ∷ l ≡ [])
nil_ne x l h = ground arith

error_if_nil : (b : Bool) (k : Key) (m : Text) → error_if b k m ≡ [] → b ≡ false
error_if_nil true k m h = absurd (ground arith)
error_if_nil false k m h = refl

or_false : (a b : Bool) → (a || b) ≡ false → (a ≡ false) × (b ≡ false)
or_false a b h = ground arith

not_empty : (t : Text) → is_empty t ≡ false → t ≢ []
not_empty [] h e = cc
not_empty (c ∷ t) h e = ground arith

empty_nil : (t : Text) → is_empty t ≡ true → t ≡ []
empty_nil [] h = refl
empty_nil (c ∷ t) h = cc

IsShort-of :
    (n : ℕ) (value : Text) (k : Key) (m : Text)
    → error_if (is_empty (trim value) || ltb n (encoded_length (trim value))) k m ≡ []
    → IsShort n value
IsShort-of n value k m h =
    let (full, low) = or_false _ _ (error_if_nil _ k m h) in
    (not_empty (trim value) full, not_ltb→le _ _ low)

both : (a b : Bool) → (a && b) ≡ true → (a ≡ true) × (b ≡ true)
both a b h = ground arith

four :
    (a b c d : Bool) → (a && b && c && d) ≡ true → (a ≡ true) × (b ≡ true) × (c ≡ true) × (d ≡ true)
four a b c d h = ground arith

either : (a b : Bool) → (a || b) ≡ true → (a ≡ true) ⊎ (b ≡ true)
either true b h = inl refl
either false b h = inr h

not-true : (a : Bool) → not a ≡ true → a ≡ false
not-true a h = ground arith

IsPlain-of : (u : Url) (t : Text) → is_plain u t ≡ true → IsPlain u t
IsPlain-of u t h =
    let (name, pass, host, long) =
      four (is_empty u.username) (is_empty u.password) (not (is_empty u.hostname))
        (leb (length t) 2048) h in
    (
      empty_nil u.username name,
      empty_nil u.password pass,
      not_empty u.hostname (not-true (is_empty u.hostname) host),
      leb→le (length t) 2048 long,
    )

ends_with_split : (p s : Text) → ends_with p s ≡ true → (sub : Text) × (s ≡ sub ++ p)
unfolding ends_with
ends_with_split p [] h = ([], sym (empty_nil p h))
ends_with_split p (c ∷ s) h = elim (either (text_eq p (c ∷ s)) (ends_with p s) h) [
  | inl same ↦ ([], sym (text_eq_sound p (c ∷ s) same))
  | inr more ↦ let (sub, e) = ends_with_split p s more in (c ∷ sub, ap (λ r. c ∷ r) e)
]

IsBelow-of :
    (name : Text) (hosts : List Text)
    → any (is_host name) hosts ≡ true
    → IsBelow (to_lower name) hosts
unfolding is_host
IsBelow-of name [] h = absurd (ground arith)
IsBelow-of name (host ∷ hosts) h = elim (either (is_host name host) (any (is_host name) hosts) h) [
  | inl here ↦
      elim (either (text_eq (to_lower name) host) (ends_with (codes "." ++ host) (to_lower name))
        here) [
          | inl same ↦ inl (text_eq_sound (to_lower name) host same)
          | inr under ↦ inr (inl (ends_with_split (codes "." ++ host) (to_lower name) under))
        ]
  | inr later ↦ inr (inr (IsBelow-of name hosts later))
]

IsRestricted-of :
    (hosts : Option (List Text)) (u : Url) → is_allowed hosts u ≡ true → IsRestricted hosts u
unfolding is_allowed
IsRestricted-of none u h = tt
IsRestricted-of (some hosts) u h = IsBelow-of u.hostname hosts h

one_of : (t : Text) (l : List Text) → any (text_eq t) l ≡ true → IsOneOf t l
one_of t [] h = absurd (ground arith)
one_of t (x ∷ l) h = elim (either (text_eq t x) (any (text_eq t) l) h) [
  | inl same ↦ inl (text_eq_sound t x same)
  | inr later ↦ inr (one_of t l later)
]

module _ (urls : Urls) where
  IsWebUrl-of :
      (hosts : Option (List Text)) (t : Text) (found : Option Url)
      → urls.parse t ≡ found
      → is_good_found hosts t found ≡ true
      → IsWebUrl urls hosts t
  unfolding is_good_found
  IsWebUrl-of hosts t none e h = absurd (ground arith)
  IsWebUrl-of hosts t (some u) e h =
      let (http, rest) = both (is_http u) (is_plain u t && is_allowed hosts u) h in
      let (plain, allowed) = both (is_plain u t) (is_allowed hosts u) rest in
      (
        u,
        e,
        elim (either (text_eq u.protocol (codes "http:")) (is_https u) http) [
          | inl h ↦ inl (text_eq_sound u.protocol (codes "http:") h)
          | inr h ↦ inr (text_eq_sound u.protocol (codes "https:") h)
        ],
        IsPlain-of u t plain,
        IsRestricted-of hosts u allowed,
      )

  IsOptionalUrl-of :
      (value : Text) (k : Key) (label : Text) (hosts : Option (List Text))
      → validate_optional_url urls value k label hosts ≡ []
      → IsOptionalUrl urls hosts value
  unfolding validate_optional_url is_good_url
  IsOptionalUrl-of value k label hosts h = elim (Bool-cases (is_empty (trim value))) [
    | inl blank ↦ inl (empty_nil (trim value) blank)
    | inr full ↦ inr (
        IsWebUrl-of hosts (trim value) (urls.parse (trim value)) refl
          (not-false (is_good_url urls hosts (trim value)) (error_if_nil _ k _ (rw full at h))))
  ]

  IsImageUrl-of :
      (t : Text) (found : Option Url)
      → urls.parse t ≡ found
      → is_https_found t found ≡ true
      → IsImageUrl urls t
  unfolding is_https_found
  IsImageUrl-of t none e h = absurd (ground arith)
  IsImageUrl-of t (some u) e h =
      let (https, plain) = both (is_https u) (is_plain u t) h in
      (u, e, text_eq_sound u.protocol (codes "https:") https, IsPlain-of u t plain)

  file_of :
      (f : Option ImageFile) (input : CreateTokenInput)
      → input.image_file ≡ f
      → validate_file f ≡ []
      → IsImage urls file input
  unfolding validate_file
  file_of none input e h = absurd (ground arith)
  file_of (some f) input e h = elim (Bool-cases (any (text_eq f.mime) accepted_image_types)) [
    | inl accepted ↦ (
      f,
      e,
      one_of f.mime accepted_image_types accepted,
      not_ltb→le max_image_bytes f.size (error_if_nil _ _ _ (rw accepted at h)),
    )
    | inr other ↦ absurd (nil_ne _ _ (rw other at h))
  ]

  IsImage-of :
      (source : ImageSource) (input : CreateTokenInput)
      → validate_image urls source input ≡ []
      → IsImage urls source input
  unfolding validate_image validate_image_url is_https_image_url
  IsImage-of file input h = file_of input.image_file input refl h
  IsImage-of url input h = elim (Bool-cases (is_empty (trim input.image_url))) [
    | inl blank ↦ absurd (nil_ne _ _ (rw blank at h))
    | inr full ↦ IsImageUrl-of (trim input.image_url) (urls.parse (trim input.image_url)) refl (
        not-false (is_https_image_url urls (trim input.image_url))
          (error_if_nil _ _ _ (rw full at h)))
  ]

  dev_buy_of_nil :
      (value : Text) → validate_dev_buy value ≡ [] → (n : ℕ) × (parse_dev_buy_amount value ≡ ok n)
  unfolding validate_dev_buy parse_dev_buy_amount
  dev_buy_of_nil value h = elim (Bool-cases (is_empty (trim value))) [
    | inl blank ↦ (0, rw blank)
    | inr full ↦ elim (Result-cases (dev_buy_of (trim value))) [
      | inl (n, e) ↦ (n, rw full e)
      | inr (x, e) ↦ absurd (nil_ne _ _ (rw (full, e) at h))
    ]
  ]

  -- What the form means to accept.
  abbrev pub IsValidInput : CreateTokenInput → Type 0
  IsValidInput input =
      IsShort 64 input.name
      × IsShort 16 input.symbol
      × (encoded_length (trim input.description) ≤ 1000)
      × IsOptionalUrl urls none input.website_url
      × IsOptionalUrl urls (some x_hosts) input.x_url
      × IsOptionalUrl urls (some telegram_hosts) input.telegram_url
      × IsOptionalUrl urls (some discord_hosts) input.discord_url
      × IsImage urls input.image_source input
      × ((n : ℕ) × (parse_dev_buy_amount input.dev_buy_eth ≡ ok n))

  -- An input without errors has a name of 1 to 64 bytes and a symbol of 1 to 16, a description of at
  -- most 1000 bytes, links that are blank or web URLs without credentials, on the hosts of the site
  -- where it is a social one, an image of an accepted type and size or an HTTPS image URL, by the
  -- source that is chosen, and an amount for the creator's buy that can be read.
  pub accepted_input :
      (input : CreateTokenInput) → validate_create_token urls input ≡ [] → IsValidInput input
  unfolding validate_create_token
  accepted_input input h =
      let (name, r1) = append_nil _ _ h in
      let (symbol, r2) = append_nil _ _ r1 in
      let (description, r3) = append_nil _ _ r2 in
      let (website, r4) = append_nil _ _ r3 in
      let (x, r5) = append_nil _ _ r4 in
      let (telegram, r6) = append_nil _ _ r5 in
      let (discord, r7) = append_nil _ _ r6 in
      let (image, dev_buy) = append_nil _ _ r7 in
      (
        IsShort-of 64 input.name name_key _ name,
        IsShort-of 16 input.symbol symbol_key _ symbol,
        not_ltb→le 1000 (encoded_length (trim input.description)) (error_if_nil _ _ _ description),
        IsOptionalUrl-of input.website_url website_key (codes "Website") none website,
        IsOptionalUrl-of input.x_url x_key (codes "X/Twitter") (some x_hosts) x,
        IsOptionalUrl-of input.telegram_url telegram_key (codes "Telegram") (some telegram_hosts)
            telegram,
        IsOptionalUrl-of input.discord_url discord_key (codes "Discord") (some discord_hosts)
            discord,
        IsImage-of input.image_source input image,
        dev_buy_of_nil input.dev_buy_eth dev_buy,
      )
