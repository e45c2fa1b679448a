-- ===== src/CreateForm/Validate.antt =====
-- `validateCreateToken`, `validateOptionalURL`, `isHTTPSImageURL` and `canCreateToken` of
-- apps/web/src/lib/transactions.ts.
pub mod Valid
use zonk_fun.Base.{
  ℕ, ◌+◌, ◌*◌, Bool, true, false, not, ◌&&◌, ◌||◌, List, [], ◌∷◌, ◌++◌, Option, none, some, Text,
  codes, text_eq, to_lower, trim, length, any, Thrown, Result, ok, err, ltb, leb, ◌==◌,
  message_or_string, if◌then◌else◌,
}
use zonk_fun.Launch.{ImageFile, ImageSource, file, url, CreateTokenInput}
use zonk_fun.Inputs.{parse_dev_buy_amount, is_empty}

-- The parts of a URL that are read, and `new URL(text)`: none where it throws.
pub record Url : Type 0 where
  pub protocol : Text
  pub username : Text
  pub password : Text
  pub hostname : Text

pub record Urls : Type 0 where
  pub parse : Text → Option Url

-- The keys of the record of errors.
pub data Key : Type 0 where
  name_key symbol_key description_key website_key x_key telegram_key discord_key image_key
        image_file_key image_url_key dev_buy_key network_key :
      Key

-- `new TextEncoder().encode(text).length`: the bytes of UTF-8 of a text of code units. A lone
-- surrogate becomes a replacement character of three bytes.
abbrev is_high : ℕ → Bool
is_high c = leb 0xd800 c && leb c 0xdbff

abbrev is_low : ℕ → Bool
is_low c = leb 0xdc00 c && leb c 0xdfff

abbrev unit_bytes : ℕ → ℕ
unit_bytes c = if ltb c 0x80 then 1 else if ltb c 0x800 then 2 else 3

-- A low surrogate behind a high one adds the fourth byte of the pair.
unfoldable pub bytes_after : Bool → Text → ℕ
bytes_after high [] = 0
bytes_after high (c ∷ s) =
    (if high && is_low c then 1 else unit_bytes c) + bytes_after (is_high c) s

unfoldable pub encoded_length : Text → ℕ
unfolding bytes_after
encoded_length s = bytes_after false s

abbrev pub max_image_bytes : ℕ
max_image_bytes = 5 * 1024 * 1024

abbrev pub accepted_image_types : List Text
accepted_image_types =
    codes "image/png" ∷ codes "image/jpeg" ∷ codes "image/webp" ∷ codes "image/gif" ∷ []

abbrev pub x_hosts : List Text
x_hosts = codes "x.com" ∷ codes "twitter.com" ∷ []

abbrev pub telegram_hosts : List Text
telegram_hosts = codes "t.me" ∷ codes "telegram.me" ∷ []

abbrev pub discord_hosts : List Text
discord_hosts = codes "discord.gg" ∷ codes "discord.com" ∷ []

-- `s.endsWith(p)`.
unfoldable pub ends_with : Text → Text → Bool
ends_with p [] = is_empty p
ends_with p (c ∷ s) = text_eq p (c ∷ s) || ends_with p s

-- `parsed.hostname.toLowerCase() === host || ….endsWith(`.${host}`)`.
unfoldable pub is_host : Text → Text → Bool
unfolding ends_with
is_host hostname host =
    text_eq (to_lower hostname) host || ends_with (codes "." ++ host) (to_lower hostname)

abbrev pub is_https : Url → Bool
is_https u = text_eq u.protocol (codes "https:")

abbrev pub is_http : Url → Bool
is_http u = text_eq u.protocol (codes "http:") || is_https u

-- No credentials, a host, and a text that is not too long.
abbrev pub is_plain : Url → Text → Bool
is_plain u t =
    is_empty u.username && is_empty u.password && not (is_empty u.hostname) && leb (length t) 2048

-- Whether the hosts that are allowed, if they are restricted, hold the host of the URL.
unfoldable pub is_allowed : Option (List Text) → Url → Bool
unfolding is_host
is_allowed none u = true
is_allowed (some hosts) u = any (is_host u.hostname) hosts

-- The errors, by their key; the last one set counts.
abbrev pub Errors : Type 0
Errors = List (Key × Text)

abbrev pub error_if : Bool → Key → Text → Errors
error_if true key message = (key, message) ∷ []
error_if false key message = []

unfoldable pub validate_file : Option ImageFile → Errors
validate_file none = (image_key, codes "Select a token image.") ∷ []
validate_file (some f) =
    if not (any (text_eq f.mime) accepted_image_types)
    then (image_key, codes "Use PNG, JPEG, WebP, or GIF.") ∷ []
    else error_if (ltb max_image_bytes f.size) image_key (codes "Image must be at most 5 MB.")

abbrev dev_buy_error : Result ℕ → Errors
dev_buy_error (ok n) = []
dev_buy_error (err e) = (dev_buy_key, message_or_string e) ∷ []

unfoldable pub validate_dev_buy : Text → Errors
validate_dev_buy value =
    if is_empty (trim value) then [] else dev_buy_error (parse_dev_buy_amount value)

-- The two tests on a parsed URL; a text that is none fails them.
unfoldable pub is_https_found : Text → Option Url → Bool
is_https_found value none = false
is_https_found value (some u) = is_https u && is_plain u value

unfoldable pub is_good_found : Option (List Text) → Text → Option Url → Bool
unfolding is_allowed
is_good_found hosts t none = false
is_good_found hosts t (some u) = is_http u && (is_plain u t && is_allowed hosts u)

module _ (urls : Urls) where
  unfoldable pub is_https_image_url : Text → Bool
  unfolding is_https_found
  is_https_image_url value = is_https_found value (urls.parse value)

  -- The two tests of `validateOptionalURL`.
  unfoldable pub is_good_url : Option (List Text) → Text → Bool
  unfolding is_good_found
  is_good_url hosts t = is_good_found hosts t (urls.parse t)

  abbrev url_message : Text → Option (List Text) → Text
  url_message label none = label ++ codes " must be a valid http or https URL."
  url_message label (some hosts) = label ++ codes " must be a valid matching http or https URL."

  -- `validateOptionalURL`, with the label that it takes from the field.
  unfoldable pub validate_optional_url : Text → Key → Text → Option (List Text) → Errors
  unfolding is_good_url
  validate_optional_url value key label hosts =
      let t = trim value in
      if is_empty t then [] else error_if (not (is_good_url hosts t)) key (url_message label hosts)

  unfoldable pub validate_image_url : Text → Errors
  unfolding is_https_image_url
  validate_image_url t =
      if is_empty t
      then (image_key, codes "Enter an image URL.") ∷ []
      else error_if (not (is_https_image_url t)) image_key (codes "Image URL must use HTTPS.")

  unfoldable pub validate_image : ImageSource → CreateTokenInput → Errors
  unfolding validate_file validate_image_url
  validate_image file input = validate_file input.image_file
  validate_image url input = validate_image_url (trim input.image_url)

  unfoldable pub validate_create_token : CreateTokenInput → Errors
  unfolding encoded_length validate_optional_url validate_image validate_dev_buy
  validate_create_token input =
      let name = trim input.name in
      let symbol = trim input.symbol in
      error_if (is_empty name || ltb 64 (encoded_length name)) name_key
        (codes "Name must be between 1 and 64 bytes.")
      ++ (error_if (is_empty symbol || ltb 16 (encoded_length symbol)) symbol_key
            (codes "Symbol must be between 1 and 16 bytes.")
          ++ (error_if (ltb 1000 (encoded_length (trim input.description))) description_key
                (codes "About must be at most 1000 bytes.")
              ++ (validate_optional_url input.website_url website_key (codes "Website") none
                  ++ (validate_optional_url input.x_url x_key (codes "X/Twitter") (some x_hosts)
                      ++ (validate_optional_url input.telegram_url telegram_key (codes "Telegram")
                            (some telegram_hosts)
                          ++ (validate_optional_url input.discord_url discord_key (codes "Discord")
                                (some discord_hosts)
                              ++ (validate_image input.image_source input
                                  ++ validate_dev_buy input.dev_buy_eth)))))))

-- `canCreateToken`, on the selected chain 8453.
unfoldable pub can_create_token : Option ℕ → Bool → Bool → Bool
can_create_token none authenticated pending = false
can_create_token (some chain) authenticated pending =
    (chain == 8453) && authenticated && not pending
