-- ===== src/PendingTrade/Guards.antt =====
-- `isPendingTrade` and `isTradeRecovery`. A guard that holds narrows the type of its argument; here
-- it returns the value at that type. `encode` is what `JSON.stringify` writes.
pub mod RoundTrip
use zonk_fun.Base.{
  ℕ, Bool, true, false, ◌||◌, List, [], ◌∷◌, ◌++◌, Option, none, some, Text, codes, text_eq,
  is_hex_text, is_hex_of_length, is_digits, pos, if◌then◌else◌,
}
use zonk_fun.Client.{Address, Hash, Side, buy, sell}
use zonk_fun.Curve.Recovery.{TradeRecovery}
use zonk_fun.PendingTrade.Json.{
  JsonNumber, whole, Json, null, boolean, number, text, array, object, Fields, nil, field, property,
  is_finite_positive, safe_natural, is_one,
}

pub data PendingStatus : Type 0 where
  submitted confirming confirmation_unknown : PendingStatus

pub record PendingTrade : Type 0 where
  pub wallet_address : Address
  pub token_address : Address
  pub side : Side
  pub hash : Option Hash
  pub status : PendingStatus
  pub submitted_at : JsonNumber
  pub recovery : Option TradeRecovery

infixl 5 ◌>>=◌
abbrev ◌>>=◌ : {A B : Type 0} → Option A → (A → Option B) → Option B
none >>= f = none
some a >>= f = f a

abbrev check : Bool → Option (Unit {0})
check true = some tt
check false = none

-- `typeof value === "string" && pattern.test(value)`.
abbrev matching : (Text → Bool) → Option Json → Option Text
matching pattern (some (text s)) = if pattern s then some s else none
matching pattern _ = none

-- `value === undefined || (typeof value === "string" && pattern.test(value))`.
abbrev optional_matching : (Text → Bool) → Option Json → Option (Option Text)
optional_matching pattern none = some none
optional_matching pattern (some v) = matching pattern (some v) >>= λ s. some (some s)

abbrev natural_number : Option Json → Option ℕ
natural_number (some (number n)) = safe_natural n
natural_number _ = none

abbrev positive_number : Option Json → Option JsonNumber
positive_number (some (number n)) = if is_finite_positive n then some n else none
positive_number _ = none

abbrev side_of_text : Text → Option Side
side_of_text s =
    if text_eq s (codes "buy")
    then some buy
    else if text_eq s (codes "sell")
    then some sell
    else none

abbrev read_side : Option Json → Option Side
read_side (some (text s)) = side_of_text s
read_side _ = none

abbrev status_of_text : Text → Option PendingStatus
status_of_text s =
    if text_eq s (codes "submitted")
    then some submitted
    else if text_eq s (codes "confirming")
    then some confirming
    else if text_eq s (codes "confirmation_unknown")
    then some confirmation_unknown
    else none

abbrev read_status : Option Json → Option PendingStatus
read_status (some (text s)) = status_of_text s
read_status _ = none

read_recovery_fields : Fields → Option TradeRecovery
read_recovery_fields r = matching (is_hex_of_length 40) (property (codes "sender") r) >>= λ sender.
    natural_number (property (codes "nonce") r) >>= λ nonce.
    optional_matching (is_hex_of_length 40) (property (codes "to") r) >>= λ to.
    matching is_digits (property (codes "value") r) >>= λ sent.
    matching is_hex_text (property (codes "input") r) >>= λ input.
    matching is_digits (property (codes "nextScanBlock") r) >>= λ next. some (record {
      sender = sender;
      nonce = nonce;
      to = to;
      sent = sent;
      input = input;
      next_scan_block = next;
    })

-- An array is an object too; it has none of the fields.
unfoldable pub is_trade_recovery : Json → Option TradeRecovery
unfolding read_recovery_fields
is_trade_recovery (object fields) = read_recovery_fields fields
is_trade_recovery _ = none

optional_recovery : Option Json → Option (Option TradeRecovery)
unfolding is_trade_recovery
optional_recovery none = some none
optional_recovery (some v) = is_trade_recovery v >>= λ r. some (some r)

read_trade_fields : Fields → Option PendingTrade
unfolding optional_recovery
read_trade_fields t = check (is_one (property (codes "version") t)) >>= λ _.
    read_side (property (codes "side") t) >>= λ side.
    read_status (property (codes "status") t) >>= λ status.
    matching (is_hex_of_length 40) (property (codes "walletAddress") t) >>= λ wallet.
    matching (is_hex_of_length 40) (property (codes "tokenAddress") t) >>= λ token.
    optional_matching (is_hex_of_length 64) (property (codes "hash") t) >>= λ hash.
    positive_number (property (codes "submittedAt") t) >>= λ at.
    optional_recovery (property (codes "recovery") t) >>= λ recovery. some (record {
      wallet_address = wallet;
      token_address = token;
      side = side;
      hash = hash;
      status = status;
      submitted_at = at;
      recovery = recovery;
    })

unfoldable pub is_pending_trade : Json → Option PendingTrade
unfolding read_trade_fields
is_pending_trade (object fields) = read_trade_fields fields
is_pending_trade _ = none

abbrev side_text : Side → Text
side_text buy = codes "buy"
side_text sell = codes "sell"

abbrev status_text : PendingStatus → Text
status_text submitted = codes "submitted"
status_text confirming = codes "confirming"
status_text confirmation_unknown = codes "confirmation_unknown"

-- A field that `JSON.stringify` leaves out where the value is undefined.
abbrev optional_field : Text → Option Json → Fields → Fields
optional_field name none rest = rest
optional_field name (some v) rest = field name v rest

abbrev text_value : Option Text → Option Json
text_value none = none
text_value (some s) = some (text s)

unfoldable pub encode_recovery : TradeRecovery → Json
encode_recovery r = object (
    field (codes "sender") (text r.sender) (
      field (codes "nonce") (number (whole (pos r.nonce))) (
        optional_field (codes "to") (text_value r.to) (
          field (codes "value") (text r.sent) (
            field (codes "input") (text r.input)
              (field (codes "nextScanBlock") (text r.next_scan_block) nil))))))

abbrev recovery_value : Option TradeRecovery → Option Json
recovery_value none = none
recovery_value (some r) = some (encode_recovery r)

-- `JSON.stringify(trade)`, in the order in which the program writes the fields.
unfoldable pub encode : PendingTrade → Json
unfolding encode_recovery
encode t = object (
    field (codes "version") (number (whole (pos 1))) (
      field (codes "walletAddress") (text t.wallet_address) (
        field (codes "tokenAddress") (text t.token_address) (
          field (codes "side") (text (side_text t.side)) (
            optional_field (codes "hash") (text_value t.hash) (
              field (codes "status") (text (status_text t.status)) (
                field (codes "submittedAt") (number t.submitted_at)
                  (optional_field (codes "recovery") (recovery_value t.recovery) nil))))))))
