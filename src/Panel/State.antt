-- ===== src/Panel/State.antt =====
-- The data of apps/web/src/components/token-trade-panel.tsx: statuses, quotes, the panel's state
-- and refs in one record, its props, and its pure helper functions.
use zonk_fun.Base.{
  ℕ, ◌+◌, ◌*◌, ◌-◌, ◌^◌, Bool, true, false, ◌||◌, List, [], ◌∷◌, ◌++◌, Option, none, some, Text,
  codes, to_lower, to_string, matches_ci, Thrown, error, value, message_or_string, leb,
  if◌then◌else◌,
}
use zonk_fun.Client.{Address, Hash, Side, buy, sell}
use zonk_fun.Curve.Resolve.{CurveTradeState}
use zonk_fun.Curve.Quote.{BudgetBuyQuote, ProtectedSellQuote}
use zonk_fun.Curve.Recovery.{TradeRecovery}
use zonk_fun.PendingTrade.Json.{JsonNumber}
use zonk_fun.PendingTrade.Store.{Storage}

pub data Status : Type 0 where
  idle preparing awaiting_approval approval_confirming approval_confirmed preparing_sell
        awaiting_sell_signature awaiting_wallet submitted confirming confirmation_unknown confirmed
        reverted replaced rejected expired failed :
      Status

pub data Quote : Type 0 where
  buying : BudgetBuyQuote → Quote
  selling : ProtectedSellQuote → Quote

-- `quote.side`.
abbrev pub side_of : Quote → Side
side_of (buying q) = buy
side_of (selling q) = sell

abbrev pub deadline_of : Quote → ℕ
deadline_of (buying q) = q.deadline
deadline_of (selling q) = q.deadline

pub record QuoteRecord : Type 0 where
  pub quote : Quote
  pub created_at : ℕ
  pub identity : Text
  pub state_fingerprint : Text
  pub chain_id : Option ℕ

pub record Props : Type 0 where
  pub authenticated : Bool
  pub chain_id : Option ℕ
  pub wallet_address : Option Address
  pub token_address : Address
  pub symbol : Text
  pub state : Option CurveTradeState

-- The React states and the refs, with the browser's storage, which all tabs share.
pub record Panel : Type 0 where
  pub side : Side
  pub quote_record : Option QuoteRecord
  pub quote_stale : Bool
  pub quote_loading : Bool
  pub status : Status
  pub hash : Option Hash
  pub error : Text
  pub recovery : Option TradeRecovery
  pub operation : Bool
  pub wallet_interaction : Bool
  pub approval_hash : Option Hash
  pub submitted_hash : Option Hash
  pub submitted_at : Option JsonNumber
  pub generation : ℕ
  pub quote_request : ℕ
  pub quote_debounce : ℕ
  pub storage : Storage

-- `latestRef.current`.
pub record Latest : Type 0 where
  pub identity : Text
  pub chain_id : Option ℕ
  pub state_fingerprint : Text

abbrev pub quote_ttl_ms : ℕ
quote_ttl_ms = 60000

abbrev pub selected_zonk_chain_id : ℕ
selected_zonk_chain_id = 8453

abbrev pub selected_zonk_chain_name : Text
selected_zonk_chain_name = codes "Base"

-- `blockingStatuses.includes(status)`.
unfoldable pub is_blocking : Status → Bool
is_blocking idle = false
is_blocking confirmed = false
is_blocking reverted = false
is_blocking replaced = false
is_blocking rejected = false
is_blocking expired = false
is_blocking failed = false
is_blocking _ = true

-- `tradeIdentity`.
unfoldable pub trade_identity : Address → Option Address → Text
trade_identity token none = codes "no-wallet:" ++ to_lower token
trade_identity token (some wallet) = to_lower wallet ++ (codes ":" ++ to_lower token)

-- `[…].join(":")`.
abbrev join : List ℕ → Text
join [] = []
join (n ∷ []) = to_string n
join (n ∷ m ∷ l) = to_string n ++ (codes ":" ++ join (m ∷ l))

abbrev relevant_balance : Side → CurveTradeState → ℕ
relevant_balance buy s = s.native_balance
relevant_balance sell s = s.token_balance

-- `tradeStateFingerprint`.
unfoldable pub trade_state_fingerprint : Option CurveTradeState → Side → Text
trade_state_fingerprint none side = codes "unavailable"
trade_state_fingerprint (some s) side = join (
    s.curve_supply
    ∷ s.sold_supply
    ∷ s.reserve_balance
    ∷ s.graduation_threshold
    ∷ s.lifecycle
    ∷ relevant_balance side s
    ∷ s.decimals
    ∷ [])

abbrev min : ℕ → ℕ → ℕ
min a b = if leb a b then a else b

-- `quoteExpiresAt`, in milliseconds. `Number(deadline)` is exact where the product is safe.
unfoldable pub quote_expires_at : QuoteRecord → ℕ
quote_expires_at r =
    let deadline = deadline_of r.quote * 1000 in
    min (r.created_at + quote_ttl_ms)
      (if leb deadline (2 ^ 53 - 1) then deadline else r.created_at + quote_ttl_ms)

-- `/reject|denied|cancelled/i.test(message)`.
unfoldable pub is_rejection : Text → Bool
is_rejection m =
    matches_ci (codes "reject") m
    || matches_ci (codes "denied") m
    || matches_ci (codes "cancelled") m

-- `safeMessage`.
unfoldable pub safe_message : Thrown → Text
safe_message (error name m) =
    if matches_ci (codes "private key") m
      || matches_ci (codes "seed phrase") m
      || matches_ci (codes "authorization") m
    then codes "The wallet operation failed safely."
    else if is_rejection m
    then codes "The wallet request was rejected. No transaction hash was submitted."
    else m
safe_message (value shown) = codes "The trade could not be completed."

-- `isDefinitivePreSubmissionFailure`.
unfoldable pub is_definitive_pre_submission_failure : Thrown → Bool
is_definitive_pre_submission_failure reason =
    let m = message_or_string reason in
    is_rejection m
    || matches_ci (codes "revert") m
    || matches_ci (codes "simulation") m
    || matches_ci (codes "insufficient") m
    || matches_ci (codes "quote expired") m

-- `sideAllowed`: buying on an active curve, selling while graduation is pending too.
unfoldable pub side_allowed : Props → Side → Bool
side_allowed props side = elim props.state [ none ↦ false | some s ↦ allowed side s.lifecycle ]
  where
    allowed : Side → ℕ → Bool
    allowed buy lifecycle = leb lifecycle 0
    allowed sell lifecycle = leb lifecycle 1
