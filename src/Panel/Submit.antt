-- ===== src/Panel/Submit.antt =====
-- `submit` of apps/web/src/components/token-trade-panel.tsx up to its `await`, its `catch` and
-- `finally`, `recover` in the same parts, `abandon`, `invalidateQuote`, `changeSide`, and the effect
-- that runs when the wallet or the token changes.
use zonk_fun.Base.{
  ℕ, ◌+◌, Bool, true, false, not, ◌&&◌, ◌||◌, ◌++◌, Option, none, some, is_some, Text, codes,
  text_eq, Thrown, message_or_string, ltb, leb, if◌then◌else◌,
}
use zonk_fun.Client.{Address, Hash, Side, buy}
use zonk_fun.Curve.Resolve.{CurveTradeState}
use zonk_fun.Curve.Recovery.{TradeRecovery}
use zonk_fun.PendingTrade.Json.{JsonNumber}
use zonk_fun.PendingTrade.Guards.{PendingTrade}
use zonk_fun.PendingTrade.Guards
use zonk_fun.PendingTrade.Store.{read_pending_trade, clear_pending_trade, Storage}
use zonk_fun.Panel.State.{
  Status, Quote, buying, selling, side_of, QuoteRecord, Props, Panel, Latest,
  selected_zonk_chain_id, selected_zonk_chain_name, is_blocking, trade_identity,
  trade_state_fingerprint, quote_expires_at, is_rejection, safe_message,
  is_definitive_pre_submission_failure, side_allowed,
}
use zonk_fun.Panel.State
use zonk_fun.Panel.Handlers.{
  Operation, persist, persist_hashless_unknown, same_chain, is_current, shown,
}

-- The balance tests on the quoted side, and the message of the one that fails.
unfoldable pub lacking : Text → Quote → Option CurveTradeState → Option Text
lacking symbol quote none = none
lacking symbol (buying q) (some s) =
    if ltb s.native_balance q.max_reserve_in
    then some (codes "Insufficient ETH balance for the maximum input.")
    else none
lacking symbol (selling q) (some s) =
    if ltb s.token_balance q.token_amount
    then some (codes "Insufficient " ++ (symbol ++ codes " balance."))
    else none

-- The quote was made for another wallet, token, state or chain, or its side is closed.
unfoldable pub is_outdated : Props → Panel → QuoteRecord → Bool
is_outdated props p r =
    not (text_eq r.identity (trade_identity props.token_address props.wallet_address))
    || not (text_eq r.state_fingerprint (trade_state_fingerprint props.state p.side))
    || not (same_chain r.chain_id props.chain_id)
    || not (side_allowed props p.side)

-- All guards passed: the operation begins and a record without a hash is stored.
unfoldable pub begin : Props → Address → QuoteRecord → ℕ → Panel → Panel × Option Operation
begin props wallet r now p = (
  persist_hashless_unknown (side_of r.quote) wallet props.token_address now (record p {
    operation = true;
    wallet_interaction = false;
    approval_hash = none;
    status = State.preparing;
  }),
  some (record {
    side = side_of r.quote;
    wallet = wallet;
    token = props.token_address;
    identity = trade_identity props.token_address props.wallet_address;
    generation = p.generation;
  }),
)

-- The balance guard.
unfoldable pub check_balance :
    Option Text → Props → Address → QuoteRecord → ℕ → Panel → Panel × Option Operation
unfolding begin
check_balance (some message) props wallet r now p = (shown State.failed message p, none)
check_balance none props wallet r now p = begin props wallet r now p

-- The guards on the quote.
unfoldable pub check_quote : Props → Address → QuoteRecord → ℕ → Panel → Panel × Option Operation
unfolding check_balance lacking is_outdated
check_quote props wallet r now p =
    if p.quote_stale || leb (quote_expires_at r) now
    then (
      shown State.expired (codes "This quote expired. Request a fresh quote before submitting.")
          (record p { quote_record = none; quote_stale = true }),
      none,
    )
    else if is_outdated props p r
    then (
      shown State.failed
          (codes "Wallet, token, network, or curve state changed. Request a fresh quote.")
          (record p { quote_record = none }),
      none,
    )
    else check_balance (lacking props.symbol r.quote props.state) props wallet r now p

-- The guard on a stored record. A read may remove an entry that is not one.
unfoldable pub check_pending :
    Option PendingTrade × Storage
    → Props
    → Address
    → QuoteRecord
    → ℕ
    → Panel
    → Panel × Option Operation
unfolding check_quote
check_pending (some t, storage) props wallet r now p = (
  record p {
    storage = storage;
    side = t.side;
    hash = t.hash;
    submitted_hash = t.hash;
    submitted_at = some t.submitted_at;
    status = State.confirmation_unknown;
    error =
        codes
          "Another tab or prior session has an unresolved transaction for this wallet and token. New trades remain blocked.";
  },
  none,
)
check_pending (none, storage) props wallet r now p =
    check_quote props wallet r now (record p { storage = storage })

-- The guards on the wallet.
unfoldable pub check_wallet :
    Option Address → Props → QuoteRecord → ℕ → Panel → Panel × Option Operation
unfolding check_pending
check_wallet none props r now p =
    (shown State.failed (codes "Connect Wallet before trading.") p, none)
check_wallet (some wallet) props r now p =
    if not props.authenticated
    then (shown State.failed (codes "Connect Wallet before trading.") p, none)
    else if not (same_chain props.chain_id (some selected_zonk_chain_id))
    then (
      shown State.failed
          (codes "Switch the connected wallet to "
            ++ (selected_zonk_chain_name ++ codes " before trading."))
          p,
      none,
    )
    else check_pending (read_pending_trade props.token_address wallet p.storage) props wallet r now
        p

unfoldable pub start : Option QuoteRecord → Props → ℕ → Panel → Panel × Option Operation
unfolding check_wallet
start none props now p = (p, none)
start (some r) props now p =
    check_wallet props.wallet_address props r now (record p { error = codes "" })

-- `submit` up to `await props.execute(…)`, which the operation is for.
unfoldable pub submit : Props → ℕ → Panel → Panel × Option Operation
unfolding start
submit props now p =
    if p.operation || is_blocking p.status then (p, none) else start p.quote_record props now p

-- The branch of the `catch` for a wallet that was asked and may have sent a transaction, by the
-- hash that is known.
unfoldable pub unresolved :
    Option Hash → Option Hash → Bool → Thrown → Operation → ℕ → Panel → Panel
unresolved (some h) approval asked reason op now p =
    record (persist op.side h Guards.confirmation_unknown op.wallet op.token none now p) {
      hash = some h;
      status = State.confirmation_unknown;
      error =
          codes
            "Confirmation is uncertain. Check again or resume confirmation before making another trade.";
    }
unresolved none (some h) asked reason op now p =
    record (persist_hashless_unknown op.side op.wallet op.token now p) {
      hash = some h;
      status = State.confirmation_unknown;
      error =
          codes
            "The token approval receipt is uncertain. New trades remain blocked; inspect the approval transaction before explicitly abandoning recovery.";
    }
unresolved none none asked reason op now p =
    record (persist_hashless_unknown op.side op.wallet op.token now p) {
      status = State.confirmation_unknown;
      error =
          codes
            "The wallet result is uncertain and no transaction hash was returned. New trades remain blocked; inspect your wallet activity before explicitly abandoning recovery.";
    }

-- The last branch of the `catch`: no transaction was sent.
unfoldable pub not_sent : Thrown → Operation → Panel → Panel
not_sent reason op p = record p {
  storage = clear_pending_trade op.token op.wallet p.storage;
  submitted_at = none;
  status = if is_rejection (message_or_string reason) then State.rejected else State.failed;
  error = safe_message reason;
}

-- Whether the `catch` treats the outcome as unknown.
unfoldable pub is_uncertain : Thrown → Panel → Bool
is_uncertain reason p =
    is_some p.submitted_hash
    || ((is_some p.approval_hash || p.wallet_interaction)
        && not (is_definitive_pre_submission_failure reason))

-- The `catch` and the `finally` of `submit`.
unfoldable pub submit_failed : Thrown → Operation → Latest → ℕ → Panel → Panel
unfolding unresolved not_sent
submit_failed reason op latest now p =
    if not (is_current op latest p)
    then p
    else record (if is_uncertain reason p
        then unresolved p.submitted_hash p.approval_hash p.wallet_interaction reason op now p
        else not_sent reason op p) { operation = false }

-- The `finally` of `submit` and `recover`.
unfoldable pub finish : Operation → Latest → Panel → Panel
finish op latest p = if is_current op latest p then record p { operation = false } else p

-- `abandon`, once the question is answered with yes.
unfoldable pub abandon : Props → Panel → Panel
abandon props p = elim props.wallet_address [ none ↦ p | some wallet ↦ dropped wallet ]
  where
    dropped : Address → Panel
    dropped wallet = record p {
      storage = clear_pending_trade props.token_address wallet p.storage;
      operation = false;
      wallet_interaction = false;
      approval_hash = none;
      submitted_hash = none;
      submitted_at = none;
      recovery = none;
      status = State.idle;
      hash = none;
      error = codes "";
      quote_record = none;
    }

unfoldable pub invalidate_quote : Panel → Panel
invalidate_quote p = record p {
  quote_request = p.quote_request + 1;
  quote_debounce = p.quote_debounce + 1;
  quote_record = none;
  quote_stale = false;
  quote_loading = false;
  error = codes "";
  status = State.idle;
}

unfoldable pub change_side : Side → Panel → Panel
change_side side p =
    if is_blocking p.status
    then p
    else record (invalidate_quote (record p { side = side })) { hash = none }

-- The effect on `identity`, with the record that is stored for the new one.
unfoldable pub identity_read : Option PendingTrade × Storage → Panel → Panel
identity_read (found, storage) p = record p {
  storage = storage;
  generation = p.generation + 1;
  quote_request = p.quote_request + 1;
  quote_debounce = p.quote_debounce + 1;
  operation = false;
  wallet_interaction = false;
  approval_hash = none;
  recovery = found_recovery found;
  submitted_hash = found_hash found;
  submitted_at = found_time found;
  side = found_side found;
  quote_record = none;
  quote_stale = false;
  quote_loading = false;
  status = if is_some found then State.confirmation_unknown else State.idle;
  hash = found_hash found;
  error =
      if is_some found
      then codes
          "A submitted transaction still needs a definitive receipt before another trade is allowed."
      else codes "";
}
  where
    found_recovery : Option PendingTrade → Option TradeRecovery
    found_recovery none = none
    found_recovery (some t) = t.recovery

    found_hash : Option PendingTrade → Option Hash
    found_hash none = none
    found_hash (some t) = t.hash

    found_time : Option PendingTrade → Option JsonNumber
    found_time none = none
    found_time (some t) = some t.submitted_at

    found_side : Option PendingTrade → Side
    found_side none = buy
    found_side (some t) = t.side

unfoldable pub identity_changed : Props → Panel → Panel
unfolding identity_read
identity_changed props p = elim props.wallet_address [
  | none ↦ identity_read (none, p.storage) p
  | some wallet ↦ identity_read (read_pending_trade props.token_address wallet p.storage) p
]
