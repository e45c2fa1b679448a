-- ===== src/Panel/Quoting.antt =====
-- The quotes of TokenTradePanel: the amount that is typed, `getQuote` in the parts that its `await`
-- divides it into, the effect that calls it half a second after the last change, and the effect that
-- lets a quote grow old. `Units` is what viem parses amounts with.
pub mod Steps
pub mod Quiet
pub mod Fresh
pub mod Order
use zonk_fun.Base.{
  ℕ, ◌+◌, ◌-◌, Bool, true, false, not, ◌&&◌, ◌||◌, ◌++◌, Option, none, some, is_some, Text, codes,
  text_eq, trim, is_digits, includes, before_dot, after_dot, Thrown, new_error, Result, ok, err,
  ◌>>=?◌, is_ok, leb, ◌==◌, if◌then◌else◌,
}
use zonk_fun.Client.{Side, buy, sell}
use zonk_fun.Curve.Resolve.{CurveTradeState}
use zonk_fun.PendingTrade.Guards.{PendingTrade}
use zonk_fun.PendingTrade.Store.{Storage, read_pending_trade}
use zonk_fun.Inputs.{parse_slippage_bps}
use zonk_fun.Panel.State.{
  Status, Quote, QuoteRecord, Props, Panel, Latest, selected_zonk_chain_id,
  selected_zonk_chain_name, is_blocking, trade_identity, trade_state_fingerprint, quote_expires_at,
  safe_message, side_allowed,
}
use zonk_fun.Panel.State
use zonk_fun.Panel.Handlers.{same_chain}
use zonk_fun.Panel.Submit.{identity_read, invalidate_quote, change_side}

pub record Units : Type 0 where
  pub parse_ether : Text → Result ℕ
  pub parse_units : Text → ℕ → Result ℕ

-- The two input fields.
pub record Typed : Type 0 where
  pub amount : Text
  pub slippage : Text

-- `/^\d+(\.\d+)?$/`.
unfoldable pub is_amount_text : Text → Bool
is_amount_text t =
    is_digits (before_dot t) && (not (includes (codes ".") t) || is_digits (after_dot t))

module _ (units : Units) where
  abbrev parse_by : Text → ℕ → Result ℕ
  parse_by t decimals = if decimals == 18 then units.parse_ether t else units.parse_units t decimals

  unfoldable pub parse_positive_amount : Text → ℕ → Text → Result ℕ
  unfolding is_amount_text
  parse_positive_amount value decimals symbol =
      let t = trim value in
      if not (is_amount_text t)
      then err (new_error (codes "Enter a valid " ++ (symbol ++ codes " amount.")))
      else parse_by t decimals >>=? λ parsed.
          if parsed == 0
          then err (new_error (codes "Enter a " ++ (symbol ++ codes " amount greater than zero.")))
          else ok parsed

  -- `quoteInputIsValid`.
  unfoldable pub quote_input_is_valid : Text → ℕ → Text → Text → Bool
  unfolding parse_positive_amount
  quote_input_is_valid value decimals symbol slippage =
      is_ok (parse_positive_amount value decimals symbol) && is_ok (parse_slippage_bps slippage)

-- What `getQuote` binds before it awaits the quote, with the arguments that it calls for it.
pub record Request : Type 0 where
  pub id : ℕ
  pub side : Side
  pub typed : Typed
  pub asked : ℕ
  pub slippage_bps : ℕ
  pub identity : Text
  pub state_fingerprint : Text
  pub chain_id : Option ℕ

abbrev pub decimals_of : Option CurveTradeState → ℕ
decimals_of none = 18
decimals_of (some s) = s.decimals

abbrev pub quoted_decimals : Side → Props → ℕ
quoted_decimals buy props = 18
quoted_decimals sell props = decimals_of props.state

abbrev pub quoted_symbol : Side → Props → Text
quoted_symbol buy props = codes "ETH"
quoted_symbol sell props = props.symbol

abbrev is_pending_graduation : Side → Option CurveTradeState → Bool
is_pending_graduation buy (some s) = s.lifecycle == 1
is_pending_graduation _ _ = false

abbrev not_allowed : Side → Props → Text
not_allowed side props =
    if is_pending_graduation side props.state
    then codes "New buys are paused while graduation is pending. Selling remains available."
    else codes "This trade is unavailable for the current curve lifecycle."

-- The `catch` of `getQuote` with its `finally`.
unfoldable pub quote_failed : ℕ → Thrown → Panel → Panel
quote_failed id reason p =
    if p.quote_request == id
    then record p { status = State.failed; error = safe_message reason; quote_loading = false }
    else p

-- The `try` of `getQuote` behind its `await`, with the `finally`.
unfoldable pub quote_landed : Request → Quote → Latest → ℕ → Panel → Panel
quote_landed r next latest now p =
    if not (p.quote_request == r.id)
    then p
    else if not (text_eq latest.identity r.identity)
        || not (text_eq latest.state_fingerprint r.state_fingerprint)
        || not (same_chain latest.chain_id r.chain_id)
        || not (same_chain r.chain_id (some selected_zonk_chain_id))
    then record p { quote_loading = false }
    else record p {
      quote_record = some (record {
        quote = next;
        created_at = now;
        identity = r.identity;
        state_fingerprint = r.state_fingerprint;
        chain_id = r.chain_id;
      });
      quote_loading = false;
    }

-- `getQuote` up to its `await`: the request that it then waits for, if it comes so far.
unfoldable pub ask_for : ℕ → Result ℕ → Props → Typed → Panel → Panel × Option Request
unfolding quote_failed
ask_for bps (err reason) props typed p = (quote_failed p.quote_request reason p, none)
ask_for bps (ok asked) props typed p = (
  p,
  some (record {
    id = p.quote_request;
    side = p.side;
    typed = typed;
    asked = asked;
    slippage_bps = bps;
    identity = trade_identity props.token_address props.wallet_address;
    state_fingerprint = trade_state_fingerprint props.state p.side;
    chain_id = props.chain_id;
  }),
)

unfoldable pub quote_with : Units → Result ℕ → Props → Typed → Panel → Panel × Option Request
unfolding ask_for
quote_with units (err reason) props typed p = (record p { error = safe_message reason }, none)
quote_with units (ok bps) props typed p =
    if not (side_allowed props p.side)
    then (record p { error = not_allowed p.side props }, none)
    else ask_for bps
        (parse_positive_amount units typed.amount (quoted_decimals p.side props)
          (quoted_symbol p.side props))
        props typed (record p { status = State.idle; quote_loading = true })

unfoldable pub get_quote : Units → Props → Typed → Panel → Panel × Option Request
unfolding quote_with
get_quote units props typed p =
    quote_with units (parse_slippage_bps typed.slippage) props typed (record p {
      quote_request = p.quote_request + 1;
      error = codes "";
      quote_record = none;
      quote_stale = false;
    })

-- `unavailable`, `controlsUnavailable` and `guard`. The state of the curve is being read, or it
-- could not be read, as `pending` and `failure` say.
unfoldable pub is_unavailable : Props → Side → Bool → Option Text → Bool
is_unavailable props side pending failure =
    is_some props.wallet_address
    && not pending
    && not (is_some failure)
    && (not (is_some props.state) || not (side_allowed props side))

unfoldable pub controls_unavailable : Props → Side → Bool → Option Text → Status → Bool
unfolding is_unavailable
controls_unavailable props side pending failure status =
    is_unavailable props side pending failure || pending || is_some failure || is_blocking status

unfoldable pub guard : Props → Option Text
guard props =
    if not props.authenticated || not (is_some props.wallet_address)
    then some (codes "Connect Wallet to trade.")
    else if not (same_chain props.chain_id (some selected_zonk_chain_id))
    then some (codes "Wrong network. Use " ++ (selected_zonk_chain_name ++ codes " (8453)."))
    else none

abbrev is_idle : Status → Bool
is_idle State.idle = true
is_idle _ = false

-- The test of the effect that follows.
unfoldable pub cannot_quote : Units → Props → Bool → Option Text → Typed → Panel → Bool
unfolding controls_unavailable guard quote_input_is_valid
cannot_quote units props pending failure typed p =
    not (is_idle p.status)
    || controls_unavailable props p.side pending failure p.status
    || is_some (guard props)
    || not (side_allowed props p.side)
    || not (
        quote_input_is_valid units typed.amount (quoted_decimals p.side props)
          (quoted_symbol p.side props) typed.slippage)

-- The effect that is run when an input changes: the timer that it starts, by its number. The call
-- of `getQuote` follows when the timer fires and no other was started since.
unfoldable pub schedule_quote :
    Units → Props → Bool → Option Text → Typed → Panel → Panel × Option ℕ
unfolding cannot_quote
schedule_quote units props pending failure typed p =
    let id = p.quote_debounce + 1 in
    let next = record p { quote_debounce = id } in
    if cannot_quote units props pending failure typed p then (next, none) else (next, some id)

unfoldable pub timer_fired : ℕ → Units → Props → Typed → Panel → Panel × Option Request
unfolding get_quote
timer_fired id units props typed p =
    if p.quote_debounce == id then get_quote units props typed p else (p, none)

-- The effect on `quoteRecord`: after how long the quote is stale, and what that does.
unfoldable pub stale_after : QuoteRecord → ℕ → ℕ
stale_after r now = quote_expires_at r - now

unfoldable pub grow_stale : Panel → Panel
grow_stale p = record p { quote_stale = true }

-- `quote`: the quote that is shown and may be submitted.
unfoldable pub shown_quote : Props → Panel → Option Quote
shown_quote props p = elim p.quote_record [
  | none ↦ none
  | some r ↦
      if not (text_eq r.state_fingerprint (trade_state_fingerprint props.state p.side))
        || p.quote_stale
      then none
      else some r.quote
]

-- `changeAmount` and `changeSlippage`.
unfoldable pub change_amount : Text → Typed × Panel → Typed × Panel
change_amount value (typed, p) = (record typed { amount = value }, invalidate_quote p)

unfoldable pub change_slippage : Text → Typed × Panel → Typed × Panel
change_slippage value (typed, p) = (record typed { slippage = value }, invalidate_quote p)

-- The first render: what the state and the refs begin with, before the effects.
abbrev pub opened : Storage → Panel
opened storage = record {
  side = buy;
  quote_record = none;
  quote_stale = false;
  quote_loading = false;
  status = State.idle;
  hash = none;
  error = codes "";
  recovery = none;
  operation = false;
  wallet_interaction = false;
  approval_hash = none;
  submitted_hash = none;
  submitted_at = none;
  generation = 0;
  quote_request = 0;
  quote_debounce = 0;
  storage = storage;
}

abbrev pub with_found : Option PendingTrade × Storage → Panel
with_found (none, storage) = opened storage
with_found (some t, storage) = record (opened storage) {
  side = t.side;
  status = State.confirmation_unknown;
  hash = t.hash;
  recovery = t.recovery;
  error =
      codes
        "A submitted transaction still needs a definitive receipt before another trade is allowed.";
  submitted_hash = t.hash;
  submitted_at = some t.submitted_at;
}

unfoldable pub initial_panel : Props → Storage → Panel
initial_panel props storage = elim props.wallet_address [
  | none ↦ opened storage
  | some wallet ↦ with_found (read_pending_trade props.token_address wallet storage)
]
