-- ===== src/Panel/Handlers.antt =====
-- The handlers of apps/web/src/components/token-trade-panel.tsx: `persist`, `persistHashlessUnknown`,
-- `applyResolution`, `submit` in the parts that an `await` divides it into, its `report` and
-- `assertSubmissionReady`, and `abandon`. `now` is `Date.now()` at the call.
use zonk_fun.Base.{
  ℕ, Bool, true, false, not, ◌&&◌, ◌||◌, ◌++◌, Option, none, some, is_some, get_or, Text, codes,
  text_eq, pos, new_error, Result, ok, err, leb, ◌==◌, if◌then◌else◌,
}
use zonk_fun.Client.{Address, Hash, Side, ReplacementReason, cancelled, replaced, repriced}
use zonk_fun.Curve.Recovery.{TradeRecovery}
use zonk_fun.Curve.Confirm.{TradeConfirmation}
use zonk_fun.Curve.Confirm
use zonk_fun.PendingTrade.Json.{whole}
use zonk_fun.PendingTrade.Guards.{PendingTrade, PendingStatus}
use zonk_fun.PendingTrade.Guards
use zonk_fun.PendingTrade.Store.{persist_pending_trade, clear_pending_trade}
use zonk_fun.Panel.State.{
  Status, Quote, buying, selling, side_of, QuoteRecord, Props, Panel, Latest,
  selected_zonk_chain_id, selected_zonk_chain_name, is_blocking, trade_identity,
  trade_state_fingerprint, quote_expires_at, is_rejection, safe_message,
  is_definitive_pre_submission_failure, side_allowed,
}
use zonk_fun.Panel.State

-- `a === b` on an optional number.
abbrev pub same_chain : Option ℕ → Option ℕ → Bool
same_chain none none = true
same_chain (some a) (some b) = a == b
same_chain _ _ = false

unfoldable pub persist :
    Side → Hash → PendingStatus → Address → Address → Option TradeRecovery → ℕ → Panel → Panel
persist side hash status wallet token recovery now p =
    let at = get_or p.submitted_at (whole (pos now)) in
    let kept : Option TradeRecovery = elim recovery [ none ↦ p.recovery | some r ↦ some r ] in
    record p {
      submitted_at = some at;
      storage =
          persist_pending_trade
            (record {
              wallet_address = wallet;
              token_address = token;
              side = side;
              hash = some hash;
              status = status;
              submitted_at = at;
              recovery = kept;
            })
            p.storage;
    }

unfoldable pub persist_hashless_unknown : Side → Address → Address → ℕ → Panel → Panel
persist_hashless_unknown side wallet token now p =
    let at = get_or p.submitted_at (whole (pos now)) in
    record p {
      submitted_at = some at;
      storage =
          persist_pending_trade
            (record {
              wallet_address = wallet;
              token_address = token;
              side = side;
              hash = none;
              status = Guards.confirmation_unknown;
              submitted_at = at;
              recovery = none;
            })
            p.storage;
    }

-- What `submit` and `recover` bind before their first `await`; `submit` also binds the quote.
pub record Operation : Type 0 where
  pub side : Side
  pub wallet : Address
  pub token : Address
  pub identity : Text
  pub generation : ℕ

-- `setStatus` and `setError` together.
abbrev pub shown : Status → Text → Panel → Panel
shown status message p = record p { status = status; error = message }

abbrev reason_text : Option ReplacementReason → Text
reason_text none = codes "replaced"
reason_text (some replaced) = codes "replaced"
reason_text (some cancelled) = codes "cancelled"
reason_text (some repriced) = codes "repriced"

-- The end of a trade with a final outcome.
unfoldable pub close_trade : Address → Address → Panel → Panel
close_trade token wallet p = record p {
  storage = clear_pending_trade token wallet p.storage;
  submitted_hash = none;
  submitted_at = none;
  recovery = none;
  quote_record = none;
  quote_stale = false;
}

-- A shown outcome, by its status.
unfoldable pub apply_status :
    Confirm.ConfirmationStatus → TradeConfirmation → Operation → ℕ → Panel → Panel
unfolding close_trade
apply_status Confirm.pending r op now p =
    shown State.confirmation_unknown
      (codes "No final receipt is available yet. New submissions remain blocked.")
      (persist op.side r.hash Guards.confirmation_unknown op.wallet op.token r.recovery now
        (record p { submitted_hash = some r.hash; recovery = r.recovery }))
apply_status Confirm.confirmed r op now p =
    shown State.confirmed (codes "") (close_trade op.token op.wallet p)
apply_status Confirm.reverted r op now p =
    shown State.reverted
      (codes "The transaction reverted on "
        ++ (selected_zonk_chain_name ++ codes ". No trade was applied."))
      (close_trade op.token op.wallet p)
apply_status Confirm.replaced r op now p =
    shown State.replaced
      (codes "The original transaction was "
        ++ (reason_text r.reason ++ codes ". Review the replacement before trading again."))
      (close_trade op.token op.wallet p)

unfoldable pub apply_resolution : TradeConfirmation → Operation → Latest → ℕ → Panel → Panel
unfolding apply_status
apply_resolution r op latest now p =
    if text_eq latest.identity op.identity
    then apply_status r.status r op now (record p { hash = some r.hash })
    else p

-- `latestRef.current.identity === operationIdentity && generationRef.current === generation`.
abbrev pub is_current : Operation → Latest → Panel → Bool
is_current op latest p = text_eq latest.identity op.identity && (p.generation == op.generation)

unfoldable pub note_wallet : Status → Panel → Panel
note_wallet State.awaiting_wallet p = record p { wallet_interaction = true }
note_wallet State.awaiting_approval p = record p { wallet_interaction = true }
note_wallet _ p = p

unfoldable pub note_approval : Status → Option Hash → Bool → Panel → Panel
note_approval State.approval_confirming (some h) current p = record p { approval_hash = some h }
note_approval State.preparing h current p = record p {
  approval_hash = none;
  hash = if is_some p.approval_hash && current then none else p.hash;
}
note_approval State.awaiting_wallet h current p = record p { approval_hash = none }
note_approval _ h current p = p

unfoldable pub note_recovery : Option TradeRecovery → Panel → Panel
note_recovery none p = p
note_recovery (some r) p = record p { recovery = some r }

-- The status that `report` persists, for the three that it persists.
unfoldable pub persisted_status : Status → Option PendingStatus
persisted_status State.submitted = some Guards.submitted
persisted_status State.confirming = some Guards.confirming
persisted_status State.confirmation_unknown = some Guards.confirmation_unknown
persisted_status _ = none

unfoldable pub note_hash :
    Option PendingStatus → Option Hash → Option TradeRecovery → Operation → ℕ → Panel → Panel
note_hash (some s) (some h) r op now p =
    persist op.side h s op.wallet op.token r now (record p { submitted_hash = some h })
note_hash _ _ r op now p = p

unfoldable pub show_report : Bool → Status → Option Hash → Panel → Panel
show_report true status (some h) p = record p { status = status; hash = some h }
show_report true status none p = record p { status = status }
show_report false status h p = p

-- The `report` of `submit`.
unfoldable pub report :
    Operation → Latest → Status → Option Hash → Option TradeRecovery → ℕ → Panel → Panel
unfolding note_wallet note_approval note_recovery persisted_status note_hash show_report
report op latest status hash recovery now p = show_report (is_current op latest p) status hash (
    note_hash (persisted_status status) hash recovery op now (
      note_recovery recovery
        (note_approval status hash (is_current op latest p) (note_wallet status p))))

-- `assertSubmissionReady`.
unfoldable pub assert_submission_ready : QuoteRecord → Operation → Latest → ℕ → Result (Unit {0})
assert_submission_ready quote_record op latest now =
    if leb (quote_expires_at quote_record) now
    then err (
        new_error (
          codes
            "This quote expired during wallet approval. Request a fresh quote before submitting."))
    else if not (text_eq latest.identity op.identity)
        || not (same_chain latest.chain_id (some selected_zonk_chain_id))
        || not (text_eq latest.state_fingerprint quote_record.state_fingerprint)
    then err (
        new_error (
          codes
            "Wallet, token, network, or curve state changed before submission. Request a fresh quote."))
    else ok tt
