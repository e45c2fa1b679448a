-- ===== src/Panel/Release.antt =====
-- What ends a trade of the panel: a final outcome, and a failure that is taken to have sent nothing.
use mathlib.Core.Path.{subst}
use zonk_fun.Base.{
  ℕ, ◌≡◌, refl, ◌∙◌, arith, Bool, true, false, Option, none, some, text_eq_refl, Thrown, if-both,
  message_or_string,
}
use zonk_fun.Curve.Confirm.{TradeConfirmation, ConfirmationStatus}
use zonk_fun.Curve.Confirm
use zonk_fun.PendingTrade.Store.{read_pending_trade}
use zonk_fun.PendingTrade.Store.Laws.{clear-read}
use zonk_fun.Panel.State.{
  Status, Props, Panel, Latest, is_definitive_pre_submission_failure, is_blocking, is_rejection,
}
use zonk_fun.Panel.State
use zonk_fun.Panel.Handlers.{
  Operation, is_current, report, note_wallet, note_approval, note_recovery, persisted_status,
  note_hash, show_report, apply_resolution, apply_status, close_trade, persist_hashless_unknown,
}
use zonk_fun.Panel.Submit.{is_uncertain, submit_failed, not_sent, submit, begin}
use zonk_fun.Panel.Guards.{submit_started}

-- Nothing is stored for the trade, and the refs of its time and its hash are empty.
abbrev pub IsReleased : Operation → Panel → Type 0
IsReleased op p =
    ((read_pending_trade op.token op.wallet p.storage).0 ≡ none)
    × (p.submitted_at ≡ none)
    × (p.submitted_hash ≡ none)

-- What else the end of a trade with a final outcome drops: the recovery data and the quote.
abbrev pub IsCleared : Panel → Type 0
IsCleared p = (p.recovery ≡ none) × (p.quote_record ≡ none) × (p.quote_stale ≡ false)

-- The statuses of a final outcome.
abbrev pub final_status : ConfirmationStatus → Option Status
final_status Confirm.confirmed = some State.confirmed
final_status Confirm.reverted = some State.reverted
final_status Confirm.replaced = some State.replaced
final_status Confirm.pending = none

apply_status_final :
    (status : ConfirmationStatus) (final : Status) (r : TradeConfirmation) (op : Operation)
    (now : ℕ) (p : Panel)
    → final_status status ≡ some final
    → IsReleased op (apply_status status r op now p)
      × ((apply_status status r op now p).status ≡ final)
      × IsCleared (apply_status status r op now p)
unfolding apply_status close_trade
apply_status_final Confirm.confirmed final r op now p h = (
  (clear-read op.token op.wallet op.token op.wallet p.storage refl refl, refl, refl),
  ground arith,
  (refl, refl, refl),
)
apply_status_final Confirm.reverted final r op now p h = (
  (clear-read op.token op.wallet op.token op.wallet p.storage refl refl, refl, refl),
  ground arith,
  (refl, refl, refl),
)
apply_status_final Confirm.replaced final r op now p h = (
  (clear-read op.token op.wallet op.token op.wallet p.storage refl refl, refl, refl),
  ground arith,
  (refl, refl, refl),
)
apply_status_final Confirm.pending final r op now p h = absurd (ground arith)

-- A final outcome (confirmed, reverted or replaced) that arrives while the wallet and token are the
-- trade's removes the stored record, empties the refs of its hash, its time and its recovery data,
-- drops the quote and shows that outcome.
pub final_outcome_releases :
    (r : TradeConfirmation) (op : Operation) (latest : Latest) (now : ℕ) (p : Panel)
    (final : Status)
    → latest.identity ≡ op.identity
    → final_status r.status ≡ some final
    → IsReleased op (apply_resolution r op latest now p)
      × ((apply_resolution r op latest now p).status ≡ final)
      × IsCleared (apply_resolution r op latest now p)
unfolding apply_resolution
final_outcome_releases r op latest now p final same h =
    rw (same, text_eq_refl op.identity)
      (apply_status_final r.status final r op now (record p { hash = some r.hash }) h)

-- The refs of a trade that begins.
abbrev FreshBy : Panel → Panel × Option Operation → Type 0
FreshBy p (q, none) = Unit
FreshBy p (q, some op) =
    (q.generation ≡ op.generation)
    × (q.submitted_hash ≡ p.submitted_hash)
    × (q.wallet_interaction ≡ false)
    × (q.approval_hash ≡ none)

submit_fresh :
    (props : Props) (now : ℕ) (p q : Panel) (op : Operation)
    → submit props now p ≡ (q, some op)
    → FreshBy p (q, some op)
unfolding begin persist_hashless_unknown
submit_fresh props now p q op h =
    let s = submit_started props now p q op h in subst (FreshBy p) s.began (refl, refl, refl, refl)

is_current-true :
    (op : Operation) (latest : Latest) (p : Panel)
    → latest.identity ≡ op.identity
    → p.generation ≡ op.generation
    → is_current op latest p ≡ true
is_current-true op latest p same generation =
    rw (same, text_eq_refl op.identity, generation) (ground arith)

-- The panel after the reports of a sell that needs no approval.
abbrev pub sell_asked : Operation → Latest → ℕ → Panel → Panel
sell_asked op latest now p = report op latest State.awaiting_sell_signature none none now (
    report op latest State.preparing_sell none none now
      (report op latest State.preparing none none now p))

-- The panel is the trade's, has no hash of a transaction, and the wallet was not asked.
abbrev IsUnasked : Operation → Panel → Type 0
IsUnasked op p =
    (p.generation ≡ op.generation)
    × (p.submitted_hash ≡ none)
    × (p.wallet_interaction ≡ false)
    × (p.approval_hash ≡ none)

show-IsUnasked :
    (op : Operation) (current : Bool) (s : Status) (p : Panel)
    → IsUnasked op p
    → IsUnasked op (show_report current s none p)
unfolding show_report
show-IsUnasked op true s p unasked = unasked
show-IsUnasked op false s p unasked = unasked

sell_asked-IsUnasked :
    (op : Operation) (latest : Latest) (now : ℕ) (p : Panel)
    → IsUnasked op p
    → IsUnasked op (sell_asked op latest now p)
unfolding report note_wallet note_approval note_recovery persisted_status note_hash
sell_asked-IsUnasked op latest now p unasked = show-IsUnasked op _ State.awaiting_sell_signature _ (
    show-IsUnasked op _ State.preparing_sell _
      (show-IsUnasked op _ State.preparing _ (unasked.0, unasked.1, unasked.2, refl)))

-- The panel runs no operation, and its status does not block new trades.
abbrev pub IsUnlocked : Panel → Type 0
IsUnlocked p = (p.operation ≡ false) × (is_blocking p.status ≡ false)

unasked-IsReleased :
    (op : Operation) (latest : Latest) (now : ℕ) (reason : Thrown) (p : Panel)
    → latest.identity ≡ op.identity
    → IsUnasked op p
    → IsReleased op (submit_failed reason op latest now p)
      × IsUnlocked (submit_failed reason op latest now p)
unfolding submit_failed is_uncertain not_sent is_blocking
unasked-IsReleased op latest now reason p same (generation, unsent, unasked, unapproved) =
    simp
      (
        is_current-true op latest p same generation,
        unsent,
        unasked,
        unapproved,
        clear-read op.token op.wallet op.token op.wallet p.storage refl refl,
      )
      (
        (refl, refl, refl),
        (
          refl,
          if-both (λ status. is_blocking status ≡ false) (is_rejection (message_or_string reason))
              refl refl,
        ),
      )

-- A trade of a panel without a submitted hash that fails after the reports of a sell that needs no
-- approval (`preparing`, `preparing_sell`, `awaiting_sell_signature`, all for the current wallet and
-- token) is taken to have sent nothing, whatever was thrown, also where that does not tell whether
-- the wallet sent the transaction: the stored record is removed, no operation runs, and the status is
-- one that does not block new trades.
pub failed_sell_releases :
    (props : Props) (now : ℕ) (p q : Panel) (op : Operation) (latest : Latest) (reason : Thrown)
    → submit props now p ≡ (q, some op)
    → p.submitted_hash ≡ none
    → latest.identity ≡ op.identity
    → IsReleased op (submit_failed reason op latest now (sell_asked op latest now q))
      × IsUnlocked (submit_failed reason op latest now (sell_asked op latest now q))
failed_sell_releases props now p q op latest reason began unsent same =
    let (generation, hash, unasked, unapproved) = submit_fresh props now p q op began in
    unasked-IsReleased op latest now reason (sell_asked op latest now q) same
      (sell_asked-IsUnasked op latest now q (generation, hash ∙ unsent, unasked, unapproved))
