-- ===== src/Panel/Course.antt =====
-- The course of one trade of the panel: its reports, and the ends that leave its outcome unknown.
-- Each keeps the panel held.
use zonk_fun.Base.{
  ℕ, ◌<◌, ◌≡◌, inl, inr, Bool, true, false, not, Option, none, some, Bool-cases, Thrown, text_eq,
}
use zonk_fun.Client.{Address, Hash}
use zonk_fun.Curve.Recovery.{TradeRecovery}
use zonk_fun.Curve.Confirm.{TradeConfirmation}
use zonk_fun.Curve.Confirm
use zonk_fun.PendingTrade.Guards.{PendingStatus}
use zonk_fun.PendingTrade.Guards
use zonk_fun.PendingTrade.Guards.RoundTrip.{IsOptional, IsOptionalRecovery}
use zonk_fun.Panel.State.{Status, Panel, Latest}
use zonk_fun.Panel.State
use zonk_fun.Panel.Handlers.{
  Operation, is_current, note_wallet, note_approval, note_recovery, persisted_status, note_hash,
  show_report, report, apply_resolution, apply_status,
}
use zonk_fun.Panel.Submit.{is_uncertain, unresolved, submit_failed}
use zonk_fun.Panel.Blocking.{
  IsHash, IsAddress, IsReady, IsHeld, persist-IsHeld, persist_hashless-IsHeld,
}

module _ (token wallet : Address) where
  note_wallet-IsHeld :
      (s : Status) (p : Panel) → IsHeld token wallet p → IsHeld token wallet (note_wallet s p)
  unfolding note_wallet
  note_wallet-IsHeld State.awaiting_wallet p held = held
  note_wallet-IsHeld State.awaiting_approval p held = held
  note_wallet-IsHeld _ p held = held

  note_approval-IsHeld :
      (s : Status) (h : Option Hash) (current : Bool) (p : Panel)
      → IsHeld token wallet p
      → IsHeld token wallet (note_approval s h current p)
  unfolding note_approval
  note_approval-IsHeld State.approval_confirming (some h) current p held = held
  note_approval-IsHeld State.preparing h current p held = held
  note_approval-IsHeld State.awaiting_wallet h current p held = held
  note_approval-IsHeld _ h current p held = held

  pub note_recovery-IsHeld :
      (r : Option TradeRecovery) (p : Panel)
      → IsOptionalRecovery r
      → IsHeld token wallet p
      → IsHeld token wallet (note_recovery r p)
  unfolding note_recovery
  note_recovery-IsHeld none p valid held = held
  note_recovery-IsHeld (some r) p valid ((browser, _, hash_valid, time_valid), blocked) =
      ((browser, valid, hash_valid, time_valid), blocked)

  pub show_report-IsHeld :
      (current : Bool) (s : Status) (h : Option Hash) (p : Panel)
      → IsHeld token wallet p
      → IsHeld token wallet (show_report current s h p)
  unfolding show_report
  show_report-IsHeld true s (some h) p held = held
  show_report-IsHeld true s none p held = held
  show_report-IsHeld false s h p held = held

-- The addresses of an operation are well-formed.
abbrev pub IsSound : Operation → Type 0
IsSound op = IsAddress op.wallet × IsAddress op.token

module _ (op : Operation) (sound : IsSound op) where
  note_hash-IsHeld :
      (s : Option PendingStatus) (h : Option Hash) (r : Option TradeRecovery) (now : ℕ) (p : Panel)
      → IsOptional IsHash h
      → IsOptionalRecovery r
      → 0 < now
      → IsHeld op.token op.wallet p
      → IsHeld op.token op.wallet (note_hash s h r op now p)
  unfolding note_hash
  note_hash-IsHeld (some s) (some h) r now p hex valid later ((browser, own, _, time_valid), _) =
      persist-IsHeld op.side h s op.wallet op.token r now (record p { submitted_hash = some h }) hex
        sound.0 sound.1 valid later (browser, own, hex, time_valid)
  note_hash-IsHeld none h r now p hex valid later held = held
  note_hash-IsHeld (some s) none r now p hex valid later held = held

  pub report-IsHeld :
      (latest : Latest) (s : Status) (h : Option Hash) (r : Option TradeRecovery) (now : ℕ)
      (p : Panel)
      → IsOptional IsHash h
      → IsOptionalRecovery r
      → 0 < now
      → IsHeld op.token op.wallet p
      → IsHeld op.token op.wallet (report op latest s h r now p)
  unfolding report
  report-IsHeld latest s h r now p hex valid later held =
      show_report-IsHeld op.token op.wallet _ s h _ (
        note_hash-IsHeld (persisted_status s) h r now _ hex valid later (
          note_recovery-IsHeld op.token op.wallet r _ valid (
            note_approval-IsHeld op.token op.wallet s h (is_current op latest p) _
              (note_wallet-IsHeld op.token op.wallet s p held))))

  pub pending-IsHeld :
      (r : TradeConfirmation) (latest : Latest) (now : ℕ) (p : Panel)
      → r.status ≡ Confirm.pending
      → IsHash r.hash
      → IsOptionalRecovery r.recovery
      → 0 < now
      → IsHeld op.token op.wallet p
      → IsHeld op.token op.wallet (apply_resolution r op latest now p)
  unfolding apply_resolution apply_status
  pending-IsHeld r latest now p pending hex valid later held =
      elim (Bool-cases (text_eq latest.identity op.identity)) [
        | inl same ↦
            rw (same, pending)
              (persist-IsHeld op.side r.hash Guards.confirmation_unknown op.wallet op.token
                r.recovery now
                (record p {
                  hash = some r.hash;
                  submitted_hash = some r.hash;
                  recovery = r.recovery;
                })
                hex sound.0 sound.1 valid later (held.0.0, valid, hex, held.0.3))
        | inr other ↦ rw other held
      ]

  unresolved-IsHeld :
      (h approval : Option Hash) (asked : Bool) (reason : Thrown) (now : ℕ) (p : Panel)
      → IsOptional IsHash h
      → 0 < now
      → IsReady p
      → IsHeld op.token op.wallet (unresolved h approval asked reason op now p)
  unfolding unresolved
  unresolved-IsHeld (some h) approval asked reason now p hex later ready =
      persist-IsHeld op.side h Guards.confirmation_unknown op.wallet op.token none now p hex sound.0
        sound.1 tt later ready
  unresolved-IsHeld none (some h) asked reason now p hex later ready =
      persist_hashless-IsHeld op.side op.wallet op.token now p sound.0 sound.1 later ready
  unresolved-IsHeld none none asked reason now p hex later ready =
      persist_hashless-IsHeld op.side op.wallet op.token now p sound.0 sound.1 later ready

  pub failed-IsHeld :
      (reason : Thrown) (latest : Latest) (now : ℕ) (p : Panel)
      → is_uncertain reason p ≡ true
      → 0 < now
      → IsHeld op.token op.wallet p
      → IsHeld op.token op.wallet (submit_failed reason op latest now p)
  unfolding submit_failed
  failed-IsHeld reason latest now p uncertain later held =
      elim (Bool-cases (not (is_current op latest p))) [
        | inl stale ↦ rw stale held
        | inr current ↦
            rw (current, uncertain)
              (unresolved-IsHeld p.submitted_hash p.approval_hash p.wallet_interaction reason now p
                held.0.2 later held.0)
      ]
