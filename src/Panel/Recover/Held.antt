-- ===== src/Panel/Recover/Held.antt =====
-- A recovery keeps the panel held, at each of its steps.
use mathlib.Core.Path.{subst}
use zonk_fun.Base.{
  ℕ, ◌<◌, ◌≡◌, inl, inr, Bool, true, false, not, Bool-cases, Option, none, some, get_or,
  if◌then◌else◌,
}
use zonk_fun.Client.{Address, Hash}
use zonk_fun.Curve.Recovery.{TradeRecovery}
use zonk_fun.PendingTrade.Guards.{PendingStatus}
use zonk_fun.PendingTrade.Guards
use zonk_fun.PendingTrade.Guards.RoundTrip.{IsOptional, IsOptionalRecovery}
use zonk_fun.Panel.State.{Status, Props, Panel, Latest}
use zonk_fun.Panel.Handlers.{Operation, is_current, persisted_status}
use zonk_fun.Panel.Recover.{
  recover, recover_guarded, recover_from, note_recovered, recover_report, recover_failed,
}
use zonk_fun.Panel.Blocking.{IsHash, IsHeld, IsReady, persist-IsHeld}
use zonk_fun.Panel.Course.{IsSound, note_recovery-IsHeld, show_report-IsHeld}

module _ (op : Operation) (sound : IsSound op) where
  note_recovered-IsHeld :
      (s : Option PendingStatus) (h : Hash) (r : Option TradeRecovery) (now : ℕ) (p : Panel)
      → IsHash h
      → IsOptionalRecovery r
      → 0 < now
      → IsHeld op.token op.wallet p
      → IsHeld op.token op.wallet (note_recovered s h r op now p)
  unfolding note_recovered
  note_recovered-IsHeld none h r now p hex valid later held = held
  note_recovered-IsHeld (some s) h r now p hex valid later held =
      persist-IsHeld op.side h s op.wallet op.token r now p hex sound.0 sound.1 valid later held.0

  known_hash :
      (hash : Hash) (next : Option Hash)
      → IsHash hash
      → IsOptional IsHash next
      → IsHash (get_or next hash)
  known_hash hash none hex next_hex = hex
  known_hash hash (some h) hex next_hex = next_hex

  pub recover_report-IsHeld :
      (hash : Hash) (latest : Latest) (s : Status) (next : Option Hash) (r : Option TradeRecovery)
      (now : ℕ) (p : Panel)
      → IsHash hash
      → IsOptional IsHash next
      → IsOptionalRecovery r
      → 0 < now
      → IsHeld op.token op.wallet p
      → IsHeld op.token op.wallet (recover_report op hash latest s next r now p)
  unfolding recover_report
  recover_report-IsHeld hash latest s next r now p hex next_hex valid later held =
      show_report-IsHeld op.token op.wallet _ s next _ (
        note_recovered-IsHeld (persisted_status s) (get_or next hash) r now _
          (known_hash hash next hex next_hex) valid later
          (note_recovery-IsHeld op.token op.wallet r p valid held))

  pub recover_failed-IsHeld :
      (hash : Hash) (latest : Latest) (now : ℕ) (p : Panel)
      → IsHash hash
      → 0 < now
      → IsHeld op.token op.wallet p
      → IsHeld op.token op.wallet (recover_failed op hash latest now p)
  unfolding recover_failed
  recover_failed-IsHeld hash latest now p hex later held =
      elim (Bool-cases (not (is_current op latest p))) [
        | inl stale ↦ rw stale held
        | inr current ↦ rw current (
            persist-IsHeld op.side hash Guards.confirmation_unknown op.wallet op.token none now p
              hex sound.0 sound.1 tt later held.0)
      ]

-- What a recovery that begins holds.
abbrev HeldBy : Panel × Option (Operation × Hash) → Type 0
HeldBy (q, none) = Unit
HeldBy (q, some (op, hash)) = IsSound op → IsHash hash → IsHeld op.token op.wallet q

recover_from-HeldBy :
    (props : Props) (wallet : Address) (hash : Hash) (now : ℕ) (p : Panel)
    → 0 < now
    → IsReady p
    → HeldBy (recover_from props wallet hash now p)
unfolding recover_from
recover_from-HeldBy props wallet hash now p later ready sound hex =
    persist-IsHeld p.side hash Guards.confirming wallet props.token_address none now _ hex sound.0
      sound.1 tt later ready

recover_guarded-HeldBy :
    (wallet : Option Address) (hash : Option Hash) (props : Props) (now : ℕ) (p : Panel)
    → 0 < now
    → IsReady p
    → HeldBy (recover_guarded wallet hash props now p)
unfolding recover_guarded
recover_guarded-HeldBy (some wallet) (some hash) props now p later ready =
    recover_from-HeldBy props wallet hash now p later ready
recover_guarded-HeldBy none hash props now p later ready = tt
recover_guarded-HeldBy (some wallet) none props now p later ready = tt

if-HeldBy :
    (t : Bool) (a b : Panel × Option (Operation × Hash))
    → HeldBy a
    → HeldBy b
    → HeldBy (if t then a else b)
if-HeldBy true a b on off = on
if-HeldBy false a b on off = off

recover-HeldBy :
    (props : Props) (now : ℕ) (p : Panel) → 0 < now → IsReady p → HeldBy (recover props now p)
unfolding recover
recover-HeldBy props now p later ready =
    if-HeldBy p.operation (p, none) (recover_guarded props.wallet_address p.hash props now p) tt
      (recover_guarded-HeldBy props.wallet_address p.hash props now p later ready)

-- A recovery that begins on a panel whose refs are well-formed leaves it held, with the confirming
-- trade stored.
pub recover-IsHeld :
    (props : Props) (now : ℕ) (p q : Panel) (op : Operation) (hash : Hash)
    → 0 < now
    → IsReady p
    → IsSound op
    → IsHash hash
    → recover props now p ≡ (q, some (op, hash))
    → IsHeld op.token op.wallet q
recover-IsHeld props now p q op hash later ready sound hex began =
    subst HeldBy began (recover-HeldBy props now p later ready) sound hex
