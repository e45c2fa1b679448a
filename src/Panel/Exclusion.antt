-- ===== src/Panel/Exclusion.antt =====
-- One trade at a time for a wallet and a token, over all tabs; and what frees them again.
use mathlib.Core.Path.{subst}
use zonk_fun.Base.{
  ℕ, ◌<◌, ◌≡◌, ◌≢◌, inl, inr, sym, ap, ◌∙◌, arith, true, Option, none, some, Option-cases, Thrown,
  to_lower,
}
use zonk_fun.Client.{Address, Hash}
use zonk_fun.Curve.Recovery.{TradeRecovery}
use zonk_fun.Curve.Confirm.{TradeConfirmation}
use zonk_fun.Curve.Confirm
use zonk_fun.PendingTrade.Guards.{PendingTrade}
use zonk_fun.PendingTrade.Guards.RoundTrip.{IsOptional, IsOptionalRecovery}
use zonk_fun.PendingTrade.Store.Laws.{read-same, has_window-read}
use zonk_fun.Panel.State.{Status, Props, Panel, Latest}
use zonk_fun.Panel.Handlers.{Operation, report, apply_resolution}
use zonk_fun.Panel.Submit.{is_uncertain, submit_failed, submit, begin}
use zonk_fun.Panel.Blocking.{IsHash, IsReady, IsAddress, IsHeld, IsBlocked, persist_hashless-IsHeld}
use zonk_fun.Panel.Recover.{recover, recover_report, recover_failed}
use zonk_fun.Panel.Recover.Held.{recover-IsHeld, recover_report-IsHeld, recover_failed-IsHeld}
use zonk_fun.Panel.Course.{IsSound, report-IsHeld, pending-IsHeld, failed-IsHeld}
use zonk_fun.Panel.Guards.{IsStart, submit_started}

-- Two operations on the same token and wallet: a trade, and a recovery of it.
abbrev pub SameTrade : Operation → Operation → Type 0
SameTrade op own = (own.token ≡ op.token) × (own.wallet ≡ op.wallet)

-- What happens to a panel while its trade `op` has no known outcome: reports of the trade or of a
-- recovery, a recovery that begins, an outcome that is still pending, a failed recovery, a failure
-- of the trade after which a transaction may exist.
pub data Course (op : Operation) : Panel → Panel → Type 0 where
  here : {p : Panel} → Course op p p
  reported :
      {p q : Panel}
      → Course op p q
      → (latest : Latest) (s : Status) (h : Option Hash) (r : Option TradeRecovery) (now : ℕ)
      → IsOptional IsHash h
      → IsOptionalRecovery r
      → 0 < now
      → Course op p (report op latest s h r now q)
  left_pending :
      {p q : Panel}
      → Course op p q
      → (own : Operation) (r : TradeConfirmation) (latest : Latest) (now : ℕ) → SameTrade op own
      → r.status ≡ Confirm.pending
      → IsHash r.hash
      → IsOptionalRecovery r.recovery
      → 0 < now
      → Course op p (apply_resolution r own latest now q)
  left_uncertain :
      {p q : Panel}
      → Course op p q
      → (reason : Thrown) (latest : Latest) (now : ℕ) → is_uncertain reason q ≡ true
      → 0 < now
      → Course op p (submit_failed reason op latest now q)
  recovering :
      {p q r : Panel}
      → Course op p q
      → (own : Operation) (hash : Hash) (props : Props) (now : ℕ) → SameTrade op own
      → IsHash hash
      → 0 < now
      → recover props now q ≡ (r, some (own, hash))
      → Course op p r
  recovery_reported :
      {p q : Panel}
      → Course op p q
      → (own : Operation) (hash : Hash) (latest : Latest) (s : Status) (next : Option Hash)
        (r : Option TradeRecovery) (now : ℕ)
      → SameTrade op own
      → IsHash hash
      → IsOptional IsHash next
      → IsOptionalRecovery r
      → 0 < now
      → Course op p (recover_report own hash latest s next r now q)
  recovery_failed :
      {p q : Panel}
      → Course op p q
      → (own : Operation) (hash : Hash) (latest : Latest) (now : ℕ) → SameTrade op own
      → IsHash hash
      → 0 < now
      → Course op p (recover_failed own hash latest now q)

IsSound-SameTrade : (op own : Operation) → SameTrade op own → IsSound op → IsSound own
IsSound-SameTrade op own (token, wallet) (wallet_hex, token_hex) =
    (subst IsAddress (sym wallet) wallet_hex, subst IsAddress (sym token) token_hex)

-- Held for a recovery is held for the trade, and the other way round.
of_own-IsHeld :
    (op own : Operation) (p : Panel)
    → SameTrade op own
    → IsHeld own.token own.wallet p
    → IsHeld op.token op.wallet p
of_own-IsHeld op own p (token, wallet) held =
    subst (λ w. IsHeld op.token w p) wallet (subst (λ t. IsHeld t own.wallet p) token held)

to_own-IsHeld :
    (op own : Operation) (p : Panel)
    → SameTrade op own
    → IsHeld op.token op.wallet p
    → IsHeld own.token own.wallet p
to_own-IsHeld op own p (token, wallet) held =
    subst (λ w. IsHeld own.token w p) (sym wallet)
      (subst (λ t. IsHeld t op.wallet p) (sym token) held)

Course-IsHeld :
    (op : Operation) (p q : Panel)
    → IsSound op
    → Course op p q
    → IsHeld op.token op.wallet p
    → IsHeld op.token op.wallet q
Course-IsHeld op p _ sound here held = held
Course-IsHeld op p _ sound (reported {q} c latest s h r now hex valid later) held =
    report-IsHeld op sound latest s h r now q hex valid later (Course-IsHeld op p q sound c held)
Course-IsHeld op p _ sound (left_pending {q} c own r latest now same pending hex valid later) held =
    of_own-IsHeld op own (apply_resolution r own latest now q) same (
      pending-IsHeld own (IsSound-SameTrade op own same sound) r latest now q pending hex valid
        later (to_own-IsHeld op own q same (Course-IsHeld op p q sound c held)))
Course-IsHeld op p _ sound (left_uncertain {q} c reason latest now uncertain later) held =
    failed-IsHeld op sound reason latest now q uncertain later (Course-IsHeld op p q sound c held)
Course-IsHeld op p r sound (recovering {q} c own hash props now same hex later began) held =
    of_own-IsHeld op own r same (
      recover-IsHeld props now q r own hash later (Course-IsHeld op p q sound c held).0
        (IsSound-SameTrade op own same sound) hex began)
Course-IsHeld op p _ sound
      (recovery_reported {q} c own hash latest s next r now same hex next_hex valid later) held =
    of_own-IsHeld op own (recover_report own hash latest s next r now q) same (
      recover_report-IsHeld own (IsSound-SameTrade op own same sound) hash latest s next r now q hex
        next_hex valid later (to_own-IsHeld op own q same (Course-IsHeld op p q sound c held)))
Course-IsHeld op p _ sound (recovery_failed {q} c own hash latest now same hex later) held =
    of_own-IsHeld op own (recover_failed own hash latest now q) same (
      recover_failed-IsHeld own (IsSound-SameTrade op own same sound) hash latest now q hex later
        (to_own-IsHeld op own q same (Course-IsHeld op p q sound c held)))

none_not_some : {t : PendingTrade} → ◌≢◌ {A = Option PendingTrade} none (some t)
none_not_some h = ground arith

-- What a begun trade holds.
abbrev HeldBy : Panel × Option Operation → Type 0
HeldBy (q, none) = Unit
HeldBy (q, some op) = IsSound op → IsHeld op.token op.wallet q

-- A panel that begins a trade holds its addresses.
begin-IsHeld :
    (props : Props) (now : ℕ) (p q : Panel) (op : Operation)
    → IsStart props now p q op
    → IsReady p
    → IsSound op
    → 0 < now
    → IsHeld op.token op.wallet q
unfolding begin
begin-IsHeld props now p q op s ready sound later =
    subst HeldBy s.began
      (λ (wallet_hex, token_hex).
        persist_hashless-IsHeld _ s.wallet props.token_address now _ wallet_hex token_hex later (
          has_window-read props.token_address s.wallet p.storage ∙ ready.0,
          ready.1,
          ready.2,
          ready.3,
        ))
      sound

-- With a stored record for its wallet and token, in any spelling, no panel begins a trade.
pub blocked_submit :
    (props : Props) (now : ℕ) (p : Panel) (wallet token : Address)
    → IsBlocked token wallet p.storage
    → to_lower props.token_address ≡ to_lower token
    → ((own : Address) → props.wallet_address ≡ some own → to_lower own ≡ to_lower wallet)
    → (submit props now p).1 ≡ none
blocked_submit props now p wallet token (t, stored) same_token same_wallet =
    elim (Option-cases (submit props now p).1) [
      | inl e ↦ e
      | inr (op, e) ↦
          let s =
            submit_started props now p (submit props now p).0 op
              (ap (λ o. ((submit props now p).0, o)) e) in
          absurd (
            none_not_some (
              sym s.nothing_pending
              ∙ ap (λ r. r.0)
                  (read-same props.token_address s.wallet token wallet p.storage same_token
                    (same_wallet s.wallet s.connected))
              ∙ stored))
    ]

-- From a panel whose refs are well-formed, a trade that begins is the only one through any sequence of
-- well-formed reports, outcomes that are still pending, failures that the `catch` takes as uncertain (a
-- hash is known, or the wallet was noted as asked or an approval is known, and the error is not one of
-- those that come before a submission), and recoveries: any panel that shares its storage, in this tab
-- or another, with the same token and wallet in any spelling of their letters, refuses to submit. What
-- the `catch` takes as not sent is no part of such a sequence.
pub one_trade_at_a_time :
    (props : Props) (now : ℕ) (p q r : Panel) (op : Operation)
    → IsReady p
    → 0 < now
    → submit props now p ≡ (q, some op)
    → IsSound op
    → Course op q r
    → (other : Props) (later : ℕ) (tab : Panel) → tab.storage ≡ r.storage
    → to_lower other.token_address ≡ to_lower op.token
    → ((own : Address) → other.wallet_address ≡ some own → to_lower own ≡ to_lower op.wallet)
    → (submit other later tab).1 ≡ none
one_trade_at_a_time props now p q r op ready clock began sound course other later tab shared
      same_token same_wallet =
    let held =
      Course-IsHeld op q r sound course
        (begin-IsHeld props now p q op (submit_started props now p q op began) ready sound clock) in
    blocked_submit other later tab op.wallet op.token
      (subst (λ s. IsBlocked op.token op.wallet s) (sym shared) held.1) same_token same_wallet
