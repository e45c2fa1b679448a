-- ===== src/Panel/Quoting/Quiet.antt =====
-- What the other handlers of the panel leave alone.
use zonk_fun.Base.{
  ℕ, ◌≡◌, ◌⊎◌, inl, inr, refl, arith, Bool, true, false, Option, none, some, Text, Thrown, not,
  ◌||◌, ◌∙◌, codes, text_eq, if-both,
}
use zonk_fun.Client.{Hash, Address}
use zonk_fun.PendingTrade.Guards.{PendingTrade, PendingStatus}
use zonk_fun.Curve.Confirm.{TradeConfirmation, ConfirmationStatus}
use zonk_fun.Curve.Confirm
use zonk_fun.PendingTrade.Store.{Storage, read_pending_trade}
use zonk_fun.Curve.Recovery.{TradeRecovery}
use zonk_fun.Panel.State.{
  Status, Quote, QuoteRecord, Props, Panel, Latest, is_blocking, selected_zonk_chain_id,
}
use zonk_fun.Panel.State
use zonk_fun.Panel.Handlers.{
  Operation, report, apply_resolution, apply_status, close_trade, persist, persist_hashless_unknown,
  show_report, note_hash, note_recovery, note_approval, note_wallet, persisted_status, is_current,
  same_chain,
}
use zonk_fun.Panel.Submit.{
  submit, submit_failed, unresolved, not_sent, finish, abandon, start, check_wallet, check_pending,
  check_quote, check_balance, begin, is_uncertain, lacking,
}
use zonk_fun.Panel.Quoting.Steps.{
  Handler, submitting, reported, resolved, submission_failed, finished, abandoned,
}

-- The number of the last request stays, and the record of the quote stays or is removed.
abbrev pub IsQuiet : Panel → Panel → Type 0
IsQuiet p p' =
    (p'.quote_request ≡ p.quote_request)
    × ((p'.quote_record ≡ p.quote_record) ⊎ (p'.quote_record ≡ none))

-- The same, of a panel with the operation that begins.
abbrev IsQuietFor : Panel → Panel × Option Operation → Type 0
IsQuietFor p x = IsQuiet p x.0

begin-IsQuiet :
    (props : Props) (w : Address) (r : QuoteRecord) (now : ℕ) (p : Panel)
    → IsQuiet p (begin props w r now p).0
unfolding begin persist_hashless_unknown
begin-IsQuiet props w r now p = (refl, inl refl)

check_balance-IsQuiet :
    (m : Option Text) (props : Props) (w : Address) (r : QuoteRecord) (now : ℕ) (p : Panel)
    → IsQuiet p (check_balance m props w r now p).0
unfolding check_balance
check_balance-IsQuiet (some m) props w r now p = (refl, inl refl)
check_balance-IsQuiet none props w r now p = begin-IsQuiet props w r now p

check_quote-IsQuiet :
    (props : Props) (w : Address) (r : QuoteRecord) (now : ℕ) (p : Panel)
    → IsQuiet p (check_quote props w r now p).0
unfolding check_quote
check_quote-IsQuiet props w r now p =
    ground (arith, check_balance-IsQuiet (lacking props.symbol r.quote props.state) props w r now p)

check_pending-IsQuiet :
    (found : Option PendingTrade × Storage) (props : Props) (w : Address) (r : QuoteRecord)
    (now : ℕ) (p : Panel)
    → IsQuiet p (check_pending found props w r now p).0
unfolding check_pending
check_pending-IsQuiet (some t, storage) props w r now p = (refl, inl refl)
check_pending-IsQuiet (none, storage) props w r now p =
    check_quote-IsQuiet props w r now (record p { storage = storage })

check_wallet-IsQuiet :
    (w : Option Address) (props : Props) (r : QuoteRecord) (now : ℕ) (p : Panel)
    → IsQuiet p (check_wallet w props r now p).0
unfolding check_wallet
check_wallet-IsQuiet none props r now p = (refl, inl refl)
check_wallet-IsQuiet (some w) props r now p =
    if-both (IsQuietFor p) (not props.authenticated) (refl, inl refl)
      (if-both (IsQuietFor p) (not (same_chain props.chain_id (some selected_zonk_chain_id)))
        (refl, inl refl)
        (check_pending-IsQuiet (read_pending_trade props.token_address w p.storage) props w r now
          p))

start-IsQuiet :
    (r : Option QuoteRecord) (props : Props) (now : ℕ) (p : Panel)
    → IsQuiet p (start r props now p).0
unfolding start
start-IsQuiet none props now p = (refl, inl refl)
start-IsQuiet (some r) props now p =
    check_wallet-IsQuiet props.wallet_address props r now (record p { error = codes "" })

submit-IsQuiet : (props : Props) (now : ℕ) (p : Panel) → IsQuiet p (submit props now p).0
unfolding submit
submit-IsQuiet props now p =
    if-both (IsQuietFor p) (p.operation || is_blocking p.status) (refl, inl refl)
      (start-IsQuiet p.quote_record props now p)

-- `report` and the handlers after it change neither.
abbrev IsSame : Panel → Panel → Type 0
IsSame p p' = (p'.quote_request ≡ p.quote_request) × (p'.quote_record ≡ p.quote_record)

note_wallet-IsSame : (s : Status) (p : Panel) → IsSame p (note_wallet s p)
unfolding note_wallet
note_wallet-IsSame State.awaiting_wallet p = (refl, refl)
note_wallet-IsSame State.awaiting_approval p = (refl, refl)
note_wallet-IsSame _ p = (refl, refl)

note_approval-IsSame :
    (s : Status) (h : Option Hash) (current : Bool) (p : Panel)
    → IsSame p (note_approval s h current p)
unfolding note_approval
note_approval-IsSame State.approval_confirming (some h) current p = (refl, refl)
note_approval-IsSame State.preparing h current p = (refl, refl)
note_approval-IsSame State.awaiting_wallet h current p = (refl, refl)
note_approval-IsSame _ h current p = (refl, refl)

note_recovery-IsSame : (r : Option TradeRecovery) (p : Panel) → IsSame p (note_recovery r p)
unfolding note_recovery
note_recovery-IsSame none p = (refl, refl)
note_recovery-IsSame (some r) p = (refl, refl)

note_hash-IsSame :
    (s : Option PendingStatus) (h : Option Hash) (r : Option TradeRecovery) (op : Operation)
    (now : ℕ) (p : Panel)
    → IsSame p (note_hash s h r op now p)
unfolding note_hash persist
note_hash-IsSame (some s) (some h) r op now p = (refl, refl)
note_hash-IsSame (some s) none r op now p = (refl, refl)
note_hash-IsSame none h r op now p = (refl, refl)

show_report-IsSame :
    (current : Bool) (s : Status) (h : Option Hash) (p : Panel)
    → IsSame p (show_report current s h p)
unfolding show_report
show_report-IsSame true s (some h) p = (refl, refl)
show_report-IsSame true s none p = (refl, refl)
show_report-IsSame false s h p = (refl, refl)

report-IsSame :
    (op : Operation) (latest : Latest) (s : Status) (h : Option Hash) (r : Option TradeRecovery)
    (now : ℕ) (p : Panel)
    → IsSame p (report op latest s h r now p)
unfolding report
report-IsSame op latest s h r now p =
    let current = is_current op latest p in
    let p1 = note_wallet s p in
    let p2 = note_approval s h current p1 in
    let p3 = note_recovery r p2 in
    let p4 = note_hash (persisted_status s) h r op now p3 in
    let (n1, r1) = note_wallet-IsSame s p in
    let (n2, r2) = note_approval-IsSame s h current p1 in
    let (n3, r3) = note_recovery-IsSame r p2 in
    let (n4, r4) = note_hash-IsSame (persisted_status s) h r op now p3 in
    let (n5, r5) = show_report-IsSame current s h p4 in
    (n5 ∙ n4 ∙ n3 ∙ n2 ∙ n1, r5 ∙ r4 ∙ r3 ∙ r2 ∙ r1)

unresolved-IsSame :
    (h a : Option Hash) (asked : Bool) (e : Thrown) (op : Operation) (now : ℕ) (p : Panel)
    → IsSame p (unresolved h a asked e op now p)
unfolding unresolved persist persist_hashless_unknown
unresolved-IsSame (some h) a asked e op now p = (refl, refl)
unresolved-IsSame none (some h) asked e op now p = (refl, refl)
unresolved-IsSame none none asked e op now p = (refl, refl)

submit_failed-IsSame :
    (e : Thrown) (op : Operation) (latest : Latest) (now : ℕ) (p : Panel)
    → IsSame p (submit_failed e op latest now p)
unfolding submit_failed not_sent
submit_failed-IsSame e op latest now p =
    if-both (IsSame p) (not (is_current op latest p)) (refl, refl)
      (if-both (λ q. IsSame p (record q { operation = false })) (is_uncertain e p)
        (unresolved-IsSame p.submitted_hash p.approval_hash p.wallet_interaction e op now p)
        (refl, refl))

apply_status-IsQuiet :
    (s : ConfirmationStatus) (r : TradeConfirmation) (op : Operation) (now : ℕ) (p : Panel)
    → IsQuiet p (apply_status s r op now p)
unfolding apply_status close_trade persist
apply_status-IsQuiet Confirm.pending r op now p = (refl, inl refl)
apply_status-IsQuiet Confirm.confirmed r op now p = (refl, inr refl)
apply_status-IsQuiet Confirm.reverted r op now p = (refl, inr refl)
apply_status-IsQuiet Confirm.replaced r op now p = (refl, inr refl)

abandon-IsQuiet :
    (w : Option Address) (props : Props) (p : Panel)
    → props.wallet_address ≡ w
    → IsQuiet p (abandon props p)
unfolding abandon
abandon-IsQuiet none props p e = rw e (refl, inl refl)
abandon-IsQuiet (some w) props p e = rw e (refl, inr refl)

pub Handler-IsQuiet : {p p' : Panel} → Handler p p' → IsQuiet p p'
unfolding apply_resolution finish
Handler-IsQuiet (submitting props now p) = submit-IsQuiet props now p
Handler-IsQuiet (reported op latest s h r now p) =
    let (number, shown) = report-IsSame op latest s h r now p in (number, inl shown)
Handler-IsQuiet (resolved r op latest now p) =
    if-both (IsQuiet p) (text_eq latest.identity op.identity)
      (apply_status-IsQuiet r.status r op now (record p { hash = some r.hash })) (refl, inl refl)
Handler-IsQuiet (submission_failed e op latest now p) =
    let (number, shown) = submit_failed-IsSame e op latest now p in (number, inl shown)
Handler-IsQuiet (finished op latest p) =
    if-both (IsQuiet p) (is_current op latest p) (refl, inl refl) (refl, inl refl)
Handler-IsQuiet (abandoned props p) = abandon-IsQuiet props.wallet_address props p refl
