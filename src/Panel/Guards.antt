-- ===== src/Panel/Guards.antt =====
-- What must hold for `submit` to begin a trade.
use mathlib.Core.Path.{subst}
use zonk_fun.Base.{
  not-false, ℕ, ◌<◌, ◌≡◌, ◌≢◌, refl, arith, Bool, true, false, not, ◌||◌, Option, none, some, Text,
  codes, if◌then◌else◌, leb, not_leb→lt,
}
use zonk_fun.Client.{Address}
use zonk_fun.PendingTrade.Store.{Storage, read_pending_trade}
use zonk_fun.PendingTrade.Guards.{PendingTrade}
use zonk_fun.Panel.State.{
  QuoteRecord, Props, Panel, selected_zonk_chain_id, is_blocking, quote_expires_at,
}
use zonk_fun.Panel.State
use zonk_fun.Panel.Suited.{
  IsInTime, quote_expires_at-IsInTime, IsFor, Covers, IsOperation, same_chain_sound, lacking-Covers,
  or_false, is_outdated-IsFor, begin-BegunBy,
}
use zonk_fun.Panel.Handlers.{Operation, same_chain}
use zonk_fun.Panel.Submit.{
  lacking, is_outdated, begin, check_balance, check_quote, check_pending, check_wallet, start,
  submit,
}

-- All guards of `submit` hold, and the operation is the one that `begin` makes.
pub record IsStart (props : Props) (now : ℕ) (p q : Panel) (op : Operation) : Type 0 where
  pub wallet : Address
  pub quote : QuoteRecord
  pub idle : p.operation ≡ false
  pub unlocked : is_blocking p.status ≡ false
  pub quoted : p.quote_record ≡ some quote
  pub connected : props.wallet_address ≡ some wallet
  pub authenticated : props.authenticated ≡ true
  pub on_chain : props.chain_id ≡ some selected_zonk_chain_id
  pub nothing_pending : (read_pending_trade props.token_address wallet p.storage).0 ≡ none
  pub fresh : p.quote_stale ≡ false
  pub in_time : now < quote_expires_at quote
  pub in_window : IsInTime now quote
  pub current : IsFor props p.side wallet quote
  pub affordable : Covers current.state quote.quote
  pub operation_made : IsOperation props wallet quote p.generation op
  pub held : (q.operation ≡ true) × (q.status ≡ State.preparing)
  pub began :
      begin props wallet quote now (record p {
        error = codes "";
        storage = (read_pending_trade props.token_address wallet p.storage).1;
      })
      ≡ (q, some op)

refused : {p q : Panel} {op : Operation} → ◌≢◌ {A = Panel × Option Operation} (p, none) (q, some op)
refused h = ground arith

check_balance_started :
    (o : Option Text) (props : Props) (wallet : Address) (r : QuoteRecord) (now : ℕ) (p q : Panel)
    (op : Operation)
    → check_balance o props wallet r now p ≡ (q, some op)
    → (o ≡ none) × (begin props wallet r now p ≡ (q, some op))
unfolding check_balance
check_balance_started none props wallet r now p q op h = (refl, h)
check_balance_started (some m) props wallet r now p q op h = absurd (ground arith)

-- A guard that returns early was passed.
passed :
    (t : Bool) (p : Panel) (rest : Panel × Option Operation) {q : Panel} {op : Operation}
    → (if t then (p, none) else rest) ≡ (q, some op)
    → (t ≡ false) × (rest ≡ (q, some op))
passed true p rest h = absurd (refused h)
passed false p rest h = (refl, h)

check_quote_started :
    (props : Props) (wallet : Address) (r : QuoteRecord) (now : ℕ) (p q : Panel) (op : Operation)
    → check_quote props wallet r now p ≡ (q, some op)
    → (p.quote_stale ≡ false)
      × (now < quote_expires_at r)
      × (is_outdated props p r ≡ false)
      × (lacking props.symbol r.quote props.state ≡ none)
      × (begin props wallet r now p ≡ (q, some op))
unfolding check_quote
check_quote_started props wallet r now p q op h =
    let (early, h1) = passed (p.quote_stale || leb (quote_expires_at r) now) _ _ h in
    let (current, h2) = passed (is_outdated props p r) _ _ h1 in
    let (fresh, in_time) = or_false _ _ early in
    let (affordable, began) = check_balance_started _ props wallet r now p q op h2 in
    (fresh, not_leb→lt _ _ in_time, current, affordable, began)

check_pending_started :
    (found : Option PendingTrade × Storage) (props : Props) (wallet : Address) (r : QuoteRecord)
    (now : ℕ) (p q : Panel) (op : Operation)
    → check_pending found props wallet r now p ≡ (q, some op)
    → (found.0 ≡ none)
      × (check_quote props wallet r now (record p { storage = found.1 }) ≡ (q, some op))
unfolding check_pending
check_pending_started (none, s) props wallet r now p q op h = (refl, h)
check_pending_started (some t, s) props wallet r now p q op h = absurd (refused h)

check_wallet_started :
    (connected : Option Address) (props : Props) (r : QuoteRecord) (now : ℕ) (p q : Panel)
    (op : Operation)
    → check_wallet connected props r now p ≡ (q, some op)
    → (wallet : Address) × (connected ≡ some wallet)
      × (props.authenticated ≡ true)
      × (same_chain props.chain_id (some selected_zonk_chain_id) ≡ true)
      × (check_pending
            (read_pending_trade props.token_address wallet p.storage)
            props
            wallet
            r
            now
            p
          ≡ (q, some op))
unfolding check_wallet
check_wallet_started none props r now p q op h = absurd (refused h)
check_wallet_started (some wallet) props r now p q op h =
    let (authenticated, h1) = passed (not props.authenticated) _ _ h in
    let (here, h2) =
      passed (not (same_chain props.chain_id (some selected_zonk_chain_id))) _ _ h1 in
    (wallet, refl, not-false _ authenticated, not-false _ here, h2)

start_started :
    (quoted : Option QuoteRecord) (props : Props) (now : ℕ) (p q : Panel) (op : Operation)
    → start quoted props now p ≡ (q, some op)
    → (r : QuoteRecord) × (quoted ≡ some r)
      × (check_wallet props.wallet_address props r now (record p { error = codes "" })
          ≡ (q, some op))
unfolding start
start_started none props now p q op h = absurd (refused h)
start_started (some r) props now p q op h = (r, refl, h)

-- `submit` begins a trade only if no operation runs, the status does not block, the wallet is
-- connected on the selected chain, nothing is stored for the token and the wallet, the quote is in
-- time (its minute is not over, nor has its deadline passed, where that is a safe integer in
-- milliseconds) and its identity, fingerprint and chain are those of the present wallet, token,
-- state and chain, the panel's side is open in the state's lifecycle, and the balance of the state
-- covers what the quote takes. The trade that begins is for that wallet and token on the side of
-- the quote, and the panel then holds an operation and the status `preparing`.
pub submit_started :
    (props : Props) (now : ℕ) (p q : Panel) (op : Operation)
    → submit props now p ≡ (q, some op)
    → IsStart props now p q op
unfolding submit
submit_started props now p q op h =
    let (free, h0) = passed (p.operation || is_blocking p.status) _ _ h in
    let (idle, unlocked) = or_false _ _ free in
    let (r, quoted, h1) = start_started p.quote_record props now p q op h0 in
    let (wallet, connected, authenticated, here, h2) =
      check_wallet_started props.wallet_address props r now _ q op h1 in
    let (nothing, h3) =
      check_pending_started (read_pending_trade props.token_address wallet p.storage) props wallet r
        now _ q op h2 in
    let (fresh, in_time, current, affordable, began) =
      check_quote_started props wallet r now _ q op h3 in
    let opened : Panel = record p {
      error = codes "";
      storage = (read_pending_trade props.token_address wallet p.storage).1;
    } in
    let own : IsFor props p.side wallet r =
      is_outdated-IsFor props opened r wallet connected current in
    let (made, running, preparing) = begin-BegunBy props wallet r now opened q op connected began in
    record {
      wallet = wallet;
      quote = r;
      idle = idle;
      unlocked = unlocked;
      quoted = quoted;
      connected = connected;
      authenticated = authenticated;
      on_chain = same_chain_sound _ _ here;
      nothing_pending = nothing;
      fresh = fresh;
      in_time = in_time;
      in_window = quote_expires_at-IsInTime r now in_time;
      current = own;
      affordable =
          lacking-Covers props.symbol r.quote own.state
            (subst (λ s. lacking props.symbol r.quote s ≡ none) own.loaded affordable);
      operation_made = made;
      held = (running, preparing);
      began = began;
    }
