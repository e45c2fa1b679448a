-- ===== src/Panel/Quoting/Order.antt =====
-- What holds of the quote that is shown, in whatever order the answers come.
use mathlib.Core.Path.{subst}
use zonk_fun.Base.{
  ℕ, ◌+◌, ◌≡◌, refl, sym, arith, true, false, not, ◌==◌, List, [], Option, none, some, Result, ok,
  err, if-both, codes,
}
use zonk_fun.Panel.State.{
  Status, Quote, side_of, QuoteRecord, Props, Panel, Latest, side_allowed, is_blocking,
}
use zonk_fun.Panel.State
use zonk_fun.Client.{Address}
use zonk_fun.PendingTrade.Guards.{PendingTrade}
use zonk_fun.PendingTrade.Store.{Storage, read_pending_trade}
use zonk_fun.Inputs.{parse_slippage_bps}
use zonk_fun.Panel.Submit.{identity_read, identity_changed, change_side, invalidate_quote}
use zonk_fun.Panel.Quoting.{
  Units, Typed, Request, cannot_quote, quote_failed, get_quote, quote_with, ask_for,
  parse_positive_amount, quoted_decimals, quoted_symbol, change_amount, change_slippage, grow_stale,
  schedule_quote, timer_fired, opened, initial_panel, with_found,
}
use zonk_fun.Panel.Quoting.Steps.{System, Step, Reach, here, next, opening_system, after_asking}
use zonk_fun.Panel.Quoting.Fresh.{
  IsFalling, IsFalling-mono, IsCurrent-below, AreAsked, IsAnswer, IsShown, IsFresh, moved-IsFresh,
  quiet-IsFresh, landed-IsFresh, failed-IsFresh,
}
use zonk_fun.Panel.Quoting.Quiet.{Handler-IsQuiet}

identity_changed-read :
    (props : Props) (p : Panel)
    → (found : Option PendingTrade × Storage) × (identity_changed props p ≡ identity_read found p)
unfolding identity_changed
identity_changed-read props p = read props.wallet_address
  where
    read :
        (w : Option Address)
        → (found : Option PendingTrade × Storage) × (◌≡◌ {A = Panel}
            (elim w [
              | none ↦ identity_read (none, p.storage) p
              | some wallet ↦
                  identity_read (read_pending_trade props.token_address wallet p.storage) p
            ])
            (identity_read found p))
    read none = ((none, p.storage), refl)
    read (some w) = (read_pending_trade props.token_address w p.storage, refl)

with_found-none : (found : Option PendingTrade × Storage) → (with_found found).quote_record ≡ none
with_found-none (none, storage) = refl
with_found-none (some t, storage) = refl

initial_panel-none :
    (props : Props) (storage : Storage) → (initial_panel props storage).quote_record ≡ none
unfolding initial_panel
initial_panel-none props storage = unread props.wallet_address
  where
    unread :
        (w : Option Address)
        → (let p : Panel = elim w [
          | none ↦ opened storage
          | some wallet ↦ with_found (read_pending_trade props.token_address wallet storage)
        ] in
            p.quote_record ≡ none)
    unread none = refl
    unread (some w) = with_found-none (read_pending_trade props.token_address w storage)

module _ (units : Units) where
  -- `getQuote` from its new number on, where no request has that number yet.
  module _ (s : System) (props : Props) (asked : AreAsked units s.flying) where
    open-IsFresh :
        (p : Panel)
        → IsFalling p.quote_request s.flying
        → IsFresh units (record s { panel = record p { quote_record = none } })
    open-IsFresh p falling = (
      IsFalling-mono p.quote_request (p.quote_request + 1) s.flying (omega arith) falling,
      IsCurrent-below p.quote_request p.quote_request s.typed none s.flying (omega arith) falling,
      asked,
      tt,
    )

    ask_for-IsFresh :
        (p : Panel) (bps : ℕ) (amount : Result ℕ)
        → IsFalling p.quote_request s.flying
        → parse_slippage_bps s.typed.slippage ≡ ok bps
        → parse_positive_amount units s.typed.amount
            (quoted_decimals p.side props)
            (quoted_symbol p.side props)
          ≡ amount
        → IsFresh units
            (after_asking s (ask_for bps amount props s.typed (record p { quote_record = none })))
    unfolding ask_for quote_failed
    ask_for-IsFresh p bps (ok n) falling rate parsed = (
      (omega arith, falling),
      (
        (λ e. (refl, refl)),
        IsCurrent-below p.quote_request p.quote_request s.typed none s.flying (omega arith) falling,
      ),
      ((props, parsed, rate), asked),
      tt,
    )
    ask_for-IsFresh p bps (err e) falling rate parsed =
        if-both (λ q. IsFresh units (record s { panel = q })) (p.quote_request == p.quote_request)
          (open-IsFresh p falling) (open-IsFresh p falling)

    quote_with-IsFresh :
        (p : Panel) (bps : Result ℕ)
        → IsFalling p.quote_request s.flying
        → parse_slippage_bps s.typed.slippage ≡ bps
        → IsFresh units
            (after_asking s (quote_with units bps props s.typed (record p { quote_record = none })))
    unfolding quote_with
    quote_with-IsFresh p (err e) falling rate = open-IsFresh p falling
    quote_with-IsFresh p (ok bps) falling rate =
        if-both (λ x. IsFresh units (after_asking s x)) (not (side_allowed props p.side))
          (open-IsFresh p falling)
          (ask_for-IsFresh (record p { status = State.idle; quote_loading = true }) bps _ falling
            rate refl)

  get_quote-IsFresh :
      (s : System) (props : Props)
      → IsFresh units s
      → IsFresh units (after_asking s (get_quote units props s.typed s.panel))
  unfolding get_quote
  get_quote-IsFresh s props (falling, current, asked, shown) =
      quote_with-IsFresh s props asked
        (record s.panel {
          quote_request = s.panel.quote_request + 1;
          error = codes "";
          quote_stale = false;
        })
        (parse_slippage_bps s.typed.slippage) falling refl

  identity_read-IsFresh :
      (s : System) (found : Option PendingTrade × Storage)
      → IsFresh units s
      → IsFresh units (record s { panel = identity_read found s.panel })
  unfolding identity_read
  identity_read-IsFresh s (found, storage) fresh =
      moved-IsFresh units s s.typed (identity_read (found, storage) s.panel) fresh refl refl

  identity_changed-IsFresh :
      (s : System) (props : Props)
      → IsFresh units s
      → IsFresh units (record s { panel = identity_changed props s.panel })
  identity_changed-IsFresh s props fresh =
      let (found, e) = identity_changed-read props s.panel in
      subst (λ p. IsFresh units (record s { panel = p })) (sym e)
        (identity_read-IsFresh s found fresh)

  Step-IsFresh : {s t : System} → Step units s t → IsFresh units s → IsFresh units t
  unfolding change_amount change_slippage change_side invalidate_quote grow_stale schedule_quote
      timer_fired
  Step-IsFresh (Step.typed_amount s value) fresh =
      moved-IsFresh units s (record s.typed { amount = value }) (invalidate_quote s.panel) fresh
        refl refl
  Step-IsFresh (Step.typed_slippage s value) fresh =
      moved-IsFresh units s (record s.typed { slippage = value }) (invalidate_quote s.panel) fresh
        refl refl
  Step-IsFresh (Step.side_changed s side) fresh =
      if-both (λ p. IsFresh units (record s { panel = p })) (is_blocking s.panel.status) fresh
        (moved-IsFresh units s s.typed
          (record (invalidate_quote (record s.panel { side = side })) { hash = none }) fresh refl
          refl)
  Step-IsFresh (Step.identity_moved s props) fresh = identity_changed-IsFresh s props fresh
  Step-IsFresh (Step.scheduled s props pending failure) fresh =
      if-both (λ (x : Panel × Option ℕ). IsFresh units (record s { panel = x.0 }))
        (cannot_quote units props pending failure s.typed s.panel) fresh fresh
  Step-IsFresh (Step.timer s id props) fresh =
      if-both (λ x. IsFresh units (after_asking s x)) (s.panel.quote_debounce == id)
        (get_quote-IsFresh s props fresh) fresh
  Step-IsFresh (Step.asked s props) fresh = get_quote-IsFresh s props fresh
  Step-IsFresh (Step.landed s r rest q latest now taken of_side) fresh =
      landed-IsFresh units s r rest q latest now taken of_side fresh
  Step-IsFresh (Step.failed s r rest e taken) fresh = failed-IsFresh units s r rest e taken fresh
  Step-IsFresh (Step.grown_stale s) fresh = fresh
  Step-IsFresh (Step.handled s p h) fresh = quiet-IsFresh units s p fresh (Handler-IsQuiet h)

  Reach-IsFresh : {s t : System} → IsFresh units s → Reach units s t → IsFresh units t
  Reach-IsFresh fresh here = fresh
  Reach-IsFresh fresh (next r step) = Step-IsFresh step (Reach-IsFresh fresh r)

  IsShown-some :
      (shown : Option QuoteRecord) (x : QuoteRecord) (typed : Typed) (log : List (Request × Quote))
      → shown ≡ some x
      → IsShown units shown typed log
      → IsAnswer units x typed log
  IsShown-some shown x typed log e h = subst (λ o. IsShown units o typed log) e h

  -- Whatever the user types, whichever side, wallet or token is chosen, in whatever order the
  -- requests for a quote are made, answered or refused, and whatever the other handlers do: the
  -- quote that the panel holds is the answer to a request for exactly the amount and the slippage
  -- that are typed now, parsed for the side of the quote, and it is kept with the identity, the state
  -- and the chain that it was asked for.
  pub held_quote_is_typed :
      (typed : Typed) (props : Props) (storage : Storage) (s : System) (x : QuoteRecord)
      → Reach units (opening_system typed props storage) s
      → s.panel.quote_record ≡ some x
      → IsAnswer units x s.typed s.answered
  held_quote_is_typed typed props storage s x reach held =
      IsShown-some s.panel.quote_record x s.typed s.answered held (Reach-IsFresh opening reach).3
    where
      opening : IsFresh units (opening_system typed props storage)
      opening = (
        tt,
        tt,
        tt,
        subst (λ o. IsShown units o typed []) (sym (initial_panel-none props storage)) tt,
      )
