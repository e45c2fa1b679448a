-- ===== src/Panel/Quoting/Steps.antt =====
-- What may happen to the quotes of the panel: the user types, requests are made and answered in any
-- order or fail, quotes grow old, the identity changes, and the other handlers run.
use zonk_fun.Base.{ℕ, Bool, ◌≡◌, ◌⊎◌, List, [], ◌∷◌, Option, none, some, Text, Thrown, ok}
use zonk_fun.Client.{Hash, Side}
use zonk_fun.Curve.Recovery.{TradeRecovery}
use zonk_fun.Curve.Confirm.{TradeConfirmation}
use zonk_fun.PendingTrade.Store.{Storage}
use zonk_fun.Inputs.{parse_slippage_bps}
use zonk_fun.Panel.State.{Status, Quote, side_of, Props, Panel, Latest}
use zonk_fun.Panel.Handlers.{Operation, report, apply_resolution}
use zonk_fun.Panel.Submit.{submit, submit_failed, finish, abandon, change_side, identity_changed}
use zonk_fun.Panel.Quoting.{
  Units, Typed, Request, quote_failed, quote_landed, get_quote, timer_fired, schedule_quote,
  grow_stale, change_amount, change_slippage, initial_panel, parse_positive_amount, quoted_decimals,
  quoted_symbol,
}

-- The requests that wait for an answer, the newest first, and the answers that came.
pub record System : Type 0 where
  pub typed : Typed
  pub panel : Panel
  pub flying : List Request
  pub answered : List (Request × Quote)

abbrev pub with_request : Option Request → List Request → List Request
with_request none flying = flying
with_request (some r) flying = r ∷ flying

-- The system after the panel has asked for a quote, or has not.
abbrev pub after_asking : System → Panel × Option Request → System
after_asking s (p, r) = record s { panel = p; flying = with_request r s.flying }

abbrev pub after_typing : System → Typed × Panel → System
after_typing s (typed, p) = record s { typed = typed; panel = p }

-- A request is taken from those that wait.
pub data Taken : Request → List Request → List Request → Type 0 where
  first : {r : Request} {l : List Request} → Taken r (r ∷ l) l
  later : {r x : Request} {l k : List Request} → Taken r l k → Taken r (x ∷ l) (x ∷ k)

-- The other handlers of the panel.
pub data Handler : Panel → Panel → Type 0 where
  submitting : (props : Props) (now : ℕ) (p : Panel) → Handler p (submit props now p).0
  reported :
      (op : Operation) (latest : Latest) (s : Status) (h : Option Hash) (r : Option TradeRecovery)
      (now : ℕ) (p : Panel)
      → Handler p (report op latest s h r now p)
  resolved :
      (r : TradeConfirmation) (op : Operation) (latest : Latest) (now : ℕ) (p : Panel)
      → Handler p (apply_resolution r op latest now p)
  submission_failed :
      (e : Thrown) (op : Operation) (latest : Latest) (now : ℕ) (p : Panel)
      → Handler p (submit_failed e op latest now p)
  finished : (op : Operation) (latest : Latest) (p : Panel) → Handler p (finish op latest p)
  abandoned : (props : Props) (p : Panel) → Handler p (abandon props p)

module _ (units : Units) where
  -- An answer is a quote of the side that `getQuote` asked for.
  pub data Step : System → System → Type 0 where
    typed_amount :
        (s : System) (value : Text)
        → Step s (after_typing s (change_amount value (s.typed, s.panel)))
    typed_slippage :
        (s : System) (value : Text)
        → Step s (after_typing s (change_slippage value (s.typed, s.panel)))
    side_changed :
        (s : System) (side : Side) → Step s (record s { panel = change_side side s.panel })
    identity_moved :
        (s : System) (props : Props) → Step s (record s { panel = identity_changed props s.panel })
    scheduled :
        (s : System) (props : Props) (pending : Bool) (failure : Option Text)
        → Step s
            (record s { panel = (schedule_quote units props pending failure s.typed s.panel).0 })
    timer :
        (s : System) (id : ℕ) (props : Props)
        → Step s (after_asking s (timer_fired id units props s.typed s.panel))
    asked :
        (s : System) (props : Props)
        → Step s (after_asking s (get_quote units props s.typed s.panel))
    landed :
        (s : System) (r : Request) (rest : List Request) (q : Quote) (latest : Latest) (now : ℕ)
        → Taken r s.flying rest
        → side_of q ≡ r.side
        → Step s (record s {
          panel = quote_landed r q latest now s.panel;
          flying = rest;
          answered = (r, q) ∷ s.answered;
        })
    failed :
        (s : System) (r : Request) (rest : List Request) (e : Thrown)
        → Taken r s.flying rest
        → Step s (record s { panel = quote_failed r.id e s.panel; flying = rest })
    grown_stale : (s : System) → Step s (record s { panel = grow_stale s.panel })
    handled : (s : System) (p : Panel) → Handler s.panel p → Step s (record s { panel = p })

  pub data Reach (s : System) : System → Type 0 where
    here : Reach s s
    next : {t u : System} → Reach s t → Step t u → Reach s u

  -- The amount and the slippage that were asked about are what was typed then.
  abbrev pub IsAsked : Request → Type 0
  IsAsked r =
      (props : Props) × (parse_positive_amount units r.typed.amount (quoted_decimals r.side props)
          (quoted_symbol r.side props)
        ≡ ok r.asked)
      × (parse_slippage_bps r.typed.slippage ≡ ok r.slippage_bps)

-- The answer is one of those that came.
abbrev pub IsLogged : Request → Quote → List (Request × Quote) → Type 0
IsLogged r q [] = ⊥
IsLogged r q (x ∷ log) = ((r, q) ≡ x) ⊎ IsLogged r q log

abbrev pub opening_system : Typed → Props → Storage → System
opening_system typed props storage = record {
  typed = typed;
  panel = initial_panel props storage;
  flying = [];
  answered = [];
}
