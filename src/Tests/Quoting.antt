-- ===== src/Tests/Quoting.antt =====
-- A quote that is asked for and answered.
use mathlib.Core.Path.{subst}
use zonk_fun.Base.{
  ◌≡◌, refl, sym, true, some, none, [], ◌∷◌, ok, codes, text_eq, to_lower, to_string, includes,
  before_dot, after_dot, is_digits, parse_digits, trim,
}
use zonk_fun.Client.{buy}
use zonk_fun.PendingTrade.Store.{Storage, read_pending_trade}
use zonk_fun.Inputs.{parse_slippage_bps}
use zonk_fun.Panel.State.{
  QuoteRecord, buying, trade_identity, trade_state_fingerprint, side_allowed,
}
use zonk_fun.Panel.Quoting.{
  Units, Typed, Request, parse_positive_amount, get_quote, quote_landed, initial_panel,
}
use zonk_fun.Panel.Quoting.Steps.{
  System, Step, here, next, Taken, first, opening_system, after_asking, with_request,
}
use zonk_fun.Panel.Quoting.Fresh.{IsAnswer}
use zonk_fun.Panel.Quoting.Order.{held_quote_is_typed}
use zonk_fun.Tests.World.{token_address, trader_address}
use zonk_fun.Tests.Panel.{state, props, buy_quote, latest}

abbrev units : Units
units = record { parse_ether = λ _. ok 500; parse_units = λ _ _. ok 500 }

abbrev typed : Typed
typed = record { amount = codes "0.0000000000000005"; slippage = codes "1.00" }

abbrev storage : Storage
storage = record { has_window = true; get_item = λ _. none }

abbrev started : System
started = opening_system typed props storage

abbrev request : Request
request = record {
  id = 1;
  side = buy;
  typed = typed;
  asked = 500;
  slippage_bps = 100;
  identity = trade_identity token_address (some trader_address);
  state_fingerprint = trade_state_fingerprint (some state) buy;
  chain_id = some 8453;
}

asking : (get_quote units props typed started.panel).1 ≡ some request
unfolding get_quote initial_panel parse_slippage_bps is_digits before_dot trim includes after_dot
    parse_digits side_allowed read_pending_trade parse_positive_amount
asking = refl

abbrev waiting : System
waiting = after_asking started (get_quote units props typed started.panel)

taken : Taken request waiting.flying []
taken = subst (λ r. Taken request (with_request r []) []) (sym asking) first

abbrev answered : System
answered = record waiting {
  panel = quote_landed request (buying buy_quote) latest 1000000 waiting.panel;
  flying = [];
  answered = (request, buying buy_quote) ∷ [];
}

abbrev held : QuoteRecord
held = record {
  quote = buying buy_quote;
  created_at = 1000000;
  identity = trade_identity token_address (some trader_address);
  state_fingerprint = trade_state_fingerprint (some state) buy;
  chain_id = some 8453;
}

is_held : answered.panel.quote_record ≡ some held
unfolding get_quote initial_panel quote_landed parse_slippage_bps is_digits before_dot trim includes
    after_dot parse_digits side_allowed read_pending_trade parse_positive_amount text_eq
    trade_identity to_lower trade_state_fingerprint to_string
is_held = refl

held_quote_is_typed_example : IsAnswer units held typed ((request, buying buy_quote) ∷ [])
held_quote_is_typed_example =
    held_quote_is_typed units typed props storage answered held
      (next (next here (Step.asked started props))
        (Step.landed waiting request [] (buying buy_quote) latest 1000000 taken refl))
      is_held
