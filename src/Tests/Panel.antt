-- ===== src/Tests/Panel.antt =====
-- A buy that the panel submits, reports and ends.
use zonk_fun.Base.{
  ◌≡◌, ap, refl, arith, true, false, Option, some, none, [], integer, pos, text_eq, to_lower,
  to_string, is_hex_of_length, is_hex_text, codes, new_error,
}
use zonk_fun.Client.{buy, sell, Address}
use zonk_fun.Curve.Resolve.{CurveTradeState}
use zonk_fun.Curve.Quote.{BudgetBuyQuote}
use zonk_fun.Curve.Confirm.{TradeConfirmation}
use zonk_fun.Curve.Confirm
use zonk_fun.PendingTrade.Store.{read_pending_trade, read_stored}
use zonk_fun.Panel.State.{
  Props, Panel, QuoteRecord, Latest, buying, selling, trade_identity, trade_state_fingerprint,
  quote_expires_at, is_blocking, side_allowed,
}
use zonk_fun.Panel.State
use zonk_fun.Panel.Handlers.{Operation, report, apply_resolution}
use zonk_fun.Panel.Submit.{
  submit, submit_failed, start, check_wallet, check_pending, check_quote, check_balance, lacking,
  is_outdated, begin,
}
use zonk_fun.Panel.Course.{IsSound}
use zonk_fun.Panel.Guards.{IsStart, submit_started}
use zonk_fun.Panel.Exclusion.{Course, here, reported, one_trade_at_a_time}
use zonk_fun.Panel.Release.{
  final_outcome_releases, failed_sell_releases, IsReleased, IsCleared, IsUnlocked, sell_asked,
}
use zonk_fun.Tests.World.{token_address, trader_address, trade_hash}

abbrev pub state : CurveTradeState
state = record {
  curve_supply = 1000;
  sold_supply = 0;
  reserve_balance = 0;
  graduation_threshold = 1000;
  lifecycle = 0;
  native_balance = 5000;
  token_balance = 1000;
  allowance = 0;
  decimals = 18;
}

abbrev pub props : Props
props = record {
  authenticated = true;
  chain_id = some 8453;
  wallet_address = some trader_address;
  token_address = token_address;
  symbol = codes "ZNK";
  state = some state;
}

abbrev pub buy_quote : BudgetBuyQuote
buy_quote = record {
  quote = record {
    reserve_in = 500;
    curve_cost = 490;
    protocol_fee = 5;
    creator_fee = 5;
    accepted_gross = some 500;
    net_curve_input = some 490;
    tokens_out = some 1000;
  };
  token_amount = 1000;
  max_reserve_in = 500;
  slippage_bps = integer (pos 100);
  deadline = 1300;
}

abbrev quote_record : QuoteRecord
quote_record = record {
  quote = buying buy_quote;
  created_at = 1000000;
  identity = trade_identity token_address (some trader_address);
  state_fingerprint = trade_state_fingerprint (some state) buy;
  chain_id = some 8453;
}

abbrev pub panel : Panel
panel = record {
  side = buy;
  quote_record = some quote_record;
  quote_stale = false;
  quote_loading = false;
  status = State.idle;
  hash = none;
  error = [];
  recovery = none;
  operation = false;
  wallet_interaction = false;
  approval_hash = none;
  submitted_hash = none;
  submitted_at = none;
  generation = 0;
  quote_request = 0;
  quote_debounce = 0;
  storage = record { has_window = true; get_item = λ _. none };
}

abbrev pub operation : Operation
operation = record {
  side = buy;
  wallet = trader_address;
  token = token_address;
  identity = trade_identity token_address (some trader_address);
  generation = 0;
}

abbrev pub latest : Latest
latest = record {
  identity = trade_identity token_address (some trader_address);
  chain_id = some 8453;
  state_fingerprint = trade_state_fingerprint (some state) buy;
}

abbrev submitted : Panel
submitted = (submit props 1000001 panel).0

submit_run : submit props 1000001 panel ≡ (submitted, some operation)
unfolding submit is_blocking start check_wallet check_pending check_quote check_balance lacking
    is_outdated begin read_pending_trade read_stored trade_identity trade_state_fingerprint
    to_string text_eq to_lower quote_expires_at side_allowed
submit_run = refl

submit_started_example : IsStart props 1000001 panel submitted operation
submit_started_example = submit_started props 1000001 panel submitted operation submit_run

-- The wallet returned the hash.
abbrev reported_panel : Panel
reported_panel = report operation latest State.submitted (some trade_hash) none 1000002 submitted

operation-IsSound : IsSound operation
unfolding is_hex_of_length is_hex_text
operation-IsSound = (refl, refl)

hash_hex : is_hex_of_length 64 trade_hash ≡ true
unfolding is_hex_of_length is_hex_text
hash_hex = refl

reports : Course operation submitted reported_panel
reports =
    reported here latest State.submitted (some trade_hash) none 1000002 hash_hex tt (omega arith)

-- Another tab, with the same quote, on the same storage.
abbrev other_tab : Panel
other_tab = record panel { storage = reported_panel.storage }

own_wallet :
    (own : Address)
    → ◌≡◌ {A = Option Address} (some trader_address) (some own)
    → to_lower own ≡ to_lower trader_address
own_wallet own e = let same : own ≡ trader_address = ground arith in ap to_lower same

one_trade_at_a_time_example : (submit props 1000003 other_tab).1 ≡ none
one_trade_at_a_time_example =
    one_trade_at_a_time props 1000001 panel submitted reported_panel operation (refl, tt, tt, tt)
      (omega arith) submit_run operation-IsSound reports props 1000003 other_tab refl refl
      own_wallet

abbrev resolution : TradeConfirmation
resolution = record {
  status = Confirm.confirmed;
  hash = trade_hash;
  reason = none;
  recovery = none;
}

final_outcome_releases_example :
    IsReleased operation (apply_resolution resolution operation latest 1000004 reported_panel)
    × ((apply_resolution resolution operation latest 1000004 reported_panel).status
        ≡ State.confirmed)
    × IsCleared (apply_resolution resolution operation latest 1000004 reported_panel)
final_outcome_releases_example =
    final_outcome_releases resolution operation latest 1000004 reported_panel State.confirmed refl
      refl

abbrev sell_record : QuoteRecord
sell_record = record {
  quote = selling (record {
    quote = record {
      reserve_out = 500;
      curve_value = 510;
      protocol_fee = 5;
      creator_fee = 5;
      net_seller_output = some 500;
    };
    token_amount = 1000;
    min_reserve_out = 495;
    slippage_bps = integer (pos 100);
    deadline = 1300;
  });
  created_at = 1000000;
  identity = trade_identity token_address (some trader_address);
  state_fingerprint = trade_state_fingerprint (some state) sell;
  chain_id = some 8453;
}

abbrev sell_panel : Panel
sell_panel = record panel { side = sell; quote_record = some sell_record }

abbrev sale : Operation
sale = record operation { side = sell }

abbrev selling_panel : Panel
selling_panel = (submit props 1000001 sell_panel).0

sell_run : submit props 1000001 sell_panel ≡ (selling_panel, some sale)
unfolding submit is_blocking start check_wallet check_pending check_quote check_balance lacking
    is_outdated begin read_pending_trade read_stored trade_identity trade_state_fingerprint
    to_string text_eq to_lower quote_expires_at side_allowed
sell_run = refl

abbrev failed_panel : Panel
failed_panel =
    submit_failed (new_error (codes "The request timed out.")) sale latest 1000001
      (sell_asked sale latest 1000001 selling_panel)

failed_sell_releases_example : IsReleased sale failed_panel × IsUnlocked failed_panel
failed_sell_releases_example =
    failed_sell_releases props 1000001 sell_panel selling_panel sale latest
      (new_error (codes "The request timed out.")) sell_run refl refl
