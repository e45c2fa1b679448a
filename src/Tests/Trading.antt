-- ===== src/Tests/Trading.antt =====
-- A buy, and a sell that needs an approval, submitted and confirmed.
use zonk_fun.Base.{
  ℕ, ◌≡◌, refl, ok, none, integer, pos, some, ◌≤◌, ◌<◌, ◌/◌, ◌*◌, [], ◌∷◌, true, length, text_eq,
  to_lower,
}
use zonk_fun.Client.{
  Context, Request, sell, ◌>>=◌, call, noted, lift, throw_if, date_now, tell, pause,
  simulate_contract, write_contract, with_builder_code, wrote, ready, clock, simulated,
  native_balance, buy_tokens, Address,
}
use zonk_fun.Sdk.Slippage.{min_output_with_slippage, validate_slippage}
use zonk_fun.Sdk.Receipt.{parse_trade_receipt, settled_trade, only_trade, read_trade}
use zonk_fun.Curve.Resolve.{resolve_curve_address, require_curve, resolve_in, present, is_unset}
use zonk_fun.Curve.Quote.{
  BudgetBuyQuote, ProtectedSellQuote, assert_buy_quote_fresh, assert_sell_deadline,
}
use zonk_fun.Curve.Submit.{
  SellState, submit_buy, check_buy, submit_sell, check_sell, read_browser_sell_state,
  raise_allowance, approve_exactly, poll_allowance, wait_for_browser_allowance, send_sell,
  browser_allowance_poll_delays,
}
use zonk_fun.Curve.Submit.BuyTrace.{submitted_buy_course}
use zonk_fun.Curve.Submit.SellTrace.{submitted_sell_course, Opened, Allowed, Sold}
use zonk_fun.Curve.Submit.Polling.{poll_course, Polled}
use zonk_fun.Curve.Confirm.{
  TradeConfirmation, confirm_trade, confirmed, after_wait, resolve_trade_receipt, by_status, verify,
}
use zonk_fun.Curve.Confirm.Verified.{confirmed_is_Verified, IsConfirmed}
use zonk_fun.Tests.World.{
  client, config, hooks, opening, trader_address, token_address, curve_address, trade_hash,
}

abbrev buy_quote : BudgetBuyQuote
buy_quote = record {
  quote = record {
    reserve_in = 500;
    curve_cost = 490;
    protocol_fee = 5;
    creator_fee = 5;
    accepted_gross = some 500;
    net_curve_input = some 490;
    tokens_out = some 1000;
  };
  token_amount = 1000;
  max_reserve_in = 500;
  slippage_bps = integer (pos 100);
  deadline = 1300;
}

abbrev bought : Context ℕ
bought = (submit_buy client config hooks trader_address token_address buy_quote opening).1

buy_run :
    submit_buy client config hooks trader_address token_address buy_quote opening
    ≡ (ok trade_hash, bought)
unfolding submit_buy ◌>>=◌ require_curve resolve_curve_address resolve_in present call is_unset
    text_eq to_lower noted lift throw_if date_now check_buy assert_buy_quote_fresh simulate_contract
    write_contract min_output_with_slippage validate_slippage
buy_run = refl

submitted_buy_course_example :
    (curve : Address) × (least native before after : ℕ) × (prepared : Request)
    × (min_output_with_slippage 1000 (integer (pos 100)) ≡ ok least)
    × (500 ≤ native)
    × (before / 1000 < 1300)
    × (after / 1000 < 1300)
    × (bought.trace
        ≡ wrote (with_builder_code client prepared) trade_hash
          ∷ ready
          ∷ clock after
          ∷ simulated (buy_tokens curve least 1300 trader_address 500) prepared
          ∷ native_balance trader_address native
          ∷ ready
          ∷ clock before
          ∷ [])
submitted_buy_course_example =
    submitted_buy_course client config hooks trader_address token_address buy_quote opening buy_run

abbrev sell_quote : ProtectedSellQuote
sell_quote = record {
  quote = record {
    reserve_out = 500;
    curve_value = 510;
    protocol_fee = 5;
    creator_fee = 5;
    net_seller_output = some 500;
  };
  token_amount = 1000;
  min_reserve_out = 495;
  slippage_bps = integer (pos 100);
  deadline = 1300;
}

abbrev sold : Context ℕ
sold = (submit_sell client config hooks trader_address token_address sell_quote opening).1

sell_run :
    submit_sell client config hooks trader_address token_address sell_quote opening
    ≡ (ok trade_hash, sold)
unfolding submit_sell ◌>>=◌ require_curve resolve_curve_address resolve_in present call is_unset
    text_eq to_lower noted tell throw_if date_now check_sell assert_sell_deadline simulate_contract
    write_contract read_browser_sell_state raise_allowance approve_exactly poll_allowance
    wait_for_browser_allowance send_sell
sell_run = refl

submitted_sell_course_example :
    (curve : Address) × (first last : SellState) × (opened allowed : Context ℕ) × Opened client
      config hooks sell_quote first opening opened
    × Allowed client config hooks trader_address token_address curve sell_quote first opened last
        allowed
    × Sold client hooks trader_address curve sell_quote last trade_hash allowed.trace sold.trace
submitted_sell_course_example =
    submitted_sell_course client config hooks trader_address token_address sell_quote opening
      sell_run

-- The allowance has been given.
abbrev approved : Context ℕ
approved = record { world = 1000; trace = [] }

abbrev polled : Context ℕ
polled =
    (poll_allowance client token_address trader_address curve_address 1000
      browser_allowance_poll_delays true none approved).1

poll_run :
    poll_allowance client token_address trader_address curve_address 1000
      browser_allowance_poll_delays true none approved
    ≡ (ok (record { allowance = 1000; token_balance = 1000 }), polled)
unfolding poll_allowance read_browser_sell_state ◌>>=◌ call tell pause
poll_run = refl

poll_course_example :
    Polled 1000
      (2 * length browser_allowance_poll_delays)
      []
      (record { allowance = 1000; token_balance = 1000 })
      polled.trace
poll_course_example =
    poll_course client token_address trader_address curve_address 1000 browser_allowance_poll_delays
      true none approved poll_run

abbrev confirmation : TradeConfirmation
confirmation = record { status = confirmed; hash = trade_hash; reason = none; recovery = none }

abbrev settled : Context ℕ
settled = (confirm_trade client config trade_hash sell token_address trader_address none opening).1

confirm_run :
    confirm_trade client config trade_hash sell token_address trader_address none opening
    ≡ (ok confirmation, settled)
unfolding confirm_trade ◌>>=◌ require_curve resolve_curve_address resolve_in present call is_unset
    text_eq to_lower lift throw_if after_wait resolve_trade_receipt by_status verify
    parse_trade_receipt settled_trade only_trade read_trade
confirm_run = refl

confirmed_is_Verified_example :
    IsConfirmed client config trade_hash sell token_address trader_address confirmation
confirmed_is_Verified_example =
    confirmed_is_Verified client config trade_hash sell token_address trader_address none opening
      confirm_run refl
