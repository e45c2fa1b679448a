-- ===== src/Tests/DevBuy.antt =====
-- A creator's buy that the balance does not cover.
use zonk_fun.Base.{
  ℕ, ◌≡◌, ◌⊎◌, refl, ok, true, false, Option, none, [], Text, codes, text_eq, to_lower, matches_ci,
  includes,
}
use zonk_fun.Client.{Client, ◌>>=◌, call, noted, lift, throw_if, date_now}
use zonk_fun.Curve.Resolve.{
  resolve_curve_address, require_curve, resolve_in, present, is_unset, for_account,
  read_trade_state,
}
use zonk_fun.Curve.Quote.{
  assert_buy_quote_fresh, quote_buy_by_budget, read_buy_quote, transaction_deadline,
}
use zonk_fun.Curve.Submit.{submit_buy, check_buy, short_of_eth}
use zonk_fun.DevBuy.{
  DevBuyInput, DevBuyAttemptError, failed, failure_of, tell_status, reporting, submit_dev_buy,
  settle_dev_buy, execute_dev_buy,
}
use zonk_fun.DevBuy.Writes.{IsUnanswered}
use zonk_fun.DevBuy.Retry.{retryable_failure, IsReverted}
use zonk_fun.Tests.World.{client, config, opening, token_address, trader_address, trade_hash}

abbrev poor_client : Client ℕ
poor_client = record client { get_balance = λ _ w. (ok 0, w) }

abbrev input : DevBuyInput ℕ
input = record {
  token_address = token_address;
  creator_address = trader_address;
  amount = 500;
  creation_hash = trade_hash;
  report = λ _ _ w. w;
}

abbrev failure : DevBuyAttemptError
failure = record {
  message = codes "The connected wallet has insufficient ETH for this buy.";
  retryable = true;
  buy_hash = none;
  rejected = false;
}

dev_buy_run : (execute_dev_buy poor_client config input opening).0 ≡ failed failure
unfolding execute_dev_buy settle_dev_buy submit_dev_buy tell_status reporting failure_of ◌>>=◌ call
    noted lift throw_if date_now resolve_curve_address require_curve resolve_in present is_unset
    for_account read_trade_state assert_buy_quote_fresh quote_buy_by_budget read_buy_quote
    transaction_deadline submit_buy check_buy short_of_eth text_eq to_lower matches_ci includes
dev_buy_run = refl

retryable_failure_example :
    (IsUnanswered [] (execute_dev_buy poor_client config input opening).1.trace
      × (◌≡◌ {A = Option Text} none none))
    ⊎ IsReverted poor_client config input [] failure
retryable_failure_example =
    retryable_failure poor_client config input opening failure dev_buy_run refl
