-- ===== src/Tests/Launch.antt =====
-- A launch with a first buy, whose token the index knows at the second question.
use zonk_fun.Base.{
  ℕ, ◌≡◌, refl, arith, [], ok, true, false, Option, none, some, codes, text_eq, to_lower, trim,
  is_space, is_digits, digits_from, parse_digits, before_dot, after_dot, includes, ◌==◌,
  if◌then◌else◌,
}
use zonk_fun.Client.{
  ◌>>=◌, call, noted, lift, throw_if, pause, date_now, simulate_contract, write_contract, tell,
}
use zonk_fun.Sdk.Receipt.{
  supported_version, read_launch, only_launch, settled_launch, parse_token_launched_receipt,
  parse_trade_receipt, settled_trade, only_trade, read_trade,
}
use zonk_fun.Sdk.Slippage.{min_output_with_slippage, validate_slippage}
use zonk_fun.Curve.Resolve.{
  resolve_curve_address, require_curve, resolve_in, present, is_unset, for_account,
  read_trade_state, submit_create_token, confirm_created_token,
}
use zonk_fun.Curve.Quote.{
  assert_buy_quote_fresh, quote_buy_by_budget, read_buy_quote, transaction_deadline,
}
use zonk_fun.Curve.Submit.{submit_buy, check_buy}
use zonk_fun.Curve.Confirm.{confirm_trade, after_wait, resolve_trade_receipt, by_status, verify}
use zonk_fun.DevBuy.{
  tell_status, reporting, submit_dev_buy, conclude_dev_buy, confirm_dev_buy, settle_dev_buy,
  execute_dev_buy,
}
use zonk_fun.Inputs.{is_decimal, padded_fraction, dev_buy_of, parse_dev_buy_amount}
use zonk_fun.Session.{ActiveWallet}
use zonk_fun.Launch.{
  CreateTokenInput, Page, Response, file, launched, tell_page, telling, mutation, ask,
  upload_metadata, after_finalize, finalize_within, finish_creation, create_token, buy_first,
  launch_for, launch,
}
use zonk_fun.Launch.Indexing.{late_index_found, IsIndexedAfter}
use zonk_fun.Launch.Outcome.{IsCourse, launch-IsCourse}
use zonk_fun.Tests.World.{client, config, opening, token_address, trader_address, trade_hash}

abbrev active : ActiveWallet
active = record {
  active_address = some trader_address;
  active_chain_id = some 8453;
  has_client = true;
}

abbrev input : CreateTokenInput
input = record {
  name = codes " Zonk ";
  symbol = codes "ZNK";
  description = codes "";
  website_url = codes "";
  x_url = codes "";
  telegram_url = codes "";
  discord_url = codes "";
  image_file = some (record { mime = codes "image/png"; size = 3; contents = codes "png" });
  image_url = codes "";
  image_source = file;
  dev_buy_eth = codes "0.000000000000000500";
}

-- The world is the allowance of `World`; the page's own state is its last value.
abbrev finalized : ℕ → Option (Response (Unit {0})) × ℕ
finalized w =
    if w == 7
    then (some (record { is_ok = true; status = 200; parsed_error = none; parsed = some tt }), 7)
    else (
      some (record {
        is_ok = false;
        status = 404;
        parsed_error = some (codes "not_indexed", codes "Not indexed yet.");
        parsed = none;
      }),
      7,
    )

abbrev page : Page ℕ
page = record {
  upload = λ _ w. (
    some
        (record { is_ok = true; status = 200; parsed_error = none; parsed = some (codes "draft") }),
    w,
  );
  finalize = λ _ _ _ w. finalized w;
  user_salt = λ w. (ok (codes "0x07"), w);
  report = λ _ w. w;
}

launch_run :
    (launch client config page active input opening).0
    ≡ launched (record {
      token_address = token_address;
      hash = trade_hash;
      dev_buy_hash = some trade_hash;
    })
unfolding launch launch_for create_token finish_creation finalize_within after_finalize ask mutation
    upload_metadata telling tell_page buy_first submit_create_token confirm_created_token
    execute_dev_buy settle_dev_buy submit_dev_buy conclude_dev_buy confirm_dev_buy tell_status
    reporting parse_dev_buy_amount dev_buy_of padded_fraction is_decimal read_launch only_launch
    settled_launch parse_token_launched_receipt parse_trade_receipt settled_trade only_trade
    read_trade min_output_with_slippage validate_slippage ◌>>=◌ call noted lift throw_if pause
    date_now simulate_contract write_contract tell resolve_curve_address require_curve resolve_in
    present is_unset for_account read_trade_state assert_buy_quote_fresh quote_buy_by_budget
    read_buy_quote transaction_deadline submit_buy check_buy confirm_trade after_wait
    resolve_trade_receipt by_status verify text_eq to_lower trim is_space is_digits digits_from
    parse_digits before_dot after_dot includes supported_version
launch_run = refl

launch-IsCourse_example :
    IsCourse client config page
      (some trader_address)
      input
      (launch client config page active input opening)
launch-IsCourse_example = launch-IsCourse client config page active input opening

late :
    IsIndexedAfter client config page
      (codes "draft")
      token_address
      trade_hash
      1
      (record { world = 1000; trace = [] })
unfolding IsIndexedAfter ask mutation pause text_eq
late = (_, refl, refl, refl)

late_index_found_example :
    (finalize_within client config page 60
      (codes "draft")
      token_address
      trade_hash
      (record { world = 1000; trace = [] })).0
    ≡ ok true
late_index_found_example =
    late_index_found client config page (codes "draft") token_address trade_hash 60 1
      (record { world = 1000; trace = [] }) (omega arith) late
