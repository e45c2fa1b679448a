-- ===== src/Tests/Session.antt =====
-- A sell that is executed from the panel's quote to its confirmation.
use zonk_fun.Base.{ℕ, ok, true, some, none, integer, pos}
use zonk_fun.Client.{Context}
use zonk_fun.Curve.Confirm.{TradeConfirmation, confirmed}
use zonk_fun.Panel.State.{Quote, selling}
use zonk_fun.Session.{ActiveWallet, Callbacks, execute}
use zonk_fun.Tests.World.{client, config, opening, token_address, trader_address, trade_hash}

abbrev active : ActiveWallet
active = record {
  active_address = some trader_address;
  active_chain_id = some 8453;
  has_client = true;
}

abbrev callbacks : Callbacks ℕ
callbacks = record { report = λ _ _ _ w. (ok tt, w); assert_submission_ready = λ w. (ok tt, w) }

abbrev quote : Quote
quote = selling (record {
  quote = record {
    reserve_out = 500;
    curve_value = 510;
    protocol_fee = 5;
    creator_fee = 5;
    net_seller_output = some 500;
  };
  token_amount = 1000;
  min_reserve_out = 495;
  slippage_bps = integer (pos 100);
  deadline = 1300;
})

abbrev confirmation : TradeConfirmation
confirmation = record { status = confirmed; hash = trade_hash; reason = none; recovery = none }

abbrev executed : Context ℕ
executed = (execute client config token_address active callbacks quote opening).1
