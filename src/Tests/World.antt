-- ===== src/Tests/World.antt =====
-- A chain with one curve, one token and one trader, and a wallet that answers every call. The world
-- is the allowance that the trader has given to the curve; what is written sets it.
use zonk_fun.Base.{
  ℕ, ◌*◌, ◌^◌, Bool, List, [], ◌∷◌, none, some, Text, codes, ok, replicate, ◌==◌, if◌then◌else◌,
}
use zonk_fun.Client.{
  Address, Hash, Client, Decoder, Transaction, Receipt, TradeLog, LaunchLog, success, full, Context,
  BlockEntry,
}
use zonk_fun.Curve.Resolve.{Config}
use zonk_fun.Curve.Submit.{Hooks}

-- An address, or a hash, of one repeated digit.
abbrev pub digits : ℕ → ℕ → Text
digits n d = b'0' ∷ b'x' ∷ replicate n d

abbrev pub token_address : Address
token_address = digits 40 b'1'

abbrev pub trader_address : Address
trader_address = digits 40 b'2'

abbrev pub curve_address : Address
curve_address = digits 40 b'3'

abbrev pub factory_address : Address
factory_address = digits 40 b'4'

abbrev pub trade_hash : Hash
trade_hash = digits 64 b'5'

abbrev pub other_hash : Hash
other_hash = digits 64 b'6'

abbrev pub trade_log : TradeLog
trade_log = record {
  address = curve_address;
  token = token_address;
  trader = trader_address;
  token_amount = 1000;
  gross = 500;
  net = 490;
  protocol_fee = 5;
  creator_fee = 5;
  total_fee = 10;
  community_fee = 0;
  trader_rewards_fee = 0;
}

abbrev pub launch_log : LaunchLog
launch_log = record {
  address = factory_address;
  token = token_address;
  curve = curve_address;
  creator = trader_address;
  protocol_version = codes "endpoint-cp-v3";
  total_supply = 1000000000 * 10 ^ 18;
  curve_allocation = 800000000 * 10 ^ 18;
  lp_allocation = 200000000 * 10 ^ 18;
  canonical_pool = factory_address;
}

abbrev pub decoder : Decoder
decoder = record {
  get_address = λ a. a;
  bought_logs = λ _. trade_log ∷ [];
  sold_logs = λ _. trade_log ∷ [];
  launch_logs = λ _. launch_log ∷ [];
}

abbrev pub trade_receipt : Receipt
trade_receipt = record { status = success; transaction_hash = trade_hash; logs = [] }

abbrev pub trade_transaction : Transaction
trade_transaction = record {
  from = trader_address;
  nonce = 7;
  to = some curve_address;
  sent = 0;
  input = codes "0x";
  hash = other_hash;
  block_number = some 300;
}

-- Block 300 holds the one transaction.
abbrev pub entries_of : ℕ → List BlockEntry
entries_of n = if n == 300 then full trade_transaction ∷ [] else []

abbrev pub client : Client ℕ
client = record {
  decoder = decoder;
  data_suffix = codes "0xab";
  now = λ w. (1000000, w);
  sleep = λ _ w. w;
  get_chain_id = λ w. (ok 8453, w);
  get_bytecode = λ _ w. (ok (some (codes "0x60")), w);
  curve_of = λ _ _ w. (ok (some curve_address), w);
  sold_supply = λ _ w. (ok 0, w);
  active_eth_reserve = λ _ w. (ok 0, w);
  graduated = λ _ w. (ok Bool.false, w);
  curve_factory = λ _ w. (ok factory_address, w);
  curve_token = λ _ w. (ok token_address, w);
  curve_creator = λ _ w. (ok trader_address, w);
  get_balance = λ _ w. (ok 5000, w);
  balance_of = λ _ _ w. (ok 1000, w);
  allowance = λ _ _ _ w. (ok w, w);
  decimals = λ _ w. (ok 18, w);
  quote_buy = λ _ amount w. (
    ok (record {
      accepted_gross = amount;
      net_curve_input = amount;
      protocol_fee = 0;
      creator_fee = 0;
      tokens_out = amount;
    }),
    w,
  );
  quote_sell = λ _ amount w. (
    ok (record {
      gross_curve_output = amount;
      net_seller_output = amount;
      protocol_fee = 0;
      creator_fee = 0;
    }),
    w,
  );
  simulate = λ r w. (ok r, w);
  write_contract = λ _ _. (ok trade_hash, 1000);
  wait_for_receipt = λ _ w. (ok (trade_receipt, none), w);
  get_receipt = λ _ w. (ok trade_receipt, w);
  get_transaction = λ _ w. (ok trade_transaction, w);
  get_block_number = λ w. (ok 500, w);
  get_transaction_count = λ _ w. (ok 8, w);
  get_block = λ n w. (ok (entries_of n), w);
}

abbrev pub config : Config
config = record { zonk_factory = some factory_address; zonk_curve = none; chain_id = 8453 }

abbrev pub hooks : Hooks ℕ
hooks = record {
  assert_ready = λ w. (ok tt, w);
  on_approval_requested = λ w. (ok tt, w);
  on_approval_submitted = λ _ w. (ok tt, w);
  on_approval_confirmed = λ _ w. (ok tt, w);
  on_sell_preparing = λ w. (ok tt, w);
  on_sell_requested = λ w. (ok tt, w);
}

-- No allowance has been given.
abbrev pub opening : Context ℕ
opening = record { world = 0; trace = [] }
