-- ===== src/Tests/SwapPanel.antt =====
-- A confirmed run of `submit` of the swap component, and a quote that comes after the amount has
-- changed.
use zonk_fun.Graduated.Component.Swapping.{submit_checked, submit_with, submit}
use zonk_fun.Graduated.Component.Asking.{request_quote}
use zonk_fun.Graduated.Quote.{minimum_output}
use zonk_fun.Graduated.Quote.{quote_graduated_swap}
use zonk_fun.Client.{lift}
use zonk_fun.Client.{catching}
use zonk_fun.Base.{
  ℕ, ◌≡◌, refl, true, false, some, none, ok, codes, integer, pos, text_eq, to_lower, [],
}
use zonk_fun.Client.{buy, Client, Context, ◌>>=◌, call, throw_if, date_now}
use zonk_fun.Graduated.Quote.{Periphery, quote_is_fresh, selected_weth}
use zonk_fun.Graduated.Swap.{orchestrate_graduated_swap}
use zonk_fun.Graduated.Component.{SwapStatus, SwapBalances, SwapPanel, Render, Wallet}
use zonk_fun.Graduated.Component.Course.{submit_releases}
use zonk_fun.Graduated.Component.Confirmed.{confirmed_swap, IsConfirmed}
use zonk_fun.Graduated.Component.{swap_guard}
use zonk_fun.Graduated.Component.Quoted.{IsAsked, requested_quote}
use zonk_fun.Graduated.Quote.{GraduatedQuote}
use zonk_fun.Base.{parse_digits}
use zonk_fun.Tests.World.{
  client, token_address, trader_address, curve_address, factory_address, trade_hash,
}
use zonk_fun.Tests.Swaps.{pool, quote, uniswap}

-- A call beside the state of the component.
abbrev beside : {A : Type 0} → (ℕ → A × ℕ) → SwapPanel × ℕ → A × (SwapPanel × ℕ)
beside f v = let (a, w) = f v.1 in (a, (v.0, w))

abbrev page : Client (SwapPanel × ℕ)
page = record {
  decoder = client.decoder;
  data_suffix = client.data_suffix;
  now = beside client.now;
  sleep = λ _ v. v;
  get_chain_id = beside client.get_chain_id;
  get_bytecode = λ a. beside (client.get_bytecode a);
  curve_of = λ a b. beside (client.curve_of a b);
  sold_supply = λ a. beside (client.sold_supply a);
  active_eth_reserve = λ a. beside (client.active_eth_reserve a);
  graduated = λ a. beside (client.graduated a);
  curve_factory = λ a. beside (client.curve_factory a);
  curve_token = λ a. beside (client.curve_token a);
  curve_creator = λ a. beside (client.curve_creator a);
  get_balance = λ a. beside (client.get_balance a);
  balance_of = λ a b. beside (client.balance_of a b);
  allowance = λ a b s. beside (client.allowance a b s);
  decimals = λ a. beside (client.decimals a);
  quote_buy = λ a n. beside (client.quote_buy a n);
  quote_sell = λ a n. beside (client.quote_sell a n);
  simulate = λ r. beside (client.simulate r);
  write_contract = λ r. beside (client.write_contract r);
  wait_for_receipt = λ h. beside (client.wait_for_receipt h);
  get_receipt = λ h. beside (client.get_receipt h);
  get_transaction = λ h. beside (client.get_transaction h);
  get_block_number = beside client.get_block_number;
  get_transaction_count = λ a. beside (client.get_transaction_count a);
  get_block = λ n. beside (client.get_block n);
}

abbrev wallets : Wallet (SwapPanel × ℕ)
wallets = record {
  send_transaction = λ _ _ v. (ok trade_hash, v);
  simulate_call = λ _ _ v. (ok tt, v);
  execution = λ v. (record { wallet = some trader_address; chain_id = some 8453 }, v);
  encode_approve = λ _ _. [];
  parse_units = λ _ _. ok 500;
  rounded_hundredths = λ _. integer (pos 50);
}

abbrev periphery : Periphery (SwapPanel × ℕ)
periphery = record {
  encode_function_data = λ _. [];
  token0 = λ _ v. (ok selected_weth, v);
  token1 = λ _ v. (ok token_address, v);
  fee = λ _ v. (ok 10000, v);
  factory = λ _ v. (ok factory_address, v);
  weth9 = λ _ v. (ok selected_weth, v);
  quote_exact_input_single = λ _ _ _ _ _ v. (ok 1000, v);
}

abbrev shown : SwapPanel
shown = record {
  side = buy;
  amount = codes "0.0000000000000005";
  slippage = codes "0.50";
  quote = some quote;
  status = SwapStatus.idle;
  error = [];
  hash = none;
  pending = false;
  busy = false;
}

abbrev balances : SwapBalances
balances = record { execution = record { eth = 5000; token = 0; allowance = 0 }; decimals = 18 }

abbrev render : Render
render = record {
  wallet = some trader_address;
  chain_id = some 8453;
  connected = true;
  has_client = true;
  config = some uniswap;
  canonical_pool = some curve_address;
  pool = some pool;
  pool_error = none;
  balances = some balances;
  token = token_address;
  symbol = codes "ZNK";
}

abbrev opened : Context (SwapPanel × ℕ)
opened = record { world = (shown, 0); trace = [] }

abbrev ended : Context (SwapPanel × ℕ)
ended = (submit page wallets periphery render opened).1

run : submit page wallets periphery render opened ≡ (some (ok trade_hash), ended)
unfolding submit submit_with submit_checked ◌>>=◌ call date_now throw_if text_eq to_lower
    quote_is_fresh orchestrate_graduated_swap
run = refl

submit_releases_example :
    (opened.world.0.busy ≡ false) × (ended.world.0.busy ≡ false) × (ended.world.0.pending ≡ false)
submit_releases_example =
    submit_releases page wallets periphery render opened ended (ok trade_hash) run

confirmed_swap_example :
    IsConfirmed page wallets periphery render opened trade_hash
    × (ended.world.0.status ≡ SwapStatus.confirmed)
confirmed_swap_example = confirmed_swap page wallets periphery render opened ended trade_hash run

-- The user types another amount while the quote is awaited.
abbrev typed_over : SwapPanel → SwapPanel
typed_over p = record p { amount = codes "7"; quote = none }

abbrev slow : Periphery (SwapPanel × ℕ)
slow = record periphery {
  quote_exact_input_single = λ _ _ _ _ _ v. (ok 1000, (typed_over v.0, v.1));
}

abbrev parsing : Wallet (SwapPanel × ℕ)
parsing = record wallets { parse_units = λ t _. ok (parse_digits t) }

abbrev typing : Context (SwapPanel × ℕ)
typing = record { world = (record shown { amount = codes "500"; quote = none }, 0); trace = [] }

abbrev quoted : Context (SwapPanel × ℕ)
quoted = (request_quote page parsing slow render typing).1

asking : request_quote page parsing slow render typing ≡ (ok tt, quoted)
unfolding request_quote swap_guard catching ◌>>=◌ lift throw_if parse_digits quote_graduated_swap
    call date_now minimum_output
asking = refl

settled : (quoted.world.0.status ≡ SwapStatus.idle) × (quoted.world.0.amount ≡ codes "7")
unfolding request_quote swap_guard catching ◌>>=◌ lift throw_if parse_digits quote_graduated_swap
    call date_now minimum_output
settled = (refl, refl)

unguarded : swap_guard render ≡ none
unfolding swap_guard
unguarded = refl

requested_quote_example :
    (q : GraduatedQuote) × (quoted.world.0.quote ≡ some q)
    × IsAsked page parsing slow render typing.world.0 pool trader_address q
requested_quote_example =
    requested_quote page parsing slow render pool trader_address typing quoted unguarded refl refl
      asking settled.0
