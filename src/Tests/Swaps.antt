-- ===== src/Tests/Swaps.antt =====
-- A validated pool, a quote on it.
use zonk_fun.Base.{
  ℕ, ◌≡◌, ◌≢◌, ◌⊎◌, refl, arith, some, ok, integer, pos, ◌<◌, ◌-◌, ltb, [], to_lower, text_eq,
}
use zonk_fun.Client.{buy, Context, ◌>>=◌, call, lift, throw_if, date_now}
use zonk_fun.Sdk.Slippage.{min_output_with_slippage}
use zonk_fun.Graduated.Quote.{
  Periphery, UniswapV3Config, ValidatedPool, GraduatedQuote, minimum_output, quote_is_fresh,
  validate_canonical_pool, check_bytecode, read_links, check_links, quote_graduated_swap,
  selected_weth, selected_zonk_chain_id, quote_ttl_ms,
}
use zonk_fun.Graduated.Quote.Laws.{minimum_output_agrees, quote_lifetime, validated_pair}
use zonk_fun.Tests.World.{
  client, opening, token_address, trader_address, curve_address, factory_address,
}

minimum_output_agrees_example :
    (m : ℕ) × (minimum_output 1000 (integer (pos 50)) ≡ ok m)
    × (min_output_with_slippage 1000 (integer (pos 50)) ≡ ok m)
    × (m < 1000)
minimum_output_agrees_example =
    minimum_output_agrees 1000 50 (omega arith) (omega arith) (omega arith)

abbrev periphery : Periphery ℕ
periphery = record {
  encode_function_data = λ _. [];
  token0 = λ _ w. (ok selected_weth, w);
  token1 = λ _ w. (ok token_address, w);
  fee = λ _ w. (ok 10000, w);
  factory = λ _ w. (ok factory_address, w);
  weth9 = λ _ w. (ok selected_weth, w);
  quote_exact_input_single = λ _ _ _ _ _ w. (ok 1000, w);
}

abbrev pub uniswap : UniswapV3Config
uniswap = record { quoter = trader_address; router = trader_address; factory = factory_address }

abbrev pub pool : ValidatedPool
pool = record {
  config = uniswap;
  pool = curve_address;
  token = token_address;
  token0 = selected_weth;
  token1 = token_address;
}

pool_run :
    validate_canonical_pool client periphery (some uniswap) curve_address token_address opening
    ≡ (ok pool, opening)
unfolding validate_canonical_pool ◌>>=◌ call throw_if check_bytecode read_links check_links text_eq
    to_lower selected_weth
pool_run = refl

not_weth : to_lower token_address ≢ to_lower selected_weth
unfolding selected_weth to_lower
not_weth = λ h. ground arith

validated_pair_example :
    ((to_lower selected_weth ≡ to_lower selected_weth)
      × (to_lower token_address ≡ to_lower token_address))
    ⊎ ((to_lower selected_weth ≡ to_lower token_address)
        × (to_lower token_address ≡ to_lower selected_weth))
validated_pair_example =
    validated_pair client periphery (some uniswap) curve_address token_address opening opening pool
      pool_run not_weth

abbrev pub quote : GraduatedQuote
quote = record {
  side = buy;
  amount_in = 500;
  amount_out = 1000;
  minimum_out = 995;
  slippage_bps = integer (pos 50);
  created_at = 1000000;
  deadline = 1300;
  pool = curve_address;
  wallet = trader_address;
  chain_id = 8453;
}

abbrev quoted : Context ℕ
quoted =
    (quote_graduated_swap client periphery pool buy 500 (integer (pos 50)) trader_address opening).1

quote_run :
    quote_graduated_swap client periphery pool buy 500 (integer (pos 50)) trader_address opening
    ≡ (ok quote, quoted)
unfolding quote_graduated_swap ◌>>=◌ call throw_if lift date_now minimum_output selected_weth
quote_run = refl

quote_lifetime_example :
    quote_is_fresh quote trader_address curve_address selected_zonk_chain_id 1059999
    ≡ ltb (1059999 - 1000000) quote_ttl_ms
quote_lifetime_example =
    quote_lifetime client periphery pool buy 500 (integer (pos 50)) trader_address opening quoted
      quote quote_run trader_address curve_address 1059999 refl refl
