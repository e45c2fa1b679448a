-- ===== src/Graduated/Quote.antt =====
-- `minimumOutput`, `quoteIsFresh`, `validateCanonicalPool`, `quoteGraduatedSwap` and
-- `buildGraduatedSwapTransaction`. `Periphery` is what they read of the deployed Uniswap contracts,
-- and viem's `encodeFunctionData`.
pub mod Laws
use zonk_fun.Base.{
  ℕ, ◌+◌, ◌-◌, ◌*◌, ◌/◌, Bool, true, false, not, ◌&&◌, ◌||◌, List, [], ◌∷◌, Option, none, some,
  Text, codes, ◌++◌, text_eq, to_lower, Result, ok, err, new_error, Number, is_integer, is_negative,
  bigint, ltb, leb, ◌==◌, any, if◌then◌else◌,
}
use zonk_fun.Client.{
  Address, Side, buy, sell, Client, Action, pure, throw, lift, call, ◌>>=◌, ◌>>◌, throw_if,
  date_now,
}

abbrev pub quote_ttl_ms : ℕ
quote_ttl_ms = 60000

abbrev pub canonical_pool_fee : ℕ
canonical_pool_fee = 10000

abbrev pub selected_zonk_chain_id : ℕ
selected_zonk_chain_id = 8453

abbrev pub contract_balance : ℕ
contract_balance = 0

unfoldable pub selected_weth : Address
selected_weth = codes "0x4200000000000000000000000000000000000006"

-- `UniswapV3Config`, the value that `configuredUniswapV3` gives.
pub record UniswapV3Config : Type 0 where
  pub quoter : Address
  pub router : Address
  pub factory : Address

pub record ValidatedPool : Type 0 where
  pub config : UniswapV3Config
  pub open config use *
  pub pool : Address
  pub token : Address
  pub token0 : Address
  pub token1 : Address

pub record GraduatedQuote : Type 0 where
  pub side : Side
  pub amount_in : ℕ
  pub amount_out : ℕ
  pub minimum_out : ℕ
  pub slippage_bps : Number
  pub created_at : ℕ
  pub deadline : ℕ
  pub pool : Address
  pub wallet : Address
  pub chain_id : ℕ

-- The argument of `exactInputSingle`.
pub record SwapParams : Type 0 where
  pub token_in : Address
  pub token_out : Address
  pub fee : ℕ
  pub recipient : Address
  pub amount_in : ℕ
  pub amount_out_minimum : ℕ
  pub sqrt_price_limit : ℕ

-- The calls of the router that are encoded; `multicall` holds encoded calls.
pub data RouterCall : Type 0 where
  wrap_eth : ℕ → RouterCall
  exact_input_single : SwapParams → RouterCall
  unwrap_weth9 : (minimum : ℕ) (recipient : Address) → RouterCall
  multicall : (deadline : ℕ) → List Text → RouterCall

pub record GraduatedSwapTransaction : Type 0 where
  pub to : Address
  pub payload : Text
  pub sent : ℕ

-- What is read of a pool and of the periphery.
pub record PoolLinks : Type 0 where
  pub token0 : Address
  pub token1 : Address
  pub fee : ℕ
  pub factories : List Address
  pub weths : List Address

pub record Periphery (W : Type 0) : Type 0 where
  pub encode_function_data : RouterCall → Text
  pub token0 : Address → W → Result Address × W
  pub token1 : Address → W → Result Address × W
  pub fee : Address → W → Result ℕ × W
  pub factory : Address → W → Result Address × W
  pub weth9 : Address → W → Result Address × W
  pub quote_exact_input_single :
      (quoter token_in token_out : Address) (amount_in fee : ℕ) → W → Result ℕ × W

unfoldable pub no_output : Text
no_output = codes "Quoted output must be greater than zero."

unfoldable pub bad_slippage : Text
bad_slippage = codes "Slippage must be between 0.01% and 20%."

unfoldable pub minimum_output : ℕ → Number → Result ℕ
minimum_output amount_out slippage_bps =
    if amount_out == 0
    then err (new_error no_output)
    else if not (is_integer slippage_bps)
        || is_negative slippage_bps
        || ltb (bigint slippage_bps) 1
        || ltb 2000 (bigint slippage_bps)
    then err (new_error bad_slippage)
    else ok (amount_out * (10000 - bigint slippage_bps) / 10000)

-- `now - createdAt < QUOTE_TTL_MS` also holds where the clock went back, as it does here.
unfoldable pub quote_is_fresh : GraduatedQuote → Address → Address → ℕ → ℕ → Bool
quote_is_fresh quote wallet pool chain_id now =
    text_eq (to_lower quote.wallet) (to_lower wallet)
    && text_eq (to_lower quote.pool) (to_lower pool)
    && (quote.chain_id == chain_id)
    && ltb (now - quote.created_at) quote_ttl_ms
    && ltb (now / 1000) quote.deadline

-- `!code || code === "0x"`.
abbrev no_code : Option Text → Bool
no_code none = true
no_code (some []) = true
no_code (some (c ∷ code)) = text_eq (c ∷ code) (codes "0x")

-- The tests on the two tokens of the pool, in lower case: `new Set([…])` has two elements, and they
-- are WETH and the token.
abbrev pub is_pair_of : (token0 token1 weth token : Text) → Bool
is_pair_of token0 token1 weth token =
    not (text_eq token0 token1)
    && (text_eq token0 weth || text_eq token1 weth)
    && (text_eq token0 token || text_eq token1 token)

abbrev pub token_in_of : ValidatedPool → Side → Address
token_in_of pool buy = selected_weth
token_in_of pool sell = pool.token

abbrev pub token_out_of : ValidatedPool → Side → Address
token_out_of pool buy = pool.token
token_out_of pool sell = selected_weth

-- `buildGraduatedSwapTransaction`, by the side of the quote.
unfoldable pub swap_params : Side → ValidatedPool → GraduatedQuote → Address → SwapParams
swap_params buy pool quote recipient = record {
  token_in = selected_weth;
  token_out = pool.token;
  fee = canonical_pool_fee;
  recipient = recipient;
  amount_in = contract_balance;
  amount_out_minimum = quote.minimum_out;
  sqrt_price_limit = 0;
}
swap_params sell pool quote recipient = record {
  token_in = pool.token;
  token_out = selected_weth;
  fee = canonical_pool_fee;
  recipient = pool.router;
  amount_in = quote.amount_in;
  amount_out_minimum = quote.minimum_out;
  sqrt_price_limit = 0;
}

module _ {W : Type 0} (client : Client W) (periphery : Periphery W) where
  -- `getAddress(address).toLowerCase()`.
  abbrev pub lowered : Address → Text
  lowered a = to_lower (client.decoder.get_address a)

  -- The bytecode tests. `Promise.all` starts its reads together; they change nothing, and are made
  -- in order here.
  unfoldable pub check_bytecode : UniswapV3Config → Address → Action W (Unit {0})
  check_bytecode config pool = do
    pool_code ← call (client.get_bytecode pool)
    quoter_code ← call (client.get_bytecode config.quoter)
    router_code ← call (client.get_bytecode config.router)
    factory_code ← call (client.get_bytecode config.factory)
    weth_code ← call (client.get_bytecode selected_weth)
    throw_if (no_code pool_code)
        (new_error (codes "The indexed canonical pool has no deployed bytecode on Base."))
    throw_if (no_code quoter_code)
        (new_error (codes "Configured QuoterV2 has no deployed bytecode on Base."))
    throw_if (no_code router_code)
        (new_error (codes "Configured SwapRouter02 has no deployed bytecode on Base."))
    throw_if (no_code factory_code || no_code weth_code) (
        new_error
          (codes "Configured canonical Uniswap dependency has no deployed bytecode on Base."))

  -- The eight reads of the pool and the periphery.
  unfoldable pub read_links : UniswapV3Config → Address → Action W PoolLinks
  read_links config pool = do
    token0 ← call (periphery.token0 pool)
    token1 ← call (periphery.token1 pool)
    fee ← call (periphery.fee pool)
    factory ← call (periphery.factory pool)
    quoter_factory ← call (periphery.factory config.quoter)
    quoter_weth ← call (periphery.weth9 config.quoter)
    router_factory ← call (periphery.factory config.router)
    router_weth ← call (periphery.weth9 config.router)
    pure (record {
      token0 = token0;
      token1 = token1;
      fee = fee;
      factories = factory ∷ quoter_factory ∷ router_factory ∷ [];
      weths = quoter_weth ∷ router_weth ∷ [];
    })

  unfoldable pub check_links : UniswapV3Config → Address → PoolLinks → Action W (Unit {0})
  check_links config token links = do
    throw_if
        (not (
          is_pair_of (lowered links.token0) (lowered links.token1) (to_lower selected_weth)
            (lowered token)))
        (new_error
          (codes "The canonical pool token pair is not exactly WETH and this graduated token."))
    throw_if (not (links.fee == canonical_pool_fee))
        (new_error (codes "The canonical pool must use the 1% Uniswap V3 fee tier."))
    throw_if (any (λ a. not (text_eq (lowered a) (to_lower config.factory))) links.factories) (
        new_error (
          codes
            "The pool or configured periphery is not linked to the selected chain's canonical Uniswap V3 factory."))
    throw_if (any (λ a. not (text_eq (lowered a) (to_lower selected_weth))) links.weths)
        (new_error (codes "Configured periphery is not linked to Base WETH."))

  -- The argument is what `configuredUniswapV3()` gives.
  unfoldable pub validate_canonical_pool :
      Option UniswapV3Config → Address → Address → Action W ValidatedPool
  unfolding check_bytecode read_links check_links
  validate_canonical_pool none pool token =
      throw (new_error (codes "Uniswap V3 configuration is unavailable for Base."))
  validate_canonical_pool (some config) pool token = do
    check_bytecode config pool
    links ← read_links config pool
    check_links config token links
    pure (record {
      config = config;
      pool = client.decoder.get_address pool;
      token = client.decoder.get_address token;
      token0 = client.decoder.get_address links.token0;
      token1 = client.decoder.get_address links.token1;
    })

  unfoldable pub quote_graduated_swap :
      ValidatedPool → Side → ℕ → Number → Address → Action W GraduatedQuote
  quote_graduated_swap pool side amount_in slippage_bps wallet = do
    throw_if (amount_in == 0) (new_error (codes "Enter an amount greater than zero."))
    amount_out ← call (
        periphery.quote_exact_input_single pool.quoter (token_in_of pool side)
          (token_out_of pool side) amount_in canonical_pool_fee)
    now ← date_now client
    least ← lift (minimum_output amount_out slippage_bps)
    pure (record {
      side = side;
      amount_in = amount_in;
      amount_out = amount_out;
      minimum_out = least;
      slippage_bps = slippage_bps;
      created_at = now;
      deadline = now / 1000 + 300;
      pool = pool.pool;
      wallet = wallet;
      chain_id = selected_zonk_chain_id;
    })

  unfoldable pub build_for :
      Side → ValidatedPool → GraduatedQuote → Address → GraduatedSwapTransaction
  unfolding swap_params
  build_for buy pool quote recipient = record {
    to = pool.router;
    payload = periphery.encode_function_data (
        multicall quote.deadline (
          periphery.encode_function_data (wrap_eth quote.amount_in)
          ∷ periphery.encode_function_data
              (exact_input_single (swap_params buy pool quote recipient))
          ∷ []));
    sent = quote.amount_in;
  }
  build_for sell pool quote recipient = record {
    to = pool.router;
    payload = periphery.encode_function_data (
        multicall quote.deadline (
          periphery.encode_function_data
            (exact_input_single (swap_params sell pool quote recipient))
          ∷ periphery.encode_function_data (unwrap_weth9 quote.minimum_out recipient)
          ∷ []));
    sent = 0;
  }

  unfoldable pub build_graduated_swap_transaction :
      ValidatedPool → GraduatedQuote → Address → GraduatedSwapTransaction
  unfolding build_for
  build_graduated_swap_transaction pool quote recipient = build_for quote.side pool quote recipient
