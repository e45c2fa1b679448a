-- ===== src/Curve/Resolve.antt =====
-- `resolveCurveAddress`, and the reads of contracts.ts that only collect values: `readTradeState`,
-- `readCurveAvailability`, `confirmCreatedToken`, `submitCreateToken`.
pub mod Quiet
pub mod Answer
use zonk_fun.Base.{
  ℕ, ◌*◌, ◌^◌, Bool, true, false, not, ◌||◌, List, [], ◌∷◌, ◌++◌, Option, none, some, Text, codes,
  text_eq, to_lower, includes, to_string, message_or_string, Thrown, error, value, new_error,
  Number, ◌==◌, if◌then◌else◌, Result, ok, err,
}
use zonk_fun.Client.{
  Address, Hash, Receipt, create_token, Client, Action, pure, throw, lift, call, catching, ◌>>=◌,
  ◌>>◌, throw_if, simulate_contract, write_contract,
}
use zonk_fun.Sdk.Receipt.{TokenLaunched, parse_token_launched_receipt, is_empty, same_address}

-- `contractAddresses`, as far as the trading functions read it.
pub record Config : Type 0 where
  pub zonk_factory : Option Address
  pub zonk_curve : Option Address
  pub chain_id : ℕ

unfoldable pub no_factory : Text
no_factory = codes "Factory address is not configured."

unfoldable pub no_curve : Text
no_curve = codes "Curve address is not configured for this token."

abbrev pub zero_address : Text
zero_address = codes "0x0000000000000000000000000000000000000000"

-- `!curve || /^0x0{40}$/i.test(curve)`.
unfoldable pub is_unset : Option Address → Bool
is_unset none = true
is_unset (some curve) = is_empty curve || text_eq (to_lower curve) zero_address

abbrev pub curve_allocation : ℕ
curve_allocation = 800000000 * 10 ^ 18

pub record CurveTradeState : Type 0 where
  pub curve_supply : ℕ
  pub sold_supply : ℕ
  pub reserve_balance : ℕ
  pub graduation_threshold : ℕ
  pub lifecycle : ℕ
  pub native_balance : ℕ
  pub token_balance : ℕ
  pub allowance : ℕ
  pub decimals : ℕ

-- `{ address, state: { graduated, creator } }`.
pub record Availability : Type 0 where
  pub address : Address
  pub graduated : Bool
  pub creator : Address

-- `isCurveNotFound`.
unfoldable pub is_curve_not_found : Thrown → Bool
is_curve_not_found e =
    includes (codes "0xf3295903") (message_or_string e)
    || includes (codes "CurveNotFound") (message_or_string e)

module _ {W : Type 0} (client : Client W) (config : Config) where
  unfoldable pub resolve_in : Option Address → Option Address → Address → Action W (Option Address)
  resolve_in (some curve) factory token = pure (some curve)
  resolve_in none none token = pure none
  resolve_in none (some factory) token = call (client.curve_of factory token) >>= λ curve.
      pure (if is_unset curve then none else curve)

  unfoldable pub resolve_curve_address : Address → Action W (Option Address)
  unfolding resolve_in
  resolve_curve_address token = resolve_in config.zonk_curve config.zonk_factory token

  -- `if (!curve) throw new Error(…);` behind the resolution.
  unfoldable pub present : Option Address → Action W Address
  present none = throw (new_error no_curve)
  present (some curve) = pure curve

  unfoldable pub require_curve : Address → Action W Address
  unfolding present
  require_curve token = resolve_curve_address token >>= present

  unfoldable pub for_account : Option Address → (Address → Action W ℕ) → Action W ℕ
  for_account none read = pure 0
  for_account (some account) read = read account

  -- The reads of the `Promise.all` in order: it rejects with one that fails.
  unfoldable pub read_trade_state : Address → Option Address → Action W CurveTradeState
  unfolding for_account
  read_trade_state token account = do
    curve ← require_curve token
    sold ← call (client.sold_supply curve)
    reserve ← call (client.active_eth_reserve curve)
    graduated ← call (client.graduated curve)
    native ← for_account account (λ a. call (client.get_balance a))
    tokens ← for_account account (λ a. call (client.balance_of token a))
    allowed ← for_account account (λ a. call (client.allowance token a curve))
    places ← call (client.decimals token)
    pure (record {
      curve_supply = curve_allocation;
      sold_supply = sold;
      reserve_balance = reserve;
      graduation_threshold = curve_allocation;
      lifecycle = if graduated then 2 else 0;
      native_balance = native;
      token_balance = tokens;
      allowance = allowed;
      decimals = places;
    })

  -- `!code || code === "0x"`.
  abbrev no_code : Option Text → Bool
  no_code none = true
  no_code (some code) = is_empty code || text_eq code (codes "0x")

  -- The body of the `try` in `readCurveAvailability` behind the resolution. The messages keep their
  -- fixed parts.
  check_curve : Address → Address → Option Address → Action W (Option Availability)
  check_curve factory token none = pure none
  check_curve factory token (some curve) = do
    code ← call (client.get_bytecode curve)
    throw_if (no_code code) (
        new_error (
          codes "Factory resolved "
          ++ curve
          ++ codes ", but no curve bytecode exists there on Base Mainnet."))
    owner ← call (client.curve_factory curve)
    launched ← call (client.curve_token curve)
    creator ← call (client.curve_creator curve)
    graduated ← call (client.graduated curve)
    throw_if (not (same_address client.decoder owner factory)) (
        new_error (
          codes "Curve factory() returned "
          ++ owner
          ++ codes "; expected "
          ++ factory
          ++ codes ". The ABI or deployment is incompatible."))
    throw_if (not (same_address client.decoder launched token)) (
        new_error (
          codes "Curve token() returned "
          ++ launched
          ++ codes "; expected "
          ++ token
          ++ codes ". The registry entry is inconsistent."))
    pure (some (record { address = curve; graduated = graduated; creator = creator }))

  configured : Option Address → Action W Address
  configured none =
      throw (new_error (codes "NEXT_PUBLIC_ZONK_FACTORY_V3_ADDRESS is missing or invalid."))
  configured (some factory) = pure factory

  try_availability : Address → Action W (Option Availability)
  unfolding check_curve configured
  try_availability token = do
    chain ← call client.get_chain_id
    throw_if (not (chain == config.chain_id)) (
        new_error (
          codes "RPC returned chain ID "
          ++ to_string chain
          ++ codes "; expected Base Mainnet ("
          ++ to_string config.chain_id
          ++ codes ")."))
    factory ← configured config.zonk_factory
    code ← call (client.get_bytecode factory)
    throw_if (no_code code)
        (new_error (codes "No factory bytecode exists at " ++ factory ++ codes " on Base Mainnet."))
    curve ← resolve_curve_address token
    check_curve factory token curve

  pub read_curve_availability : Address → Action W (Option Availability)
  unfolding try_availability
  read_curve_availability token = catching (try_availability token) λ e.
      if is_curve_not_found e
      then pure none
      else throw (
          new_error (
            codes "Base Mainnet curve read failed for token "
            ++ token
            ++ codes ": "
            ++ message_or_string e))

  -- `submitCreateToken` with the salt chosen.
  unfoldable pub submit_create_token : Address → Text → Text → Text → Action W Hash
  unfolding configured
  submit_create_token creator name symbol salt = need config.zonk_factory λ factory.
      simulate_contract client (create_token factory name symbol salt creator) >>= λ request.
      write_contract client request
    where
      need : Option Address → (Address → Action W Hash) → Action W Hash
      need none k = throw (new_error no_factory)
      need (some factory) k = k factory

  unfoldable pub confirm_created_token : Hash → Action W (Receipt × TokenLaunched)
  confirm_created_token hash = need config.zonk_factory λ factory.
      call (client.wait_for_receipt hash) >>= λ answer.
      lift (parse_token_launched_receipt client.decoder answer.0 factory) >>= λ created.
      pure (answer.0, created)
    where
      need :
          Option Address
          → (Address → Action W (Receipt × TokenLaunched))
          → Action W (Receipt × TokenLaunched)
      need none k = throw (new_error no_factory)
      need (some factory) k = k factory
