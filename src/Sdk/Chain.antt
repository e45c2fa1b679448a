-- ===== src/Sdk/Chain.antt =====
-- The chains that packages/contracts-sdk/src/index.ts supports and its reading of configured
-- addresses, with apps/web/src/lib/chain.ts. The environment variables are arguments, and
-- `encodeFunctionData` of viem is a parameter.
use zonk_fun.Base.{
  ℕ, Bool, false, not, ◌||◌, [], ◌∷◌, ◌++◌, Option, none, some, get_or, Text, codes, text_eq, pos,
  negsuc, Number, integer, not_integer, Result, ok, err, new_error, trim, is_digits, parse_digits,
  is_hex_of_length, to_string, ◌==◌, every, if◌then◌else◌,
}
use zonk_fun.Client.{Address, Hash}
use zonk_fun.Inputs.{is_empty}

abbrev pub base_sepolia_chain_id : ℕ
base_sepolia_chain_id = 84532

abbrev pub base_mainnet_chain_id : ℕ
base_mainnet_chain_id = 8453

-- A chain; its currency is ether with 18 decimals on both.
pub record ZonkChain : Type 0 where
  pub id : ℕ
  pub name : Text
  pub rpc_url : Text
  pub explorer_name : Text
  pub explorer_url : Text

unfoldable pub base_sepolia : ZonkChain
base_sepolia = record {
  id = base_sepolia_chain_id;
  name = codes "Base Sepolia";
  rpc_url = codes "https://sepolia.base.org";
  explorer_name = codes "Basescan";
  explorer_url = codes "https://sepolia.basescan.org";
}

unfoldable pub base_mainnet : ZonkChain
base_mainnet = record {
  id = base_mainnet_chain_id;
  name = codes "Base";
  rpc_url = codes "https://mainnet.base.org";
  explorer_name = codes "Basescan";
  explorer_url = codes "https://basescan.org";
}

unfoldable pub is_supported_zonk_chain_id : ℕ → Bool
is_supported_zonk_chain_id n = n == base_sepolia_chain_id || n == base_mainnet_chain_id

-- `string | number`.
pub data ChainId : Type 0 where
  written : Text → ChainId
  counted : Number → ChainId

-- `chainId`; no number, and no negative one, is supported.
abbrev chain_number : Number → Option ℕ
chain_number (integer (pos n)) = some n
chain_number (integer (negsuc n)) = none
chain_number not_integer = none

abbrev number_of : ChainId → Option ℕ
number_of (written s) = let t = trim s in if is_digits t then some (parse_digits t) else none
number_of (counted n) = chain_number n

-- `show` is `String` on a number.
abbrev string_of : (Number → Text) → ChainId → Text
string_of show (written s) = s
string_of show (counted n) = show n

abbrev chain_of : Text → Option ℕ → Result ZonkChain
chain_of shown none = err (new_error (codes "Unsupported Zonk chain ID: " ++ shown))
chain_of shown (some n) =
    if not (is_supported_zonk_chain_id n)
    then err (new_error (codes "Unsupported Zonk chain ID: " ++ shown))
    else ok (if n == base_mainnet_chain_id then base_mainnet else base_sepolia)

unfoldable pub resolve_zonk_chain : (Number → Text) → ChainId → Result ZonkChain
unfolding is_supported_zonk_chain_id
resolve_zonk_chain show v = chain_of (string_of show v) (number_of v)

-- `/^0x0{40}$/`, of a text that is known to be an address.
abbrev is_zero_address : Text → Bool
is_zero_address (z ∷ x ∷ s) = every (λ c. c == b'0') s
is_zero_address _ = false

-- `address` of a configured variable.
unfoldable pub configured_address : Option Text → Option Address
configured_address none = none
configured_address (some s) =
    if is_empty s || not (is_hex_of_length 40 s) || is_zero_address s then none else some s

-- The check that apps/web/src/lib/chain.ts makes of the configured chain when it is loaded.
abbrev or_mainnet : Text → Text
or_mainnet [] = to_string base_mainnet_chain_id
or_mainnet (c ∷ s) = c ∷ s

unfoldable pub check_configured_chain : Option Text → Result ZonkChain
unfolding base_mainnet
check_configured_chain configured =
    let id = or_mainnet (trim (get_or configured [])) in
    if text_eq id (to_string base_mainnet_chain_id)
    then ok base_mainnet
    else err (
        new_error
          (codes "Zonk.fun web requires Base Mainnet chain ID 8453; received " ++ id ++ codes "."))

-- `isSelectedZonkChain`, `explorerTransactionURL`, `explorerAddressURL` and `validAddress`.
unfoldable pub is_selected_zonk_chain : Option ℕ → Bool
is_selected_zonk_chain none = false
is_selected_zonk_chain (some n) = n == base_mainnet_chain_id

unfoldable pub explorer_transaction_url : Hash → Text
unfolding base_mainnet
explorer_transaction_url hash = base_mainnet.explorer_url ++ codes "/tx/" ++ hash

unfoldable pub explorer_address_url : Address → Text
unfolding base_mainnet
explorer_address_url address = base_mainnet.explorer_url ++ codes "/address/" ++ address

unfoldable pub valid_address : Text → Bool
valid_address s = is_hex_of_length 40 s

-- The calls of the contracts that are encoded.
pub data ContractCall : Type 0 where
  create_token : (name symbol salt : Text) → ContractCall
  buy : (min_tokens deadline : ℕ) → ContractCall
  sell : (tokens min_out deadline : ℕ) → ContractCall
  approve : (spender : Address) (amount : ℕ) → ContractCall

module _ (encode_function_data : ContractCall → Text) where
  unfoldable pub encode_create_token : (name symbol salt : Text) → Text
  encode_create_token name symbol salt = encode_function_data (create_token name symbol salt)

  unfoldable pub encode_buy : (min_tokens deadline : ℕ) → Text
  encode_buy min_tokens deadline = encode_function_data (buy min_tokens deadline)

  unfoldable pub encode_sell : (tokens min_out deadline : ℕ) → Text
  encode_sell tokens min_out deadline = encode_function_data (sell tokens min_out deadline)

  unfoldable pub encode_approve : Address → ℕ → Text
  encode_approve spender amount = encode_function_data (approve spender amount)
