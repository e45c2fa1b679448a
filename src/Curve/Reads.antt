-- ===== src/Curve/Reads.antt =====
-- The reads of apps/web/src/lib/contracts.ts that the token page makes, and `buildSellCalls`.
use zonk_fun.Base.{ℕ, List, [], ◌∷◌, ◌++◌, Option, none, some, Text, ltb, if◌then◌else◌, Result}
use zonk_fun.Client.{Address, Client, Action, pure, call, ◌>>=◌}
use zonk_fun.Sdk.Chain.{ContractCall, encode_sell, encode_approve}
use zonk_fun.Curve.Resolve.{Config, resolve_curve_address}
use zonk_fun.Curve.Quote.{ProtectedSellQuote}

-- A call of a wallet that takes several.
pub record PreparedCall : Type 0 where
  pub to : Address
  pub payload : Text

-- `buildSellCalls`.
unfoldable pub build_sell_calls :
    (ContractCall → Text)
    → Address
    → Address
    → ProtectedSellQuote
    → (allowance deadline : ℕ) → List PreparedCall
unfolding encode_sell encode_approve
build_sell_calls encode token curve quote allowance deadline =
    let approval : PreparedCall = record {
      to = token;
      payload = encode_approve encode curve quote.token_amount;
    } in
    let selling : PreparedCall = record {
      to = curve;
      payload = encode_sell encode quote.token_amount quote.min_reserve_out deadline;
    } in
    (if ltb allowance quote.token_amount then approval ∷ [] else []) ++ selling ∷ []

-- `tokenInfo` of the factory gives the creator and the curve of a token.
module _ {W : Type 0} (client : Client W)
    (token_info : Address → Address → W → Result (Address × Address) × W) (config : Config) where
  abbrev info_from : Option Address → Address → Action W (Option (Address × Address))
  info_from none token = pure none
  info_from (some factory) token = call (token_info factory token) >>= λ info. pure (some info)

  unfoldable pub read_token_onchain : Address → Action W (Option (Address × Address))
  read_token_onchain token = info_from config.zonk_factory token

  abbrev token_of : Option Address → Action W (Option Address)
  token_of none = pure none
  token_of (some curve) = call (client.curve_token curve) >>= λ token. pure (some token)

  unfoldable pub read_curve_onchain : Address → Action W (Option Address)
  read_curve_onchain token = resolve_curve_address client config token >>= token_of
