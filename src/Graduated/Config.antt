-- ===== src/Graduated/Config.antt =====
-- `configuredUniswapV3` of apps/web/src/lib/uniswap-v3.ts. The three environment variables are
-- arguments; `isAddress` and `getAddress` of viem are parameters.
use zonk_fun.Base.{
  Bool, false, not, ◌||◌, ◌∷◌, Option, none, some, Text, codes, text_eq, to_lower, every, ◌==◌,
  if◌then◌else◌,
}
use zonk_fun.Client.{Address}
use zonk_fun.Inputs.{is_empty}
use zonk_fun.Graduated.Quote.{UniswapV3Config}

unfoldable pub selected_canonical_factory : Address
selected_canonical_factory = codes "0x33128a8fC17869897dcE68Ed026d694621f6FDfD"

-- `/^0x0{40}$/i`, of a text that is known to be an address.
abbrev is_zero : Text → Bool
is_zero (z ∷ x ∷ s) = every (λ c. c == b'0') s
is_zero _ = false

module _ (is_address : Text → Bool) (get_address : Text → Address) where
  -- A variable that passes the tests.
  abbrev given : Option Text → Option Text
  given none = none
  given (some s) = if is_empty s || not (is_address s) || is_zero s then none else some s

  abbrev config_of : Option Text → Option Text → Option Text → Option UniswapV3Config
  config_of (some quoter) (some router) (some factory) =
      if not (text_eq (to_lower (get_address factory)) (to_lower selected_canonical_factory))
      then none
      else some (record {
        quoter = get_address quoter;
        router = get_address router;
        factory = get_address factory;
      })
  config_of _ _ _ = none

  unfoldable pub configured_uniswap_v3 :
      Option Text → Option Text → Option Text → Option UniswapV3Config
  unfolding selected_canonical_factory
  configured_uniswap_v3 quoter router factory =
      config_of (given quoter) (given router) (given factory)
