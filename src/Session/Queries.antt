-- ===== src/Session/Queries.antt =====
-- What the container of apps/web/src/components/token-trading.tsx passes to the panel beside
-- `execute`, the queries that a confirmed trade invalidates, and the trades that its history shows.
use zonk_fun.Base.{
  ℕ, Bool, false, true, ◌||◌, List, [], ◌∷◌, Option, none, some, Text, codes, text_eq, to_lower,
  filter, new_error, Number,
}
use zonk_fun.Client.{Address, Client, Action, throw}
use zonk_fun.Curve.Resolve.{Config, CurveTradeState, read_trade_state}
use zonk_fun.Curve.Quote.{
  BudgetBuyQuote, ProtectedSellQuote, quote_buy_by_budget, quote_sell_amount,
}

-- `tradeInvalidationKeys`: the keys of the queries.
unfoldable pub trade_invalidation_keys : Address → List (List Text)
trade_invalidation_keys token =
    (codes "trade-state" ∷ token ∷ [])
    ∷ (codes "curve-availability" ∷ token ∷ [])
    ∷ (codes "trades" ∷ token ∷ [])
    ∷ (codes "activity" ∷ token ∷ [])
    ∷ (codes "token" ∷ token ∷ [])
    ∷ (codes "tokens" ∷ [])
    ∷ (codes "trending" ∷ [])
    ∷ []

module _ {W : Type 0} (client : Client W) (config : Config) (token : Address) where
  -- `loadActiveTradeState`.
  unfoldable pub load_active_trade_state : Option Address → Action W CurveTradeState
  load_active_trade_state wallet = read_trade_state client config token wallet

  -- `quoteBuy`, whose first argument is the state that the query gave; the quote does not read it.
  unfoldable pub quote_buy : Option CurveTradeState → ℕ → Number → Action W BudgetBuyQuote
  quote_buy none budget slippage_bps = throw (new_error (codes "Curve state is not available yet."))
  quote_buy (some state) budget slippage_bps =
      quote_buy_by_budget client config token budget slippage_bps

  unfoldable pub quote_sell : ℕ → Number → Action W ProtectedSellQuote
  quote_sell token_amount slippage_bps =
      quote_sell_amount client config token token_amount slippage_bps

pub data Tab : Type 0 where
  recent yours : Tab

-- A trade of the index, as far as the filter reads it, with an entry of any type.
abbrev is_of : Option Address → Address → Bool
is_of none trader = false
is_of (some wallet) trader = text_eq (to_lower trader) (to_lower wallet)

abbrev is_recent : Tab → Bool
is_recent recent = true
is_recent yours = false

-- `visible` of `TradeHistory`.
unfoldable pub visible_trades :
    {A : Type 0} → (A → Address) → Tab → Option Address → List A → List A
visible_trades trader tab wallet trades =
    filter (λ t. is_recent tab || is_of wallet (trader t)) trades
