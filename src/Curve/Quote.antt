-- ===== src/Curve/Quote.antt =====
-- `readBuyQuote`, `readSellQuote`, `quoteBuyByBudget`, `quoteSellAmount`, `transactionDeadline` and
-- the two freshness checks.
use zonk_fun.Base.{
  ℕ, ◌+◌, ◌/◌, Bool, false, Option, none, some, get_or, Text, codes, new_error, Number, leb, ◌==◌,
}
use zonk_fun.Client.{Address, Client, Action, pure, lift, call, ◌>>=◌, ◌>>◌, throw_if, date_now}
use zonk_fun.Sdk.Slippage.{min_output_with_slippage}
use zonk_fun.Curve.Resolve.{Config, require_curve}

-- `BuyQuote` and `SellQuote` of the SDK, the fields that the two readers set.
pub record BuyQuote : Type 0 where
  pub reserve_in : ℕ
  pub curve_cost : ℕ
  pub protocol_fee : ℕ
  pub creator_fee : ℕ
  pub accepted_gross : Option ℕ
  pub net_curve_input : Option ℕ
  pub tokens_out : Option ℕ

pub record SellQuote : Type 0 where
  pub reserve_out : ℕ
  pub curve_value : ℕ
  pub protocol_fee : ℕ
  pub creator_fee : ℕ
  pub net_seller_output : Option ℕ

pub record BudgetBuyQuote : Type 0 where
  pub quote : BuyQuote
  pub open quote use *
  pub token_amount : ℕ
  pub max_reserve_in : ℕ
  pub slippage_bps : Number
  pub deadline : ℕ

pub record ProtectedSellQuote : Type 0 where
  pub quote : SellQuote
  pub open quote use *
  pub token_amount : ℕ
  pub min_reserve_out : ℕ
  pub slippage_bps : Number
  pub deadline : ℕ

unfoldable pub no_amount : Text
no_amount = codes "Enter an ETH amount greater than zero."

unfoldable pub too_small : Text
too_small = codes "The ETH amount is too small for the minimum trade."

unfoldable pub no_tokens : Text
no_tokens = codes "Enter a token amount greater than zero."

unfoldable pub buy_expired : Text
buy_expired = codes "This quote expired. Request a fresh quote before buying."

unfoldable pub sell_expired : Text
sell_expired =
    codes "This quote expired during wallet approval. Request a fresh quote before selling."

-- `quote.tokensOut === BigInt(0)`.
abbrev pub is_zero : Option ℕ → Bool
is_zero none = false
is_zero (some n) = n == 0

module _ {W : Type 0} (client : Client W) where
  -- `BigInt(Math.floor(Date.now() / 1000) + 300)`.
  unfoldable pub transaction_deadline : Action W ℕ
  transaction_deadline = date_now client >>= λ t. pure (t / 1000 + 300)

  unfoldable pub assert_buy_quote_fresh : ℕ → Action W (Unit {0})
  assert_buy_quote_fresh deadline =
      date_now client >>= λ t. throw_if (leb deadline (t / 1000)) (new_error buy_expired)

  unfoldable pub assert_sell_deadline : ℕ → Action W (Unit {0})
  assert_sell_deadline deadline =
      date_now client >>= λ t. throw_if (leb deadline (t / 1000)) (new_error sell_expired)

module _ {W : Type 0} (client : Client W) (config : Config) where
  unfoldable pub read_buy_quote : Address → ℕ → Action W BuyQuote
  read_buy_quote token amount = do
    curve ← require_curve client config token
    quote ← call (client.quote_buy curve amount)
    pure (record {
      reserve_in = quote.accepted_gross;
      curve_cost = quote.net_curve_input;
      protocol_fee = quote.protocol_fee;
      creator_fee = quote.creator_fee;
      accepted_gross = some quote.accepted_gross;
      net_curve_input = some quote.net_curve_input;
      tokens_out = some quote.tokens_out;
    })

  unfoldable pub read_sell_quote : Address → ℕ → Action W SellQuote
  read_sell_quote token amount = do
    curve ← require_curve client config token
    quote ← call (client.quote_sell curve amount)
    pure (record {
      reserve_out = quote.net_seller_output;
      curve_value = quote.gross_curve_output;
      protocol_fee = quote.protocol_fee;
      creator_fee = quote.creator_fee;
      net_seller_output = some quote.net_seller_output;
    })

  unfoldable pub quote_buy_by_budget : Address → ℕ → Number → Action W BudgetBuyQuote
  quote_buy_by_budget token budget slippage_bps = do
    throw_if (budget == 0) (new_error no_amount)
    quote ← read_buy_quote token budget
    throw_if (is_zero quote.tokens_out) (new_error too_small)
    deadline ← transaction_deadline client
    pure (record {
      quote = record quote {
        reserve_in = get_or quote.accepted_gross budget;
        curve_cost = get_or quote.net_curve_input 0;
      };
      token_amount = get_or quote.tokens_out 0;
      max_reserve_in = budget;
      slippage_bps = slippage_bps;
      deadline = deadline;
    })

  unfoldable pub quote_sell_amount : Address → ℕ → Number → Action W ProtectedSellQuote
  quote_sell_amount token token_amount slippage_bps = do
    throw_if (token_amount == 0) (new_error no_tokens)
    quote ← read_sell_quote token token_amount
    least ← lift (min_output_with_slippage quote.reserve_out slippage_bps)
    deadline ← transaction_deadline client
    pure (record {
      quote = quote;
      token_amount = token_amount;
      min_reserve_out = least;
      slippage_bps = slippage_bps;
      deadline = deadline;
    })
