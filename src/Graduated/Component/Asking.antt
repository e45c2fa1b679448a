-- ===== src/Graduated/Component/Asking.antt =====
-- `requestQuote` of apps/web/src/components/graduated-token-swap.tsx.
use zonk_fun.Base.{Option, none, some, Text, codes, ok, message_or_string}
use zonk_fun.Client.{Address, Client, Action, lift, catching, ◌>>=◌, ◌>>◌}
use zonk_fun.Graduated.Quote.{Periphery, ValidatedPool, quote_graduated_swap}
use zonk_fun.Graduated.Component.{
  SwapStatus, SwapPanel, Render, Wallet, swap_guard, paid_decimals, set, set_status, check_funds,
}

module _ {W : Type 0} (client : Client (SwapPanel × W)) (wallets : Wallet (SwapPanel × W))
    (periphery : Periphery (SwapPanel × W)) where
  -- The body of the `try` of `requestQuote`, for the state of the render.
  unfoldable pub quote_body :
      Render → SwapPanel → ValidatedPool → Address → Action (SwapPanel × W) (Unit {0})
  unfolding set set_status paid_decimals check_funds
  quote_body r shown pool wallet = do
    set_status SwapStatus.quoting
    set (λ p. record p { error = codes "" })
    decimals ← lift (paid_decimals shown.side r.balances)
    parsed ← lift (wallets.parse_units shown.amount decimals)
    check_funds r.symbol shown.side parsed r.balances
    quote ←
        quote_graduated_swap client periphery pool shown.side parsed
          (wallets.rounded_hundredths shown.slippage) wallet
    set (λ p. record p { quote = some quote })
    set_status SwapStatus.idle

  unfoldable pub request_with :
      Option Text
      → Option ValidatedPool
      → Option Address
      → Render
      → Action (SwapPanel × W) (Unit {0})
  unfolding set quote_body
  request_with none (some pool) (some wallet) r c =
      catching (quote_body r c.world.0 pool wallet)
        (λ reason.
          set (λ p. record p { status = SwapStatus.failed; error = message_or_string reason }))
        c
  request_with _ _ _ r c = (ok tt, c)

  -- `requestQuote`, for the state that the render shows.
  unfoldable pub request_quote : Render → Action (SwapPanel × W) (Unit {0})
  unfolding request_with
  request_quote r = request_with (swap_guard r) r.pool r.wallet r
