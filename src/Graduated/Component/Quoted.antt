-- ===== src/Graduated/Component/Quoted.antt =====
-- What the quote that `requestQuote` of the swap component leaves was asked for.
use mathlib.Core.Path.{subst}
use zonk_fun.Base.{
  ℕ, ◌≤◌, ◌≡◌, sym, ap, ◌∙◌, arith, Option, none, some, Thrown, message_or_string, Result, ok, err,
  Number, not_ltb→le, ltb,
}
use zonk_fun.Client.{Address, Side, buy, sell, Client, Context, lift, catching, ◌>>◌, Action}
use zonk_fun.Client.Laws.{bind_ok, pure_ok, throw_if_ok, lift_ok}
use zonk_fun.Graduated.Quote.{
  Periphery, ValidatedPool, GraduatedQuote, minimum_output, quote_graduated_swap,
}
use zonk_fun.Graduated.Component.Asking.{quote_body, request_with, request_quote}
use zonk_fun.Graduated.Component.{
  SwapStatus, SwapBalances, SwapPanel, Render, Wallet, swap_guard, set, set_status, paid_decimals,
  check_funds,
}

-- The balance that was last read covers the amount, where there is one.
abbrev pub IsFunded : Side → ℕ → Option SwapBalances → Type 0
IsFunded side amount none = Unit {0}
IsFunded buy amount (some b) = amount ≤ b.execution.eth
IsFunded sell amount (some b) = amount ≤ b.execution.token

module _ {W : Type 0} (client : Client (SwapPanel × W)) (wallets : Wallet (SwapPanel × W))
    (periphery : Periphery (SwapPanel × W)) where
  -- A quote that was asked for with what the panel `shown` held.
  pub record IsAsked (r : Render) (shown : SwapPanel) (pool : ValidatedPool) (wallet : Address)
      (quote : GraduatedQuote) : Type 0 where
    pub decimals : ℕ
    pub decimals_known : paid_decimals shown.side r.balances ≡ ok decimals
    pub amount : wallets.parse_units shown.amount decimals ≡ ok quote.amount_in
    pub funded : IsFunded shown.side quote.amount_in r.balances
    pub protected :
        minimum_output quote.amount_out (wallets.rounded_hundredths shown.slippage)
        ≡ ok quote.minimum_out
    pub side : quote.side ≡ shown.side
    pub same_wallet : quote.wallet ≡ wallet
    pub same_pool : quote.pool ≡ pool.pool

  funds_ok :
      (symbol : _) (side : Side) (amount : ℕ) (balances : Option SwapBalances)
      (c d : Context (SwapPanel × W))
      → check_funds symbol side amount balances c ≡ (ok tt, d)
      → IsFunded side amount balances
  unfolding check_funds
  funds_ok symbol side amount none c d h = tt
  funds_ok symbol buy amount (some b) c d h =
      let (enough, _) = throw_if_ok (ltb b.execution.eth amount) _ c h in not_ltb→le _ _ enough
  funds_ok symbol sell amount (some b) c d h =
      let (enough, _) = throw_if_ok (ltb b.execution.token amount) _ c h in not_ltb→le _ _ enough

  -- The fields of a quote that was returned.
  quote_fields :
      (pool : ValidatedPool) (side : Side) (amount : ℕ) (slippage : Number) (wallet : Address)
      (c d : Context (SwapPanel × W)) (quote : GraduatedQuote)
      → quote_graduated_swap client periphery pool side amount slippage wallet c ≡ (ok quote, d)
      → (minimum_output quote.amount_out slippage ≡ ok quote.minimum_out)
        × (quote.amount_in ≡ amount)
        × (quote.side ≡ side)
        × (quote.wallet ≡ wallet)
        × (quote.pool ≡ pool.pool)
  unfolding quote_graduated_swap
  quote_fields pool side amount slippage wallet c d quote h =
      let (_, q1, _, s1) = bind_ok _ _ c h in
      let (amount_out, q2, _, s2) = bind_ok _ _ q1 s1 in
      let (now, q3, _, s3) = bind_ok _ _ q2 s2 in
      let (least, q4, f4, s4) = bind_ok (lift (minimum_output amount_out slippage)) _ q3 s3 in
      let (same, _) = pure_ok _ q4 s4 in
      let (minimum, _) = lift_ok (minimum_output amount_out slippage) q3 f4 in
      (
        ap (λ n. minimum_output n slippage) (ap (λ q. q.amount_out) same)
            ∙ minimum
            ∙ ap ok (sym (ap (λ q. q.minimum_out) same)),
        ap (λ q. q.amount_in) same,
        ap (λ q. q.side) same,
        ap (λ q. q.wallet) same,
        ap (λ q. q.pool) same,
      )

  -- The end of the body keeps the quote.
  kept :
      (quote : GraduatedQuote) (c d : Context (SwapPanel × W))
      → (set (λ p. record p { quote = some quote }) >> set_status SwapStatus.idle) c ≡ (ok tt, d)
      → d.world.0.quote ≡ some quote
  unfolding set set_status
  kept quote c d h =
      let (_, c1, e1, r1) = bind_ok (set (λ p. record p { quote = some quote })) _ c h in
      sym (ap (λ x. x.1.world.0.quote) r1) ∙ sym (ap (λ x. x.1.world.0.quote) e1)

  body-IsAsked :
      (r : Render) (shown : SwapPanel) (pool : ValidatedPool) (wallet : Address)
      (c d : Context (SwapPanel × W))
      → quote_body client wallets periphery r shown pool wallet c ≡ (ok tt, d)
      → (quote : GraduatedQuote) × (d.world.0.quote ≡ some quote)
        × IsAsked r shown pool wallet quote
  unfolding quote_body
  body-IsAsked r shown pool wallet c d h =
      let (_, c1, _, r1) = bind_ok _ _ c h in
      let (_, c2, _, r2) = bind_ok _ _ c1 r1 in
      let (decimals, c3, e3, r3) = bind_ok (lift (paid_decimals shown.side r.balances)) _ c2 r2 in
      let (parsed, c4, e4, r4) =
        bind_ok (lift (wallets.parse_units shown.amount decimals)) _ c3 r3 in
      let (_, c5, e5, r5) = bind_ok (check_funds r.symbol shown.side parsed r.balances) _ c4 r4 in
      let (quote, c6, e6, r6) =
        bind_ok
          (quote_graduated_swap client periphery pool shown.side parsed
            (wallets.rounded_hundredths shown.slippage) wallet)
          _ c5 r5 in
      let (minimum, amount, side, own, at) =
        quote_fields pool shown.side parsed (wallets.rounded_hundredths shown.slippage) wallet c5 c6
          quote e6 in
      (
        quote,
        kept quote c6 d r6,
        record {
          decimals = decimals;
          decimals_known = (lift_ok (paid_decimals shown.side r.balances) c2 e3).0;
          amount =
              (lift_ok (wallets.parse_units shown.amount decimals) c3 e4).0 ∙ ap ok (sym amount);
          funded =
              subst (λ n. IsFunded shown.side n r.balances) (sym amount)
                (funds_ok r.symbol shown.side parsed r.balances c4 c5 e5);
          protected = minimum;
          side = side;
          same_wallet = own;
          same_pool = at;
        },
      )

  abbrev failing : Thrown → Action (SwapPanel × W) (Unit {0})
  failing reason =
      set (λ p. record p { status = SwapStatus.failed; error = message_or_string reason })

  handled :
      (x : Result (Unit {0}) × Context (SwapPanel × W)) (c d : Context (SwapPanel × W))
      → catching (λ _. x) failing c ≡ (ok tt, d)
      → d.world.0.status ≡ SwapStatus.idle
      → x ≡ (ok tt, d)
  unfolding set catching
  handled (ok u, c1) c d h idle = h
  handled (err e, c1) c d h idle =
      let ended : SwapStatus.failed ≡ SwapStatus.idle = ap (λ x. x.1.world.0.status) h ∙ idle in
      absurd (ground (arith, ended))

  -- A body that threw leaves the status `failed`.
  caught_status :
      (body : Action (SwapPanel × W) (Unit {0})) (c d : Context (SwapPanel × W))
      → catching body failing c ≡ (ok tt, d)
      → d.world.0.status ≡ SwapStatus.idle
      → body c ≡ (ok tt, d)
  unfolding catching
  caught_status body c d h idle = handled (body c) c d h idle

  -- Where `requestQuote` runs and ends with the status `idle`, the panel holds a quote for the side,
  -- the amount and the slippage that it held when the quote was asked for, which is not compared with
  -- what it holds by then. The balance that was last read covers the amount, the decimals are those of
  -- what is paid, and the least output is what `minimumOutput` makes of the output.
  pub requested_quote :
      (r : Render) (pool : ValidatedPool) (wallet : Address) (c d : Context (SwapPanel × W))
      → swap_guard r ≡ none
      → r.pool ≡ some pool
      → r.wallet ≡ some wallet
      → request_quote client wallets periphery r c ≡ (ok tt, d)
      → d.world.0.status ≡ SwapStatus.idle
      → (quote : GraduatedQuote) × (d.world.0.quote ≡ some quote)
        × IsAsked r c.world.0 pool wallet quote
  unfolding request_quote request_with
  requested_quote r pool wallet c d open_guard pool_known wallet_known h idle =
      body-IsAsked r c.world.0 pool wallet c d (
        caught_status (quote_body client wallets periphery r c.world.0 pool wallet) c d
          (rw (open_guard, pool_known, wallet_known) at h) idle)
