-- ===== src/Graduated/Component/Swapping.antt =====
-- `submit` of apps/web/src/components/graduated-token-swap.tsx, with `assertContext`, `readState` and
-- `approveExactly`.
use zonk_fun.Base.{
  ℕ, not, ◌||◌, Option, none, some, get_or, codes, new_error, Result, ok, err, if◌then◌else◌,
}
use zonk_fun.Client.{
  Address, Hash, Side, Client, Context, Action, pure, lift, call, throw_if, date_now, ◌>>=◌, ◌>>◌,
}
use zonk_fun.Graduated.Quote.{
  Periphery, ValidatedPool, GraduatedQuote, quote_is_fresh, build_graduated_swap_transaction,
}
use zonk_fun.Graduated.Swap.{SwapInput, graduated_allowance_poll_delays, orchestrate_graduated_swap}
use zonk_fun.Panel.Handlers.{same_chain}
use zonk_fun.Graduated.Component.{
  SwapStatus, SwapBalances, SwapPanel, Render, Wallet, reject_stale_quote, stale_message, is_wallet,
  approval_call, is_success, released, set, set_status, release, started,
}

module _ {W : Type 0} (client : Client (SwapPanel × W)) (wallets : Wallet (SwapPanel × W))
    (periphery : Periphery (SwapPanel × W)) where
  -- `assertContext`, for the quote, the wallet and the chain of the render.
  unfoldable pub assert_context :
      GraduatedQuote → Address → Option ℕ → ValidatedPool → Action (SwapPanel × W) (Unit {0})
  assert_context quote wallet chain_id pool = do
    current ← call (λ v. let (e, v') = wallets.execution v in (ok e, v'))
    now ← date_now client
    throw_if
        (not (is_wallet current.wallet wallet)
          || not (same_chain current.chain_id chain_id)
          || not (quote_is_fresh quote wallet pool.pool (get_or chain_id 0) now))
        (new_error stale_message)

  -- `readState`.
  unfoldable pub read_balances : Address → Address → Address → Action (SwapPanel × W) SwapBalances
  read_balances token wallet router = do
    eth ← call (client.get_balance wallet)
    balance ← call (client.balance_of token wallet)
    allowance ← call (client.allowance token wallet router)
    decimals ← call (client.decimals token)
    pure (record {
      execution = record { eth = eth; token = balance; allowance = allowance };
      decimals = decimals;
    })

  -- `approveExactly`.
  unfoldable pub approve_exactly :
      Address → Address → ℕ → Address → Action (SwapPanel × W) (Unit {0})
  unfolding set set_status
  approve_exactly token router amount wallet = do
    set_status SwapStatus.awaiting_approval
    transaction ← lift (approval_call wallets.encode_approve token router amount)
    hash ← call (wallets.send_transaction transaction wallet)
    set (λ p. record p { hash = some hash })
    set_status SwapStatus.approval_confirming
    answer ← call (client.wait_for_receipt hash)
    throw_if (not (is_success answer.0.status))
        (new_error (codes "The token approval transaction reverted."))
    set_status SwapStatus.approval_confirmed

  -- The argument of `orchestrateGraduatedSwap`.
  unfoldable pub swap_input :
      Render
      → Side
      → GraduatedQuote
      → Address
      → ValidatedPool
      → SwapBalances
      → SwapInput (SwapPanel × W)
  unfolding set set_status assert_context read_balances approve_exactly
  swap_input r side quote wallet pool balances = record {
    side = side;
    amount_in = quote.amount_in;
    initial_state = balances.execution;
    read_state = read_balances r.token wallet pool.router >>= λ b. pure b.execution;
    approve =
        approve_exactly r.token pool.router quote.amount_in wallet
        >> set_status SwapStatus.preparing_sell;
    assert_context = assert_context quote wallet r.chain_id pool;
    build_transaction = build_graduated_swap_transaction client periphery pool quote wallet;
    simulate = λ t. call (wallets.simulate_call t wallet);
    send = λ t.
        set (λ p. record p { hash = none })
        >> (set_status SwapStatus.awaiting_wallet >> call (wallets.send_transaction t wallet));
    allowance_delays = graduated_allowance_poll_delays;
  }

  -- The body of the `try`. The queries that are invalidated at its end are not modelled.
  unfoldable pub swap_body :
      Render
      → Side
      → GraduatedQuote
      → Address
      → ValidatedPool
      → SwapBalances
      → Action (SwapPanel × W) Hash
  unfolding set set_status swap_input
  swap_body r side quote wallet pool balances = do
    throw_if (not r.has_client) (new_error (codes "The connected browser wallet is unavailable."))
    hash ← orchestrate_graduated_swap client (swap_input r side quote wallet pool balances)
    set (λ p. record p { hash = some hash })
    set_status SwapStatus.submitted
    set_status SwapStatus.confirming
    answer ← call (client.wait_for_receipt hash)
    throw_if (not (is_success answer.0.status)) (new_error (codes "The swap reverted on Base."))
    set_status SwapStatus.confirmed
    pure hash

  -- `submit` behind the first test of the context.
  unfoldable pub submit_checked :
      Render
      → Side
      → GraduatedQuote
      → Address
      → ValidatedPool
      → SwapBalances
      → Result (Unit {0}) × Context (SwapPanel × W)
      → Option (Result Hash) × Context (SwapPanel × W)
  unfolding swap_body released
  submit_checked r side quote wallet pool balances (err e, c) =
      (none, record c { world = (reject_stale_quote c.world.0, c.world.1) })
  submit_checked r side quote wallet pool balances (ok u, c) =
      let (result, d) = release (swap_body r side quote wallet pool balances (started c)) in
      (some result, d)

  unfoldable pub submit_with :
      Option GraduatedQuote
      → Option ValidatedPool
      → Option Address
      → Option SwapBalances
      → Render
      → Context (SwapPanel × W)
      → Option (Result Hash) × Context (SwapPanel × W)
  unfolding submit_checked
  submit_with (some quote) (some pool) (some wallet) (some balances) r c =
      submit_checked r c.world.0.side quote wallet pool balances
        (assert_context quote wallet r.chain_id pool c)
  submit_with _ _ _ _ r c = (none, c)

  -- `submit`: nothing, or the result of the body that ran. The side and the quote are those of the
  -- render, which shows the state.
  unfoldable pub submit :
      Render → Context (SwapPanel × W) → Option (Result Hash) × Context (SwapPanel × W)
  unfolding submit_with
  submit r c =
      if c.world.0.busy
      then (none, c)
      else submit_with c.world.0.quote r.pool r.wallet r.balances r c
