-- ===== src/Graduated/Component/Performed.antt =====
-- What the component passes to `orchestrateGraduatedSwap`, in terms of the calls that it makes: the
-- reads of the balances, `buildGraduatedSwapTransaction`, the simulation and the wallet's submission.
use mathlib.Core.Path.{subst}
use zonk_fun.Base.{◌≡◌, refl, ap, sym, ◌∙◌, none, [], ◌∷◌, ok}
use zonk_fun.Client.{Address, Hash, Side, buy, sell, Client, Context, call}
use zonk_fun.Client.Laws.{bind_ok, call_ok, pure_ok}
use zonk_fun.Graduated.Quote.{
  Periphery, ValidatedPool, GraduatedQuote, GraduatedSwapTransaction, SwapParams, wrap_eth,
  exact_input_single, unwrap_weth9, multicall, swap_params, build_for,
  build_graduated_swap_transaction, selected_weth, contract_balance,
}
use zonk_fun.Graduated.Swap.{GraduatedExecutionState}
use zonk_fun.Graduated.Swap.Laws.{IsSent, IsCovered}
use zonk_fun.Graduated.Component.Swapping.{swap_input, read_balances}
use zonk_fun.Graduated.Component.{
  SwapStatus, SwapBalances, SwapPanel, Render, Wallet, set, set_status,
}

module _ {W : Type 0} (client : Client W) (periphery : Periphery W) where
  -- The parameters of the router's call, with the addresses between which it swaps.
  abbrev pub IsParams :
      SwapParams → GraduatedQuote → (token_in token_out recipient : Address) → Type 0
  IsParams s quote token_in token_out recipient =
      (s.token_in ≡ token_in)
      × (s.token_out ≡ token_out)
      × (s.fee ≡ 10000)
      × (s.recipient ≡ recipient)
      × (s.amount_out_minimum ≡ quote.minimum_out)
      × (s.sqrt_price_limit ≡ 0)

  -- The transaction is the router's call for the quote. A buy sends the amount, wraps it and swaps
  -- the router's balance for the wallet; a sell swaps the amount for the router and unwraps what it
  -- got for the wallet. Both ask for at least the quote's least output, until its deadline.
  abbrev pub IsSwapOf :
      Side → GraduatedQuote → ValidatedPool → Address → GraduatedSwapTransaction → Type 0
  IsSwapOf buy quote pool wallet t =
      (s : SwapParams) × IsParams s quote selected_weth pool.token wallet
      × (s.amount_in ≡ contract_balance)
      × (t.to ≡ pool.router)
      × (t.sent ≡ quote.amount_in)
      × (t.payload
          ≡ periphery.encode_function_data (
              multicall quote.deadline (
                periphery.encode_function_data (wrap_eth quote.amount_in)
                ∷ periphery.encode_function_data (exact_input_single s)
                ∷ [])))
  IsSwapOf sell quote pool wallet t =
      (s : SwapParams) × IsParams s quote pool.token selected_weth pool.router
      × (s.amount_in ≡ quote.amount_in)
      × (t.to ≡ pool.router)
      × (t.sent ≡ 0)
      × (t.payload
          ≡ periphery.encode_function_data (
              multicall quote.deadline (
                periphery.encode_function_data (exact_input_single s)
                ∷ periphery.encode_function_data (unwrap_weth9 quote.minimum_out wallet)
                ∷ [])))

  build_for-IsSwapOf :
      (side : Side) (pool : ValidatedPool) (quote : GraduatedQuote) (wallet : Address)
      → IsSwapOf side quote pool wallet (build_for client periphery side pool quote wallet)
  unfolding build_for swap_params
  build_for-IsSwapOf buy pool quote wallet =
      (_, (refl, refl, refl, refl, refl, refl), refl, refl, refl, refl)
  build_for-IsSwapOf sell pool quote wallet =
      (_, (refl, refl, refl, refl, refl, refl), refl, refl, refl, refl)

module _ {W : Type 0} (client : Client (SwapPanel × W)) (wallets : Wallet (SwapPanel × W))
    (periphery : Periphery (SwapPanel × W)) where
  -- The balances and the allowance are the client's answers, from the world `w` on.
  abbrev pub IsReadAnew :
      (token wallet router : Address) → SwapPanel × W → GraduatedExecutionState → Type 0
  IsReadAnew token wallet router w state =
      ((client.get_balance wallet w).0 ≡ ok state.eth)
      × (w' : SwapPanel × W) × ((client.balance_of token wallet w').0 ≡ ok state.token)
      × (w'' : SwapPanel × W) × ((client.allowance token wallet router w'').0 ≡ ok state.allowance)

  read_balances-IsReadAnew :
      (token wallet router : Address) (c : Context (SwapPanel × W)) {b : SwapBalances}
      {d : Context (SwapPanel × W)}
      → read_balances client wallets periphery token wallet router c ≡ (ok b, d)
      → IsReadAnew token wallet router c.world b.execution
  unfolding read_balances
  read_balances-IsReadAnew token wallet router c {b} h =
      let (eth, c1, e1, h1) = bind_ok (call (client.get_balance wallet)) _ c h in
      let (balance, c2, e2, h2) = bind_ok (call (client.balance_of token wallet)) _ c1 h1 in
      let (allowed, c3, e3, h3) = bind_ok (call (client.allowance token wallet router)) _ c2 h2 in
      let (places, c4, e4, h4) = bind_ok (call (client.decimals token)) _ c3 h3 in
      let same = ap (λ x. x.execution) (pure_ok _ c4 h4).0 in
      (
        call_ok (client.get_balance wallet) c e1 ∙ ap (λ s. ok s.eth) (sym same),
        c1.world,
        call_ok (client.balance_of token wallet) c1 e2 ∙ ap (λ s. ok s.token) (sym same),
        c2.world,
        call_ok (client.allowance token wallet router) c2 e3 ∙ ap (λ s. ok s.allowance) (sym same),
      )

  -- The calls of a swap that was sent, where its balances were read in the world `before` and it was
  -- simulated in the world `checked`.
  pub record IsPerformed (token : Address) (side : Side) (quote : GraduatedQuote)
      (pool : ValidatedPool) (wallet : Address) (hash : Hash) (before checked : SwapPanel × W)
      : Type 0 where
    pub state : GraduatedExecutionState
    pub read_anew : IsReadAnew token wallet pool.router before state
    pub enough : IsCovered side quote.amount_in state
    pub transaction : GraduatedSwapTransaction
    pub is_swap : IsSwapOf client periphery quote.side quote pool wallet transaction
    pub simulation_passed : (wallets.simulate_call transaction wallet checked).0 ≡ ok tt
    pub submitted_in : SwapPanel × W
    pub hash_answered : (wallets.send_transaction transaction wallet submitted_in).0 ≡ ok hash

  pub sent-IsPerformed :
      (r : Render) (side : Side) (quote : GraduatedQuote) (wallet : Address) (pool : ValidatedPool)
      (balances : SwapBalances) (hash : Hash) (d : Context (SwapPanel × W))
      (s : IsSent (swap_input client wallets periphery r side quote wallet pool balances) hash d)
      → IsPerformed r.token side quote pool wallet hash s.before.world s.checked.world
  unfolding swap_input build_graduated_swap_transaction
  sent-IsPerformed r side quote wallet pool balances hash d s =
      let t = build_graduated_swap_transaction client periphery pool quote wallet in
      let (b, c1, e1, h1) =
        bind_ok (read_balances client wallets periphery r.token wallet pool.router) _ s.before
          s.state_read in
      let same : s.state ≡ b.execution = (pure_ok _ c1 h1).0 in
      let (_, c2, _, h2) = bind_ok (set (λ p. record p { hash = none })) _ s.ready s.sending in
      let (_, c3, _, h3) = bind_ok (set_status SwapStatus.awaiting_wallet) _ c2 h2 in
      record {
        state = s.state;
        read_anew =
            subst (IsReadAnew r.token wallet pool.router s.before.world) (sym same)
              (read_balances-IsReadAnew r.token wallet pool.router s.before e1);
        enough = s.covered;
        transaction = t;
        is_swap = build_for-IsSwapOf client periphery quote.side pool quote wallet;
        simulation_passed = call_ok (wallets.simulate_call t wallet) s.checked s.simulation;
        submitted_in = c3.world;
        hash_answered = call_ok (wallets.send_transaction t wallet) c3 h3;
      }
