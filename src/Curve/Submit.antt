-- ===== src/Curve/Submit.antt =====
-- `submitBuy`, `submitSell` and what they call: the approval flow of a sell, and the polling of the
-- allowance.
pub mod Checks
pub mod BuyTrace
pub mod Polling
pub mod Approval
pub mod SellTrace
use zonk_fun.Base.{
  ℕ, zero, suc, ◌/◌, Bool, true, false, List, [], ◌∷◌, Option, none, some, Text, codes, ◌++◌,
  message_or_string, Thrown, Result, ok, err, new_error, ltb, leb, ◌==◌, if◌then◌else◌,
}
use zonk_fun.Client.{
  Address, Hash, Receipt, ReceiptStatus, success, reverted, buy_tokens, sell_tokens, approve,
  Client, Action, Context, pure, throw, lift, call, noted, tell, ◌>>=◌, ◌>>◌, throw_if, pause,
  simulate_contract, write_contract, ready, native_balance, sell_state, approval_requested,
  approval_submitted, approval_confirmed, sell_preparing, sell_requested,
}
use zonk_fun.Sdk.Slippage.{min_output_with_slippage}
use zonk_fun.Curve.Resolve.{Config, require_curve}
use zonk_fun.Curve.Quote.{
  BudgetBuyQuote, ProtectedSellQuote, assert_buy_quote_fresh, assert_sell_deadline,
}

unfoldable pub short_of_eth : Text
short_of_eth = codes "The connected wallet has insufficient ETH for this buy."

unfoldable pub short_of_tokens : Text
short_of_tokens = codes "The connected wallet has insufficient token balance for this sell."

unfoldable pub approval_insufficient : Text
approval_insufficient = codes "The confirmed token approval is still insufficient for this sell."

unfoldable pub approval_reverted : Text
approval_reverted = codes "The token approval transaction reverted on Base."

unfoldable pub approval_unread : Thrown → Text
approval_unread e =
    codes "The confirmed approval could not be re-read for the active token and curve: "
    ++ message_or_string e

pub record SellState : Type 0 where
  pub allowance : ℕ
  pub token_balance : ℕ

-- What the caller passes in: the check before each submission, and the progress callbacks of a sell.
pub record Hooks (W : Type 0) : Type 0 where
  pub assert_ready : W → Result (Unit {0}) × W
  pub on_approval_requested : W → Result (Unit {0}) × W
  pub on_approval_submitted : Hash → W → Result (Unit {0}) × W
  pub on_approval_confirmed : Hash → W → Result (Unit {0}) × W
  pub on_sell_preparing : W → Result (Unit {0}) × W
  pub on_sell_requested : W → Result (Unit {0}) × W

-- The delays in milliseconds before the reads of the allowance; none before the first.
abbrev pub browser_allowance_poll_delays : List ℕ
browser_allowance_poll_delays = 0 ∷ 250 ∷ 500 ∷ 1000 ∷ 1500 ∷ []

-- What the polling throws at its end.
abbrev pub poll_failure : Option Thrown → Thrown
poll_failure none = new_error approval_insufficient
poll_failure (some e) = new_error (approval_unread e)

module _ {W : Type 0} (client : Client W) where
  unfoldable pub read_browser_sell_state : Address → Address → Address → Action W SellState
  read_browser_sell_state token account curve = do
    allowed ← call (client.allowance token account curve)
    tokens ← call (client.balance_of token account)
    tell (sell_state allowed tokens)
    pure (record { allowance = allowed; token_balance = tokens })

  -- The rest of the loop, by what one read gave.
  unfoldable pub poll_allowance :
      Address → Address → Address → ℕ → List ℕ → Bool → Option Thrown → Action W SellState
  poll_allowance token account curve required [] is_first last_error c =
      (err (poll_failure last_error), c)
  poll_allowance token account curve required (delay ∷ delays) is_first last_error c =
      let waited : Context W = elim is_first [ true ↦ c | false ↦ (pause client delay c).1 ] in
      let (answer, c') = read_browser_sell_state token account curve waited in
      elim answer [
        | ok state ↦ elim (leb required state.allowance) [
          | true ↦ (ok state, c')
          | false ↦ poll_allowance token account curve required delays false last_error c'
        ]
        | err e ↦ poll_allowance token account curve required delays false (some e) c'
      ]

  unfoldable pub wait_for_browser_allowance : Address → Address → Address → ℕ → Action W SellState
  wait_for_browser_allowance token account curve required =
      poll_allowance token account curve required browser_allowance_poll_delays true none

  abbrev is_success : ReceiptStatus → Bool
  is_success success = true
  is_success reverted = false

  -- The approval of exactly the amount to sell, up to its confirmation.
  unfoldable pub approve_exactly : Hooks W → Address → Address → Address → ℕ → Action W (Unit {0})
  approve_exactly hooks account token curve amount = do
    noted hooks.on_approval_requested (λ _. approval_requested)
    request ← simulate_contract client (approve token curve amount account)
    hash ← write_contract client request
    noted (hooks.on_approval_submitted hash) (λ _. approval_submitted hash)
    answer ← call (client.wait_for_receipt hash)
    throw_if (if is_success answer.0.status then false else true) (new_error approval_reverted)
    noted (hooks.on_approval_confirmed hash) (λ _. approval_confirmed hash)

  -- `assertSellDeadline(quote); assertReady();`.
  unfoldable pub check_sell : Hooks W → ℕ → Action W (Unit {0})
  check_sell hooks deadline =
      assert_sell_deadline client deadline >> noted hooks.assert_ready (λ _. ready)

  -- The branch for an allowance that is too small.
  unfoldable pub raise_allowance :
      Hooks W → Address → Address → Address → ProtectedSellQuote → Action W SellState
  raise_allowance hooks account token curve quote = do
    check_sell hooks quote.deadline
    approve_exactly hooks account token curve quote.token_amount
    check_sell hooks quote.deadline
    wait_for_browser_allowance token account curve quote.token_amount

  -- From the second check of allowance and balance on.
  unfoldable pub send_sell :
      Hooks W → Address → Address → ProtectedSellQuote → SellState → Action W Hash
  send_sell hooks account curve quote state = do
    throw_if (ltb state.allowance quote.token_amount) (new_error approval_insufficient)
    throw_if (ltb state.token_balance quote.token_amount) (new_error short_of_tokens)
    check_sell hooks quote.deadline
    noted hooks.on_sell_preparing (λ _. sell_preparing)
    request ←
        simulate_contract client
          (sell_tokens curve quote.token_amount quote.min_reserve_out quote.deadline account)
    check_sell hooks quote.deadline
    noted hooks.on_sell_requested (λ _. sell_requested)
    write_contract client request

  -- `assertBuyQuoteFresh(quote); assertReady();`.
  unfoldable pub check_buy : Hooks W → ℕ → Action W (Unit {0})
  check_buy hooks deadline =
      assert_buy_quote_fresh client deadline >> noted hooks.assert_ready (λ _. ready)

module _ {W : Type 0} (client : Client W) (config : Config) (hooks : Hooks W) where
  unfoldable pub submit_buy : Address → Address → BudgetBuyQuote → Action W Hash
  submit_buy account token quote = do
    curve ← require_curve client config token
    check_buy client hooks quote.deadline
    native ← noted (client.get_balance account) (native_balance account)
    throw_if (ltb native quote.max_reserve_in) (new_error short_of_eth)
    least ← lift (min_output_with_slippage quote.token_amount quote.slippage_bps)
    request ←
        simulate_contract client
          (buy_tokens curve least quote.deadline account quote.max_reserve_in)
    check_buy client hooks quote.deadline
    write_contract client request

  unfoldable pub submit_sell : Address → Address → ProtectedSellQuote → Action W Hash
  submit_sell account token quote = do
    curve ← require_curve client config token
    check_sell client hooks quote.deadline
    state ← read_browser_sell_state client token account curve
    throw_if (ltb state.token_balance quote.token_amount) (new_error short_of_tokens)
    enough ←
        (if ltb state.allowance quote.token_amount
          then raise_allowance client hooks account token curve quote
          else pure state)
    send_sell client hooks account curve quote enough
