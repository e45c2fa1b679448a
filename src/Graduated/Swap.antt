-- ===== src/Graduated/Swap.antt =====
-- `waitForGraduatedAllowance` and `orchestrateGraduatedSwap`.
pub mod Laws
use zonk_fun.Base.{
  ℕ, Bool, true, false, List, [], ◌∷◌, Option, Text, codes, Result, new_error, ltb, leb,
  if◌then◌else◌,
}
use zonk_fun.Client.{
  Hash, Side, buy, sell, Client, Action, pure, throw, ◌>>=◌, ◌>>◌, throw_if, pause,
}
use zonk_fun.Graduated.Quote.{GraduatedSwapTransaction}

pub record GraduatedExecutionState : Type 0 where
  pub eth : ℕ
  pub token : ℕ
  pub allowance : ℕ

abbrev pub graduated_allowance_poll_delays : List ℕ
graduated_allowance_poll_delays = 0 ∷ 250 ∷ 500 ∷ 1000 ∷ 1500 ∷ []

unfoldable pub not_allowed : Text
not_allowed = codes "Confirmed approval is still insufficient; swap was not submitted."

-- The argument of `orchestrateGraduatedSwap`: the callbacks of the component.
pub record SwapInput (W : Type 0) : Type 0 where
  pub side : Side
  pub amount_in : ℕ
  pub initial_state : GraduatedExecutionState
  pub read_state : Action W GraduatedExecutionState
  pub approve : Action W (Unit {0})
  pub assert_context : Action W (Unit {0})
  pub build_transaction : GraduatedSwapTransaction
  pub simulate : GraduatedSwapTransaction → Action W (Unit {0})
  pub send : GraduatedSwapTransaction → Action W Hash
  pub allowance_delays : List ℕ

module _ {W : Type 0} (client : Client W) where
  -- `if (delay > 0) await …`.
  abbrev pub wait_if : ℕ → Action W (Unit {0})
  wait_if delay = if ltb 0 delay then pause client delay else pure tt

  unfoldable pub wait_for_graduated_allowance : Action W ℕ → ℕ → List ℕ → Action W ℕ
  wait_for_graduated_allowance read required [] = throw (new_error not_allowed)
  wait_for_graduated_allowance read required (delay ∷ delays) =
      let rest = wait_for_graduated_allowance read required delays in
      wait_if delay
      >> (read >>= λ allowance. if leb required allowance then pure allowance else rest)

  -- The two guards on the balances that the component last saw.
  unfoldable pub check_initial : Side → ℕ → GraduatedExecutionState → Action W (Unit {0})
  check_initial buy amount s =
      throw_if (ltb s.eth amount) (new_error (codes "Insufficient ETH balance."))
  check_initial sell amount s =
      throw_if (ltb s.token amount) (new_error (codes "Insufficient token balance."))

  -- The approval of a sell whose allowance is short.
  unfoldable pub approve_if_short : Side → SwapInput W → Action W (Unit {0})
  unfolding wait_for_graduated_allowance
  approve_if_short buy input = pure tt
  approve_if_short sell input =
      if ltb input.initial_state.allowance input.amount_in
      then input.approve
        >> (wait_for_graduated_allowance (input.read_state >>= λ s. pure s.allowance)
              input.amount_in input.allowance_delays
            >>= λ _. pure tt)
      else pure tt

  -- The guards on the state that is read anew.
  unfoldable pub check_read : Side → ℕ → GraduatedExecutionState → Action W (Unit {0})
  check_read buy amount s =
      throw_if (ltb s.eth amount)
        (new_error (codes "The active wallet no longer has enough ETH for this buy."))
  check_read sell amount s =
      throw_if (ltb s.allowance amount) (new_error not_allowed)
      >> throw_if (ltb s.token amount)
          (new_error (codes "The active wallet no longer has enough token balance for this sell."))

  unfoldable pub orchestrate_graduated_swap : SwapInput W → Action W Hash
  unfolding check_initial approve_if_short check_read
  orchestrate_graduated_swap input = do
    input.assert_context
    check_initial input.side input.amount_in input.initial_state
    approve_if_short input.side input
    input.assert_context
    state ← input.read_state
    check_read input.side input.amount_in state
    input.assert_context
    input.simulate input.build_transaction
    input.assert_context
    input.send input.build_transaction
