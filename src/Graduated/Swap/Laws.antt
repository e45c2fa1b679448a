-- ===== src/Graduated/Swap/Laws.antt =====
-- What a graduated swap that was sent went through.
use zonk_fun.Base.{sym, ap, ◌∙◌, ℕ, ◌≤◌, ◌≡◌, ok, ltb, not_ltb→le}
use zonk_fun.Client.{Hash, Side, buy, sell, Client, Context}
use zonk_fun.Client.Laws.{bind_ok, throw_if_ok}
use zonk_fun.Graduated.Swap.{
  SwapInput, GraduatedExecutionState, check_initial, approve_if_short, check_read,
  orchestrate_graduated_swap,
}

-- The state covers the amount on the side of the swap.
abbrev pub IsCovered : Side → ℕ → GraduatedExecutionState → Type 0
IsCovered buy amount s = amount ≤ s.eth
IsCovered sell amount s = (amount ≤ s.token) × (amount ≤ s.allowance)

-- The last steps of a swap: a state that covers the amount is read, the context holds, the
-- transaction is simulated, the context still holds, and that transaction is sent.
pub record IsSent {W : Type 0} (input : SwapInput W) (hash : Hash) (d : Context W) : Type 0 where
  pub state : GraduatedExecutionState
  pub before : Context W
  pub read : Context W
  pub checked : Context W
  pub simulated : Context W
  pub ready : Context W
  pub state_read : input.read_state before ≡ (ok state, read)
  pub covered : IsCovered input.side input.amount_in state
  pub context_held : input.assert_context read ≡ (ok tt, checked)
  pub simulation : input.simulate input.build_transaction checked ≡ (ok tt, simulated)
  pub context_still : input.assert_context simulated ≡ (ok tt, ready)
  pub sending : input.send input.build_transaction ready ≡ (ok hash, d)

module _ {W : Type 0} (client : Client W) where
  check_read_ok :
      (side : Side) (amount : ℕ) (s : GraduatedExecutionState) (c d : Context W)
      → check_read client side amount s c ≡ (ok tt, d)
      → IsCovered side amount s × (d ≡ c)
  unfolding check_read
  check_read_ok buy amount s c d h =
      let (enough, same) = throw_if_ok (ltb s.eth amount) _ c h in (not_ltb→le _ _ enough, same)
  check_read_ok sell amount s c d h =
      let (_, c1, e1, r1) = bind_ok _ _ c h in
      let (allowed, same1) = throw_if_ok (ltb s.allowance amount) _ c e1 in
      let (owned, same2) = throw_if_ok (ltb s.token amount) _ c1 r1 in
      ((not_ltb→le _ _ owned, not_ltb→le _ _ allowed), same2 ∙ same1)

  -- A swap whose hash is returned was sent after its last steps.
  pub swap_course :
      (input : SwapInput W) (c d : Context W) (hash : Hash)
      → orchestrate_graduated_swap client input c ≡ (ok hash, d)
      → IsSent input hash d
  unfolding orchestrate_graduated_swap
  swap_course input c d hash h =
      let (_, c1, _, r1) = bind_ok input.assert_context _ c h in
      let (_, c2, _, r2) =
        bind_ok (check_initial client input.side input.amount_in input.initial_state) _ c1 r1 in
      let (_, c3, _, r3) = bind_ok (approve_if_short client input.side input) _ c2 r2 in
      let (_, c4, _, r4) = bind_ok input.assert_context _ c3 r3 in
      let (state, c5, e5, r5) = bind_ok input.read_state _ c4 r4 in
      let (_, c6, e6, r6) = bind_ok (check_read client input.side input.amount_in state) _ c5 r5 in
      let (_, c7, e7, r7) = bind_ok input.assert_context _ c6 r6 in
      let (_, c8, e8, r8) = bind_ok (input.simulate input.build_transaction) _ c7 r7 in
      let (_, c9, e9, r9) = bind_ok input.assert_context _ c8 r8 in
      let (covered, unchanged) = check_read_ok input.side input.amount_in state c5 c6 e6 in
      record {
        state = state;
        before = c4;
        read = c6;
        checked = c7;
        simulated = c8;
        ready = c9;
        state_read = e5 ∙ ap (λ x. (ok state, x)) (sym unchanged);
        covered = covered;
        context_held = e7;
        simulation = e8;
        context_still = e9;
        sending = r9;
      }
