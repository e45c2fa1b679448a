-- ===== src/Curve/Submit/BuyTrace.antt =====
-- What a buy that was submitted did, step by step.
use zonk_fun.Base.{ℕ, ◌/◌, ◌≤◌, ◌<◌, ◌≡◌, ◌∙◌, ap, sym, ◌∷◌, ok, not_ltb→le}
use zonk_fun.Client.{
  Address, Hash, Request, buy_tokens, Client, Context, throw_if, noted, lift, simulate_contract,
  with_builder_code, clock, ready, native_balance, simulated, wrote,
}
use zonk_fun.Client.Laws.{
  bind_ok, lift_ok, throw_if_ok, noted_ok, write_contract_ok, grow, keep, simulate_contract_ok,
}
use zonk_fun.Sdk.Slippage.{min_output_with_slippage}
use zonk_fun.Curve.Resolve.{Config, require_curve}
use zonk_fun.Curve.Resolve.Quiet.{require_curve_quiet}
use zonk_fun.Curve.Quote.{BudgetBuyQuote}
use zonk_fun.Curve.Submit.{Hooks, check_buy, submit_buy}
use zonk_fun.Curve.Submit.Checks.{check_buy_ok}

module _ {W : Type 0} (client : Client W) (config : Config) (hooks : Hooks W) where
  -- A buy returns a hash only after this course, newest first: the wallet accepted what the
  -- simulation of `buy` prepared, with the builder code; right before that the caller's check
  -- passed and the clock stood before the deadline; the simulated call asks for the least output
  -- under the quote's slippage, with the quote's deadline and its maximum input as value; the
  -- account's balance was read and covers that input; and the same two checks stood at the start.
  pub submitted_buy_course :
      (account token : Address) (quote : BudgetBuyQuote) (c : Context W) {h : Hash} {d : Context W}
      → submit_buy client config hooks account token quote c ≡ (ok h, d)
      → (curve : Address) × (least native before after : ℕ) × (prepared : Request)
        × (min_output_with_slippage quote.token_amount quote.slippage_bps ≡ ok least)
        × (quote.max_reserve_in ≤ native)
        × (before / 1000 < quote.deadline)
        × (after / 1000 < quote.deadline)
        × (d.trace
            ≡ wrote (with_builder_code client prepared) h
              ∷ ready
              ∷ clock after
              ∷ simulated
                  (buy_tokens curve least quote.deadline account quote.max_reserve_in)
                  prepared
              ∷ native_balance account native
              ∷ ready
              ∷ clock before
              ∷ c.trace)
  unfolding submit_buy
  submitted_buy_course account token quote c h =
      let balance = noted (client.get_balance account) (native_balance account) in
      let (curve, c1, e1, h1) = bind_ok (require_curve client config token) _ c h in
      let (_, c2, e2, h2) = bind_ok (check_buy client hooks quote.deadline) _ c1 h1 in
      let (native, c4, e4, h4) = bind_ok balance _ c2 h2 in
      let (_, c5, e5, h5) = bind_ok (throw_if _ _) _ c4 h4 in
      let (least, c6, e6, h6) = bind_ok (lift _) _ c5 h5 in
      let asked = buy_tokens curve least quote.deadline account quote.max_reserve_in in
      let (prepared, c7, e7, h7) = bind_ok (simulate_contract client asked) _ c6 h6 in
      let (_, c9, e9, h9) = bind_ok (check_buy client hooks quote.deadline) _ c7 h7 in
      let (covered, same5) = throw_if_ok _ _ c4 e5 in
      let (priced, same6) = lift_ok _ c5 e6 in
      let (before, fresh1, t2) = check_buy_ok client hooks quote.deadline c1 e2 in
      let (after, fresh2, t9) = check_buy_ok client hooks quote.deadline c7 e9 in
      let start = ap (λ x. x.1.trace) (sym e1) ∙ require_curve_quiet client config token c in
      let paid =
        grow (noted_ok (client.get_balance account) (native_balance account) c2 e4)
          (t2 ∙ ap (λ l. ready ∷ clock before ∷ l) start) in
      let simulation =
        grow (simulate_contract_ok client asked c6 e7) (keep same6 (keep same5 paid)) in
      let checks = t9 ∙ ap (λ l. ready ∷ clock after ∷ l) simulation in
      let course = grow (write_contract_ok client prepared c9 h9) checks in
      (
        curve,
        least,
        native,
        before,
        after,
        prepared,
        priced,
        not_ltb→le native quote.max_reserve_in covered,
        fresh1,
        fresh2,
        course,
      )
