-- ===== src/Curve/Submit/Approval.antt =====
-- The approval that a sell makes when its allowance is too small.
use zonk_fun.Base.{ℕ, ◌/◌, ◌<◌, ◌≡◌, ◌∙◌, ap, true, none, ◌∷◌, ◌++◌, ok}
use zonk_fun.Client.{
  Address, Hash, Request, approve, Client, Context, throw_if, noted, call, simulate_contract,
  write_contract, with_builder_code, clock, ready, simulated, wrote, sell_state, approval_requested,
  approval_submitted, approval_confirmed,
}
use zonk_fun.Client.Laws.{
  bind_ok, call_quiet, throw_if_ok, noted_ok, write_contract_ok, grow, keep, simulate_contract_ok,
}
use zonk_fun.Curve.Quote.{ProtectedSellQuote}
use zonk_fun.Curve.Submit.{
  Hooks, SellState, approve_exactly, check_sell, raise_allowance, wait_for_browser_allowance,
  browser_allowance_poll_delays,
}
use zonk_fun.Curve.Submit.Checks.{check_sell_ok}
use zonk_fun.Curve.Submit.Polling.{Polled, poll_course}

module _ {W : Type 0} (client : Client W) (hooks : Hooks W) (account token curve : Address) where
  -- What a confirmed approval leaves.
  abbrev pub Approved : ℕ → Context W → Context W → Type 0
  Approved amount c d =
      (prepared : Request) × (h : Hash) × (d.trace
        ≡ approval_confirmed h
          ∷ approval_submitted h
          ∷ wrote (with_builder_code client prepared) h
          ∷ simulated (approve token curve amount account) prepared
          ∷ approval_requested
          ∷ c.trace)

  pub approve_exactly_ok :
      (amount : ℕ) (c : Context W) {d : Context W}
      → approve_exactly client hooks account token curve amount c ≡ (ok tt, d)
      → Approved amount c d
  unfolding approve_exactly
  approve_exactly_ok amount c e =
      let asked = approve token curve amount account in
      let (_, c1, e1, r1) =
        bind_ok (noted hooks.on_approval_requested (λ _. approval_requested)) _ c e in
      let (prepared, c2, e2, r2) = bind_ok (simulate_contract client asked) _ c1 r1 in
      let (h, c3, e3, r3) = bind_ok (write_contract client prepared) _ c2 r2 in
      let (_, c4, e4, r4) =
        bind_ok (noted (hooks.on_approval_submitted h) (λ _. approval_submitted h)) _ c3 r3 in
      let (answer, c5, e5, r5) = bind_ok (call (client.wait_for_receipt h)) _ c4 r4 in
      let (_, c6, e6, r6) = bind_ok (throw_if _ _) _ c5 r5 in
      let (_, same) = throw_if_ok _ _ c5 e6 in
      let requested = noted_ok hooks.on_approval_requested (λ _. approval_requested) c e1 in
      let sent =
        grow (write_contract_ok client prepared c2 e3)
          (grow (simulate_contract_ok client asked c1 e2) requested) in
      let told =
        grow (noted_ok (hooks.on_approval_submitted h) (λ _. approval_submitted h) c3 e4) sent in
      (
        prepared,
        h,
        grow (noted_ok (hooks.on_approval_confirmed h) (λ _. approval_confirmed h) c6 r6)
            (keep same (call_quiet (client.wait_for_receipt h) c4 e5 ∙ told)),
      )

  -- What the branch for a small allowance leaves: checks, one approval of exactly the amount, checks
  -- again, and a polling that ended with a sufficient reading.
  abbrev pub Raised : ProtectedSellQuote → Context W → SellState → Context W → Type 0
  Raised quote c s d =
      (a b : Context W) × (t u : ℕ) × (t / 1000 < quote.deadline)
      × (u / 1000 < quote.deadline)
      × (a.trace ≡ ready ∷ clock t ∷ c.trace)
      × Approved quote.token_amount a b
      × Polled quote.token_amount 10 (ready ∷ clock u ∷ b.trace) s d.trace

  pub raise_allowance_ok :
      (quote : ProtectedSellQuote) (c : Context W) {s : SellState} {d : Context W}
      → raise_allowance client hooks account token curve quote c ≡ (ok s, d)
      → Raised quote c s d
  unfolding raise_allowance wait_for_browser_allowance
  raise_allowance_ok quote c {s} e =
      let (_, c1, e1, r1) = bind_ok (check_sell client hooks quote.deadline) _ c e in
      let (_, c2, e2, r2) =
        bind_ok (approve_exactly client hooks account token curve quote.token_amount) _ c1 r1 in
      let (_, c3, e3, r3) = bind_ok (check_sell client hooks quote.deadline) _ c2 r2 in
      let (t, early, passed) = check_sell_ok client hooks quote.deadline c e1 in
      let (u, still, again) = check_sell_ok client hooks quote.deadline c2 e3 in
      let (polls, are, below, enough, last) =
        poll_course client token account curve quote.token_amount browser_allowance_poll_delays true
          none c3 r3 in
      (
        c1,
        c2,
        t,
        u,
        early,
        still,
        passed,
        approve_exactly_ok quote.token_amount c1 e2,
        (
          polls,
          are,
          below,
          enough,
          last ∙ ap (λ l. sell_state s.allowance s.token_balance ∷ (polls ++ l)) again,
        ),
      )
