-- ===== src/Curve/Submit/SellTrace.antt =====
-- What a sell that was submitted did, step by step.
use zonk_fun.Base.{
  ℕ, ◌/◌, ◌≤◌, ◌<◌, ◌≡◌, ◌⊎◌, inl, inr, ◌∙◌, ap, sym, Bool-cases, List, ◌∷◌, ok, ltb, ltb→lt,
  not_ltb→le, if◌then◌else◌,
}
use zonk_fun.Client.{
  Address, Hash, Event, Request, sell_tokens, Client, Context, pure, throw_if, noted,
  simulate_contract, with_builder_code, clock, ready, simulated, wrote, sell_state, sell_preparing,
  sell_requested,
}
use zonk_fun.Client.Laws.{
  bind_ok, pure_ok, throw_if_ok, noted_ok, write_contract_ok, grow, keep, simulate_contract_ok,
}
use zonk_fun.Curve.Resolve.{Config, require_curve}
use zonk_fun.Curve.Resolve.Quiet.{require_curve_quiet}
use zonk_fun.Curve.Quote.{ProtectedSellQuote}
use zonk_fun.Curve.Submit.{
  Hooks, SellState, check_sell, read_browser_sell_state, raise_allowance, send_sell, submit_sell,
}
use zonk_fun.Curve.Submit.Checks.{check_sell_ok}
use zonk_fun.Curve.Submit.Polling.{read_ok}
use zonk_fun.Curve.Submit.Approval.{Raised, raise_allowance_ok}

module _ {W : Type 0} (client : Client W) (hooks : Hooks W) where
  -- The last part of a sell: both checks twice, the simulation of exactly the quoted sell between
  -- them, and its submission.
  abbrev pub Sold :
      Address → Address → ProtectedSellQuote → SellState → Hash → List Event → List Event → Type 0
  Sold account curve quote s h start finish =
      (prepared : Request) × (before after : ℕ) × (quote.token_amount ≤ s.allowance)
      × (quote.token_amount ≤ s.token_balance)
      × (before / 1000 < quote.deadline)
      × (after / 1000 < quote.deadline)
      × (finish
          ≡ wrote (with_builder_code client prepared) h
            ∷ sell_requested
            ∷ ready
            ∷ clock after
            ∷ simulated
                (sell_tokens curve quote.token_amount quote.min_reserve_out quote.deadline account)
                prepared
            ∷ sell_preparing
            ∷ ready
            ∷ clock before
            ∷ start)

  send_sell_ok :
      (account curve : Address) (quote : ProtectedSellQuote) (s : SellState) (c : Context W)
      {h : Hash} {d : Context W}
      → send_sell client hooks account curve quote s c ≡ (ok h, d)
      → Sold account curve quote s h c.trace d.trace
  unfolding send_sell
  send_sell_ok account curve quote s c e =
      let asked =
        sell_tokens curve quote.token_amount quote.min_reserve_out quote.deadline account in
      let (_, c1, e1, r1) = bind_ok (throw_if _ _) _ c e in
      let (_, c2, e2, r2) = bind_ok (throw_if _ _) _ c1 r1 in
      let (_, c3, e3, r3) = bind_ok (check_sell client hooks quote.deadline) _ c2 r2 in
      let (_, c4, e4, r4) = bind_ok (noted hooks.on_sell_preparing (λ _. sell_preparing)) _ c3 r3 in
      let (prepared, c5, e5, r5) = bind_ok (simulate_contract client asked) _ c4 r4 in
      let (_, c6, e6, r6) = bind_ok (check_sell client hooks quote.deadline) _ c5 r5 in
      let (_, c7, e7, r7) = bind_ok (noted hooks.on_sell_requested (λ _. sell_requested)) _ c6 r6 in
      let (allowed, same1) = throw_if_ok _ _ c e1 in
      let (covered, same2) = throw_if_ok _ _ c1 e2 in
      let (before, early, t3) = check_sell_ok client hooks quote.deadline c2 e3 in
      let (after, still, t6) = check_sell_ok client hooks quote.deadline c5 e6 in
      let start = ap (λ x. x.trace) (same2 ∙ same1) in
      let told =
        grow (noted_ok hooks.on_sell_preparing (λ _. sell_preparing) c3 e4)
          (t3 ∙ ap (λ l. ready ∷ clock before ∷ l) start) in
      let checked =
        t6
        ∙ ap (λ l. ready ∷ clock after ∷ l) (grow (simulate_contract_ok client asked c4 e5) told) in
      (
        prepared,
        before,
        after,
        not_ltb→le s.allowance quote.token_amount allowed,
        not_ltb→le s.token_balance quote.token_amount covered,
        early,
        still,
        grow (write_contract_ok client prepared c7 r7)
            (grow (noted_ok hooks.on_sell_requested (λ _. sell_requested) c6 e7) checked),
      )

module _ {W : Type 0} (client : Client W) (config : Config) (hooks : Hooks W) where
  -- The middle of a sell: nothing where the allowance suffices, else one approval.
  abbrev pub Allowed :
      Address
      → Address
      → Address
      → ProtectedSellQuote
      → SellState
      → Context W
      → SellState
      → Context W
      → Type 0
  Allowed account token curve quote first c s d =
      ((quote.token_amount ≤ first.allowance) × (s ≡ first) × (d.trace ≡ c.trace))
      ⊎ ((first.allowance < quote.token_amount)
          × Raised client hooks account token curve quote c s d)

  Allowed-ok :
      (account token curve : Address) (quote : ProtectedSellQuote) (first : SellState)
      (c : Context W) {s : SellState} {d : Context W}
      → (if ltb first.allowance quote.token_amount
            then raise_allowance client hooks account token curve quote
            else pure first)
          c
        ≡ (ok s, d)
      → Allowed account token curve quote first c s d
  Allowed-ok account token curve quote first c {s} {d} e =
      elim (Bool-cases (ltb first.allowance quote.token_amount)) [
        | inl short ↦ inr (
          ltb→lt first.allowance quote.token_amount short,
          raise_allowance_ok client hooks account token curve quote c (rw short at e),
        )
        | inr large ↦
            let (same, unchanged) = pure_ok first c (rw large at e) in
            inl (
              not_ltb→le first.allowance quote.token_amount large,
              same,
              ap (λ x. x.trace) unchanged,
            )
      ]

  -- The start of a sell: both checks, and a reading of allowance and balance that covers the amount.
  abbrev pub Opened : ProtectedSellQuote → SellState → Context W → Context W → Type 0
  Opened quote first c d =
      (t : ℕ) × (t / 1000 < quote.deadline)
      × (quote.token_amount ≤ first.token_balance)
      × (d.trace ≡ sell_state first.allowance first.token_balance ∷ ready ∷ clock t ∷ c.trace)

  -- A sell returns a hash only after this course. First the clock stood before the deadline, the
  -- caller's check passed, and the balance read covers the amount. If the allowance read was
  -- smaller than the amount, one approval of exactly the amount for the curve was submitted and
  -- confirmed, between two more passes of the checks, and the allowance was polled until a reading
  -- covered the amount; otherwise no approval was made. Then allowance and balance cover the
  -- amount, and the wallet accepted what the simulation of `sell` prepared, with the quote's amount,
  -- least output and deadline, the checks passing before the simulation and right before the
  -- wallet is asked.
  pub submitted_sell_course :
      (account token : Address) (quote : ProtectedSellQuote) (c : Context W) {h : Hash}
      {d : Context W}
      → submit_sell client config hooks account token quote c ≡ (ok h, d)
      → (curve : Address) × (first last : SellState) × (opened allowed : Context W) × Opened quote
          first c opened
        × Allowed account token curve quote first opened last allowed
        × Sold client hooks account curve quote last h allowed.trace d.trace
  unfolding submit_sell
  submitted_sell_course account token quote c e =
      let (curve, c1, e1, r1) = bind_ok (require_curve client config token) _ c e in
      let (_, c2, e2, r2) = bind_ok (check_sell client hooks quote.deadline) _ c1 r1 in
      let (first, c3, e3, r3) =
        bind_ok (read_browser_sell_state client token account curve) _ c2 r2 in
      let (_, c4, e4, r4) = bind_ok (throw_if _ _) _ c3 r3 in
      let (last, c5, e5, r5) =
        bind_ok
          (if ltb first.allowance quote.token_amount
            then raise_allowance client hooks account token curve quote
            else pure first)
          _ c4 r4 in
      let (covered, same) = throw_if_ok _ _ c3 e4 in
      let (t, early, passed) = check_sell_ok client hooks quote.deadline c1 e2 in
      let quiet = ap (λ x. x.1.trace) (sym e1) ∙ require_curve_quiet client config token c in
      let reading = read_ok client token account curve c2 e3 in
      (
        curve,
        first,
        last,
        c4,
        c5,
        (
          t,
          early,
          not_ltb→le first.token_balance quote.token_amount covered,
          keep same (grow reading (passed ∙ ap (λ l. ready ∷ clock t ∷ l) quiet)),
        ),
        Allowed-ok account token curve quote first c4 e5,
        send_sell_ok client hooks account curve quote last c5 r5,
      )
