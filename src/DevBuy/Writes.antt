-- ===== src/DevBuy/Writes.antt =====
-- How often a run has asked the wallet to send a transaction, and what a buy that throws has asked for.
use mathlib.Core.Path.{subst}
use zonk_fun.Base.{
  ℕ, suc, ◌≡◌, ◌⊎◌, inl, inr, refl, ap, sym, ◌∙◌, arith, Bool, true, false, List, [], ◌∷◌, Option,
  none, some, Result, err, Result-cases, Thrown, Number,
}
use zonk_fun.Client.{
  Address, Event, wrote, refused, Attributed, Client, Context, Action, Request, lift, call, noted,
  ◌>>=◌, throw_if, date_now, simulate_contract, write_contract, with_builder_code, simulated,
}
use zonk_fun.Curve.Resolve.{
  Config, require_curve, resolve_curve_address, resolve_in, present, for_account, read_trade_state,
}
use zonk_fun.Curve.Quote.{
  BudgetBuyQuote, assert_buy_quote_fresh, quote_buy_by_budget, read_buy_quote, transaction_deadline,
}
use zonk_fun.Curve.Submit.{Hooks, check_buy, submit_buy}

-- The number of transactions that the wallet was asked to send, whether it answered with a hash or
-- threw: where it threw, the trace does not tell whether it sent the transaction before.
abbrev pub asks : List Event → ℕ
asks [] = 0
asks (wrote r h ∷ l) = suc (asks l)
asks (refused r ∷ l) = suc (asks l)
asks (_ ∷ l) = asks l

-- From one trace to a later one the wallet was asked for nothing, or for one transaction, last of all,
-- for which it threw.
abbrev pub IsUnanswered : List Event → List Event → Type 0
IsUnanswered start finish =
    (asks finish ≡ asks start)
    ⊎ ((r : Attributed) × (l : List Event) × (finish ≡ refused r ∷ l) × (asks l ≡ asks start))

pub IsUnanswered-since :
    (x y finish : List Event) → asks x ≡ asks y → IsUnanswered x finish → IsUnanswered y finish
IsUnanswered-since x y finish same (inl quiet) = inl (quiet ∙ same)
IsUnanswered-since x y finish same (inr (r, l, last, quiet)) = inr (r, l, last, quiet ∙ same)

module _ {W : Type 0} where
  -- A computation that asks the wallet for nothing, and one that is unanswered where it throws.
  abbrev pub Quiet : {A : Type 0} → Action W A → Type 0
  Quiet m = (c : Context W) → asks (m c).1.trace ≡ asks c.trace

  abbrev pub QuietErr : {A : Type 0} → Action W A → Type 0
  QuietErr m = (c : Context W) (e : Thrown) → (m c).0 ≡ err e → IsUnanswered c.trace (m c).1.trace

  pub bind-Quiet :
      {A B : Type 0} (m : Action W A) (f : A → Action W B)
      → Quiet m
      → ((a : A) → Quiet (f a))
      → Quiet (m >>= f)
  unfolding ◌>>=◌
  bind-Quiet m f first then_ c = elim (Result-cases (m c).0) [
    | inl (a, e) ↦ ground (arith, e, then_ a (m c).1, first c)
    | inr (x, e) ↦ ground (arith, e, first c)
  ]

  pub bind-QuietErr :
      {A B : Type 0} (m : Action W A) (f : A → Action W B)
      → Quiet m
      → ((a : A) → QuietErr (f a))
      → QuietErr (m >>= f)
  unfolding ◌>>=◌
  bind-QuietErr m f first then_ c x h = elim (Result-cases (m c).0) [
    | inl (a, e) ↦
        let same : (m >>= f) c ≡ f a (m c).1 = ground (arith, e) in
        let threw : (f a (m c).1).0 ≡ err x = sym (ap (λ y. y.0) same) ∙ h in
        subst (λ y. IsUnanswered c.trace y.1.trace) (sym same)
          (IsUnanswered-since (m c).1.trace c.trace (f a (m c).1).1.trace (first c)
            (then_ a (m c).1 x threw))
    | inr (y, e) ↦
        let same : ((m >>= f) c).1.trace ≡ (m c).1.trace = ground (arith, e) in
        inl (ap asks same ∙ first c)
  ]

  pub call-Quiet : {A : Type 0} (f : W → Result A × W) → Quiet (call f)
  unfolding call
  call-Quiet f c = refl

  pub lift-Quiet : {A : Type 0} (r : Result A) → Quiet (lift {W = W} r)
  unfolding lift
  lift-Quiet r c = refl

  pub throw_if-Quiet : (t : Bool) (e : Thrown) → Quiet (throw_if {W = W} t e)
  unfolding throw_if
  throw_if-Quiet true e c = refl
  throw_if-Quiet false e c = refl

  pub noted-Quiet :
      {A : Type 0} (f : W → Result A × W) (note : A → Event)
      → ((a : A) (l : List Event) → asks (note a ∷ l) ≡ asks l)
      → Quiet (noted f note)
  unfolding noted
  noted-Quiet f note silent c = elim (Result-cases (f c.world).0) [
    | inl (a, e) ↦ ground (arith, e, silent a c.trace)
    | inr (x, e) ↦ ground (arith, e)
  ]

  pub write_contract-QuietErr :
      (client : Client W) (r : Request) → QuietErr (write_contract client r)
  unfolding write_contract
  write_contract-QuietErr client r c x h =
      elim (Result-cases (client.write_contract (with_builder_code client r) c.world).0) [
        | inl (a, e) ↦ absurd (ground (arith, e))
        | inr (y, e) ↦
            let same : (write_contract client r c).1.trace
                ≡ refused (with_builder_code client r) ∷ c.trace =
              ground (arith, e) in
            inr (with_builder_code client r, c.trace, same, refl)
      ]

module _ {W : Type 0} (client : Client W) (config : Config) where
  pub date_now-Quiet : Quiet (date_now client)
  unfolding date_now
  date_now-Quiet c = refl

  resolve_in-Quiet :
      (curve factory : Option Address) (token : Address)
      → Quiet (resolve_in client config curve factory token)
  unfolding resolve_in
  resolve_in-Quiet (some curve) factory token c = refl
  resolve_in-Quiet none none token c = refl
  resolve_in-Quiet none (some factory) token c =
      bind-Quiet (call (client.curve_of factory token)) _ (call-Quiet _) (λ a c'. refl) c

  present-Quiet : (curve : Option Address) → Quiet (present client config curve)
  unfolding present
  present-Quiet none c = refl
  present-Quiet (some curve) c = refl

  pub require_curve-Quiet : (token : Address) → Quiet (require_curve client config token)
  unfolding require_curve resolve_curve_address
  require_curve-Quiet token =
      bind-Quiet _ _ (resolve_in-Quiet config.zonk_curve config.zonk_factory token) present-Quiet

  check_buy-Quiet : (hooks : Hooks W) (deadline : ℕ) → Quiet (check_buy client hooks deadline)
  unfolding check_buy assert_buy_quote_fresh
  check_buy-Quiet hooks deadline =
      bind-Quiet _ _ (bind-Quiet _ _ date_now-Quiet (λ t. throw_if-Quiet _ _))
        (λ _. noted-Quiet hooks.assert_ready _ (λ a l. refl))

  simulate_contract-Quiet : (r : Request) → Quiet (simulate_contract client r)
  unfolding simulate_contract
  simulate_contract-Quiet r =
      noted-Quiet (client.simulate r) (λ prepared. simulated r prepared) (λ a l. refl)

  for_account-Quiet :
      (account : Option Address) (read : Address → Action W ℕ)
      → ((a : Address) → Quiet (read a))
      → Quiet (for_account client config account read)
  unfolding for_account
  for_account-Quiet none read quiet c = refl
  for_account-Quiet (some account) read quiet c = quiet account c

  pub read_trade_state-Quiet :
      (token : Address) (account : Option Address)
      → Quiet (read_trade_state client config token account)
  unfolding read_trade_state
  read_trade_state-Quiet token account = bind-Quiet _ _ (require_curve-Quiet token) (λ curve.
      bind-Quiet _ _ (call-Quiet _) (λ sold. bind-Quiet _ _ (call-Quiet _) (λ reserve.
        bind-Quiet _ _ (call-Quiet _) (λ graduated.
          bind-Quiet _ _ (for_account-Quiet account _ (λ a. call-Quiet _)) (λ native.
            bind-Quiet _ _ (for_account-Quiet account _ (λ a. call-Quiet _)) (λ tokens.
              bind-Quiet _ _ (for_account-Quiet account _ (λ a. call-Quiet _))
                (λ allowed. bind-Quiet _ _ (call-Quiet _) (λ places c. refl))))))))

  pub quote_buy_by_budget-Quiet :
      (token : Address) (budget : ℕ) (bps : Number)
      → Quiet (quote_buy_by_budget client config token budget bps)
  unfolding quote_buy_by_budget read_buy_quote transaction_deadline
  quote_buy_by_budget-Quiet token budget bps = bind-Quiet _ _ (throw_if-Quiet _ _) (λ _.
      bind-Quiet _ _
        (bind-Quiet _ _ (require_curve-Quiet token)
          (λ curve. bind-Quiet _ _ (call-Quiet _) (λ quote c. refl)))
        (λ quote.
          bind-Quiet _ _ (throw_if-Quiet _ _) (λ _.
            bind-Quiet _ _ (bind-Quiet _ _ date_now-Quiet (λ t c. refl)) (λ deadline c. refl))))

  -- A buy that throws has asked the wallet for nothing, or for one transaction for which it threw.
  pub submit_buy-QuietErr :
      (hooks : Hooks W) (account token : Address) (quote : BudgetBuyQuote)
      → QuietErr (submit_buy client config hooks account token quote)
  unfolding submit_buy
  submit_buy-QuietErr hooks account token quote =
      bind-QuietErr _ _ (require_curve-Quiet token) (λ curve.
        bind-QuietErr _ _ (check_buy-Quiet hooks quote.deadline) (λ _.
          bind-QuietErr _ _ (noted-Quiet (client.get_balance account) _ (λ a l. refl)) (λ native.
            bind-QuietErr _ _ (throw_if-Quiet _ _) (λ _. bind-QuietErr _ _ (lift-Quiet _) (λ least.
              bind-QuietErr _ _ (simulate_contract-Quiet _) (λ request.
                bind-QuietErr _ _ (check_buy-Quiet hooks quote.deadline)
                  (λ _. write_contract-QuietErr client request)))))))
