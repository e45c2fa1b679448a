-- ===== src/Client/Laws.antt =====
-- How a run of an `Action` is taken apart: what a run that returned did at each step.
use zonk_fun.Base.{
  ℕ, ◌≡◌, ◌⊎◌, inl, inr, refl, ◌∙◌, ap, arith, Bool, true, false, List, ◌∷◌, Result, ok,
  Result-cases, Thrown,
}
use zonk_fun.Client.{
  Client, Context, Action, Event, pure, throw, call, Request, Hash, noted, lift, catching, throw_if,
  ◌>>=◌, date_now, clock, simulated, simulate_contract, write_contract, with_builder_code, wrote,
}

-- A bind that returned ran its first part, and then the rest from where that ended.
pub bind_ok :
    {W A B : Type 0} (m : Action W A) (f : A → Action W B) (c : Context W) {b : B} {d : Context W}
    → (m >>= f) c ≡ (ok b, d)
    → (a : A) × (c' : Context W) × (m c ≡ (ok a, c')) × (f a c' ≡ (ok b, d))
unfolding ◌>>=◌
bind_ok m f c h = elim (Result-cases (m c).0) [
  | inl (a, e) ↦ (a, (m c).1, ground arith, ground arith)
  | inr (e, failed) ↦ absurd (ground arith)
]

-- `pure` returns its value and changes nothing.
pub pure_ok :
    {W A : Type 0} (a : A) (c : Context W) {b : A} {d : Context W}
    → pure a c ≡ (ok b, d)
    → (b ≡ a) × (d ≡ c)
pure_ok a c e = (ground arith, ground arith)

pub throw_not_ok :
    {W A : Type 0} (x : Thrown) (c : Context W) {b : A} {d : Context W} → ¬ (throw x c ≡ (ok b, d))
throw_not_ok x c e = ground arith

-- The trace of a step that adds an event, on that of the steps before it.
pub grow : {x y : List Event} {e : Event} {l : List Event} → y ≡ e ∷ x → x ≡ l → y ≡ e ∷ l
grow {e} step before = step ∙ ap (λ l. e ∷ l) before

module _ {W : Type 0} where
  -- A guard that was passed was not met, and did nothing.
  pub throw_if_ok :
      (test : Bool) (e : Thrown) (c : Context W) {d : Context W}
      → throw_if test e c ≡ (ok tt, d)
      → (test ≡ false) × (d ≡ c)
  unfolding throw_if
  throw_if_ok true e c h = absurd (ground arith)
  throw_if_ok false e c h = (refl, ground arith)

  -- A pure step that returned changed nothing.
  pub lift_ok :
      {A : Type 0} (r : Result A) (c : Context W) {a : A} {d : Context W}
      → lift r c ≡ (ok a, d)
      → (r ≡ ok a) × (d ≡ c)
  unfolding lift
  lift_ok r c h = (ground arith, ground arith)

  -- A call that is not noted leaves nothing.
  pub call_quiet :
      {A : Type 0} (f : W → Result A × W) (c : Context W) {a : A} {d : Context W}
      → call f c ≡ (ok a, d)
      → d.trace ≡ c.trace
  unfolding call
  call_quiet f c h = ground arith

  -- A call that returned is the interface's answer in that world.
  pub call_ok :
      {A : Type 0} (f : W → Result A × W) (c : Context W) {a : A} {d : Context W}
      → call f c ≡ (ok a, d)
      → (f c.world).0 ≡ ok a
  unfolding call
  call_ok f c h = ap (λ x. x.0) h

  -- A noted call that returned left its event.
  pub noted_ok :
      {A : Type 0} (f : W → Result A × W) (note : A → Event) (c : Context W) {a : A} {d : Context W}
      → noted f note c ≡ (ok a, d)
      → d.trace ≡ note a ∷ c.trace
  unfolding noted
  noted_ok f note c h = elim (Result-cases (f c.world).0) [
    | inl (a, e) ↦ ground arith
    | inr (e, failed) ↦ absurd (ground arith)
  ]

  -- A submission that returned left the request and its hash.
  pub write_contract_ok :
      (client : Client W) (r : Request) (c : Context W) {h : Hash} {d : Context W}
      → write_contract client r c ≡ (ok h, d)
      → d.trace ≡ wrote (with_builder_code client r) h ∷ c.trace
  unfolding write_contract
  write_contract_ok client r c e =
      elim (Result-cases (client.write_contract (with_builder_code client r) c.world).0) [
        | inl (h, sent) ↦ ground arith
        | inr (x, failed) ↦ absurd (ground arith)
      ]

  -- A `try` that returned did so by its body, or by its handler behind what the body threw.
  pub catching_ok :
      {A : Type 0} (m : Action W A) (handler : Thrown → Action W A) (c : Context W) {a : A}
      {d : Context W}
      → catching m handler c ≡ (ok a, d)
      → (m c ≡ (ok a, d)) ⊎ ((e : Thrown) × (c' : Context W) × (handler e c' ≡ (ok a, d)))
  unfolding catching
  catching_ok m handler c h = elim (Result-cases (m c).0) [
    | inl (a, e) ↦ inl (ground arith)
    | inr (x, e) ↦ inr (x, (m c).1, ground arith)
  ]

  -- Reading the clock returns, and leaves the reading.
  pub date_now_ok :
      (client : Client W) (c : Context W) {t : ℕ} {d : Context W}
      → date_now client c ≡ (ok t, d)
      → d.trace ≡ clock t ∷ c.trace
  unfolding date_now
  date_now_ok client c h = ground arith

  pub simulate_contract_ok :
      (client : Client W) (r : Request) (c : Context W) {prepared : Request} {d : Context W}
      → simulate_contract client r c ≡ (ok prepared, d)
      → d.trace ≡ simulated r prepared ∷ c.trace
  unfolding simulate_contract
  simulate_contract_ok client r c h = noted_ok (client.simulate r) (λ p. simulated r p) c h

  -- A step that changes nothing.
  pub keep : {c d : Context W} {l : List Event} → d ≡ c → c.trace ≡ l → d.trace ≡ l
  keep same before = ap (λ x. x.trace) same ∙ before
