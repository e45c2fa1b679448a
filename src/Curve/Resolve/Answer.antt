-- ===== src/Curve/Resolve/Answer.antt =====
-- Which curve `resolveCurveAddress` finds.
use zonk_fun.Base.{◌≡◌, ◌⊎◌, inl, inr, refl, sym, arith, Bool-cases, Option, none, some, ok}
use zonk_fun.Client.{Address, Client, Context, call}
use zonk_fun.Client.Laws.{bind_ok, call_ok, pure_ok, throw_not_ok}
use zonk_fun.Curve.Resolve.{
  Config, is_unset, resolve_in, resolve_curve_address, present, require_curve,
}

module _ {W : Type 0} (client : Client W) (config : Config) (token : Address) where
  -- The configured curve, or else the one that the configured factory answered for the token.
  abbrev pub IsCurveOf : Address → Type 0
  IsCurveOf curve =
      (config.zonk_curve ≡ some curve)
      ⊎ ((factory : Address) × (w : W) × (config.zonk_curve ≡ none)
          × (config.zonk_factory ≡ some factory)
          × ((client.curve_of factory token w).0 ≡ ok (some curve)))

  -- The same for a configuration in two parts.
  abbrev IsFrom : Option Address → Option Address → Address → Type 0
  IsFrom configured maker curve =
      (configured ≡ some curve)
      ⊎ ((factory : Address) × (w : W) × (configured ≡ none)
          × (maker ≡ some factory)
          × ((client.curve_of factory token w).0 ≡ ok (some curve)))

  resolve_in-IsFrom :
      (configured maker : Option Address) (c : Context W) {curve : Address} {d : Context W}
      → resolve_in client config configured maker token c ≡ (ok (some curve), d)
      → IsFrom configured maker curve
  unfolding resolve_in
  resolve_in-IsFrom (some a) maker c h = inl (sym (pure_ok _ c h).0)
  resolve_in-IsFrom none none c h = absurd (let eq = pure_ok _ c h in ground arith)
  resolve_in-IsFrom none (some factory) c {curve} {d} h =
      let (found, c1, e1, r1) = bind_ok (call (client.curve_of factory token)) _ c h in
      let answered = call_ok (client.curve_of factory token) c e1 in
      elim (Bool-cases (is_unset found)) [
        | inl unset ↦ absurd (let eq = pure_ok _ c1 {d = d} (rw unset at r1) in ground arith)
        | inr set ↦
            let eq : some curve ≡ found = (pure_ok found c1 {d = d} (rw set at r1)).0 in
            inr (factory, c.world, refl, refl, rw eq answered)
      ]

  present-IsCurveOf :
      (found : Option Address) (c c1 : Context W) {d : Context W} {curve : Address}
      → resolve_curve_address client config token c ≡ (ok found, c1)
      → present client config found c1 ≡ (ok curve, d)
      → IsCurveOf curve
  unfolding present resolve_curve_address
  present-IsCurveOf none c c1 e h = absurd (throw_not_ok _ c1 h)
  present-IsCurveOf (some a) c c1 e h =
      rw (pure_ok a c1 h).0 (resolve_in-IsFrom config.zonk_curve config.zonk_factory c e)

  -- The curve that is required for a token is that token's.
  pub require_curve-IsCurveOf :
      (c : Context W) {curve : Address} {d : Context W}
      → require_curve client config token c ≡ (ok curve, d)
      → IsCurveOf curve
  unfolding require_curve
  require_curve-IsCurveOf c h =
      let (found, c1, e1, r1) = bind_ok (resolve_curve_address client config token) _ c h in
      present-IsCurveOf found c c1 e1 r1
