-- ===== src/Curve/Resolve/Quiet.antt =====
-- The resolution of a curve's address leaves no event.
use zonk_fun.Base.{◌≡◌, refl, arith, Option, none, some, Result-cases, inl, inr}
use zonk_fun.Client.{Address, Client, Context, ◌>>=◌, call}
use zonk_fun.Curve.Resolve.{Config, resolve_in, resolve_curve_address, require_curve, present}

module _ {W : Type 0} (client : Client W) (config : Config) where
  resolve_in_quiet :
      (curve factory : Option Address) (token : Address) (c : Context W)
      → (resolve_in client config curve factory token c).1.trace ≡ c.trace
  unfolding resolve_in ◌>>=◌ call
  resolve_in_quiet (some curve) factory token c = refl
  resolve_in_quiet none none token c = refl
  resolve_in_quiet none (some factory) token c =
      elim (Result-cases (client.curve_of factory token c.world).0) [
        | inl (a, e) ↦ ground arith
        | inr (x, e) ↦ ground arith
      ]

  present_quiet :
      (curve : Option Address) (c : Context W) → (present client config curve c).1.trace ≡ c.trace
  unfolding present
  present_quiet none c = refl
  present_quiet (some curve) c = refl

  pub require_curve_quiet :
      (token : Address) (c : Context W) → (require_curve client config token c).1.trace ≡ c.trace
  unfolding require_curve resolve_curve_address ◌>>=◌
  require_curve_quiet token c =
      let (r, c1) = resolve_in client config config.zonk_curve config.zonk_factory token c in
      elim (Result-cases r) [
        | inl (curve, e) ↦ ground (
          arith,
          resolve_in_quiet config.zonk_curve config.zonk_factory token c,
          present_quiet curve c1,
        )
        | inr (x, e) ↦
            ground (arith, resolve_in_quiet config.zonk_curve config.zonk_factory token c)
      ]
