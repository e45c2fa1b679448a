-- ===== src/Curve/Submit/Checks.antt =====
-- The two checks that stand before each step of a submission: the deadline, and the caller's own.
use zonk_fun.Base.{ℕ, ◌/◌, ◌<◌, ◌≡◌, ◌∷◌, ok, not_leb→lt}
use zonk_fun.Client.{Client, Context, date_now, clock, ready}
use zonk_fun.Client.Laws.{bind_ok, throw_if_ok, noted_ok, grow, keep, date_now_ok}
use zonk_fun.Curve.Quote.{assert_buy_quote_fresh, assert_sell_deadline}
use zonk_fun.Curve.Submit.{Hooks, check_buy, check_sell}

-- The checks passed: the clock was read, before the deadline, and then the caller agreed.
abbrev pub Passed : {W : Type 0} → ℕ → Context W → Context W → Type 0
Passed deadline c d = (t : ℕ) × (t / 1000 < deadline) × (d.trace ≡ ready ∷ clock t ∷ c.trace)

module _ {W : Type 0} (client : Client W) (hooks : Hooks W) (deadline : ℕ) where
  pub check_buy_ok :
      (c : Context W) {d : Context W}
      → check_buy client hooks deadline c ≡ (ok tt, d)
      → Passed deadline c d
  unfolding check_buy assert_buy_quote_fresh
  check_buy_ok c h =
      let (_, c2, e2, h2) = bind_ok (assert_buy_quote_fresh client deadline) _ c h in
      let (t, c1, read, rest) = bind_ok (date_now client) _ c e2 in
      let (late, same) = throw_if_ok _ _ c1 rest in
      (
        t,
        not_leb→lt deadline (t / 1000) late,
        grow (noted_ok hooks.assert_ready (λ _. ready) c2 h2)
            (keep same (date_now_ok client c read)),
      )

  pub check_sell_ok :
      (c : Context W) {d : Context W}
      → check_sell client hooks deadline c ≡ (ok tt, d)
      → Passed deadline c d
  unfolding check_sell assert_sell_deadline
  check_sell_ok c h =
      let (_, c2, e2, h2) = bind_ok (assert_sell_deadline client deadline) _ c h in
      let (t, c1, read, rest) = bind_ok (date_now client) _ c e2 in
      let (late, same) = throw_if_ok _ _ c1 rest in
      (
        t,
        not_leb→lt deadline (t / 1000) late,
        grow (noted_ok hooks.assert_ready (λ _. ready) c2 h2)
            (keep same (date_now_ok client c read)),
      )
