-- ===== src/Curve/Submit/Polling.antt =====
-- The polling of the allowance behind an approval.
use zonk_fun.Base.{
  ℕ, suc, ◌*◌, ◌≤◌, ◌<◌, ◌≡◌, inl, inr, refl, arith, Bool, true, false, Bool-cases, List, [], ◌∷◌,
  ◌++◌, Option, some, length, length-append, leb, not_leb→lt, Result, ok, err, Thrown, Result-cases,
  ap, sym, ◌∙◌,
}
use mathlib.Core.Path.{subst}
use mathlib.Core.List.{append_assoc}
use zonk_fun.Client.{
  Address, Client, Action, Context, Event, slept, sell_state, ◌>>=◌, call, tell, pause,
}
use zonk_fun.Curve.Submit.{SellState, read_browser_sell_state, poll_allowance}

-- What the polling leaves in the trace before it ends: pauses, and reads that were too small.
abbrev pub IsPoll : ℕ → Event → Type 0
IsPoll required (slept ms) = Unit
IsPoll required (sell_state a b) = a < required
IsPoll required _ = ⊥

abbrev pub ArePolls : ℕ → List Event → Type 0
ArePolls required [] = Unit
ArePolls required (e ∷ l) = IsPoll required e × ArePolls required l

ArePolls-append :
    (required : ℕ) (xs ys : List Event)
    → ArePolls required xs
    → ArePolls required ys
    → ArePolls required (xs ++ ys)
ArePolls-append required [] ys hx hy = hy
ArePolls-append required (x ∷ xs) ys hx hy = (hx.0, ArePolls-append required xs ys hx.1 hy)

-- A polling that returned, from the trace `start` to the trace `finish`: at least as much as
-- required, by the first read that shows it, behind pauses and smaller reads only, fewer than
-- `bound` of them.
abbrev pub Polled : ℕ → ℕ → List Event → SellState → List Event → Type 0
Polled required bound start s finish =
    (polls : List Event) × ArePolls required polls
    × (length polls < bound)
    × (required ≤ s.allowance)
    × (finish ≡ sell_state s.allowance s.token_balance ∷ (polls ++ start))

-- The rest of a polling behind one more event.
Polled-extend :
    (required bound : ℕ) (e : Event) (start later : List Event) (s : SellState)
    (finish : List Event)
    → IsPoll required e
    → later ≡ e ∷ start
    → Polled required bound later s finish
    → Polled required (suc bound) start s finish
Polled-extend required bound e start later s finish is_poll step (polls, are, below, enough, last) =
    (
      polls ++ (e ∷ []),
      ArePolls-append required polls (e ∷ []) are (is_poll, tt),
      omega (arith, length-append polls (e ∷ [])),
      enough,
      last
          ∙ ap (λ l. sell_state s.allowance s.token_balance ∷ l)
              (ap (λ l. polls ++ l) step ∙ sym (append_assoc polls (e ∷ []) start)),
    )

-- Where a read failed, nothing is added.
Polled-skip :
    (required bound : ℕ) (start later : List Event) (s : SellState) (finish : List Event)
    → later ≡ start
    → Polled required bound later s finish
    → Polled required (suc bound) start s finish
Polled-skip required bound start later s finish same (polls, are, below, enough, last) =
    (polls, are, omega arith, enough, rw (← same) last)

module _ {W : Type 0} (client : Client W) (token account curve : Address) where
  abbrev read_state : Action W SellState
  read_state = read_browser_sell_state client token account curve

  -- One read leaves what it read, or nothing where it throws.
  abbrev Reads : Context W → Result SellState → Context W → Type 0
  Reads c (ok s) d = d.trace ≡ sell_state s.allowance s.token_balance ∷ c.trace
  Reads c (err e) d = d.trace ≡ c.trace

  read_course : (c : Context W) → Reads c (read_state c).0 (read_state c).1
  unfolding read_browser_sell_state ◌>>=◌ call tell
  read_course c =
      let (allowed, w) = client.allowance token account curve c.world in
      elim (Result-cases allowed) [
        | inr (x, e) ↦ ground arith
        | inl (a, e) ↦ elim (Result-cases (client.balance_of token account w).0) [
          | inl (b, e') ↦ ground arith
          | inr (x, e') ↦ ground arith
        ]
      ]

  pub read_ok :
      (c : Context W) {s : SellState} {d : Context W}
      → read_state c ≡ (ok s, d)
      → d.trace ≡ sell_state s.allowance s.token_balance ∷ c.trace
  read_ok c {s} {d} e = subst (λ x. Reads c x.0 x.1) e (read_course c)

  abbrev poll_from : ℕ → List ℕ → Bool → Option Thrown → Action W SellState
  poll_from = poll_allowance client token account curve

  -- A round without a pause, given the rounds behind it.
  poll_first :
      (required delay : ℕ) (delays : List ℕ) (last : Option Thrown) (c : Context W) {s : SellState}
      {d : Context W}
      → ((l : Option Thrown) (c' : Context W)
          → poll_from required delays false l c' ≡ (ok s, d)
          → Polled required (2 * length delays) c'.trace s d.trace)
      → poll_from required (delay ∷ delays) true last c ≡ (ok s, d)
      → Polled required (suc (2 * length delays)) c.trace s d.trace
  unfolding poll_allowance
  poll_first required delay delays last c {s} {d} later h =
      let c' = (read_state c).1 in
      let seen = λ (state : SellState) (e : (read_state c).0 ≡ ok state).
        subst (λ r. Reads c r c') e (read_course c) in
      elim (Result-cases (read_state c).0) [
        | inl (state, e) ↦ elim (Bool-cases (leb required state.allowance)) [
          | inl enough ↦ ([], tt, omega arith, ground arith, ground (arith, seen state e))
          | inr small ↦
              Polled-extend required _ (sell_state state.allowance state.token_balance) c.trace
                c'.trace s d.trace (not_leb→lt required state.allowance small) (seen state e)
                (later last c' (ground arith))
        ]
        | inr (x, e) ↦
            Polled-skip required _ c.trace c'.trace s d.trace
              (subst (λ r. Reads c r c') e (read_course c)) (later (some x) c' (ground arith))
      ]

  -- A polling that returns a state has read an allowance that is large enough, at once or behind
  -- pauses and smaller readings, fewer than twice as many as there are delays.
  pub poll_course :
      (required : ℕ) (delays : List ℕ) (first : Bool) (last : Option Thrown) (c : Context W)
      {s : SellState} {d : Context W}
      → poll_from required delays first last c ≡ (ok s, d)
      → Polled required (2 * length delays) c.trace s d.trace
  unfolding poll_allowance pause
  poll_course required [] first last c h = absurd (ground arith)
  poll_course required (delay ∷ delays) true last c {s} {d} h =
      let (polls, are, below, enough, last_read) =
        poll_first required delay delays last c
          (λ l c' h'. poll_course required delays false l c' h') h in
      (polls, are, omega arith, enough, last_read)
  poll_course required (delay ∷ delays) false last c {s} {d} h =
      let waited = (pause client delay c).1 in
      let (polls, are, below, enough, last_read) =
        Polled-extend required _ (slept delay) c.trace waited.trace s d.trace tt refl (
          poll_first required delay delays last waited
            (λ l c' h'. poll_course required delays false l c' h') h) in
      (polls, are, omega arith, enough, last_read)
