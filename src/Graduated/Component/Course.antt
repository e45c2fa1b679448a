-- ===== src/Graduated/Component/Course.antt =====
-- What a run of `submit` of the swap component went through, and what it leaves.
use zonk_fun.Base.{
  ℕ, ◌≡◌, ◌∷◌, if◌then◌else◌, refl, sym, ap, ◌∙◌, arith, Bool, true, false, not, ◌||◌, Option, none,
  some, get_or, Result, ok, err,
}
use zonk_fun.Client.{Address, Hash, Client, Context, clock, date_now, Side}
use zonk_fun.Client.Laws.{bind_ok, throw_if_ok, call_quiet, date_now_ok}
use zonk_fun.Graduated.Quote.{Periphery, ValidatedPool, GraduatedQuote, quote_is_fresh}
use zonk_fun.Graduated.Component.Swapping.{
  assert_context, swap_body, submit_checked, submit_with, submit,
}
use zonk_fun.Graduated.Component.{
  SwapBalances, SwapPanel, Execution, Render, Wallet, is_wallet, released, release, started,
}
use zonk_fun.Panel.Handlers.{same_chain}

module _ {W : Type 0} (client : Client (SwapPanel × W)) (wallets : Wallet (SwapPanel × W))
    (periphery : Periphery (SwapPanel × W)) where
  -- The values of the render that a run of the body used, and its two ends.
  pub record Ran (r : Render) (c : Context (SwapPanel × W)) (result : Result Hash)
      (d : Context (SwapPanel × W)) : Type 0 where
    pub quote : GraduatedQuote
    pub pool : ValidatedPool
    pub wallet : Address
    pub balances : SwapBalances
    pub checked : Context (SwapPanel × W)
    pub held : c.world.0.quote ≡ some quote
    pub pool_known : r.pool ≡ some pool
    pub wallet_known : r.wallet ≡ some wallet
    pub finished :
        release (
          swap_body client wallets periphery r c.world.0.side quote wallet pool balances
            (started checked))
        ≡ (result, d)

  ran_checked :
      (r : Render) (side : Side) (quote : GraduatedQuote) (wallet : Address) (pool : ValidatedPool)
      (balances : SwapBalances) (first : Result (Unit {0}) × Context (SwapPanel × W))
      {result : Result Hash} {d : Context (SwapPanel × W)}
      → submit_checked client wallets periphery r side quote wallet pool balances first
        ≡ (some result, d)
      → release
          (swap_body client wallets periphery r side quote wallet pool balances (started first.1))
        ≡ (result, d)
  unfolding submit_checked
  ran_checked r side quote wallet pool balances (err e, c1) h = absurd (ground arith)
  ran_checked r side quote wallet pool balances (ok u, c1) h = ground arith

  from_values :
      (q : Option GraduatedQuote) (p : Option ValidatedPool) (w : Option Address)
      (b : Option SwapBalances) (r : Render) (c : Context (SwapPanel × W)) {result : Result Hash}
      {d : Context (SwapPanel × W)}
      → c.world.0.quote ≡ q
      → r.pool ≡ p
      → r.wallet ≡ w
      → submit_with client wallets periphery q p w b r c ≡ (some result, d)
      → Ran r c result d
  unfolding submit_with
  from_values (some quote) (some pool) (some wallet) (some balances) r c eq ep ew h =
      let first = assert_context client wallets periphery quote wallet r.chain_id pool c in
      record {
        quote = quote;
        pool = pool;
        wallet = wallet;
        balances = balances;
        checked = first.1;
        held = eq;
        pool_known = ep;
        wallet_known = ew;
        finished = ran_checked r c.world.0.side quote wallet pool balances first h;
      }
  from_values none p w b r c eq ep ew h = absurd (ground arith)
  from_values (some quote) none w b r c eq ep ew h = absurd (ground arith)
  from_values (some quote) (some pool) none b r c eq ep ew h = absurd (ground arith)
  from_values (some quote) (some pool) (some wallet) none r c eq ep ew h = absurd (ground arith)

  behind :
      (busy : Bool) (c : Context (SwapPanel × W))
      (rest : Option (Result Hash) × Context (SwapPanel × W)) {result : Result Hash}
      {d : Context (SwapPanel × W)}
      → (if busy then (none, c) else rest) ≡ (some result, d)
      → (busy ≡ false) × (rest ≡ (some result, d))
  behind true c rest h = absurd (ground arith)
  behind false c rest h = (refl, h)

  pub ran :
      (r : Render) (c : Context (SwapPanel × W)) {result : Result Hash}
      {d : Context (SwapPanel × W)}
      → submit client wallets periphery r c ≡ (some result, d)
      → (c.world.0.busy ≡ false) × Ran r c result d
  unfolding submit
  ran r c h =
      let (idle, rest) = behind c.world.0.busy c _ h in
      (idle, from_values c.world.0.quote r.pool r.wallet r.balances r c refl refl refl rest)

  released_idle :
      (result : Result Hash) (p : SwapPanel)
      → ((released result p).busy ≡ false) × ((released result p).pending ≡ false)
  unfolding released
  released_idle (ok hash) p = (refl, refl)
  released_idle (err e) p = (refl, refl)

  -- A run of the body, whether it returned or threw, began on a component that was not busy and
  -- leaves it neither busy nor pending.
  pub submit_releases :
      (r : Render) (c d : Context (SwapPanel × W)) (result : Result Hash)
      → submit client wallets periphery r c ≡ (some result, d)
      → (c.world.0.busy ≡ false) × (d.world.0.busy ≡ false) × (d.world.0.pending ≡ false)
  submit_releases r c d result h =
      let (idle, course) = ran r c h in
      let body =
        swap_body client wallets periphery r c.world.0.side course.quote course.wallet course.pool
          course.balances (started course.checked) in
      let at_end : (body.0 ≡ result) × (released body.0 body.1.world.0 ≡ d.world.0) =
        (ap (λ x. x.0) course.finished, ap (λ x. x.1.world.0) course.finished) in
      let (free, settled) = released_idle body.0 body.1.world.0 in
      (idle, sym (ap (λ p. p.busy) at_end.1) ∙ free, sym (ap (λ p. p.pending) at_end.1) ∙ settled)

  -- What `assertContext` established when it returned: at the reading of the clock that it left, the
  -- quote was fresh, and the wallet and chain were those of the render.
  pub record IsTimely (quote : GraduatedQuote) (wallet : Address) (chain_id : Option ℕ)
      (pool : ValidatedPool) (before : Context (SwapPanel × W)) (after : Context (SwapPanel × W))
      : Type 0 where
    pub now : ℕ
    pub current : Execution
    pub read_at : after.trace ≡ clock now ∷ before.trace
    pub fresh : quote_is_fresh quote wallet pool.pool (get_or chain_id 0) now ≡ true
    pub same_wallet : is_wallet current.wallet wallet ≡ true
    pub same_network : same_chain current.chain_id chain_id ≡ true

  all_held :
      (x y z : Bool) → (not x || not y || not z) ≡ false → (x ≡ true) × (y ≡ true) × (z ≡ true)
  all_held true true true h = (refl, refl, refl)
  all_held true true false h = absurd (ground arith)
  all_held true false z h = absurd (ground arith)
  all_held false y z h = absurd (ground arith)

  pub context-IsTimely :
      (quote : GraduatedQuote) (wallet : Address) (chain_id : Option ℕ) (pool : ValidatedPool)
      (c d : Context (SwapPanel × W))
      → assert_context client wallets periphery quote wallet chain_id pool c ≡ (ok tt, d)
      → IsTimely quote wallet chain_id pool c d
  unfolding assert_context
  context-IsTimely quote wallet chain_id pool c d h =
      let (current, c1, e1, r1) = bind_ok _ _ c h in
      let (now, c2, e2, r2) = bind_ok (date_now client) _ c1 r1 in
      let (passed, same) = throw_if_ok _ _ c2 r2 in
      let (wallet_held, network_held, fresh) =
        all_held (is_wallet current.wallet wallet) (same_chain current.chain_id chain_id)
          (quote_is_fresh quote wallet pool.pool (get_or chain_id 0) now) passed in
      record {
        now = now;
        current = current;
        read_at =
            ap (λ x. x.trace) same
            ∙ date_now_ok client c1 e2
            ∙ ap (λ l. clock now ∷ l) (call_quiet _ c e1);
        fresh = fresh;
        same_wallet = wallet_held;
        same_network = network_held;
      }
