-- ===== src/Graduated/Component/Confirmed.antt =====
-- A run of `submit` of the swap component that ended with a hash.
use mathlib.Core.Path.{subst}
use zonk_fun.Base.{◌≡◌, refl, sym, ap, ◌∙◌, arith, false, not, Option, some, Result, ok, err}
use zonk_fun.Client.{
  Address, Hash, Client, Context, Receipt, ReplacementReason, success, reverted, call, Side,
}
use zonk_fun.Client.Laws.{bind_ok, pure_ok, throw_if_ok, call_ok}
use zonk_fun.Graduated.Quote.{Periphery, ValidatedPool, GraduatedQuote}
use zonk_fun.Graduated.Swap.{orchestrate_graduated_swap}
use zonk_fun.Graduated.Swap.Laws.{IsSent, swap_course}
use zonk_fun.Graduated.Component.Swapping.{swap_input, swap_body, submit}
use zonk_fun.Graduated.Component.{
  SwapStatus, SwapBalances, SwapPanel, Render, Wallet, set, set_status, is_success, released,
  started,
}
use zonk_fun.Graduated.Component.Performed.{IsPerformed, sent-IsPerformed}
use zonk_fun.Graduated.Component.Course.{ran, IsTimely, context-IsTimely}

module _ {W : Type 0} (client : Client (SwapPanel × W)) (wallets : Wallet (SwapPanel × W))
    (periphery : Periphery (SwapPanel × W)) where
  -- The course of a swap that was confirmed: what the render gave, the sending, and the receipt.
  pub record IsConfirmed (r : Render) (c : Context (SwapPanel × W)) (hash : Hash) : Type 0 where
    pub quote : GraduatedQuote
    pub pool : ValidatedPool
    pub wallet : Address
    pub balances : SwapBalances
    pub held : c.world.0.quote ≡ some quote
    pub pool_known : r.pool ≡ some pool
    pub wallet_known : r.wallet ≡ some wallet
    pub sent : Context (SwapPanel × W)
    pub sending :
        IsSent
          (swap_input client wallets periphery r c.world.0.side quote wallet pool balances)
          hash
          sent
    pub timely :
        IsTimely client wallets periphery quote wallet r.chain_id pool sending.simulated
          sending.ready
    pub performed :
        IsPerformed client wallets periphery r.token c.world.0.side quote pool wallet hash
          sending.before.world sending.checked.world
    pub receipt : Receipt
    pub replacement : Option ReplacementReason
    pub asked : SwapPanel × W
    pub answer : (client.wait_for_receipt hash asked).0 ≡ ok (receipt, replacement)
    pub succeeded : receipt.status ≡ success

  success_only : (s : _) → not (is_success s) ≡ false → s ≡ success
  success_only success h = refl
  success_only reverted h = absurd (ground arith)

  input-IsTimely :
      (r : Render) (side : Side) (quote : GraduatedQuote) (wallet : Address) (pool : ValidatedPool)
      (balances : SwapBalances) (hash : Hash) (d : Context (SwapPanel × W))
      (s : IsSent (swap_input client wallets periphery r side quote wallet pool balances) hash d)
      → IsTimely client wallets periphery quote wallet r.chain_id pool s.simulated s.ready
  unfolding swap_input
  input-IsTimely r side quote wallet pool balances hash d s =
      context-IsTimely client wallets periphery quote wallet r.chain_id pool s.simulated s.ready
        s.context_still

  body_confirmed :
      (r : Render) (c : Context (SwapPanel × W)) (quote : GraduatedQuote) (wallet : Address)
      (pool : ValidatedPool) (balances : SwapBalances) (hash : Hash) (b d : Context (SwapPanel × W))
      → c.world.0.quote ≡ some quote
      → r.pool ≡ some pool
      → r.wallet ≡ some wallet
      → swap_body client wallets periphery r c.world.0.side quote wallet pool balances b
        ≡ (ok hash, d)
      → IsConfirmed r c hash × (d.world.0.status ≡ SwapStatus.confirmed)
  unfolding swap_body set set_status
  body_confirmed r c quote wallet pool balances hash b d held pool_known wallet_known h =
      let (_, c1, _, r1) = bind_ok _ _ b h in
      let (sent_hash, c2, e2, r2) =
        bind_ok
          (orchestrate_graduated_swap client
            (swap_input client wallets periphery r c.world.0.side quote wallet pool balances))
          _ c1 r1 in
      let (_, c3, _, r3) = bind_ok _ _ c2 r2 in
      let (_, c4, _, r4) = bind_ok _ _ c3 r3 in
      let (_, c5, _, r5) = bind_ok _ _ c4 r4 in
      let (answer, c6, e6, r6) = bind_ok (call (client.wait_for_receipt sent_hash)) _ c5 r5 in
      let (_, c7, e7, r7) = bind_ok _ _ c6 r6 in
      let (_, c8, e8, r8) = bind_ok (set_status SwapStatus.confirmed) _ c7 r7 in
      let (same, last) = pure_ok sent_hash c8 r8 in
      let (passed, _) = throw_if_ok (not (is_success answer.0.status)) _ c6 e7 in
      let course =
        swap_course client
          (swap_input client wallets periphery r c.world.0.side quote wallet pool balances) c1 c2
          sent_hash e2 in
      let confirmed : IsConfirmed r c sent_hash = record {
        quote = quote;
        pool = pool;
        wallet = wallet;
        balances = balances;
        held = held;
        pool_known = pool_known;
        wallet_known = wallet_known;
        sent = c2;
        sending = course;
        timely = input-IsTimely r c.world.0.side quote wallet pool balances sent_hash c2 course;
        performed =
            sent-IsPerformed client wallets periphery r c.world.0.side quote wallet pool balances
              sent_hash c2 course;
        receipt = answer.0;
        replacement = answer.1;
        asked = c5.world;
        answer = call_ok (client.wait_for_receipt sent_hash) c5 e6;
        succeeded = success_only answer.0.status passed;
      } in
      (
        subst (λ x. IsConfirmed r c x) (sym same) confirmed,
        ap (λ x. x.world.0.status) last ∙ sym (ap (λ x. x.1.world.0.status) e8),
      )

  released_ok :
      (result : Result Hash) (p : SwapPanel) (hash : Hash)
      → result ≡ ok hash
      → (released result p).status ≡ p.status
  unfolding released
  released_ok (ok h) p hash e = refl
  released_ok (err x) p hash e = absurd (ground arith)

  -- Where `submit` ends with a hash, the panel held a quote, and that quote's transaction was sent
  -- with this hash after its last steps: the client's answers on the balances and the allowance, read
  -- anew, covered the amount; the simulation of the transaction passed; at the last reading of the clock
  -- the quote was fresh for the wallet and the chain of the render; and the wallet answered that
  -- transaction with the hash. The transaction is the router's call for the quote: on the side, with the
  -- amount, the least output and the deadline of the quote, and with what it yields going to the wallet.
  -- The receipt of the hash is a success, and the status is `confirmed`.
  pub confirmed_swap :
      (r : Render) (c d : Context (SwapPanel × W)) (hash : Hash)
      → submit client wallets periphery r c ≡ (some (ok hash), d)
      → IsConfirmed r c hash × (d.world.0.status ≡ SwapStatus.confirmed)
  confirmed_swap r c d hash h =
      let (_, course) = ran client wallets periphery r c h in
      let b = started course.checked in
      let body =
        swap_body client wallets periphery r c.world.0.side course.quote course.wallet course.pool
          course.balances b in
      let returned : body.0 ≡ ok hash = ap (λ x. x.0) course.finished in
      let (confirmed, status) =
        body_confirmed r c course.quote course.wallet course.pool course.balances hash b body.1
          course.held course.pool_known course.wallet_known (ap (λ x. (x, body.1)) returned) in
      (
        confirmed,
        sym (ap (λ x. x.1.world.0.status) course.finished)
            ∙ released_ok body.0 body.1.world.0 hash returned
            ∙ status,
      )
