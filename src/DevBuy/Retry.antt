-- ===== src/DevBuy/Retry.antt =====
-- What lies behind the failures of the creator's buy that may be tried again.
use mathlib.Core.Path.{subst}
use zonk_fun.Base.{
  ◌≡◌, ◌⊎◌, inl, inr, refl, sym, ap, ◌∙◌, arith, Bool, true, false, List, ◌∷◌, Option, none, some,
  Result, ok, err, integer, pos, Thrown,
}
use zonk_fun.Client.{Hash, buy, Client, Context, Event, Attributed, wrote, with_builder_code}
use zonk_fun.Client.Laws.{bind_ok}
use zonk_fun.Curve.Quote.{quote_buy_by_budget}
use zonk_fun.Curve.Submit.BuyTrace.{submitted_buy_course}
use zonk_fun.Curve.Resolve.{Config, read_trade_state}
use zonk_fun.Curve.Confirm.{TradeConfirmation, ConfirmationStatus, confirm_trade}
use zonk_fun.Curve.Confirm
use zonk_fun.DevBuy.{
  DevBuyInput, DevBuyResult, DevBuyAttemptError, bought, failed, failure_of, no_hooks, tell_status,
  reporting, submit_dev_buy, conclude_dev_buy, confirm_dev_buy, settle_dev_buy, execute_dev_buy,
  dev_buy_preparing, dev_buy_awaiting_wallet,
}
use zonk_fun.DevBuy.Writes.{
  asks, IsUnanswered, QuietErr, bind-QuietErr, read_trade_state-Quiet, quote_buy_by_budget-Quiet,
  submit_buy-QuietErr,
}

module _ {W : Type 0} (client : Client W) (config : Config) (input : DevBuyInput W) where
  submit_dev_buy-QuietErr : QuietErr (submit_dev_buy client config input)
  unfolding submit_dev_buy reporting tell_status
  submit_dev_buy-QuietErr =
      bind-QuietErr _ _
        (read_trade_state-Quiet client config input.token_address (some input.creator_address))
        (λ state.
          bind-QuietErr _ _
            (quote_buy_by_budget-Quiet client config input.token_address input.amount
              (integer (pos 100)))
            (λ quote.
              bind-QuietErr _ _ (λ c. refl)
                (λ _.
                  submit_buy-QuietErr client config no_hooks input.creator_address
                    input.token_address quote)))

  -- The buy that this run submitted, from a context with the trace `start`, was confirmed as reverted:
  -- the wallet was asked once since, and answered with the hash, and the failure
  -- names the hash of the confirmation.
  abbrev pub IsReverted : List Event → DevBuyAttemptError → Type 0
  IsReverted start f =
      (before after c : Context W) × (hash : Hash) × (r : Attributed) × (l : List Event)
      × (k : TradeConfirmation) × (before.trace ≡ start)
      × (submit_dev_buy client config input before ≡ (ok hash, after))
      × (after.trace ≡ wrote r hash ∷ l)
      × (asks l ≡ asks start)
      × (c.trace ≡ after.trace)
      × ((confirm_trade client config hash buy input.token_address input.creator_address none c).0
          ≡ ok k)
      × (k.status ≡ ConfirmationStatus.reverted)
      × (f.buy_hash ≡ some k.hash)

  -- A submission that returned ends with the wallet's answer.
  submit_dev_buy_wrote :
      (c d : Context W) (hash : Hash)
      → submit_dev_buy client config input c ≡ (ok hash, d)
      → (r : Attributed) × (l : List Event) × (d.trace ≡ wrote r hash ∷ l) × (asks l ≡ asks c.trace)
  unfolding submit_dev_buy reporting tell_status
  submit_dev_buy_wrote c d hash h =
      let read = read_trade_state client config input.token_address (some input.creator_address) in
      let quoting =
        quote_buy_by_budget client config input.token_address input.amount (integer (pos 100)) in
      let (_, c1, e1, h1) = bind_ok read _ c h in
      let (quote, c2, e2, h2) = bind_ok quoting _ c1 h1 in
      let (_, c3, e3, h3) =
        bind_ok (reporting client config input dev_buy_awaiting_wallet input.creation_hash) _ c2
          h2 in
      let told : c3.trace ≡ c2.trace = sym (ap (λ x. x.1.trace) e3) in
      let quiet : asks c3.trace ≡ asks c.trace =
        ap asks told
        ∙ (sym (ap (λ x. asks x.1.trace) e2)
            ∙ quote_buy_by_budget-Quiet client config input.token_address input.amount
                (integer (pos 100)) c1)
        ∙ (sym (ap (λ x. asks x.1.trace) e1)
            ∙ read_trade_state-Quiet client config input.token_address (some input.creator_address)
                c) in
      let (_, _, _, _, _, prepared, _, _, _, _, course) =
        submitted_buy_course client config no_hooks input.creator_address input.token_address quote
          c3 h3 in
      (with_builder_code client prepared, _, course, quiet)

  -- The two answers of a result that a retry depends on.
  abbrev retryable_of : DevBuyResult → Bool
  retryable_of (bought hash) = false
  retryable_of (failed f) = f.retryable

  abbrev hash_of : DevBuyResult → Option Hash
  hash_of (bought hash) = some hash
  hash_of (failed f) = f.buy_hash

  conclude_retryable :
      (status : ConfirmationStatus) (hash : Hash) (c : Context W) (f : DevBuyAttemptError)
      → (conclude_dev_buy client config input status hash c).0 ≡ failed f
      → f.retryable ≡ true
      → (status ≡ ConfirmationStatus.reverted) × (f.buy_hash ≡ some hash)
  unfolding conclude_dev_buy
  conclude_retryable Confirm.confirmed hash c f h retry = absurd (ground arith)
  conclude_retryable Confirm.reverted hash c f h retry = (refl, sym (ap hash_of h))
  conclude_retryable Confirm.replaced hash c f h retry =
      absurd (let no : false ≡ true = ap retryable_of h ∙ retry in ground arith)
  conclude_retryable Confirm.pending hash c f h retry =
      absurd (let no : false ≡ true = ap retryable_of h ∙ retry in ground arith)

  confirm_retryable :
      (hash : Hash) (x : Result TradeConfirmation × Context W) (f : DevBuyAttemptError)
      → (confirm_dev_buy client config input hash x).0 ≡ failed f
      → f.retryable ≡ true
      → (k : TradeConfirmation) × (x.0 ≡ ok k)
        × (k.status ≡ ConfirmationStatus.reverted)
        × (f.buy_hash ≡ some k.hash)
  unfolding confirm_dev_buy failure_of
  confirm_retryable hash (ok k, c) f h retry =
      let (reverted, known) = conclude_retryable k.status k.hash c f h retry in
      (k, refl, reverted, known)
  confirm_retryable hash (err e, c) f h retry =
      absurd (let no : false ≡ true = ap retryable_of h ∙ retry in ground arith)

  settle_retryable :
      (before : Context W) (x : Result Hash × Context W) (f : DevBuyAttemptError)
      → submit_dev_buy client config input before ≡ x
      → (settle_dev_buy client config input x).0 ≡ failed f
      → f.retryable ≡ true
      → ((e : Thrown) × (x.0 ≡ err e)
          × ((settle_dev_buy client config input x).1 ≡ x.1)
          × (f.buy_hash ≡ none))
        ⊎ IsReverted before.trace f
  unfolding settle_dev_buy failure_of tell_status
  settle_retryable before (err e, c) f ran h retry = inl (e, refl, refl, sym (ap hash_of h))
  settle_retryable before (ok hash, c) f ran h retry =
      let (k, confirmed, reverted, known) = confirm_retryable hash _ f h retry in
      let (r, l, answered, once) = submit_dev_buy_wrote before c hash ran in
      inr (before, c, _, hash, r, l, k, refl, ran, answered, once, refl, confirmed, reverted, known)

  -- Behind a failure of the creator's buy that is marked as retryable there are three courses. The
  -- wallet was asked for nothing; or it was asked for one transaction, last of all, and threw, where
  -- the trace does not tell whether it sent the transaction; in both no hash is known. Or this run's
  -- submission asked the wallet for one transaction, the wallet answered with a hash, the confirmation
  -- of that hash said that it reverted, and the failure names the hash of the confirmation.
  pub retryable_failure :
      (c : Context W) (f : DevBuyAttemptError)
      → (execute_dev_buy client config input c).0 ≡ failed f
      → f.retryable ≡ true
      → (IsUnanswered c.trace (execute_dev_buy client config input c).1.trace × (f.buy_hash ≡ none))
        ⊎ IsReverted c.trace f
  unfolding execute_dev_buy tell_status
  retryable_failure c f h retry =
      let opened = tell_status client config input dev_buy_preparing input.creation_hash c in
      elim (settle_retryable opened (submit_dev_buy client config input opened) f refl h retry) [
        | inl (e, threw, same, unknown) ↦
            let unanswered = submit_dev_buy-QuietErr opened e threw in
            inl (subst (λ x. IsUnanswered c.trace x.trace) (sym same) unanswered, unknown)
        | inr reverted ↦ inr reverted
      ]
