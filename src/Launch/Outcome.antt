-- ===== src/Launch/Outcome.antt =====
-- What the outcome of a launch says of the token and of the creator's buy.
use zonk_fun.Base.{
  ℕ, ◌≡◌, ◌⊎◌, ap, inl, inr, refl, ◌<◌, arith, Bool, true, false, Option, none, some, Result, ok,
  err, ◌==◌, ==_iff, Thrown, if◌then◌else◌,
}
use zonk_fun.Client.{Address, Hash, Client, Context}
use zonk_fun.Curve.Resolve.{Config}
use zonk_fun.Session.{ActiveWallet, off_chain}
use zonk_fun.DevBuy.{DevBuyInput, DevBuyAttemptError, DevBuyResult, bought, failed, execute_dev_buy}
use zonk_fun.Inputs.{parse_dev_buy_amount}
use zonk_fun.Launch.{
  CreateTokenInput, Page, LaunchResult, launched, dev_buy_failed, thrown, CreateResult,
  DevBuyFailure, failure_for, create_token, dev_buy_input, with_dev_buy, buy_first, launch_for,
  launch,
}
use zonk_fun.Launch.Course.{IsCreated, create_token-IsCreated}

module _ {W : Type 0} (client : Client W) (config : Config) (page : Page W) where
  -- The buy of this token for the creator, of the amount that was typed, not 0, was run with the hash
  -- of the creation, and ended so.
  abbrev pub BuyEnds : Address → Result ℕ → Address → Hash → DevBuyResult → Context W → Type 0
  BuyEnds creator typed token hash result d =
      (amount : ℕ) × (c : Context W) × (i : DevBuyInput W) × (typed ≡ ok amount)
      × (0 < amount)
      × (i.token_address ≡ token)
      × (i.creator_address ≡ client.decoder.get_address creator)
      × (i.amount ≡ amount)
      × (i.creation_hash ≡ hash)
      × (execute_dev_buy client config i c ≡ (result, d))

  -- What the page says of the creator's buy: there was none to make, or it was confirmed.
  abbrev pub IsBought : Address → Result ℕ → CreateResult → Context W → Type 0
  IsBought creator typed r d =
      ((typed ≡ ok 0) × (r.dev_buy_hash ≡ none))
      ⊎ ((h : Hash) × (r.dev_buy_hash ≡ some h)
          × BuyEnds creator typed r.token_address r.hash (bought h) d)

  -- What it says of a buy that failed is what that buy's failure says.
  abbrev pub IsFailed : Address → Result ℕ → DevBuyFailure → Context W → Type 0
  IsFailed creator typed f d =
      (e : DevBuyAttemptError) × (f.retryable ≡ e.retryable)
      × (f.buy_hash ≡ e.buy_hash)
      × (f.rejected ≡ e.rejected)
      × BuyEnds creator typed f.token_address f.creation_hash (failed e) d

  -- The two outcomes of `execute` for the token that was created.
  abbrev pub IsOutcome : Address → Result ℕ → Address → Hash → LaunchResult → Context W → Type 0
  IsOutcome creator typed token hash result d =
      ((r : CreateResult) × (result ≡ launched r)
        × (r.token_address ≡ token)
        × (r.hash ≡ hash)
        × IsBought creator typed r d)
      ⊎ ((f : DevBuyFailure) × (result ≡ dev_buy_failed f)
          × (f.token_address ≡ token)
          × (f.creation_hash ≡ hash)
          × IsFailed creator typed f d)

  module _ (creator token : Address) (hash : Hash) (amount : ℕ) (c : Context W) where
    buy_ends :
        {result : DevBuyResult} {d : Context W}
        → execute_dev_buy client config
            (dev_buy_input client config page token creator amount hash)
            c
          ≡ (result, d)
        → (amount == 0) ≡ false
        → BuyEnds creator (ok amount) token hash result d
    buy_ends run positive =
        (amount, c, _, refl, ground (arith, positive), refl, refl, refl, refl, run)

    with_dev_buy-IsOutcome :
        (made : DevBuyResult × Context W)
        → execute_dev_buy client config
            (dev_buy_input client config page token creator amount hash)
            c
          ≡ made
        → (amount == 0) ≡ false
        → let out = with_dev_buy client config page token hash made in
          IsOutcome creator (ok amount) token hash out.0 out.1
    unfolding failure_for
    with_dev_buy-IsOutcome (bought h, d) run positive =
        inl (_, refl, refl, refl, inr (h, refl, buy_ends run positive))
    with_dev_buy-IsOutcome (failed e, d) run positive =
        inr (_, refl, refl, refl, (e, refl, refl, refl, buy_ends run positive))

    buy_or_not-IsOutcome :
        (nothing : Bool)
        → (amount == 0) ≡ nothing
        → let out =
            if nothing
            then (launched (record { token_address = token; hash = hash; dev_buy_hash = none }), c)
            else with_dev_buy client config page token hash (
                execute_dev_buy client config
                  (dev_buy_input client config page token creator amount hash)
                  c) in
          IsOutcome creator (ok amount) token hash out.0 out.1
    buy_or_not-IsOutcome true is_zero =
        inl (_, refl, refl, refl, inl (ap ok ((==_iff amount 0).0 is_zero), refl))
    buy_or_not-IsOutcome false positive = with_dev_buy-IsOutcome _ refl positive

  buy_first-IsOutcome :
      (creator : Address) (typed : Result ℕ) (made : Result (Address × Hash) × Context W)
      → let out = buy_first client config page creator typed made in
        ((e : Thrown) × (out.0 ≡ thrown e))
        ⊎ ((token : Address) × (hash : Hash) × (made.0 ≡ ok (token, hash))
            × IsOutcome creator typed token hash out.0 out.1)
  unfolding buy_first
  buy_first-IsOutcome creator typed (err e, c) = inl (e, refl)
  buy_first-IsOutcome creator (err e) (ok (token, hash), c) = inl (e, refl)
  buy_first-IsOutcome creator (ok amount) (ok (token, hash), c) =
      inr (token, hash, refl, buy_or_not-IsOutcome creator token hash amount c (amount == 0) refl)

  -- What is shown of a launch that did not throw: the creator is the active wallet, its token was
  -- created, and the outcome is one for that token and the amount that was typed.
  abbrev pub IsCourse : Option Address → CreateTokenInput → LaunchResult × Context W → Type 0
  IsCourse address input out =
      ((e : Thrown) × (out.0 ≡ thrown e))
      ⊎ ((creator : Address) × (token : Address) × (hash : Hash) × (address ≡ some creator)
          × IsCreated client config page creator input token hash
          × IsOutcome creator (parse_dev_buy_amount input.dev_buy_eth) token hash out.0 out.1)

  launch_for-IsCourse :
      (address : Option Address) (has_client : Bool) (input : CreateTokenInput) (c : Context W)
      → IsCourse address input (launch_for client config page address has_client input c)
  unfolding launch_for
  launch_for-IsCourse none has_client input c = inl (_, refl)
  launch_for-IsCourse (some creator) false input c = inl (_, refl)
  launch_for-IsCourse (some creator) true input c =
      let made = create_token client config page creator input c in
      elim (buy_first-IsOutcome creator (parse_dev_buy_amount input.dev_buy_eth) made) [
        | inl failure ↦ inl failure
        | inr (token, hash, created, outcome) ↦ inr (
          creator,
          token,
          hash,
          refl,
          create_token-IsCreated client config page creator input token hash c made.1
              (ap (λ a. (a, made.1)) created),
          outcome,
        )
      ]

  launch_on-IsCourse :
      (off : Bool) (address : Option Address) (has_client : Bool) (input : CreateTokenInput)
      (c : Context W) (e : Thrown)
      → IsCourse address input
          (if off then (thrown e, c) else launch_for client config page address has_client input c)
  launch_on-IsCourse true address has_client input c e = inl (e, refl)
  launch_on-IsCourse false address has_client input c e =
      launch_for-IsCourse address has_client input c

  -- A launch throws, or a token was created by the active wallet and the page says so. A token was
  -- created where its metadata were uploaded, the creation was submitted with the names of the form,
  -- its receipt holds the launch of that token by the wallet, and the index finalized the metadata.
  -- The page then shows the token and the hash of its creation. The creator's buy is left out exactly
  -- for the amount 0; otherwise it was run for that token, the wallet's address and the amount that was
  -- typed, and it was confirmed with the hash that is shown, or the failure that is shown says the same
  -- as the one it ended with of a retry, of the buy's hash and of a rejection.
  pub launch-IsCourse :
      (active : ActiveWallet) (input : CreateTokenInput) (c : Context W)
      → IsCourse active.active_address input (launch client config page active input c)
  unfolding launch
  launch-IsCourse active input c =
      launch_on-IsCourse (off_chain active.active_chain_id config.chain_id) active.active_address
        active.has_client input c _
