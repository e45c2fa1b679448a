-- ===== src/DevBuy.antt =====
-- `executeDevBuy` of apps/web/src/lib/dev-buy.ts: the creator's first buy, and which of its failures
-- may be tried again.
pub mod Writes
pub mod Retry
use zonk_fun.Base.{
  ℕ, Bool, true, false, Option, none, some, Text, codes, matches_ci, ◌||◌, Thrown, error, value,
  Result, ok, err, integer, pos,
}
use zonk_fun.Client.{Address, Hash, buy, Client, Context, Action, pure, ◌>>=◌, ◌>>◌}
use zonk_fun.Curve.Resolve.{Config, CurveTradeState, read_trade_state}
use zonk_fun.Curve.Quote.{BudgetBuyQuote, quote_buy_by_budget}
use zonk_fun.Curve.Submit.{Hooks, submit_buy}
use zonk_fun.Curve.Confirm.{TradeConfirmation, ConfirmationStatus, confirm_trade}
use zonk_fun.Curve.Confirm

-- The statuses that `report` is called with.
pub data DevBuyStatus : Type 0 where
  dev_buy_preparing dev_buy_awaiting_wallet dev_buy_submitted dev_buy_confirming dev_buy_confirmed :
      DevBuyStatus

-- `DevBuyAttemptError`.
pub record DevBuyAttemptError : Type 0 where
  pub message : Text
  pub retryable : Bool
  pub buy_hash : Option Hash
  pub rejected : Bool

-- What `executeDevBuy` returns or throws.
pub data DevBuyResult : Type 0 where
  bought : Hash → DevBuyResult
  failed : DevBuyAttemptError → DevBuyResult

-- `report` changes what the page shows.
pub record DevBuyInput (W : Type 0) : Type 0 where
  pub token_address : Address
  pub creator_address : Address
  pub amount : ℕ
  pub creation_hash : Hash
  pub report : DevBuyStatus → Hash → W → W

abbrev message_of : Thrown → Text
message_of (error name m) = m
message_of (value shown) = codes "The Dev buy could not be completed."

-- The end of the `catch` for what is not a `DevBuyAttemptError`.
unfoldable pub failure_of : Thrown → Option Hash → DevBuyAttemptError
failure_of e buy_hash =
    let m = message_of e in
    record {
      message = m;
      retryable = elim buy_hash [ none ↦ true | some h ↦ false ];
      buy_hash = buy_hash;
      rejected =
          matches_ci (codes "reject") m
          || matches_ci (codes "denied") m
          || matches_ci (codes "cancelled") m;
    }

-- The check that `submitBuy` takes by default does nothing.
abbrev pub no_hooks : {W : Type 0} → Hooks W
no_hooks = record {
  assert_ready = λ w. (ok tt, w);
  on_approval_requested = λ w. (ok tt, w);
  on_approval_submitted = λ h w. (ok tt, w);
  on_approval_confirmed = λ h w. (ok tt, w);
  on_sell_preparing = λ w. (ok tt, w);
  on_sell_requested = λ w. (ok tt, w);
}

module _ {W : Type 0} (client : Client W) (config : Config) (input : DevBuyInput W) where
  unfoldable pub tell_status : DevBuyStatus → Hash → Context W → Context W
  tell_status status hash c = record { world = input.report status hash c.world; trace = c.trace }

  unfoldable pub reporting : DevBuyStatus → Hash → Action W (Unit {0})
  unfolding tell_status
  reporting status hash c = (ok tt, tell_status status hash c)

  -- The body of the `try` up to the hash of the buy.
  unfoldable pub submit_dev_buy : Action W Hash
  submit_dev_buy = do
    state ← read_trade_state client config input.token_address (some input.creator_address)
    quote ← quote_buy_by_budget client config input.token_address input.amount (integer (pos 100))
    reporting dev_buy_awaiting_wallet input.creation_hash
    submit_buy client config no_hooks input.creator_address input.token_address quote

  -- What a confirmation means.
  unfoldable pub conclude_dev_buy : ConfirmationStatus → Hash → Context W → DevBuyResult × Context W
  unfolding tell_status
  conclude_dev_buy Confirm.confirmed hash c = (bought hash, tell_status dev_buy_confirmed hash c)
  conclude_dev_buy Confirm.reverted hash c = (
    failed (record {
      message = codes "The Dev buy transaction reverted on Base.";
      retryable = true;
      buy_hash = some hash;
      rejected = false;
    }),
    c,
  )
  conclude_dev_buy _ hash c = (
    failed (record {
      message =
          codes
            "The Dev buy transaction still needs a definitive receipt before it can be retried.";
      retryable = false;
      buy_hash = some hash;
      rejected = false;
    }),
    c,
  )

  unfoldable pub confirm_dev_buy :
      Hash → Result TradeConfirmation × Context W → DevBuyResult × Context W
  unfolding conclude_dev_buy failure_of
  confirm_dev_buy hash (ok k, c) = conclude_dev_buy k.status k.hash c
  confirm_dev_buy hash (err e, c) = (failed (failure_of e (some hash)), c)

  -- The rest of the `try`, from the answer to the submission on.
  unfoldable pub settle_dev_buy : Result Hash × Context W → DevBuyResult × Context W
  unfolding confirm_dev_buy tell_status
  settle_dev_buy (err e, c) = (failed (failure_of e none), c)
  settle_dev_buy (ok hash, c) = confirm_dev_buy hash (
      confirm_trade client config hash buy input.token_address input.creator_address none
        (tell_status dev_buy_confirming hash (tell_status dev_buy_submitted hash c)))

  unfoldable pub execute_dev_buy : Context W → DevBuyResult × Context W
  unfolding settle_dev_buy submit_dev_buy tell_status
  execute_dev_buy c =
      settle_dev_buy (submit_dev_buy (tell_status dev_buy_preparing input.creation_hash c))
