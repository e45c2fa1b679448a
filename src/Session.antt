-- ===== src/Session.antt =====
-- What connects the panels to curve trading: `execute`, `resume` and `check` of
-- apps/web/src/components/token-trading.tsx.
pub mod Executed
pub mod Queries
use zonk_fun.Base.{
  ℕ, Bool, true, false, not, Option, none, some, Text, codes, new_error, Result, ok, err, ◌==◌,
  if◌then◌else◌,
}
use zonk_fun.Client.{
  Address, Hash, Side, buy, sell, Client, Action, pure, throw, call, ◌>>=◌, ◌>>◌, throw_if,
}
use zonk_fun.Curve.Resolve.{Config}
use zonk_fun.Curve.Submit.{Hooks, submit_buy, submit_sell}
use zonk_fun.Curve.Recovery.{TradeRecovery, capture_trade_recovery}
use zonk_fun.Curve.Confirm.{TradeConfirmation, confirm_trade, check_trade}
use zonk_fun.Panel.State.{Status, Quote, buying, selling, side_of}
use zonk_fun.Panel.State

-- `useActiveWallet()`, as far as the three functions read it.
pub record ActiveWallet : Type 0 where
  pub active_address : Option Address
  pub active_chain_id : Option ℕ
  pub has_client : Bool

-- The callbacks of the panel: they change what the world holds of it.
pub record Callbacks (W : Type 0) : Type 0 where
  pub report : Status → Option Hash → Option TradeRecovery → W → Result (Unit {0}) × W
  pub assert_submission_ready : W → Result (Unit {0}) × W

-- The hooks that `execute` passes to `submitSell`; `submitBuy` takes the check only.
unfoldable pub hooks_of : {W : Type 0} → Callbacks W → Hooks W
hooks_of callbacks = record {
  assert_ready = callbacks.assert_submission_ready;
  on_approval_requested = callbacks.report State.awaiting_approval none none;
  on_approval_submitted = λ hash. callbacks.report State.approval_confirming (some hash) none;
  on_approval_confirmed = λ hash. callbacks.report State.approval_confirmed none none;
  on_sell_preparing = callbacks.report State.preparing_sell none none;
  on_sell_requested = callbacks.report State.awaiting_sell_signature none none;
}

unfoldable pub not_connected : Text
not_connected = codes "Connect a browser wallet on Base before trading."

-- `chainId !== selectedZonkChainId`.
abbrev pub off_chain : Option ℕ → ℕ → Bool
off_chain none selected = true
off_chain (some chain) selected = not (chain == selected)

module _ {W : Type 0} (client : Client W) (config : Config) (token : Address) where
  -- The submission by the side of the quote.
  unfoldable pub submit_quote : Callbacks W → Address → Quote → Action W Hash
  unfolding hooks_of
  submit_quote callbacks wallet (buying quote) =
      call (callbacks.report State.awaiting_wallet none none)
      >> submit_buy client config (hooks_of callbacks) wallet token quote
  submit_quote callbacks wallet (selling quote) =
      submit_sell client config (hooks_of callbacks) wallet token quote

  -- `execute` behind its guard.
  unfoldable pub execute_for : Callbacks W → Address → Quote → Action W TradeConfirmation
  execute_for callbacks wallet quote = do
    call (callbacks.report State.preparing none none)
    call callbacks.assert_submission_ready
    hash ← submit_quote callbacks wallet quote
    call (callbacks.report State.submitted (some hash) none)
    recovery ← capture_trade_recovery client hash
    call (callbacks.report State.confirming (some hash) recovery)
    confirm_trade client config hash (side_of quote) token wallet recovery

  unfoldable pub guarded :
      Option Address → (Address → Action W TradeConfirmation) → Text → Action W TradeConfirmation
  guarded none run message = throw (new_error message)
  guarded (some wallet) run message = run wallet

  unfoldable pub execute : ActiveWallet → Callbacks W → Quote → Action W TradeConfirmation
  unfolding guarded
  execute active callbacks quote =
      throw_if (off_chain active.active_chain_id config.chain_id) (new_error not_connected)
      >> (throw_if (not active.has_client) (new_error not_connected)
          >> guarded active.active_address (λ wallet. execute_for callbacks wallet quote)
              not_connected)

  unfoldable pub resume :
      ActiveWallet → Callbacks W → Side → Hash → Option TradeRecovery → Action W TradeConfirmation
  unfolding guarded
  resume active callbacks side hash recovery =
      guarded active.active_address
        (λ wallet.
          call (callbacks.report State.confirming (some hash) none)
          >> confirm_trade client config hash side token wallet recovery)
        (codes "The active wallet is unavailable.")

  unfoldable pub check :
      ActiveWallet → Side → Hash → Option TradeRecovery → Action W TradeConfirmation
  unfolding guarded
  check active side hash recovery =
      guarded active.active_address
        (λ wallet. check_trade client config hash side token wallet recovery)
        (codes "The active wallet is unavailable.")
