-- ===== src/Curve/Confirm.antt =====
-- `confirmTrade`, `checkTrade` and `resolveTradeReceipt`.
pub mod Verified
use zonk_fun.Base.{
  Bool, false, not, ◌||◌, Option, none, some, Text, codes, new_error, Result, ok, err,
  if◌then◌else◌,
}
use zonk_fun.Client.{
  Address, Hash, Side, Receipt, ReceiptStatus, ReplacementReason, Client, Action, pure, throw, lift,
  call, ◌>>=◌, ◌>>◌, throw_if,
}
use zonk_fun.Sdk.Receipt.{same_address, parse_trade_receipt}
use zonk_fun.Curve.Resolve.{Config, require_curve}
use zonk_fun.Curve.Recovery.{
  TradeRecovery, RecoveryResult, is_receipt_timeout, recover_transaction_receipt,
}

pub data ConfirmationStatus : Type 0 where
  confirmed reverted replaced pending : ConfirmationStatus

-- `TradeConfirmation`: `"confirmed"`, `"reverted"`, `"replaced"`, `"pending"` are the statuses.
pub record TradeConfirmation : Type 0 where
  pub status : ConfirmationStatus
  pub hash : Hash
  pub reason : Option ReplacementReason
  pub recovery : Option TradeRecovery

unfoldable pub wrong_sender : Text
wrong_sender = codes "Confirmed trade sender does not match the connected wallet."

unfoldable pub wrong_target : Text
wrong_target = codes "Confirmed trade target does not match the deployed curve."

unfoldable pub wrong_trade : Text
wrong_trade = codes "Confirmed trade does not match the connected wallet and token."

module _ {W : Type 0} (client : Client W) where
  -- `transaction.to && getAddress(transaction.to) === getAddress(curve)`.
  abbrev targets : Address → Option Address → Bool
  targets curve none = false
  targets curve (some to) = same_address client.decoder to curve

  -- The checks of a receipt that succeeded and was not replaced.
  unfoldable pub verify : Receipt → Address → Side → Address → Address → Action W TradeConfirmation
  verify r curve side token trader = do
    transaction ← call (client.get_transaction r.transaction_hash)
    throw_if (not (same_address client.decoder transaction.from trader)) (new_error wrong_sender)
    throw_if (not (targets curve transaction.to)) (new_error wrong_target)
    trade ← lift (parse_trade_receipt client.decoder r curve side)
    throw_if
        (not (same_address client.decoder trade.token token)
          || not (same_address client.decoder trade.trader trader))
        (new_error wrong_trade)
    pure (record { status = confirmed; hash = r.transaction_hash; reason = none; recovery = none })

  unfoldable pub by_status :
      ReceiptStatus → Receipt → Address → Side → Address → Address → Action W TradeConfirmation
  by_status ReceiptStatus.reverted r curve side token trader =
      pure (record { status = reverted; hash = r.transaction_hash; reason = none; recovery = none })
  by_status ReceiptStatus.success r curve side token trader = verify r curve side token trader

  unfoldable pub resolve_trade_receipt :
      Receipt
      → Address
      → Side
      → Address
      → Address
      → Option ReplacementReason
      → Action W TradeConfirmation
  unfolding verify by_status
  resolve_trade_receipt r curve side token trader (some why) =
      pure (record {
        status = replaced;
        hash = r.transaction_hash;
        reason = some why;
        recovery = none;
      })
  resolve_trade_receipt r curve side token trader none =
      by_status r.status r curve side token trader

  -- What `checkTrade` makes of a recovery result.
  resolve_recovery :
      Hash → Address → Side → Address → Address → RecoveryResult → Action W TradeConfirmation
  resolve_recovery hash curve side token trader (RecoveryResult.receipt r) =
      resolve_trade_receipt r curve side token trader none
  resolve_recovery hash curve side token trader (RecoveryResult.replacement r why) =
      pure (record {
        status = replaced;
        hash = r.transaction_hash;
        reason = some why;
        recovery = none;
      })
  resolve_recovery hash curve side token trader (RecoveryResult.pending recovery) =
      pure (record { status = pending; hash = hash; reason = none; recovery = recovery })

module _ {W : Type 0} (client : Client W) (config : Config) where
  unfoldable pub check_trade :
      Hash → Side → Address → Address → Option TradeRecovery → Action W TradeConfirmation
  unfolding resolve_recovery
  check_trade hash side token trader recovery = do
    curve ← require_curve client config token
    result ← recover_transaction_receipt client hash recovery
    resolve_recovery client hash curve side token trader result

  -- What `confirmTrade` does with the answer to its wait. The `catch` covers the wait and not
  -- `resolveTradeReceipt`, whose promise is returned and not awaited inside the `try`.
  unfoldable pub after_wait :
      Hash
      → Address
      → Side
      → Address
      → Address
      → Option TradeRecovery
      → Result (Receipt × Option ReplacementReason)
      → Action W TradeConfirmation
  after_wait hash curve side token trader recovery (ok answer) =
      resolve_trade_receipt client answer.0 curve side token trader answer.1
  after_wait hash curve side token trader recovery (err e) =
      if is_receipt_timeout e then check_trade hash side token trader recovery else throw e

  unfoldable pub confirm_trade :
      Hash → Side → Address → Address → Option TradeRecovery → Action W TradeConfirmation
  unfolding after_wait
  confirm_trade hash side token trader recovery = require_curve client config token >>= λ curve c.
      let (answer, w) = client.wait_for_receipt hash c.world in
      after_wait hash curve side token trader recovery answer
        (record { world = w; trace = c.trace })
