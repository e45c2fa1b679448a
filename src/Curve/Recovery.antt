-- ===== src/Curve/Recovery.antt =====
-- `recoverTransactionReceipt`, `replacementReason`, `captureTradeRecovery` and the tests on error
-- messages.
pub mod Scan
pub mod Progress
pub mod Origin
use zonk_fun.Base.{
  ℕ, zero, suc, ◌+◌, ◌-◌, Bool, false, ◌&&◌, ◌||◌, List, [], ◌∷◌, Option, none, some, get_or, Text,
  codes, ◌++◌, text_eq, to_lower, to_string, is_digits, parse_digits, matches_ci, includes_on_line,
  Thrown, error, value, Result, ok, err, new_error, ltb, leb, ◌==◌, if◌then◌else◌,
}
use zonk_fun.Client.{
  Address, Hash, Transaction, Receipt, ReplacementReason, cancelled, replaced, repriced, BlockEntry,
  full, bare, Client, Action, pure, throw, lift, call, noted, catching, ◌>>=◌, scanned,
}
use zonk_fun.Sdk.Receipt.{same_address}

pub record TradeRecovery : Type 0 where
  pub sender : Address
  pub nonce : ℕ
  pub to : Option Address
  pub sent : Text
  pub input : Text
  pub next_scan_block : Text

pub data RecoveryResult : Type 0 where
  receipt : Receipt → RecoveryResult
  replacement : Receipt → ReplacementReason → RecoveryResult
  pending : Option TradeRecovery → RecoveryResult

abbrev pub replacement_scan_batch : ℕ
replacement_scan_batch = 128

unfoldable pub provenance_unavailable : Text
provenance_unavailable =
    codes
      "The original nonce was consumed, but replacement provenance was unavailable. Confirmation remains unknown."

-- `error instanceof Error ? `${error.name} ${error.message}` : String(error)`.
unfoldable pub described : Thrown → Text
described (error name message) = name ++ codes " " ++ message
described (value shown) = shown

unfoldable pub is_receipt_not_found : Thrown → Bool
is_receipt_not_found e =
    matches_ci (codes "transactionreceiptnotfound") (described e)
    || includes_on_line (codes "transaction receipt") (codes "not be found") (described e)

unfoldable pub is_receipt_timeout : Thrown → Bool
is_receipt_timeout e =
    matches_ci (codes "waitfortransactionreceipttimeout") (described e)
    || matches_ci (codes "timed out") (described e)
    || matches_ci (codes "time out") (described e)
    || matches_ci (codes "timeout") (described e)

-- `BigInt(text)` on the decimal texts that the program stores; any other is a `SyntaxError` here.
unfoldable pub bigint_of_text : Text → Result ℕ
bigint_of_text s =
    if is_digits s
    then ok (parse_digits s)
    else err (error (codes "SyntaxError") (codes "Cannot convert " ++ s ++ codes " to a BigInt"))

-- `address?.toLowerCase() ?? ""`.
abbrev lower_or_empty : Option Address → Text
lower_or_empty none = []
lower_or_empty (some a) = to_lower a

-- `lastBlock`.
abbrev pub last_block : ℕ → ℕ → ℕ
last_block first latest =
    if ltb (first + replacement_scan_batch - 1) latest
    then first + replacement_scan_batch - 1
    else latest

module _ {W : Type 0} (client : Client W) where
  -- `replacement.to && getAddress(replacement.from) === getAddress(replacement.to)`.
  abbrev to_self : Address → Option Address → Bool
  to_self from none = false
  to_self from (some to) = same_address client.decoder from to

  unfoldable pub replacement_reason : TradeRecovery → Transaction → ReplacementReason
  replacement_reason original other =
      if to_self other.from other.to && other.sent == 0
      then cancelled
      else if text_eq (lower_or_empty other.to) (lower_or_empty original.to)
          && text_eq (to_string other.sent) original.sent
          && text_eq (to_lower other.input) (to_lower original.input)
      then repriced
      else replaced

  -- What is kept of a transaction to find its replacement later.
  abbrev pub recovery_of : Transaction → ℕ → TradeRecovery
  recovery_of transaction block = record {
    sender = transaction.from;
    nonce = transaction.nonce;
    to = transaction.to;
    sent = to_string transaction.sent;
    input = transaction.input;
    next_scan_block = to_string block;
  }

  unfoldable pub capture_trade_recovery : Hash → Action W (Option TradeRecovery)
  capture_trade_recovery hash =
      catching
        (do
          transaction ← call (client.get_transaction hash)
          block ← call client.get_block_number
          pure (some (recovery_of transaction (get_or transaction.block_number block))))
        (λ e. pure none)

  -- The candidate of a block: by the same sender, with the same nonce.
  abbrev pub is_candidate : TradeRecovery → Transaction → Bool
  is_candidate recovery t =
      same_address client.decoder t.from recovery.sender && (t.nonce == recovery.nonce)

  unfoldable pub find_candidate : TradeRecovery → List BlockEntry → Option Transaction
  find_candidate recovery [] = none
  find_candidate recovery (bare hash ∷ entries) = find_candidate recovery entries
  find_candidate recovery (full t ∷ entries) =
      if is_candidate recovery t then some t else find_candidate recovery entries

  -- What a candidate means: the transaction itself, or one that took its place.
  unfoldable pub judge : Hash → TradeRecovery → Transaction → Action W RecoveryResult
  judge hash recovery t = call (client.get_receipt t.hash) >>= λ r. pure (
      if text_eq (to_lower t.hash) (to_lower hash)
      then receipt r
      else replacement r (replacement_reason recovery t))

  -- The loop over `rounds` blocks from `block` on.
  unfoldable pub scan_blocks : Hash → TradeRecovery → ℕ → ℕ → Action W (Option RecoveryResult)
  unfolding judge
  scan_blocks hash recovery zero block c = (ok none, c)
  scan_blocks hash recovery (suc rounds) block c =
      let (answer, c') = noted (client.get_block block) (λ _. scanned block) c in
      elim answer [
        | err e ↦ (err e, c')
        | ok entries ↦ elim (find_candidate recovery entries) [
          | none ↦ scan_blocks hash recovery rounds (block + 1) c'
          | some t ↦ (judge hash recovery t >>= λ found. pure (some found)) c'
        ]
      ]

  -- What the loop ends with when no block had a candidate.
  unfoldable pub conclude : TradeRecovery → ℕ → ℕ → Option RecoveryResult → Action W RecoveryResult
  conclude recovery last latest (some found) = pure found
  conclude recovery last latest none =
      if ltb last latest
      then pure (pending (some (record recovery { next_scan_block = to_string (last + 1) })))
      else throw (new_error provenance_unavailable)

  -- The scan of a batch from `first` on, with the newest block known.
  unfoldable pub scan_batch : Hash → TradeRecovery → ℕ → ℕ → Action W RecoveryResult
  unfolding conclude
  scan_batch hash recovery latest first =
      scan_blocks hash recovery (last_block first latest + 1 - first) first
      >>= conclude recovery (last_block first latest) latest

  -- What follows once the nonce is consumed.
  unfoldable pub search_blocks : Hash → TradeRecovery → Action W RecoveryResult
  search_blocks hash recovery = do
    latest ← call client.get_block_number
    first ← lift (bigint_of_text recovery.next_scan_block)
    scan_batch hash recovery latest first

  -- From the known recovery data on.
  unfoldable pub find_replacement : Hash → TradeRecovery → Action W RecoveryResult
  find_replacement hash recovery =
      call (client.get_transaction_count recovery.sender) >>= λ consumed.
      if leb consumed recovery.nonce
      then pure (pending (some recovery))
      else search_blocks hash recovery

  -- The recovery data that is stored, or that is read from the transaction while it is known.
  known_recovery : Hash → Option TradeRecovery → Action W (Option TradeRecovery)
  known_recovery hash (some recovery) = pure (some recovery)
  known_recovery hash none =
      catching
        (do
          transaction ← call (client.get_transaction hash)
          block ← call client.get_block_number
          pure (some (recovery_of transaction block)))
        (λ e. pure none)

  search_or_wait : Hash → Option TradeRecovery → Action W RecoveryResult
  search_or_wait hash none = pure (pending none)
  search_or_wait hash (some recovery) = find_replacement hash recovery

  -- The receipt, or none where it is not found.
  own_receipt : Hash → Action W (Option Receipt)
  own_receipt hash =
      catching (call (client.get_receipt hash) >>= λ r. pure (some r))
        λ e. if is_receipt_not_found e then pure none else throw e

  without_receipt : Hash → Option TradeRecovery → Option Receipt → Action W RecoveryResult
  without_receipt hash stored (some r) = pure (receipt r)
  without_receipt hash stored none = known_recovery hash stored >>= search_or_wait hash

  unfoldable pub recover_transaction_receipt : Hash → Option TradeRecovery → Action W RecoveryResult
  unfolding known_recovery search_or_wait own_receipt without_receipt
  recover_transaction_receipt hash stored = own_receipt hash >>= without_receipt hash stored
