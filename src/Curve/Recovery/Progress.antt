-- ===== src/Curve/Recovery/Progress.antt =====
-- One call of `recoverTransactionReceipt` on a nonce that was consumed: it scans at most one batch
-- of blocks, and it ends with what it found, or with the point where the next call goes on.
use zonk_fun.Base.{
  ℕ, ◌+◌, ◌-◌, ◌≤◌, ◌<◌, ◌≡◌, ◌⊎◌, arith, List, ok, to_string, is_digits-to_string, parse-to_string,
}
use zonk_fun.Client.{Event, Hash, Receipt, ReplacementReason, Client}
use zonk_fun.Curve.Recovery.{TradeRecovery, replacement, last_block, bigint_of_text}
use zonk_fun.Curve.Recovery.Scan.{scan_events, NoCandidates, FoundIn}

-- `BigInt(n.toString())` is `n`.
pub bigint_of_text-to_string : (n : ℕ) → bigint_of_text (to_string n) ≡ ok n
unfolding bigint_of_text
bigint_of_text-to_string n = rw (is_digits-to_string n, parse-to_string n)

-- A call never scans more than a batch.
pub rounds_le_batch : (first latest : ℕ) → last_block first latest + 1 - first ≤ 128
rounds_le_batch first latest = ground arith

module _ {W : Type 0} (client : Client W) (hash : Hash) (recovery : TradeRecovery) where
  -- A whole batch was read without a candidate, and the next call goes on behind it.
  abbrev pub Scanned : TradeRecovery → List Event → List Event → Type 0
  Scanned next start finish =
      (first : ℕ) × (bigint_of_text recovery.next_scan_block ≡ ok first)
      × (next ≡ record recovery { next_scan_block = to_string (first + 128) })
      × (bigint_of_text next.next_scan_block ≡ ok (first + 128))
      × NoCandidates client hash recovery 128 first
      × (finish ≡ scan_events 128 first start)

  -- The two ways for a call to leave the trade pending, by the number of transactions that the sender
  -- has made.
  abbrev pub StillPending : ℕ → TradeRecovery → List Event → List Event → Type 0
  StillPending consumed next start finish =
      ((consumed ≤ recovery.nonce) × (next ≡ recovery) × (finish ≡ start))
      ⊎ ((recovery.nonce < consumed) × Scanned next start finish)

  -- Where a replacement comes from: the stored block, and the rounds from there.
  abbrev pub ReplacedBy : Receipt → ReplacementReason → Type 0
  ReplacedBy r why =
      (first rounds : ℕ) × (bigint_of_text recovery.next_scan_block ≡ ok first)
      × (rounds ≤ 128)
      × FoundIn client hash recovery rounds first (replacement r why)
