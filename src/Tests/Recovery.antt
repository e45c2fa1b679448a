-- ===== src/Tests/Recovery.antt =====
-- Recovery runs: a batch of blocks without the transaction, and one that finds its replacement.
use zonk_fun.Base.{ℕ, some, Text, codes}
use zonk_fun.Client.{Context}
use zonk_fun.Curve.Recovery.{TradeRecovery, find_replacement}
use zonk_fun.Tests.World.{client, opening, trader_address, curve_address, trade_hash}

abbrev recovery_from : Text → TradeRecovery
recovery_from block = record {
  sender = trader_address;
  nonce = 7;
  to = some curve_address;
  sent = codes "0";
  input = codes "0x";
  next_scan_block = block;
}

abbrev waited : Context ℕ
waited = (find_replacement client trade_hash (recovery_from (codes "100")) opening).1

abbrev found : Context ℕ
found = (find_replacement client trade_hash (recovery_from (codes "299")) opening).1
