-- ===== src/Tests/Receipts.antt =====
-- Receipts with one event, and the bounds on a slippage.
use zonk_fun.Base.{
  ℕ, ◌≡◌, ◌↔◌, refl, ok, [], ◌∷◌, arith, integer, pos, ◌≤◌, ◌<◌, ◌*◌, ◌-◌, ◌+◌, suc, filter,
  text_eq,
}
use zonk_fun.Client.{sell, success, LaunchLog}
use zonk_fun.Sdk.Slippage.{min_output_with_slippage, max_input_with_slippage}
use zonk_fun.Sdk.Slippage.Bounds.{min_output_is_floor, max_input_is_ceiling}
use zonk_fun.Sdk.Receipt.{
  TradeReceipt, TokenLaunched, same_address, parse_trade_receipt, read_trade, event_logs,
  parse_token_launched_receipt, settled_launch, only_launch, read_launch, supported_version,
}
use zonk_fun.Sdk.Receipt.Unique.{
  trade_from_only_event, launch_from_only_event, IsOnlyTrade, IsLaunchOf,
}
use zonk_fun.Tests.World.{
  decoder, trade_receipt, trade_log, launch_log, curve_address, factory_address, token_address,
  trader_address,
}

min_output_is_floor_example :
    (m : ℕ) × (min_output_with_slippage 1000 (integer (pos 100)) ≡ ok m)
    × (m ≤ 1000)
    × (m * 10000 ≤ 1000 * (10000 - 100))
    × (1000 * (10000 - 100) < suc m * 10000)
min_output_is_floor_example = min_output_is_floor 1000 100 (omega arith)

max_input_is_ceiling_example :
    (m : ℕ) × (max_input_with_slippage 1000 (integer (pos 100)) ≡ ok m)
    × (1000 ≤ m)
    × (1000 * (10000 + 100) ≤ m * 10000)
    × ((n : ℕ) → 1000 * (10000 + 100) ≤ n * 10000 → m ≤ n)
max_input_is_ceiling_example = max_input_is_ceiling 1000 100 (omega arith)

abbrev trade : TradeReceipt
trade = read_trade decoder sell trade_log

trade_from_only_event_example :
    (parse_trade_receipt decoder trade_receipt curve_address sell ≡ ok trade)
    ↔ IsOnlyTrade decoder success sell
        (filter
          (λ log. same_address decoder log.address curve_address)
          (event_logs decoder sell trade_receipt))
        trade
trade_from_only_event_example = trade_from_only_event decoder trade_receipt curve_address sell trade

abbrev launched : TokenLaunched
launched = record {
  token = token_address;
  curve = curve_address;
  creator = trader_address;
  protocol_version = launch_log.protocol_version;
  total_supply = launch_log.total_supply;
  curve_allocation = launch_log.curve_allocation;
  lp_allocation = launch_log.lp_allocation;
  canonical_pool = factory_address;
}

launch_run : parse_token_launched_receipt decoder trade_receipt factory_address ≡ ok launched
unfolding parse_token_launched_receipt settled_launch only_launch read_launch text_eq
    supported_version
launch_run = refl

launch_from_only_event_example :
    (trade_receipt.status ≡ success)
    × (log : LaunchLog) × (filter
          (λ l. same_address decoder l.address factory_address)
          (decoder.launch_logs trade_receipt.logs)
        ≡ log ∷ [])
    × IsLaunchOf decoder log launched
launch_from_only_event_example =
    launch_from_only_event decoder trade_receipt factory_address launch_run
