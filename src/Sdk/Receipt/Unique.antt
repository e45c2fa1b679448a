-- ===== src/Sdk/Receipt/Unique.antt =====
-- When a receipt is read, and what it then says.
use zonk_fun.Base.{◌≡◌, ◌↔◌, refl, arith, List, [], ◌∷◌, ok, filter, text_eq_sound}
use zonk_fun.Client.{
  Address, Side, Receipt, ReceiptStatus, success, reverted, TradeLog, LaunchLog, Decoder,
}
use zonk_fun.Sdk.Receipt.{
  TradeReceipt, TokenLaunched, fixed_token_supply, supported_version, same_address, event_logs,
  settled_trade, settled_launch, read_launch, parse_trade_receipt, parse_token_launched_receipt,
}

module _ (decoder : Decoder) where
  -- The trade that an event of a side describes.
  abbrev trade_of : Side → TradeLog → TradeReceipt
  trade_of side log = record {
    side = side;
    token = decoder.get_address log.token;
    trader = decoder.get_address log.trader;
    token_amount = log.token_amount;
    reserve_amount = log.gross;
    curve_value = log.net;
    protocol_fee = log.protocol_fee;
    creator_fee = log.creator_fee;
    total_fee = log.total_fee;
    community_fee = log.community_fee;
    trader_rewards_fee = log.trader_rewards_fee;
  }

  -- One event and no other.
  abbrev pub IsOnlyTrade : ReceiptStatus → Side → List TradeLog → TradeReceipt → Type 0
  IsOnlyTrade status side logs trade =
      (status ≡ success) × (log : TradeLog) × (logs ≡ log ∷ []) × (trade ≡ trade_of side log)

  settled_trade-ok :
      (status : ReceiptStatus) (side : Side) (logs : List TradeLog) {trade : TradeReceipt}
      → settled_trade decoder status side logs ≡ ok trade
      → IsOnlyTrade status side logs trade
  unfolding settled_trade
  settled_trade-ok reverted side logs h = cc
  settled_trade-ok success side [] h = cc
  settled_trade-ok success side (log ∷ []) h = (refl, log, refl, cc)
  settled_trade-ok success side (_ ∷ _ ∷ _) h = cc

  -- A trade receipt is read exactly when the transaction succeeded and its logs hold one event of
  -- the expected side from the curve and no second one; the trade is then that event's, its
  -- addresses in checksum form.
  pub trade_from_only_event :
      (receipt : Receipt) (curve : Address) (side : Side) (trade : TradeReceipt)
      → (parse_trade_receipt decoder receipt curve side ≡ ok trade)
        ↔ IsOnlyTrade receipt.status side
            (filter
              (λ log. same_address decoder log.address curve)
              (event_logs decoder side receipt))
            trade
  unfolding parse_trade_receipt
  trade_from_only_event receipt curve side trade =
      (settled_trade-ok receipt.status side _, λ only. ground arith)

  -- What makes a launch event well formed.
  abbrev pub IsLaunchOf : LaunchLog → TokenLaunched → Type 0
  IsLaunchOf log launched =
      (log.total_supply ≡ fixed_token_supply)
      × (log.protocol_version ≡ supported_version)
      × (launched.total_supply ≡ fixed_token_supply)
      × (launched.token ≡ decoder.get_address log.token)
      × (launched.curve ≡ decoder.get_address log.curve)
      × (launched.creator ≡ decoder.get_address log.creator)

  read_launch-ok :
      (log : LaunchLog) {launched : TokenLaunched}
      → read_launch decoder log ≡ ok launched
      → IsLaunchOf log launched
  unfolding read_launch
  read_launch-ok log h = ground (arith, text_eq_sound log.protocol_version supported_version)

  settled_launch-ok :
      (status : ReceiptStatus) (logs : List LaunchLog) {launched : TokenLaunched}
      → settled_launch decoder status logs ≡ ok launched
      → (status ≡ success) × (log : LaunchLog) × (logs ≡ log ∷ []) × IsLaunchOf log launched
  unfolding settled_launch
  settled_launch-ok reverted logs h = cc
  settled_launch-ok success [] h = cc
  settled_launch-ok success (log ∷ []) h = (refl, log, refl, read_launch-ok log h)
  settled_launch-ok success (_ ∷ _ ∷ _) h = cc

  -- A created token is reported only from a transaction that succeeded and whose logs hold exactly
  -- one launch event from the factory, of the fixed supply and the supported protocol version; the
  -- token, curve and creator are that event's.
  pub launch_from_only_event :
      (receipt : Receipt) (factory : Address) {launched : TokenLaunched}
      → parse_token_launched_receipt decoder receipt factory ≡ ok launched
      → (receipt.status ≡ success)
        × (log : LaunchLog) × (filter
              (λ l. same_address decoder l.address factory)
              (decoder.launch_logs receipt.logs)
            ≡ log ∷ [])
        × IsLaunchOf log launched
  unfolding parse_token_launched_receipt
  launch_from_only_event receipt factory h = settled_launch-ok receipt.status _ h
