-- ===== src/Sdk/Receipt.antt =====
-- `parseTradeReceipt` and `parseTokenLaunchedReceipt`: a confirmed receipt is read only if it holds
-- exactly one event of the contract that is asked about.
pub mod Unique
use zonk_fun.Base.{
  ℕ, ◌*◌, ◌^◌, Bool, true, false, not, ◌||◌, List, [], ◌∷◌, Text, codes, text_eq, Result, ok, err,
  new_error, filter, ◌==◌, if◌then◌else◌,
}
use zonk_fun.Client.{
  Address, Side, buy, sell, Receipt, ReceiptStatus, success, reverted, TradeLog, LaunchLog, Decoder,
}

pub record TradeReceipt : Type 0 where
  pub side : Side
  pub token : Address
  pub trader : Address
  pub token_amount : ℕ
  pub reserve_amount : ℕ
  pub curve_value : ℕ
  pub protocol_fee : ℕ
  pub creator_fee : ℕ
  pub total_fee : ℕ
  pub community_fee : ℕ
  pub trader_rewards_fee : ℕ

pub record TokenLaunched : Type 0 where
  pub token : Address
  pub curve : Address
  pub creator : Address
  pub protocol_version : Text
  pub total_supply : ℕ
  pub curve_allocation : ℕ
  pub lp_allocation : ℕ
  pub canonical_pool : Address

abbrev pub fixed_token_supply : ℕ
fixed_token_supply = 1000000000 * 10 ^ 18

unfoldable pub supported_version : Text
supported_version = codes "endpoint-cp-v3"

unfoldable pub trade_reverted : Text
trade_reverted = codes "trade transaction reverted"

unfoldable pub not_one_event : Side → Text
not_one_event buy = codes "confirmed receipt did not contain exactly one TokensBought event"
not_one_event sell = codes "confirmed receipt did not contain exactly one TokensSold event"

unfoldable pub creation_reverted : Text
creation_reverted = codes "token creation transaction reverted"

unfoldable pub not_one_launch : Text
not_one_launch = codes "confirmed receipt did not contain exactly one TokenLaunched event"

unfoldable pub malformed_launch : Text
malformed_launch = codes "TokenLaunchedV3 event is malformed"

-- `!address`.
abbrev pub is_empty : Text → Bool
is_empty [] = true
is_empty (_ ∷ _) = false

module _ (decoder : Decoder) where
  -- `getAddress(a) === getAddress(b)`.
  abbrev pub same_address : Address → Address → Bool
  same_address a b = text_eq (decoder.get_address a) (decoder.get_address b)

  -- The logs of the expected event.
  abbrev pub event_logs : Side → Receipt → List TradeLog
  event_logs buy receipt = decoder.bought_logs receipt.logs
  event_logs sell receipt = decoder.sold_logs receipt.logs

  unfoldable pub read_trade : Side → TradeLog → TradeReceipt
  read_trade side log = record {
    side = side;
    token = decoder.get_address log.token;
    trader = decoder.get_address log.trader;
    token_amount = log.token_amount;
    reserve_amount = log.gross;
    curve_value = log.net;
    protocol_fee = log.protocol_fee;
    creator_fee = log.creator_fee;
    total_fee = log.total_fee;
    community_fee = log.community_fee;
    trader_rewards_fee = log.trader_rewards_fee;
  }

  -- `logs.length !== 1`, and `logs[0]`.
  unfoldable pub only_trade : Side → List TradeLog → Result TradeReceipt
  unfolding read_trade
  only_trade side [] = err (new_error (not_one_event side))
  only_trade side (log ∷ []) = ok (read_trade side log)
  only_trade side (_ ∷ _ ∷ _) = err (new_error (not_one_event side))

  unfoldable pub settled_trade : ReceiptStatus → Side → List TradeLog → Result TradeReceipt
  unfolding only_trade
  settled_trade reverted side logs = err (new_error trade_reverted)
  settled_trade success side logs = only_trade side logs

  unfoldable pub parse_trade_receipt : Receipt → Address → Side → Result TradeReceipt
  unfolding settled_trade
  parse_trade_receipt receipt curve side =
      settled_trade receipt.status side
        (filter (λ log. same_address log.address curve) (event_logs side receipt))

  unfoldable pub read_launch : LaunchLog → Result TokenLaunched
  read_launch log =
      if is_empty log.token
        || is_empty log.curve
        || is_empty log.creator
        || not (log.total_supply == fixed_token_supply)
        || not (text_eq log.protocol_version supported_version)
      then err (new_error malformed_launch)
      else ok (record {
        token = decoder.get_address log.token;
        curve = decoder.get_address log.curve;
        creator = decoder.get_address log.creator;
        protocol_version = log.protocol_version;
        total_supply = log.total_supply;
        curve_allocation = log.curve_allocation;
        lp_allocation = log.lp_allocation;
        canonical_pool = decoder.get_address log.canonical_pool;
      })

  unfoldable pub only_launch : List LaunchLog → Result TokenLaunched
  unfolding read_launch
  only_launch [] = err (new_error not_one_launch)
  only_launch (log ∷ []) = read_launch log
  only_launch (_ ∷ _ ∷ _) = err (new_error not_one_launch)

  unfoldable pub settled_launch : ReceiptStatus → List LaunchLog → Result TokenLaunched
  unfolding only_launch
  settled_launch reverted logs = err (new_error creation_reverted)
  settled_launch success logs = only_launch logs

  unfoldable pub parse_token_launched_receipt : Receipt → Address → Result TokenLaunched
  unfolding settled_launch
  parse_token_launched_receipt receipt factory =
      settled_launch receipt.status
        (filter (λ log. same_address log.address factory) (decoder.launch_logs receipt.logs))
