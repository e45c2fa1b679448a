-- ===== src/Tests/Storage.antt =====
-- A stored trade, and what is read of it.
use zonk_fun.Base.{
  ◌≡◌, refl, ap, arith, true, some, none, codes, pos, is_hex_of_length, is_hex_text, is_digits,
}
use zonk_fun.Client.{sell}
use zonk_fun.Curve.Recovery.{TradeRecovery}
use zonk_fun.PendingTrade.Json.{Json, whole}
use zonk_fun.PendingTrade.Guards.{PendingTrade, confirming, is_pending_trade, encode}
use zonk_fun.PendingTrade.Guards.RoundTrip.{IsTrade, IsRecovery, decode-encode}
use zonk_fun.PendingTrade.Store.{
  Storage, json, persist_pending_trade, read_pending_trade, pending_trade_key,
}
use zonk_fun.PendingTrade.Store.Laws.{IsAbout, read-persist, read_pending_trade_sound}
use zonk_fun.Tests.World.{token_address, trader_address, curve_address, trade_hash}

abbrev recovery : TradeRecovery
recovery = record {
  sender = trader_address;
  nonce = 7;
  to = some curve_address;
  sent = codes "0";
  input = codes "0x";
  next_scan_block = codes "100";
}

abbrev trade : PendingTrade
trade = record {
  wallet_address = trader_address;
  token_address = token_address;
  side = sell;
  hash = some trade_hash;
  status = confirming;
  submitted_at = whole (pos 1000);
  recovery = some recovery;
}

recovery-IsRecovery : IsRecovery recovery
unfolding is_hex_of_length is_hex_text is_digits
recovery-IsRecovery = record {
  sender_hex = refl;
  nonce_safe = omega arith;
  to_hex = refl;
  sent_decimal = refl;
  input_hex = refl;
  block_decimal = refl;
}

trade-IsTrade : IsTrade trade
unfolding is_hex_of_length is_hex_text
trade-IsTrade = record {
  wallet_hex = refl;
  token_hex = refl;
  hash_hex = refl;
  time_positive = refl;
  recovery_valid = recovery-IsRecovery;
}

decode-encode_example : is_pending_trade (encode trade) ≡ some trade
decode-encode_example = decode-encode trade trade-IsTrade

abbrev empty_storage : Storage
empty_storage = record { has_window = true; get_item = λ _. none }

read-persist_example :
    read_pending_trade token_address trader_address (persist_pending_trade trade empty_storage)
    ≡ (some trade, persist_pending_trade trade empty_storage)
read-persist_example =
    read-persist trade token_address trader_address empty_storage trade-IsTrade (refl, refl) refl

stored :
    (read_pending_trade token_address trader_address (persist_pending_trade trade empty_storage)).0
    ≡ some trade
stored = ap (λ r. r.0) read-persist_run
  where
    read-persist_run :
        read_pending_trade token_address trader_address (persist_pending_trade trade empty_storage)
        ≡ (some trade, persist_pending_trade trade empty_storage)
    read-persist_run =
        read-persist trade token_address trader_address empty_storage trade-IsTrade (refl, refl)
          refl

read_pending_trade_sound_example :
    IsAbout token_address trader_address trade
    × (v : Json) × ((persist_pending_trade trade empty_storage).get_item
          (pending_trade_key token_address trader_address)
        ≡ some (json v))
    × (is_pending_trade v ≡ some trade)
read_pending_trade_sound_example =
    read_pending_trade_sound token_address trader_address
      (persist_pending_trade trade empty_storage) trade stored
