-- ===== src/PendingTrade/Guards/RoundTrip.antt =====
-- A well-formed record passes the guards and is read back.
use zonk_fun.Base.{
  ℕ, ◌-◌, ◌^◌, ◌≤◌, ◌≡◌, refl, arith, true, Option, none, some, Text, text_eq, is_hex_text,
  is_hex_of_length, is_digits,
}
use zonk_fun.Client.{Side, buy, sell}
use zonk_fun.Curve.Recovery.{TradeRecovery}
use zonk_fun.PendingTrade.Json.{JsonNumber, is_finite_positive, property}
use zonk_fun.PendingTrade.Guards.{
  PendingStatus, submitted, confirming, confirmation_unknown, PendingTrade, is_trade_recovery,
  is_pending_trade, encode_recovery, encode, side_text, status_text, side_of_text, status_of_text,
}

abbrev pub IsOptional : (Text → Type 0) → Option Text → Type 0
IsOptional P none = Unit
IsOptional P (some s) = P s

-- The recovery data are well formed: addresses, a safe nonce, decimal and hexadecimal texts.
pub record IsRecovery (r : TradeRecovery) : Type 0 where
  pub sender_hex : is_hex_of_length 40 r.sender ≡ true
  pub nonce_safe : r.nonce ≤ 2 ^ 53 - 1
  pub to_hex : IsOptional (λ s. is_hex_of_length 40 s ≡ true) r.to
  pub sent_decimal : is_digits r.sent ≡ true
  pub input_hex : is_hex_text r.input ≡ true
  pub block_decimal : is_digits r.next_scan_block ≡ true

abbrev pub IsOptionalRecovery : Option TradeRecovery → Type 0
IsOptionalRecovery none = Unit
IsOptionalRecovery (some r) = IsRecovery r

pub record IsTrade (t : PendingTrade) : Type 0 where
  pub wallet_hex : is_hex_of_length 40 t.wallet_address ≡ true
  pub token_hex : is_hex_of_length 40 t.token_address ≡ true
  pub hash_hex : IsOptional (λ s. is_hex_of_length 64 s ≡ true) t.hash
  pub time_positive : is_finite_positive t.submitted_at ≡ true
  pub recovery_valid : IsOptionalRecovery t.recovery

decode_recovery_fields :
    (sender : Text) (nonce : ℕ) (to : Option Text) (sent input next : Text)
    → let r : TradeRecovery = record {
      sender = sender;
      nonce = nonce;
      to = to;
      sent = sent;
      input = input;
      next_scan_block = next;
    } in
      IsRecovery r → is_trade_recovery (encode_recovery r) ≡ some r
unfolding is_trade_recovery encode_recovery property
decode_recovery_fields sender nonce none sent input next v = ground arith
decode_recovery_fields sender nonce (some to) sent input next v = ground arith

pub decode-encode_recovery :
    (r : TradeRecovery) → IsRecovery r → is_trade_recovery (encode_recovery r) ≡ some r
decode-encode_recovery r valid =
    decode_recovery_fields r.sender r.nonce r.to r.sent r.input r.next_scan_block valid

read_side-text : (s : Side) → side_of_text (side_text s) ≡ some s
unfolding text_eq
read_side-text buy = refl
read_side-text sell = refl

read_status-text : (s : PendingStatus) → status_of_text (status_text s) ≡ some s
unfolding text_eq
read_status-text submitted = refl
read_status-text confirming = refl
read_status-text confirmation_unknown = refl

decode_trade_fields :
    (wallet token : Text) (side : Side) (hash : Option Text) (status : PendingStatus)
    (at : JsonNumber) (recovery : Option TradeRecovery)
    → let t : PendingTrade = record {
      wallet_address = wallet;
      token_address = token;
      side = side;
      hash = hash;
      status = status;
      submitted_at = at;
      recovery = recovery;
    } in
      IsTrade t → is_pending_trade (encode t) ≡ some t
unfolding is_pending_trade encode property
decode_trade_fields wallet token side none status at none v =
    ground (arith, read_side-text side, read_status-text status)
decode_trade_fields wallet token side (some h) status at none v =
    ground (arith, read_side-text side, read_status-text status)
decode_trade_fields wallet token side none status at (some r) v =
    ground (
      arith,
      read_side-text side,
      read_status-text status,
      decode-encode_recovery r v.recovery_valid,
    )
decode_trade_fields wallet token side (some h) status at (some r) v =
    ground (
      arith,
      read_side-text side,
      read_status-text status,
      decode-encode_recovery r v.recovery_valid,
    )

-- A well-formed trade, written and parsed, passes the guard and is the same trade.
pub decode-encode : (t : PendingTrade) → IsTrade t → is_pending_trade (encode t) ≡ some t
decode-encode t valid =
    decode_trade_fields t.wallet_address t.token_address t.side t.hash t.status t.submitted_at
      t.recovery valid
