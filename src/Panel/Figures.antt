-- ===== src/Panel/Figures.antt =====
-- The amounts that apps/web/src/components/token-trade-panel.tsx shows beside a quote. `to_fixed` is
-- `(bps / 100).toFixed(2)`, and `format_deadline` shows a time.
use zonk_fun.Base.{
  ℕ, ◌*◌, ◌/◌, ◌^◌, true, List, [], ◌∷◌, ◌++◌, Option, none, some, Text, codes, text_eq, trim, ℤ,
  pos, Number, Result, ok, err, Numeric, bigint_of, map_magnitude, if◌then◌else◌,
}
use zonk_fun.Format.{EthUsdReference, Printer, format_wei_usd, format_native, format_token_amount}
use zonk_fun.Panel.State.{Quote, buying, selling}
use zonk_fun.Panel.Quoting.{Units, is_amount_text}

-- `tokenValueWei`, where nothing throws.
abbrev scaled : ℕ → ℕ → Option ℤ → Option ℤ
scaled amount decimals none = none
scaled amount decimals (some price) =
    some (map_magnitude (λ wei. amount * wei / 10 ^ decimals) price)

unfoldable pub token_value_wei : ℕ → ℕ → Text → Option ℤ
token_value_wei amount decimals price_wei =
    scaled amount decimals (bigint_of (Numeric.text price_wei))

-- `inputEthUsd`.
abbrev shown_parsed : Option EthUsdReference → Result ℕ → Text
shown_parsed reference (ok wei) = format_wei_usd (some (Numeric.big (pos wei))) reference
shown_parsed reference (err e) = codes "—"

unfoldable pub input_eth_usd : Units → Text → Option EthUsdReference → Text
input_eth_usd units s reference =
    if is_amount_text (trim s)
    then shown_parsed reference (units.parse_ether (trim s))
    else codes "—"

-- `tokenUsdEstimate`.
unfoldable pub token_usd_estimate : Option ℤ → Option EthUsdReference → Text
token_usd_estimate none reference = codes "USD estimate unavailable"
token_usd_estimate (some wei) reference =
    let formatted = format_wei_usd (some (Numeric.big wei)) reference in
    if text_eq formatted (codes "USD unavailable")
    then formatted
    else codes "Estimated " ++ formatted

pub record Detail : Type 0 where
  pub label : Text
  pub shown : Text

-- `tradeModalDetails`.
module _ (printer : Printer) (to_fixed : Number → Text) (format_deadline : ℕ → Text) where
  abbrev native : Text → ℕ → Detail
  native label wei = record {
    label = label;
    shown = format_native printer (some (Numeric.big (pos wei))) true;
  }

  abbrev tokens : Text → ℕ → ℕ → Text → Detail
  tokens label amount decimals symbol = record {
    label = label;
    shown = format_token_amount printer (some (Numeric.big (pos amount))) decimals (some symbol);
  }

  abbrev terms : Number → ℕ → List Detail
  terms slippage_bps deadline =
      record { label = codes "Slippage"; shown = to_fixed slippage_bps ++ codes "%" }
      ∷ record { label = codes "Quote expires"; shown = format_deadline deadline }
      ∷ []

  unfoldable pub trade_modal_details : Quote → Text → ℕ → List Detail
  trade_modal_details (buying q) symbol decimals =
      native (codes "Maximum input") q.max_reserve_in
      ∷ tokens (codes "Expected output") q.token_amount decimals symbol
      ∷ native (codes "Protocol fee") q.protocol_fee
      ∷ native (codes "Creator fee") q.creator_fee
      ∷ terms q.slippage_bps q.deadline
  trade_modal_details (selling q) symbol decimals =
      tokens (codes "Token input") q.token_amount decimals symbol
      ∷ native (codes "Expected output") q.reserve_out
      ∷ native (codes "Minimum output") q.min_reserve_out
      ∷ native (codes "Protocol fee") q.protocol_fee
      ∷ native (codes "Creator fee") q.creator_fee
      ∷ terms q.slippage_bps q.deadline
