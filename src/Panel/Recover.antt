-- ===== src/Panel/Recover.antt =====
-- `recover` of apps/web/src/components/token-trade-panel.tsx: what it does before its `await`, its
-- `report` and its `catch`. Its outcome goes through `applyResolution`, and its `finally` is the one
-- of `submit`.
pub mod Held
use zonk_fun.Base.{
  ℕ, Bool, true, false, not, Option, none, some, get_or, Text, codes, if◌then◌else◌,
}
use zonk_fun.Client.{Address, Hash}
use zonk_fun.Curve.Recovery.{TradeRecovery}
use zonk_fun.PendingTrade.Guards.{PendingStatus}
use zonk_fun.PendingTrade.Guards
use zonk_fun.Panel.State.{Status, Props, Panel, Latest, trade_identity}
use zonk_fun.Panel.State
use zonk_fun.Panel.Handlers.{
  Operation, persist, is_current, note_recovery, persisted_status, show_report, shown,
}

-- The guards passed: the operation with the hash that is shown.
recover_from : Props → Address → Hash → ℕ → Panel → Panel × Option (Operation × Hash)
recover_from props wallet hash now p = (
  persist p.side hash Guards.confirming wallet props.token_address none now
      (shown State.confirming (codes "") (record p { operation = true })),
  some (
    record {
      side = p.side;
      wallet = wallet;
      token = props.token_address;
      identity = trade_identity props.token_address props.wallet_address;
      generation = p.generation;
    },
    hash,
  ),
)

recover_guarded :
    Option Address → Option Hash → Props → ℕ → Panel → Panel × Option (Operation × Hash)
unfolding recover_from
recover_guarded (some wallet) (some hash) props now p = recover_from props wallet hash now p
recover_guarded none hash props now p = (p, none)
recover_guarded (some wallet) none props now p = (p, none)

-- `recover` up to `await props.check(…)` or `await props.resume(…)`.
unfoldable pub recover : Props → ℕ → Panel → Panel × Option (Operation × Hash)
unfolding recover_guarded
recover props now p =
    if p.operation then (p, none) else recover_guarded props.wallet_address p.hash props now p

note_recovered : Option PendingStatus → Hash → Option TradeRecovery → Operation → ℕ → Panel → Panel
note_recovered none h r op now p = p
note_recovered (some s) h r op now p = persist op.side h s op.wallet op.token r now p

-- The `report` of `recover`.
unfoldable pub recover_report :
    Operation → Hash → Latest → Status → Option Hash → Option TradeRecovery → ℕ → Panel → Panel
unfolding note_recovered
recover_report op hash latest status next_hash r now p =
    show_report (is_current op latest p) status next_hash (
      note_recovered (persisted_status status) (get_or next_hash hash) r op now (note_recovery r p))

-- The `catch` and the `finally` of `recover`.
unfoldable pub recover_failed : Operation → Hash → Latest → ℕ → Panel → Panel
recover_failed op hash latest now p =
    if not (is_current op latest p)
    then p
    else record (shown State.confirmation_unknown
        (codes "Confirmation remains uncertain. New submissions are still blocked.")
        (persist op.side hash Guards.confirmation_unknown op.wallet op.token none now p)) {
          operation = false;
        }
