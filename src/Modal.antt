-- ===== src/Modal.antt =====
-- The transaction dialog: apps/web/src/lib/transaction-modal.ts, and the phase that a trade's status
-- shows, `tradeModalPhase` of apps/web/src/components/token-trade-panel.tsx.
pub mod Phases
use zonk_fun.Base.{Bool, true, false, Option, none, some}
use zonk_fun.Client.{Side, buy, sell}
use zonk_fun.Panel.State.{Status}
use zonk_fun.Panel.State

pub data Phase : Type 0 where
  review preparing awaiting_wallet submitted confirming confirmed awaiting_approval
        approval_submitted approval_confirmed preparing_sell awaiting_sell_signature sell_submitted
        sell_confirming failed rejected expired confirmation_unknown :
      Phase

pub record ModalState : Type 0 where
  pub is_open : Bool
  pub phase : Phase

pub data ModalAction : Type 0 where
  show_review : ModalAction
  progress : Phase → ModalAction
  close : ModalAction

unfoldable pub transaction_modal_reducer : ModalState → ModalAction → ModalState
transaction_modal_reducer state show_review = record { is_open = true; phase = review }
transaction_modal_reducer state (progress phase) = record { is_open = true; phase = phase }
transaction_modal_reducer state close = record state { is_open = false }

-- `transactionPhaseIsBusy`.
unfoldable pub transaction_phase_is_busy : Phase → Bool
transaction_phase_is_busy review = false
transaction_phase_is_busy confirmed = false
transaction_phase_is_busy failed = false
transaction_phase_is_busy rejected = false
transaction_phase_is_busy expired = false
transaction_phase_is_busy confirmation_unknown = false
transaction_phase_is_busy _ = true

abbrev submitted_phase : Side → Phase
submitted_phase buy = submitted
submitted_phase sell = sell_submitted

abbrev confirming_phase : Side → Phase
confirming_phase buy = confirming
confirming_phase sell = sell_confirming

unfoldable pub trade_modal_phase : Status → Side → Option Phase
trade_modal_phase State.idle side = none
trade_modal_phase State.preparing side = some preparing
trade_modal_phase State.awaiting_approval side = some awaiting_approval
trade_modal_phase State.approval_confirming side = some approval_submitted
trade_modal_phase State.approval_confirmed side = some approval_confirmed
trade_modal_phase State.preparing_sell side = some preparing_sell
trade_modal_phase State.awaiting_sell_signature side = some awaiting_sell_signature
trade_modal_phase State.awaiting_wallet side = some awaiting_wallet
trade_modal_phase State.submitted side = some (submitted_phase side)
trade_modal_phase State.confirming side = some (confirming_phase side)
trade_modal_phase State.confirmation_unknown side = some confirmation_unknown
trade_modal_phase State.confirmed side = some confirmed
trade_modal_phase State.reverted side = some failed
trade_modal_phase State.replaced side = some failed
trade_modal_phase State.rejected side = some rejected
trade_modal_phase State.expired side = some expired
trade_modal_phase State.failed side = some failed

-- The effect on `[side, status]`: a status with a phase opens the dialog on it.
unfoldable pub show_status : ModalState → Status → Side → ModalState
unfolding transaction_modal_reducer trade_modal_phase
show_status state status side = shown (trade_modal_phase status side)
  where
    shown : Option Phase → ModalState
    shown none = state
    shown (some phase) = transaction_modal_reducer state (progress phase)
