-- ===== src/Modal/Phases.antt =====
-- How the dialog's phases and the panel's blocking statuses agree.
use zonk_fun.Base.{◌≡◌, ◌⊎◌, inl, inr, refl, Bool, true, false, none}
use zonk_fun.Client.{Side, buy, sell}
use zonk_fun.Panel.State.{Status, is_blocking}
use zonk_fun.Panel.State
use zonk_fun.Modal.{
  Phase, ModalState, transaction_phase_is_busy, trade_modal_phase, show_status,
  transaction_modal_reducer, confirmation_unknown,
}

-- The dialog is on a phase in which a transaction runs, or asks for attention.
abbrev pub is_running : Phase → Bool
is_running confirmation_unknown = true
is_running phase = transaction_phase_is_busy phase

abbrev pub is_idle : Status → Bool
is_idle State.idle = true
is_idle _ = false

-- A status blocks new trades exactly if, once it is shown, the dialog stands on a busy phase or on the
-- one for an unknown confirmation. Every status but `idle` opens the dialog; `idle` has no phase, leaves
-- the dialog as it was, and does not block.
pub shown_phase_blocks :
    (state : ModalState) (status : Status) (side : Side)
    → ((is_idle status ≡ true)
        × (trade_modal_phase status side ≡ none)
        × (show_status state status side ≡ state)
        × (is_blocking status ≡ false))
      ⊎ ((is_idle status ≡ false)
          × ((show_status state status side).is_open ≡ true)
          × (is_running (show_status state status side).phase ≡ is_blocking status))
unfolding show_status trade_modal_phase transaction_modal_reducer is_blocking
    transaction_phase_is_busy
shown_phase_blocks state State.idle side = inl (refl, refl, refl, refl)
shown_phase_blocks state State.submitted buy = inr (refl, refl, refl)
shown_phase_blocks state State.submitted sell = inr (refl, refl, refl)
shown_phase_blocks state State.confirming buy = inr (refl, refl, refl)
shown_phase_blocks state State.confirming sell = inr (refl, refl, refl)
shown_phase_blocks state _ side = inr (refl, refl, refl)
