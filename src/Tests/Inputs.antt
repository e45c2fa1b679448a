-- ===== src/Tests/Inputs.antt =====
-- Typed amounts, presets, and the dialog.
use zonk_fun.Base.{
  ◌+◌, ◌-◌, ◌*◌, ◌^◌, ◌≤◌, ◌≡◌, ◌⊎◌, refl, true, false, ok, none, [], codes, trim, is_space,
  before_dot, after_dot, includes, is_digits, parse_digits, digits_from, length, integer, pos,
}
use zonk_fun.Client.{sell}
use zonk_fun.Sdk.Slippage.{validate_slippage}
use zonk_fun.Panel.State.{is_blocking}
use zonk_fun.Panel.State
use zonk_fun.Inputs.{
  is_decimal, max_dev_buy_wei, dev_buy_of, padded_fraction, parse_dev_buy_amount, hundredths,
  parse_slippage_bps, buy_max_gas_reserve_wei, max, buy_preset, sell_preset,
}
use zonk_fun.Inputs.Amounts.{dev_buy_exact, presets_bounded, slippage_accepted}
use zonk_fun.Modal.{ModalState, review, show_status, trade_modal_phase}
use zonk_fun.Modal.Phases.{shown_phase_blocks, is_running, is_idle}

amount_run : parse_dev_buy_amount (codes " 1.25 ") ≡ ok (125 * 10 ^ 16)
unfolding parse_dev_buy_amount dev_buy_of padded_fraction is_decimal trim before_dot after_dot
    includes is_digits parse_digits digits_from is_space
amount_run = refl

dev_buy_exact_example :
    (125 * 10 ^ 16 ≤ max_dev_buy_wei)
    × (((trim (codes " 1.25 ") ≡ []) × (125 * 10 ^ 16 ≡ 0))
        ⊎ ((is_decimal 18 (trim (codes " 1.25 ")) ≡ true)
            × (125 * 10 ^ 16
                ≡ parse_digits (before_dot (trim (codes " 1.25 "))) * 10 ^ 18
                  + parse_digits (after_dot (trim (codes " 1.25 ")))
                    * 10 ^ (18 - length (after_dot (trim (codes " 1.25 ")))))))
dev_buy_exact_example = dev_buy_exact (codes " 1.25 ") (125 * 10 ^ 16) amount_run

presets_bounded_example :
    (buy_preset (10 ^ 18) max ≤ 10 ^ 18)
    × (sell_preset (10 ^ 18) max ≤ 10 ^ 18)
    × ((buy_preset (10 ^ 18) max * 2 ≤ 10 ^ 18)
        ⊎ (buy_preset (10 ^ 18) max + buy_max_gas_reserve_wei ≤ 10 ^ 18))
presets_bounded_example = presets_bounded (10 ^ 18) max

slippage_run : parse_slippage_bps (codes "0.5") ≡ ok 50
unfolding parse_slippage_bps hundredths is_decimal trim before_dot after_dot includes is_digits
    parse_digits digits_from is_space
slippage_run = refl

slippage_accepted_example :
    (50 ≤ 5000)
    × (validate_slippage (integer (pos 50)) ≡ ok tt)
    × (is_decimal 2 (trim (codes "0.5")) ≡ true)
    × (50
        ≡ parse_digits (before_dot (trim (codes "0.5"))) * 100
          + parse_digits (after_dot (trim (codes "0.5")))
            * 10 ^ (2 - length (after_dot (trim (codes "0.5")))))
slippage_accepted_example = slippage_accepted (codes "0.5") 50 slippage_run

abbrev closed : ModalState
closed = record { is_open = false; phase = review }

shown_phase_blocks_example :
    ((is_idle State.submitted ≡ true)
      × (trade_modal_phase State.submitted sell ≡ none)
      × (show_status closed State.submitted sell ≡ closed)
      × (is_blocking State.submitted ≡ false))
    ⊎ ((is_idle State.submitted ≡ false)
        × ((show_status closed State.submitted sell).is_open ≡ true)
        × (is_running (show_status closed State.submitted sell).phase
            ≡ is_blocking State.submitted))
shown_phase_blocks_example = shown_phase_blocks closed State.submitted sell
