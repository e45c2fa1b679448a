-- ===== src/Sdk/Slippage/Bounds.antt =====
-- What the two slippage bounds promise.
use zonk_fun.Base.{ℕ, suc, ◌+◌, ◌-◌, ◌*◌, ◌/◌, ◌≤◌, ◌<◌, ◌≡◌, arith, ok, integer, pos}
use zonk_fun.Sdk.Slippage.{max_input_with_slippage, min_output_with_slippage}

share_le : (amount part : ℕ) → part ≤ 10000 → amount * part / 10000 ≤ amount
share_le amount part h = let bound : amount * part ≤ amount * 10000 = grind arith in omega arith

le_share : (amount bps : ℕ) → amount ≤ (amount * (10000 + bps) + 9999) / 10000
le_share amount bps = omega arith

-- The least acceptable output is the rounded-down share: it is at most the quoted amount, and it is
-- the largest integer whose ten-thousandfold does not exceed amount * (10000 - bps).
pub min_output_is_floor :
    (amount bps : ℕ)
    → bps ≤ 5000
    → (m : ℕ) × (min_output_with_slippage amount (integer (pos bps)) ≡ ok m)
      × (m ≤ amount)
      × (m * 10000 ≤ amount * (10000 - bps))
      × (amount * (10000 - bps) < suc m * 10000)
unfolding min_output_with_slippage
min_output_is_floor amount bps h = (
  amount * (10000 - bps) / 10000,
  ground arith,
  share_le amount (10000 - bps) (omega arith),
  omega arith,
  omega arith,
)

-- The greatest acceptable input is the rounded-up share.
pub max_input_is_ceiling :
    (amount bps : ℕ)
    → bps ≤ 5000
    → (m : ℕ) × (max_input_with_slippage amount (integer (pos bps)) ≡ ok m)
      × (amount ≤ m)
      × (amount * (10000 + bps) ≤ m * 10000)
      × ((n : ℕ) → amount * (10000 + bps) ≤ n * 10000 → m ≤ n)
unfolding max_input_with_slippage
max_input_is_ceiling amount bps h = (
  (amount * (10000 + bps) + 9999) / 10000,
  ground arith,
  le_share amount bps,
  omega arith,
  λ n below. omega arith,
)
