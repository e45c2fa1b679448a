-- ===== src/Graduated/Component.antt =====
-- The state and the handlers of apps/web/src/components/graduated-token-swap.tsx, with the two
-- helpers of apps/web/src/lib/uniswap-v3.ts that only it calls. The world is the state of the
-- component beside the rest, since other handlers may run wherever it awaits.
pub mod Asking
pub mod Swapping
pub mod Course
pub mod Performed
pub mod Confirmed
pub mod Quoted
use zonk_fun.Base.{
  ℕ, ◌+◌, Bool, true, false, not, ◌&&◌, ◌||◌, ◌++◌, Option, none, some, is_some, get_or, Text,
  codes, text_eq, to_lower, Thrown, error, value, new_error, Result, ok, err, Number,
  message_or_string, ltb, ◌==◌, matches_ci, if◌then◌else◌,
}
use zonk_fun.Client.{
  Address, Hash, Side, buy, sell, Client, Context, Action, ReceiptStatus, success, reverted,
  Receipt, pure, throw, lift, call, throw_if, date_now, catching, ◌>>=◌, ◌>>◌,
}
use zonk_fun.Graduated.Quote.{
  Periphery, UniswapV3Config, ValidatedPool, GraduatedQuote, GraduatedSwapTransaction,
  selected_zonk_chain_id, quote_is_fresh, quote_graduated_swap, build_graduated_swap_transaction,
}
use zonk_fun.Graduated.Swap.{
  SwapInput, GraduatedExecutionState, graduated_allowance_poll_delays, orchestrate_graduated_swap,
}
use zonk_fun.Panel.Handlers.{same_chain}
use zonk_fun.Modal.{Phase}
use zonk_fun.Modal

pub data SwapStatus : Type 0 where
  idle quoting awaiting_approval approval_confirming approval_confirmed preparing_sell
        awaiting_wallet submitted confirming confirmed rejected failed :
      SwapStatus

-- `State`.
pub record SwapBalances : Type 0 where
  pub execution : GraduatedExecutionState
  pub decimals : ℕ

pub record SwapPanel : Type 0 where
  pub side : Side
  pub amount : Text
  pub slippage : Text
  pub quote : Option GraduatedQuote
  pub status : SwapStatus
  pub error : Text
  pub hash : Option Hash
  pub pending : Bool
  pub busy : Bool

-- `executionContext.current`.
pub record Execution : Type 0 where
  pub wallet : Option Address
  pub chain_id : Option ℕ

-- A render: what `submit` and `requestQuote` close over.
pub record Render : Type 0 where
  pub wallet : Option Address
  pub chain_id : Option ℕ
  pub connected : Bool
  pub has_client : Bool
  pub config : Option UniswapV3Config
  pub canonical_pool : Option Address
  pub pool : Option ValidatedPool
  pub pool_error : Option Text
  pub balances : Option SwapBalances
  pub token : Address
  pub symbol : Text

-- `swapModalPhase`.
unfoldable pub swap_modal_phase : SwapStatus → Side → Option Phase
swap_modal_phase SwapStatus.idle side = none
swap_modal_phase SwapStatus.quoting side = some Modal.preparing
swap_modal_phase SwapStatus.awaiting_approval side = some Modal.awaiting_approval
swap_modal_phase SwapStatus.approval_confirming side = some Modal.approval_submitted
swap_modal_phase SwapStatus.approval_confirmed side = some Modal.approval_confirmed
swap_modal_phase SwapStatus.preparing_sell side = some Modal.preparing_sell
swap_modal_phase SwapStatus.awaiting_wallet buy = some Modal.awaiting_wallet
swap_modal_phase SwapStatus.awaiting_wallet sell = some Modal.awaiting_sell_signature
swap_modal_phase SwapStatus.submitted buy = some Modal.submitted
swap_modal_phase SwapStatus.submitted sell = some Modal.sell_submitted
swap_modal_phase SwapStatus.confirming buy = some Modal.confirming
swap_modal_phase SwapStatus.confirming sell = some Modal.sell_confirming
swap_modal_phase SwapStatus.confirmed side = some Modal.confirmed
swap_modal_phase SwapStatus.rejected side = some Modal.rejected
swap_modal_phase SwapStatus.failed side = some Modal.failed

-- `guard`.
unfoldable pub swap_guard : Render → Option Text
swap_guard r =
    if not (is_some r.config)
    then some (
        codes
          "Swap configuration unavailable: verified Base QuoterV2, SwapRouter02, and factory addresses are required.")
    else if not (is_some r.canonical_pool)
    then some (codes "No indexed canonical graduation pool is available for this token.")
    else if not r.connected || not (is_some r.wallet) || not r.has_client
    then some (codes "Connect Wallet to swap.")
    else if not (same_chain r.chain_id (some selected_zonk_chain_id))
    then some (codes "Switch the connected wallet to Base (8453).")
    else r.pool_error

-- The handlers of the inputs.
unfoldable pub change_amount : Text → SwapPanel → SwapPanel
change_amount t p = record p { amount = t; quote = none }

unfoldable pub change_slippage : Text → SwapPanel → SwapPanel
change_slippage t p = record p { slippage = t; quote = none }

unfoldable pub change_side : Side → SwapPanel → SwapPanel
change_side side p = record p { side = side; quote = none }

unfoldable pub stale_message : Text
stale_message = codes "This quote is stale or the wallet/network changed. Request a fresh quote."

-- `rejectStaleQuote`.
unfoldable pub reject_stale_quote : SwapPanel → SwapPanel
reject_stale_quote p = record p { quote = none; status = SwapStatus.failed; error = stale_message }

-- `/reject|denied|cancelled/i.test(message)`.
unfoldable pub failed_status : Text → SwapStatus
failed_status m =
    if matches_ci (codes "reject") m
      || matches_ci (codes "denied") m
      || matches_ci (codes "cancelled") m
    then SwapStatus.rejected
    else SwapStatus.failed

-- `current.wallet?.toLowerCase() === wallet.toLowerCase()`.
abbrev pub is_wallet : Option Address → Address → Bool
is_wallet none wallet = false
is_wallet (some w) wallet = text_eq (to_lower w) (to_lower wallet)

-- What the component calls beside `Client`: the wallet's `sendTransaction` of an attributed
-- transaction, `publicClient.call`, the ref of the context, the encoding of `approve`, viem's
-- parsing of an amount (`parseEther` is that with 18 decimals), and `Math.round(Number(text) * 100)`.
-- A text with a minus sign is read as 0, which is refused as it is.
pub record Wallet (V : Type 0) : Type 0 where
  pub send_transaction : GraduatedSwapTransaction → Address → V → Result Hash × V
  pub simulate_call : GraduatedSwapTransaction → Address → V → Result (Unit {0}) × V
  pub execution : V → Execution × V
  pub encode_approve : Address → ℕ → Text
  pub parse_units : Text → ℕ → Result ℕ
  pub rounded_hundredths : Text → Number

-- `approvalCall`.
unfoldable pub approval_call :
    (Address → ℕ → Text) → Address → Address → ℕ → Result GraduatedSwapTransaction
approval_call encode token spender amount =
    if amount == 0
    then err (new_error (codes "Approval amount must be greater than zero."))
    else ok (record { to = token; payload = encode spender amount; sent = 0 })

abbrev pub is_success : ReceiptStatus → Bool
is_success success = true
is_success reverted = false

-- The decimals of what is paid, and the test on the balance that was last read.
unfoldable pub paid_decimals : Side → Option SwapBalances → Result ℕ
paid_decimals buy balances = ok 18
paid_decimals sell none = err (new_error (codes "Token decimals are unavailable."))
paid_decimals sell (some b) = ok b.decimals

-- The `catch` and the `finally`.
unfoldable pub released : Result Hash → SwapPanel → SwapPanel
released (ok hash) p = record p { busy = false; pending = false }
released (err e) p = record p {
  status = failed_status (message_or_string e);
  error = message_or_string e;
  busy = false;
  pending = false;
}

module _ {W : Type 0} where
  -- A change of the state.
  unfoldable pub set : (SwapPanel → SwapPanel) → Action (SwapPanel × W) (Unit {0})
  set f c = (ok tt, record c { world = (f c.world.0, c.world.1) })

  unfoldable pub set_status : SwapStatus → Action (SwapPanel × W) (Unit {0})
  unfolding set
  set_status s = set (λ p. record p { status = s })

  unfoldable pub check_funds :
      Text → Side → ℕ → Option SwapBalances → Action (SwapPanel × W) (Unit {0})
  check_funds symbol side parsed none = pure tt
  check_funds symbol buy parsed (some b) =
      throw_if (ltb b.execution.eth parsed) (new_error (codes "Insufficient ETH balance."))
  check_funds symbol sell parsed (some b) =
      throw_if (ltb b.execution.token parsed)
        (new_error (codes "Insufficient " ++ symbol ++ codes " balance."))

  abbrev pub release : Result Hash × Context (SwapPanel × W) → Result Hash × Context (SwapPanel × W)
  release (r, c) = (r, record c { world = (released r c.world.0, c.world.1) })

  abbrev pub started : Context (SwapPanel × W) → Context (SwapPanel × W)
  started c = record c {
    world = (record (c.world.0) { busy = true; pending = true; error = codes "" }, c.world.1);
  }
