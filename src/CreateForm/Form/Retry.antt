-- ===== src/CreateForm/Form/Retry.antt =====
-- When the form offers to try the creator's buy again.
use zonk_fun.Base.{◌≡◌, refl, arith, Bool, false, not, ◌&&◌, if-both}
use zonk_fun.DevBuy.{DevBuyAttemptError}
use zonk_fun.DevBuy
use zonk_fun.Launch.{DevBuyFailure, LaunchStatus}
use zonk_fun.Launch
use zonk_fun.CreateForm.Form.{
  Form, failed_status, submit_settled, retry_from, retry_dev_buy, set_tx, retry_settled,
  offers_retry, is_pending, is_refusal,
}

failed_status-offered :
    (f : DevBuyFailure) → (f.retryable && not (is_pending (failed_status f))) ≡ f.retryable
unfolding is_pending
failed_status-offered f = ground arith

and_not-false : (a p : Bool) → p ≡ false → (a && not p) ≡ a
and_not-false a p h = ground arith

-- After `execute` ended with a failed buy, the form offers to try the buy again exactly where that
-- failure is retryable. After such a retry failed it offers the same again, whatever the second
-- failure is: also where the buy was sent and its outcome is not known.
pub retry_offers :
    (f : DevBuyFailure) (e : DevBuyAttemptError) (t : LaunchStatus) (form : Form)
    → let first = submit_settled (Launch.dev_buy_failed f) form in
      (offers_retry first ≡ f.retryable)
      × (offers_retry (retry_settled (DevBuy.failed e) (set_tx t (retry_dev_buy first).0))
          ≡ f.retryable)
unfolding is_pending offers_retry submit_settled retry_settled retry_dev_buy retry_from set_tx
retry_offers f e t form = (
  failed_status-offered f,
  and_not-false f.retryable _
      (if-both (λ s. is_pending s ≡ false) (is_refusal e.message) refl refl),
)
