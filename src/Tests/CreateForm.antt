-- ===== src/Tests/CreateForm.antt =====
-- A form that is filled in, submitted, and whose first buy fails.
use zonk_fun.Base.{trim}
use zonk_fun.Base.{to_upper}
use zonk_fun.Base.{to_lower}
use zonk_fun.Base.{parse_digits}
use zonk_fun.Inputs.{parse_dev_buy_amount}
use zonk_fun.Base.{is_digits}
use zonk_fun.Base.{includes}
use zonk_fun.CreateForm.Validate.{can_create_token}
use zonk_fun.Base.{before_dot}
use zonk_fun.Base.{after_dot}
use zonk_fun.Base.{◌≡◌, refl, true, false, some, none, [], codes, text_eq, if◌then◌else◌}
use zonk_fun.DevBuy.{DevBuyAttemptError}
use zonk_fun.DevBuy
use zonk_fun.Launch.{CreateTokenInput, ImageFile, DevBuyFailure, file}
use zonk_fun.Launch
use zonk_fun.CreateForm.Validate.{Urls, validate_create_token}
use zonk_fun.CreateForm.Validate.Valid.{accepted_input, IsValidInput}
use zonk_fun.CreateForm.Form.{
  initial_form, edit_name, edit_symbol, edit_image_file, submit, submit_settled, retry_dev_buy,
  retry_settled, set_tx, offers_retry, update,
}
use zonk_fun.CreateForm.Form.Steps.{
  Session, Step, Reach, here, next, opening_session, after_submit, IsSingle, IsOneImage,
  one_run_at_a_time, never_two_sources,
}
use zonk_fun.CreateForm.Form.Retry.{retry_offers}
use zonk_fun.Tests.World.{token_address, trade_hash, other_hash}

abbrev urls : Urls
urls = record {
  parse = λ t.
      if text_eq t (codes "https://www.x.com/zonk")
      then some (record {
        protocol = codes "https:";
        username = [];
        password = [];
        hostname = codes "www.x.com";
      })
      else none;
}

abbrev png : ImageFile
png = record { mime = codes "image/png"; size = 3; contents = codes "png" }

abbrev input : CreateTokenInput
input = record {
  name = codes " Zonk ";
  symbol = codes "ZNK";
  description = [];
  website_url = [];
  x_url = codes "https://www.x.com/zonk ";
  telegram_url = [];
  discord_url = [];
  image_file = some png;
  image_url = [];
  image_source = file;
  dev_buy_eth = codes "0.5";
}

accepted : validate_create_token urls input ≡ []
unfolding validate_create_token trim text_eq to_lower parse_dev_buy_amount is_digits before_dot
    includes after_dot parse_digits
accepted = refl

accepted_input_example : IsValidInput urls input
accepted_input_example = accepted_input urls input accepted

abbrev named : Session
named = record opening_session {
  form = update urls (edit_name (codes "Zonk")) opening_session.form;
}

abbrev marked : Session
marked = record named { form = update urls (edit_symbol (codes "znk")) named.form }

abbrev pictured : Session
pictured = record marked { form = update urls (edit_image_file (some png)) marked.form }

abbrev submitted : Session
submitted = after_submit pictured (submit urls (some 8453) true pictured.form)

filled : Reach urls opening_session submitted
filled =
    next
      (next
        (next (next here (Step.edit opening_session (edit_name (codes "Zonk"))))
          (Step.edit named (edit_symbol (codes "znk"))))
        (Step.edit marked (edit_image_file (some png))))
      (Step.submitting pictured (some 8453) true)

is_submitted : submitted.form.submission ≡ true
unfolding submit update validate_create_token trim to_upper text_eq can_create_token
is_submitted = refl

one_run_at_a_time_example : IsSingle submitted
one_run_at_a_time_example = one_run_at_a_time urls submitted filled

never_two_sources_example : IsOneImage submitted.form.input
never_two_sources_example = never_two_sources urls submitted filled

-- The wallet could not be reached at first; then the buy was sent, and no receipt came.
abbrev failure : DevBuyFailure
failure = record {
  message = codes "Token created successfully, but the Dev buy could not be completed.";
  token_address = token_address;
  creation_hash = trade_hash;
  retryable = true;
  buy_hash = none;
  rejected = false;
}

abbrev uncertain : DevBuyAttemptError
uncertain = record {
  message =
      codes "The Dev buy transaction still needs a definitive receipt before it can be retried.";
  retryable = false;
  buy_hash = some other_hash;
  rejected = false;
}

retry_offers_example :
    (offers_retry (submit_settled (Launch.dev_buy_failed failure) initial_form) ≡ true)
    × (offers_retry (
          retry_settled (DevBuy.failed uncertain) (
            set_tx
              (Launch.dev_buying DevBuy.dev_buy_confirming other_hash)
              (retry_dev_buy (submit_settled (Launch.dev_buy_failed failure) initial_form)).0))
        ≡ true)
retry_offers_example =
    retry_offers failure uncertain (Launch.dev_buying DevBuy.dev_buy_confirming other_hash)
      initial_form
