-- ===== src/CreateForm/Form.antt =====
-- The state of CreateTokenForm and its handlers. `submit` and `retryDevBuy` are divided by their
-- `await`; `LaunchResult` and `DevBuyResult` are what they wait for.
pub mod Steps
pub mod Retry
use zonk_fun.Base.{
  ℕ, Bool, true, false, not, ◌&&◌, ◌||◌, List, [], ◌∷◌, ◌++◌, Option, none, some, is_some, get_or,
  Text, codes, to_upper, trim, matches_ci, Thrown, error, value, Result, ok, err, ltb,
  if◌then◌else◌,
}
use zonk_fun.Client.{Address, Hash}
use zonk_fun.DevBuy.{DevBuyStatus, DevBuyResult, DevBuyAttemptError, bought}
use zonk_fun.DevBuy
use zonk_fun.Inputs.{parse_dev_buy_amount}
use zonk_fun.Launch.{
  ImageFile, ImageSource, file, url, CreateTokenInput, LaunchStatus, CreateResult, DevBuyFailure,
  LaunchResult, launched, thrown,
}
use zonk_fun.Launch
use zonk_fun.CreateForm.Validate.{
  Urls, Key, Errors, name_key, symbol_key, description_key, website_key, x_key, telegram_key,
  discord_key, image_key, image_file_key, image_url_key, dev_buy_key, network_key,
  is_https_image_url, validate_create_token, can_create_token,
}
use zonk_fun.Modal.{Phase}
use zonk_fun.Modal

-- `TransactionStatus` and `TransactionState`.
pub data TxStatus : Type 0 where
  idle preparing awaiting_wallet submitted confirming confirmed failed rejected dev_buy_preparing
        dev_buy_awaiting_wallet dev_buy_submitted dev_buy_confirming dev_buy_confirmed
        dev_buy_failed dev_buy_rejected :
      TxStatus

pub record TransactionState : Type 0 where
  pub status : TxStatus
  pub hash : Option Hash
  pub error : Option Text

abbrev pub idle_transaction : TransactionState
idle_transaction = record { status = TxStatus.idle; hash = none; error = none }

-- `submission` is `submissionRef.current`.
pub record Form : Type 0 where
  pub input : CreateTokenInput
  pub errors : Errors
  pub review : Bool
  pub tx : TransactionState
  pub result : Option CreateResult
  pub failure : Option DevBuyFailure
  pub preview : Text
  pub submission : Bool

abbrev pub initial_form : Form
initial_form = record {
  input = record {
    name = [];
    symbol = [];
    description = [];
    website_url = [];
    x_url = [];
    telegram_url = [];
    discord_url = [];
    image_file = none;
    image_url = [];
    image_source = file;
    dev_buy_eth = [];
  };
  errors = [];
  review = false;
  tx = idle_transaction;
  result = none;
  failure = none;
  preview = [];
  submission = false;
}

-- `pending`.
unfoldable pub is_pending : TxStatus → Bool
is_pending TxStatus.idle = false
is_pending TxStatus.confirmed = false
is_pending TxStatus.failed = false
is_pending TxStatus.rejected = false
is_pending TxStatus.dev_buy_confirmed = false
is_pending TxStatus.dev_buy_failed = false
is_pending TxStatus.dev_buy_rejected = false
is_pending _ = true

-- An edit of one field.
pub data Edit : Type 0 where
  edit_name edit_symbol edit_description edit_website_url edit_x_url edit_telegram_url
        edit_discord_url edit_image_url edit_dev_buy_eth :
      Text → Edit
  edit_image_file : Option ImageFile → Edit

unfoldable pub edited : Edit → CreateTokenInput → CreateTokenInput
edited (edit_name t) input = record input { name = t }
edited (edit_symbol t) input = record input { symbol = to_upper t }
edited (edit_description t) input = record input { description = t }
edited (edit_website_url t) input = record input { website_url = t }
edited (edit_x_url t) input = record input { x_url = t }
edited (edit_telegram_url t) input = record input { telegram_url = t }
edited (edit_discord_url t) input = record input { discord_url = t }
edited (edit_image_url t) input = record input { image_url = t; image_file = none }
edited (edit_dev_buy_eth t) input = record input { dev_buy_eth = t }
edited (edit_image_file f) input = record input { image_file = f; image_url = [] }

-- The errors that an edit blanks.
unfoldable pub blanked : Edit → Errors
blanked (edit_name t) = (name_key, []) ∷ []
blanked (edit_symbol t) = (symbol_key, []) ∷ []
blanked (edit_description t) = (description_key, []) ∷ []
blanked (edit_website_url t) = (website_key, []) ∷ []
blanked (edit_x_url t) = (x_key, []) ∷ []
blanked (edit_telegram_url t) = (telegram_key, []) ∷ []
blanked (edit_discord_url t) = (discord_key, []) ∷ []
blanked (edit_image_url t) = (image_key, []) ∷ (image_url_key, []) ∷ []
blanked (edit_dev_buy_eth t) = (dev_buy_key, []) ∷ []
blanked (edit_image_file f) = (image_key, []) ∷ (image_file_key, []) ∷ []

module _ (urls : Urls) where
  -- The preview after an edit. A chosen file is shown later, when it is read.
  unfoldable pub preview_after : Edit → Text → Text
  preview_after (edit_image_file none) shown = []
  preview_after (edit_image_url t) shown = if is_https_image_url urls (trim t) then trim t else []
  preview_after _ shown = shown

  unfoldable pub update : Edit → Form → Form
  unfolding edited blanked preview_after
  update e form = record form {
    input = edited e form.input;
    errors = blanked e ++ form.errors;
    preview = preview_after e form.preview;
  }

-- `hasDevBuy`, which `update` also passes to `onDevBuyChange`.
abbrev is_positive : Result ℕ → Bool
is_positive (ok n) = ltb 0 n
is_positive (err e) = false

unfoldable pub has_dev_buy : Text → Bool
has_dev_buy t = is_positive (parse_dev_buy_amount t)

unfoldable pub with_source : ImageSource → CreateTokenInput → CreateTokenInput
with_source file input = record input { image_source = file; image_url = [] }
with_source url input = record input { image_source = url; image_file = none }

unfoldable pub switch_image_source : ImageSource → Form → Form
unfolding with_source
switch_image_source source form = record form {
  input = with_source source form.input;
  preview = [];
  errors = (image_key, []) ∷ (image_file_key, []) ∷ (image_url_key, []) ∷ form.errors;
}

abbrev pub has_errors : Errors → Bool
has_errors [] = false
has_errors (e ∷ l) = true

module _ (urls : Urls) where
  unfoldable pub open_review : Form → Form
  open_review form =
      let next = validate_create_token urls form.input in
      if has_errors next
      then record form { errors = next }
      else record form { errors = next; review = true }

  -- `submit` up to `await execute(…)`, and whether it comes so far.
  unfoldable pub submit : Option ℕ → Bool → Form → Form × Bool
  submit chain_id authenticated form =
      let next = validate_create_token urls form.input in
      if form.submission
      then (form, false)
      else if has_errors next
      then (record form { errors = next; review = false }, false)
      else if not (can_create_token chain_id authenticated false)
      then (
        record form {
          errors =
              (network_key, codes "Connect the browser wallet on Base before submitting.") ∷ [];
        },
        false,
      )
      else (record form { submission = true; errors = []; result = none; failure = none }, true)

-- `report`, which is `setTx`.
unfoldable pub status_of : LaunchStatus → TransactionState
status_of Launch.preparing = record { status = TxStatus.preparing; hash = none; error = none }
status_of Launch.awaiting_wallet = record {
  status = TxStatus.awaiting_wallet;
  hash = none;
  error = none;
}
status_of (Launch.submitted h) = record { status = TxStatus.submitted; hash = some h; error = none }
status_of (Launch.confirming h) = record {
  status = TxStatus.confirming;
  hash = some h;
  error = none;
}
status_of (Launch.dev_buying s h) = record { status = buying s; hash = some h; error = none }
  where
    buying : DevBuyStatus → TxStatus
    buying DevBuy.dev_buy_preparing = TxStatus.dev_buy_preparing
    buying DevBuy.dev_buy_awaiting_wallet = TxStatus.dev_buy_awaiting_wallet
    buying DevBuy.dev_buy_submitted = TxStatus.dev_buy_submitted
    buying DevBuy.dev_buy_confirming = TxStatus.dev_buy_confirming
    buying DevBuy.dev_buy_confirmed = TxStatus.dev_buy_confirmed

unfoldable pub set_tx : LaunchStatus → Form → Form
unfolding status_of
set_tx s form = record form { tx = status_of s }

-- `/reject|denied/i.test(message)`.
unfoldable pub is_refusal : Text → Bool
is_refusal m = matches_ci (codes "reject") m || matches_ci (codes "denied") m

abbrev message_of : Thrown → Text → Text
message_of (error name m) default = m
message_of (value shown) default = default

abbrev pub failed_status : DevBuyFailure → TxStatus
failed_status f =
    if f.rejected
    then TxStatus.dev_buy_rejected
    else if f.retryable
    then TxStatus.dev_buy_failed
    else TxStatus.dev_buy_confirming

-- The rest of `submit`, with its `catch` and `finally`. `onSuccess` opens the page of the token.
unfoldable pub submit_settled : LaunchResult → Form → Form
unfolding is_refusal
submit_settled (launched r) form = record form {
  result = some r;
  tx = record { status = TxStatus.confirmed; hash = some r.hash; error = none };
  submission = false;
}
submit_settled (Launch.dev_buy_failed f) form = record form {
  result = some (record {
    token_address = f.token_address;
    hash = f.creation_hash;
    dev_buy_hash = f.buy_hash;
  });
  failure = some f;
  tx = record {
    status = failed_status f;
    hash = some (get_or f.buy_hash f.creation_hash);
    error = some f.message;
  };
  submission = false;
}
submit_settled (thrown e) form =
    let m = message_of e (codes "Token creation failed.") in
    record form {
      tx = record {
        status = if is_refusal m then TxStatus.rejected else TxStatus.failed;
        hash = form.tx.hash;
        error = some m;
      };
      submission = false;
    }

-- `retryDevBuy` up to its `await`: the failure whose buy is tried again.
unfoldable pub retry_from : Option DevBuyFailure → Form → Form × Option DevBuyFailure
retry_from none form = (form, none)
retry_from (some f) form = if form.submission then (form, none) else (
  record form {
    submission = true;
    tx = record { status = TxStatus.dev_buy_preparing; hash = some f.creation_hash; error = none };
  },
  some f,
)

unfoldable pub retry_dev_buy : Form → Form × Option DevBuyFailure
unfolding retry_from
retry_dev_buy form = retry_from form.failure form

abbrev with_buy : Hash → Option CreateResult → Option CreateResult
with_buy h none = none
with_buy h (some r) = some (record r { dev_buy_hash = some h })

-- The rest of `retryDevBuy`. What `executeDevBuy` throws is an `Error`.
unfoldable pub retry_settled : DevBuyResult → Form → Form
unfolding is_refusal
retry_settled (bought h) form = record form {
  result = with_buy h form.result;
  failure = none;
  tx = record { status = TxStatus.dev_buy_confirmed; hash = some h; error = none };
  submission = false;
}
retry_settled (DevBuy.failed e) form = record form {
  tx = record {
    status = if is_refusal e.message then TxStatus.dev_buy_rejected else TxStatus.dev_buy_failed;
    hash = form.tx.hash;
    error = some e.message;
  };
  submission = false;
}

-- Whether the button that calls `retryDevBuy` is shown and enabled.
abbrev is_retryable : Option DevBuyFailure → Bool
is_retryable none = false
is_retryable (some f) = f.retryable

unfoldable pub offers_retry : Form → Bool
unfolding is_pending
offers_retry form =
    is_some form.result && is_retryable form.failure && not (is_pending form.tx.status)

-- `createModalPhase`.
unfoldable pub create_modal_phase : TxStatus → Option Phase
create_modal_phase TxStatus.idle = none
create_modal_phase TxStatus.preparing = some Modal.preparing
create_modal_phase TxStatus.awaiting_wallet = some Modal.awaiting_wallet
create_modal_phase TxStatus.submitted = some Modal.submitted
create_modal_phase TxStatus.confirming = some Modal.confirming
create_modal_phase TxStatus.confirmed = some Modal.confirmed
create_modal_phase TxStatus.failed = some Modal.failed
create_modal_phase TxStatus.rejected = some Modal.rejected
create_modal_phase TxStatus.dev_buy_preparing = some Modal.preparing
create_modal_phase TxStatus.dev_buy_awaiting_wallet = some Modal.awaiting_wallet
create_modal_phase TxStatus.dev_buy_submitted = some Modal.submitted
create_modal_phase TxStatus.dev_buy_confirming = some Modal.confirming
create_modal_phase TxStatus.dev_buy_confirmed = some Modal.confirmed
create_modal_phase TxStatus.dev_buy_failed = some Modal.failed
create_modal_phase TxStatus.dev_buy_rejected = some Modal.rejected
