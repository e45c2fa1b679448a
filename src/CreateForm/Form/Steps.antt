-- ===== src/CreateForm/Form/Steps.antt =====
-- The form over time: edits, reviews, reports, and the runs of `execute` and `retryDevBuy` that it
-- starts and that end at some later time.
use mathlib.Core.Path.{subst}
use zonk_fun.Base.{
  ℕ, ◌≡◌, ◌⊎◌, inl, inr, refl, ap, sym, arith, Bool, true, false, not, List, [], ◌∷◌, ◌++◌, Option,
  none, some, if◌then◌else◌, if-both, if-true,
}
use zonk_fun.DevBuy.{DevBuyResult, bought}
use zonk_fun.DevBuy
use zonk_fun.Launch.{
  ImageSource, file, url, CreateTokenInput, LaunchStatus, LaunchResult, launched, thrown,
  DevBuyFailure,
}
use zonk_fun.Launch
use zonk_fun.CreateForm.Validate.{Urls, validate_create_token, can_create_token}
use zonk_fun.CreateForm.Form.{
  Form, Edit, edited, edit_name, edit_symbol, edit_description, edit_website_url, edit_x_url,
  edit_telegram_url, edit_discord_url, edit_image_url, edit_dev_buy_eth, edit_image_file, update,
  with_source, switch_image_source, has_errors, open_review, submit, set_tx, submit_settled,
  retry_from, retry_dev_buy, retry_settled, initial_form,
}

-- What is awaited.
pub data Run : Type 0 where
  creation retrial : Run

pub record Session : Type 0 where
  pub form : Form
  pub running : List Run

abbrev pub after_submit : Session → Form × Bool → Session
after_submit s (form, started) = record {
  form = form;
  running = if started then creation ∷ s.running else s.running;
}

abbrev with_retrial : Option DevBuyFailure → List Run → List Run
with_retrial none running = running
with_retrial (some f) running = retrial ∷ running

abbrev pub after_retry : Session → Form × Option DevBuyFailure → Session
after_retry s (form, f) = record { form = form; running = with_retrial f s.running }

module _ (urls : Urls) where
  pub data Step : Session → Session → Type 0 where
    edit : (s : Session) (e : Edit) → Step s (record s { form = update urls e s.form })
    switch :
        (s : Session) (source : ImageSource)
        → Step s (record s { form = switch_image_source source s.form })
    review : (s : Session) → Step s (record s { form = open_review urls s.form })
    back : (s : Session) → Step s (record s { form = record s.form { review = false } })
    report : (s : Session) (t : LaunchStatus) → Step s (record s { form = set_tx t s.form })
    submitting :
        (s : Session) (chain_id : Option ℕ) (authenticated : Bool)
        → Step s (after_submit s (submit urls chain_id authenticated s.form))
    settled :
        (s : Session) (before after : List Run) (result : LaunchResult)
        → s.running ≡ before ++ (creation ∷ after)
        → Step s (record { form = submit_settled result s.form; running = before ++ after })
    retrying : (s : Session) → Step s (after_retry s (retry_dev_buy s.form))
    retried :
        (s : Session) (before after : List Run) (result : DevBuyResult)
        → s.running ≡ before ++ (retrial ∷ after)
        → Step s (record { form = retry_settled result s.form; running = before ++ after })

  pub data Reach (s : Session) : Session → Type 0 where
    here : Reach s s
    next : {t u : Session} → Reach s t → Step t u → Reach s u

abbrev pub opening_session : Session
opening_session = record { form = initial_form; running = [] }

-- `submissionRef` says whether something is awaited, and at most one run is.
abbrev pub IsSingle : Session → Type 0
IsSingle s =
    ((s.form.submission ≡ false) × (s.running ≡ []))
    ⊎ ((s.form.submission ≡ true) × ((r : Run) × (s.running ≡ r ∷ [])))

-- An image file or an image URL, not both.
abbrev pub IsOneImage : CreateTokenInput → Type 0
IsOneImage input = (input.image_file ≡ none) ⊎ (input.image_url ≡ [])

-- The only run is the one that ended.
rest_nil :
    (before after running : List Run) (x : Run)
    → running ≡ before ++ (x ∷ after)
    → (running ≡ []) ⊎ ((r : Run) × (running ≡ r ∷ []))
    → before ++ after ≡ []
rest_nil [] after running x e (inl n) = absurd (ground arith)
rest_nil [] after running x e (inr (r, one)) = ground arith
rest_nil (y ∷ []) after running x e (inl n) = absurd (ground arith)
rest_nil (y ∷ []) after running x e (inr (r, one)) = absurd (ground arith)
rest_nil (y ∷ z ∷ before) after running x e (inl n) = absurd (ground arith)
rest_nil (y ∷ z ∷ before) after running x e (inr (r, one)) = absurd (ground arith)

one_of_two : (s : Session) → IsSingle s → (s.running ≡ []) ⊎ ((r : Run) × (s.running ≡ r ∷ []))
one_of_two s (inl (off, n)) = inl n
one_of_two s (inr (on, one)) = inr one

submit_settled-off :
    (result : LaunchResult) (form : Form) → (submit_settled result form).submission ≡ false
unfolding submit_settled
submit_settled-off (launched r) form = refl
submit_settled-off (Launch.dev_buy_failed f) form = refl
submit_settled-off (thrown e) form = refl

retry_settled-off :
    (result : DevBuyResult) (form : Form) → (retry_settled result form).submission ≡ false
unfolding retry_settled
retry_settled-off (bought h) form = refl
retry_settled-off (DevBuy.failed e) form = refl

edited-IsOneImage :
    (e : Edit) (input : CreateTokenInput) → IsOneImage input → IsOneImage (edited e input)
unfolding edited
edited-IsOneImage (edit_image_url t) input one = inl refl
edited-IsOneImage (edit_image_file f) input one = inr refl
edited-IsOneImage (edit_name t) input one = one
edited-IsOneImage (edit_symbol t) input one = one
edited-IsOneImage (edit_description t) input one = one
edited-IsOneImage (edit_website_url t) input one = one
edited-IsOneImage (edit_x_url t) input one = one
edited-IsOneImage (edit_telegram_url t) input one = one
edited-IsOneImage (edit_discord_url t) input one = one
edited-IsOneImage (edit_dev_buy_eth t) input one = one

with_source-IsOneImage :
    (source : ImageSource) (input : CreateTokenInput) → IsOneImage (with_source source input)
unfolding with_source
with_source-IsOneImage file input = inr refl
with_source-IsOneImage url input = inl refl

-- What settles a run leaves the input alone.
submit_settled-input :
    (result : LaunchResult) (form : Form) → (submit_settled result form).input ≡ form.input
unfolding submit_settled
submit_settled-input (launched r) form = refl
submit_settled-input (Launch.dev_buy_failed f) form = refl
submit_settled-input (thrown e) form = refl

retry_settled-input :
    (result : DevBuyResult) (form : Form) → (retry_settled result form).input ≡ form.input
unfolding retry_settled
retry_settled-input (bought h) form = refl
retry_settled-input (DevBuy.failed e) form = refl

retry_from-input :
    (f : Option DevBuyFailure) (form : Form) → (retry_from f form).0.input ≡ form.input
unfolding retry_from
retry_from-input none form = refl
retry_from-input (some f) form =
    if-both (λ (x : Form × Option DevBuyFailure). x.0.input ≡ form.input) form.submission refl refl

module _ (urls : Urls) where
  submit-IsSingle :
      (s : Session) (chain_id : Option ℕ) (authenticated : Bool)
      → IsSingle s
      → IsSingle (after_submit s (submit urls chain_id authenticated s.form))
  unfolding submit
  submit-IsSingle s chain_id authenticated (inr (on, one)) =
      if-true (λ x. IsSingle (after_submit s x)) s.form.submission _ _ on (inr (on, one))
  submit-IsSingle s chain_id authenticated (inl (off, n)) =
      if-both (λ x. IsSingle (after_submit s x)) s.form.submission (inl (off, n))
        (if-both (λ x. IsSingle (after_submit s x))
          (has_errors (validate_create_token urls s.form.input)) (inl (off, n))
          (if-both (λ x. IsSingle (after_submit s x))
            (not (can_create_token chain_id authenticated false)) (inl (off, n))
            (inr (refl, (creation, ap (λ l. creation ∷ l) n)))))

  retry_from-IsSingle :
      (s : Session) (f : Option DevBuyFailure)
      → IsSingle s
      → IsSingle (after_retry s (retry_from f s.form))
  unfolding retry_from
  retry_from-IsSingle s none single = single
  retry_from-IsSingle s (some f) (inr (on, one)) =
      if-true (λ x. IsSingle (after_retry s x)) s.form.submission _ _ on (inr (on, one))
  retry_from-IsSingle s (some f) (inl (off, n)) =
      if-both (λ x. IsSingle (after_retry s x)) s.form.submission (inl (off, n))
        (inr (refl, (retrial, ap (λ l. retrial ∷ l) n)))

  Step-IsSingle : {s t : Session} → Step urls s t → IsSingle s → IsSingle t
  unfolding update switch_image_source open_review set_tx retry_dev_buy
  Step-IsSingle (Step.edit s e) single = single
  Step-IsSingle (Step.switch s source) single = single
  Step-IsSingle (Step.review s) single =
      if-both (λ form. IsSingle (record s { form = form }))
        (has_errors (validate_create_token urls s.form.input)) single single
  Step-IsSingle (Step.back s) single = single
  Step-IsSingle (Step.report s t) single = single
  Step-IsSingle (Step.submitting s chain_id authenticated) single =
      submit-IsSingle s chain_id authenticated single
  Step-IsSingle (Step.settled s before after result e) single = inl (
    submit_settled-off result s.form,
    rest_nil before after s.running creation e (one_of_two s single),
  )
  Step-IsSingle (Step.retrying s) single = retry_from-IsSingle s s.form.failure single
  Step-IsSingle (Step.retried s before after result e) single = inl (
    retry_settled-off result s.form,
    rest_nil before after s.running retrial e (one_of_two s single),
  )

  -- However the form is edited, reviewed, submitted and retried, and whenever what it awaits ends: at
  -- most one run of `execute` or `retryDevBuy` is awaited at a time, and `submissionRef` says whether
  -- one is.
  pub one_run_at_a_time : (s : Session) → Reach urls opening_session s → IsSingle s
  one_run_at_a_time s here = inl (refl, refl)
  one_run_at_a_time s (next r step) = Step-IsSingle step (one_run_at_a_time _ r)

  Step-IsOneImage :
      {s t : Session} → Step urls s t → IsOneImage s.form.input → IsOneImage t.form.input
  unfolding update switch_image_source open_review set_tx retry_dev_buy submit
  Step-IsOneImage (Step.edit s e) one = edited-IsOneImage e s.form.input one
  Step-IsOneImage (Step.switch s source) one = with_source-IsOneImage source s.form.input
  Step-IsOneImage (Step.review s) one =
      if-both (λ (form : Form). IsOneImage form.input)
        (has_errors (validate_create_token urls s.form.input)) one one
  Step-IsOneImage (Step.back s) one = one
  Step-IsOneImage (Step.report s t) one = one
  Step-IsOneImage (Step.submitting s chain_id authenticated) one =
      if-both (λ (x : Form × Bool). IsOneImage x.0.input) s.form.submission one
        (if-both (λ (x : Form × Bool). IsOneImage x.0.input)
          (has_errors (validate_create_token urls s.form.input)) one
          (if-both (λ (x : Form × Bool). IsOneImage x.0.input)
            (not (can_create_token chain_id authenticated false)) one one))
  Step-IsOneImage (Step.settled s before after result e) one =
      subst IsOneImage (sym (submit_settled-input result s.form)) one
  Step-IsOneImage (Step.retrying s) one =
      subst IsOneImage (sym (retry_from-input s.form.failure s.form)) one
  Step-IsOneImage (Step.retried s before after result e) one =
      subst IsOneImage (sym (retry_settled-input result s.form)) one

  -- However the form is used, it never holds an image file and an image URL at once.
  pub never_two_sources : (s : Session) → Reach urls opening_session s → IsOneImage s.form.input
  never_two_sources s here = inl refl
  never_two_sources s (next r step) = Step-IsOneImage step (never_two_sources _ r)
