-- ===== src/Launch/Course.antt =====
-- What a launch that created a token went through.
use mathlib.Core.Path.{subst}
use zonk_fun.Base.{
  ℕ, zero, suc, ◌≡◌, sym, ap, inl, inr, refl, arith, Bool, true, not, ◌⊎◌, Bool-cases, Text, codes,
  text_eq, text_eq_sound, trim, not-false, ok,
}
use zonk_fun.Client.{Address, Hash, Client, Context, Action, Receipt, pause}
use zonk_fun.Client.Laws.{bind_ok, throw_if_ok, throw_not_ok, pure_ok}
use zonk_fun.Sdk.Receipt.{TokenLaunched}
use zonk_fun.Curve.Resolve.{Config, submit_create_token, confirm_created_token}
use zonk_fun.Launch.Requests.{
  IsAccepted, IsSubmitted, IsLaunchIn, ask-IsAccepted, upload_metadata-IsAccepted,
  submit_create_token-IsSubmitted, confirm_created_token-IsLaunchIn,
}
use zonk_fun.Launch.{
  CreateTokenInput, MetadataForm, Page, ApiAnswer, answered, api_error, ask, upload_metadata,
  form_of, after_finalize, finalize_within, finish_creation, create_token,
}

module _ {W : Type 0} (client : Client W) (config : Config) (page : Page W) where
  -- The receipt of the creation holds the launch of the token by the creator, and the index
  -- finalized the draft for that token.
  pub record IsFinished (creator : Address) (draft : Text) (hash : Hash) (token : Address)
      : Type 0 where
    pub receipt : Receipt
    pub created : TokenLaunched
    pub confirming : Context W
    pub confirmed : Context W
    pub asking : Context W
    pub indexed : Context W
    pub confirmation :
        confirm_created_token client config hash confirming ≡ (ok (receipt, created), confirmed)
    pub launch_read : IsLaunchIn client config page hash receipt created confirming.world
    pub by_creator : client.decoder.get_address created.creator ≡ client.decoder.get_address creator
    pub indexed_as_asked : IsAccepted (page.finalize draft created.token hash asking.world).0 tt
    pub finalized :
        ask client config page (page.finalize draft created.token hash) asking
        ≡ (answered tt, indexed)
    pub token_is : token ≡ client.decoder.get_address created.token

  -- The metadata were uploaded as a draft, the creation was submitted from the creator with the
  -- names of the form, and it was finished as above.
  pub record IsCreated (creator : Address) (input : CreateTokenInput) (token : Address)
      (hash : Hash) : Type 0 where
    pub draft : Text
    pub salt : Text
    pub drafting : Context W
    pub drafted : Context W
    pub sending : Context W
    pub sent : Context W
    pub upload : upload_metadata client config page (form_of input) drafting ≡ (ok draft, drafted)
    pub submission :
        submit_create_token client config
          (client.decoder.get_address creator)
          (trim input.name)
          (trim input.symbol)
          salt
          sending
        ≡ (ok hash, sent)
    pub form : MetadataForm
    pub named : (form.name ≡ trim input.name) × (form.symbol ≡ trim input.symbol)
    pub draft_answered : IsAccepted (page.upload form drafting.world).0 draft
    pub asked_wallet :
        IsSubmitted client config page
          (client.decoder.get_address creator)
          (trim input.name)
          (trim input.symbol)
          salt
          hash
          sending
          sent
    pub finished : IsFinished creator draft hash token

  after_finalize-true :
      (rest : Action W Bool) (answer : ApiAnswer (Unit {0})) (c d : Context W)
      → after_finalize client config page rest answer c ≡ (ok true, d)
      → (answer ≡ answered tt) ⊎ ((e : Context W) × (rest e ≡ (ok true, d)))
  unfolding after_finalize
  after_finalize-true rest (answered a) c d h = inl refl
  after_finalize-true rest (api_error e) c d h =
      elim (Bool-cases (text_eq e.code (codes "not_indexed"))) [
        | inl early ↦
            let (_, later, _, again) = bind_ok (pause client 2000) (λ _. rest) c (rw early at h) in
            inr (later, again)
        | inr other ↦ absurd (throw_not_ok _ c (rw other at h))
      ]

  finalize_within-true :
      (attempts : ℕ) (draft : Text) (token : Address) (hash : Hash) (c d : Context W) (found : Bool)
      → finalize_within client config page attempts draft token hash c ≡ (ok found, d)
      → found ≡ true
      → (before : Context W) × (after : Context W) × (ask client config page
            (page.finalize draft token hash)
            before
          ≡ (answered tt, after))
  unfolding finalize_within
  finalize_within-true zero draft token hash c d found h is_found = absurd (ground arith)
  finalize_within-true (suc attempts) draft token hash c d found h is_found =
      let asked = ask client config page (page.finalize draft token hash) c in
      elim (after_finalize-true _ asked.0 asked.1 d (rw is_found at h)) [
        | inl indexed ↦ (c, asked.1, ap (λ a. (a, asked.1)) indexed)
        | inr (later, again) ↦
            finalize_within-true attempts draft token hash later d true again refl
      ]

  finish_creation-IsFinished :
      (creator : Address) (draft : Text) (sent : Hash) (token : Address) (hash : Hash)
      (c d : Context W)
      → finish_creation client config page creator draft sent c ≡ (ok (token, hash), d)
      → IsFinished creator draft sent token × (hash ≡ sent)
  unfolding finish_creation
  finish_creation-IsFinished creator draft sent token hash c d h =
      let (confirmed, c1, e1, r1) = bind_ok _ _ c h in
      let (_, c2, e2, r2) = bind_ok _ _ c1 r1 in
      let (same_creator, _) = throw_if_ok _ _ c1 e2 in
      let (found, c3, e3, r3) = bind_ok _ _ c2 r2 in
      let (_, c4, e4, r4) = bind_ok _ _ c3 r3 in
      let (found_it, _) = throw_if_ok (not found) _ c3 e4 in
      let (asking, indexed, finalized) =
        finalize_within-true 60 draft confirmed.1.token sent c2 c3 found e3
          (not-false found found_it) in
      let (same, _) = pure_ok _ c4 r4 in
      (
        record {
          receipt = confirmed.0;
          created = confirmed.1;
          confirming = c;
          confirmed = c1;
          asking = asking;
          indexed = indexed;
          confirmation = e1;
          launch_read = confirm_created_token-IsLaunchIn client config page sent c e1;
          by_creator = text_eq_sound _ _ (not-false _ same_creator);
          indexed_as_asked =
              ask-IsAccepted client config page (page.finalize draft confirmed.1.token sent) asking
                tt indexed finalized;
          finalized = finalized;
          token_is = ap (λ p. p.0) same;
        },
        ap (λ p. p.1) same,
      )

  pub create_token-IsCreated :
      (creator : Address) (input : CreateTokenInput) (token : Address) (hash : Hash)
      (c d : Context W)
      → create_token client config page creator input c ≡ (ok (token, hash), d)
      → IsCreated creator input token hash
  unfolding create_token form_of
  create_token-IsCreated creator input token hash c d h =
      let (salt, c1, _, r1) = bind_ok _ _ c h in
      let (_, c2, _, r2) = bind_ok _ _ c1 r1 in
      let (draft, c3, e3, r3) = bind_ok _ _ c2 r2 in
      let (_, c4, _, r4) = bind_ok _ _ c3 r3 in
      let (sent, c5, e5, r5) = bind_ok _ _ c4 r4 in
      let (_, c6, _, r6) = bind_ok _ _ c5 r5 in
      let (_, c7, _, r7) = bind_ok _ _ c6 r6 in
      let (finished, same) = finish_creation-IsFinished creator draft sent token hash c7 d r7 in
      record {
        draft = draft;
        salt = salt;
        drafting = c2;
        drafted = c3;
        sending = c4;
        sent = c5;
        upload = e3;
        submission =
            subst
              (λ x.
                submit_create_token client config (client.decoder.get_address creator)
                  (trim input.name) (trim input.symbol) salt c4
                ≡ (ok x, c5))
              (sym same) e5;
        form = form_of input;
        named = (refl, refl);
        draft_answered = upload_metadata-IsAccepted client config page (form_of input) c2 e3;
        asked_wallet =
            subst
              (λ x.
                IsSubmitted client config page (client.decoder.get_address creator)
                  (trim input.name) (trim input.symbol) salt x c4 c5)
              (sym same)
              (submit_create_token-IsSubmitted client config page
                (client.decoder.get_address creator) (trim input.name) (trim input.symbol) salt c4
                e5);
        finished = subst (λ x. IsFinished creator draft x token) (sym same) finished;
      }
