-- ===== src/Launch/Requests.antt =====
-- The calls behind the requests of a launch that returned: to the index, to the wallet, and for the
-- receipt of the creation.
use zonk_fun.Base.{
  ◌≡◌, ◌⊎◌, inl, inr, refl, ap, sym, ◌∙◌, arith, true, Bool-cases, Option, none, some, Option-cases,
  Text, ok, ◌∷◌,
}
use zonk_fun.Client.{
  Address, Hash, Receipt, ReplacementReason, Request, Client, Context, call, lift,
  simulate_contract, write_contract, with_builder_code, simulated, wrote,
}
use zonk_fun.Client
use zonk_fun.Client.Laws.{
  bind_ok, call_ok, lift_ok, pure_ok, throw_not_ok, write_contract_ok, simulate_contract_ok,
}
use zonk_fun.Sdk.Receipt.{TokenLaunched, parse_token_launched_receipt}
use zonk_fun.Curve.Resolve.{Config, submit_create_token, confirm_created_token}
use zonk_fun.Launch.{
  MetadataForm, Page, Response, ApiAnswer, ApiClientError, answered, api_error, mutation, ask,
  upload_metadata,
}

-- The response is a success, and its body holds this value.
abbrev pub IsAccepted : {A : Type 0} → Option (Response A) → A → Type 0
IsAccepted {A = A} answer a =
    (response : Response A) × (answer ≡ some response)
    × (response.is_ok ≡ true)
    × (response.parsed ≡ some a)

mutation-IsAccepted :
    {A : Type 0} (answer : Option (Response A)) (a : A)
    → mutation answer ≡ answered a
    → IsAccepted answer a
unfolding mutation
mutation-IsAccepted none a h = absurd (ground arith)
mutation-IsAccepted (some response) a h = elim (Bool-cases response.is_ok) [
  | inr bad ↦ elim (Option-cases response.parsed_error) [
    | inl e ↦ absurd (ground (arith, bad, e))
    | inr (body, e) ↦ absurd (ground (arith, bad, e))
  ]
  | inl good ↦ elim (Option-cases response.parsed) [
    | inl e ↦ absurd (ground (arith, good, e))
    | inr (value, e) ↦
        let same : value ≡ a = ground (arith, good, e) in (response, refl, good, e ∙ ap some same)
  ]
]

answer-cases :
    {A : Type 0} (answer : ApiAnswer A)
    → ((a : A) × (answer ≡ answered a)) ⊎ ((e : ApiClientError) × (answer ≡ api_error e))
answer-cases (answered a) = inl (a, refl)
answer-cases (api_error e) = inr (e, refl)

module _ {W : Type 0} (client : Client W) (config : Config) (page : Page W) where
  pub ask-IsAccepted :
      {A : Type 0} (request : W → Option (Response A) × W) (c : Context W) (a : A) (d : Context W)
      → ask client config page request c ≡ (answered a, d)
      → IsAccepted (request c.world).0 a
  unfolding ask
  ask-IsAccepted request c a d h = mutation-IsAccepted (request c.world).0 a (ap (λ x. x.0) h)

  -- A draft that was uploaded is the value of the answer to the upload.
  pub upload_metadata-IsAccepted :
      (form : MetadataForm) (c : Context W) {draft : Text} {d : Context W}
      → upload_metadata client config page form c ≡ (ok draft, d)
      → IsAccepted (page.upload form c.world).0 draft
  unfolding upload_metadata ask
  upload_metadata-IsAccepted form c {draft} h =
      let response = (page.upload form c.world).0 in
      elim (answer-cases (mutation response)) [
        | inl (made, e) ↦
            let same : made ≡ draft = ground (arith, e) in
            mutation-IsAccepted response draft (e ∙ ap answered same)
        | inr (x, e) ↦ absurd (ground (arith, e))
      ]

  -- The creation was asked for as simulated, from the configured factory, and answered with the hash.
  abbrev pub IsSubmitted :
      (creator : Address) (name symbol salt : Text) → Hash → Context W → Context W → Type 0
  IsSubmitted creator name symbol salt hash c d =
      (factory : Address) × (prepared : Request) × (config.zonk_factory ≡ some factory)
      × (d.trace
          ≡ wrote (with_builder_code client prepared) hash
            ∷ simulated (Client.create_token factory name symbol salt creator) prepared
            ∷ c.trace)

  pub submit_create_token-IsSubmitted :
      (creator : Address) (name symbol salt : Text) (c : Context W) {hash : Hash} {d : Context W}
      → submit_create_token client config creator name symbol salt c ≡ (ok hash, d)
      → IsSubmitted creator name symbol salt hash c d
  unfolding submit_create_token
  submit_create_token-IsSubmitted creator name symbol salt c {hash} {d} h =
      elim (Option-cases config.zonk_factory) [
        | inl missing ↦ absurd (throw_not_ok _ c {d = d} (rw missing at h))
        | inr (factory, known) ↦
            let asked = Client.create_token factory name symbol salt creator in
            let (prepared, c1, e1, h1) =
              bind_ok (simulate_contract client asked) _ c {d = d} (rw known at h) in
            (
              factory,
              prepared,
              known,
              write_contract_ok client prepared c1 h1
                  ∙ ap (λ l. wrote (with_builder_code client prepared) hash ∷ l)
                      (simulate_contract_ok client asked c e1),
            )
      ]

  -- The receipt is the client's answer to the wait for the hash, and holds this launch of the
  -- configured factory.
  abbrev pub IsLaunchIn : Hash → Receipt → TokenLaunched → W → Type 0
  IsLaunchIn hash receipt created w =
      (factory : Address) × (why : Option ReplacementReason) × (config.zonk_factory ≡ some factory)
      × ((client.wait_for_receipt hash w).0 ≡ ok (receipt, why))
      × (parse_token_launched_receipt client.decoder receipt factory ≡ ok created)

  pub confirm_created_token-IsLaunchIn :
      (hash : Hash) (c : Context W) {receipt : Receipt} {created : TokenLaunched} {d : Context W}
      → confirm_created_token client config hash c ≡ (ok (receipt, created), d)
      → IsLaunchIn hash receipt created c.world
  unfolding confirm_created_token
  confirm_created_token-IsLaunchIn hash c {receipt} {created} {d} h =
      elim (Option-cases config.zonk_factory) [
        | inl missing ↦ absurd (throw_not_ok _ c {d = d} (rw missing at h))
        | inr (factory, known) ↦
            let (answer, c1, e1, h1) =
              bind_ok (call (client.wait_for_receipt hash)) _ c {d = d} (rw known at h) in
            let (launched, c2, e2, h2) =
              bind_ok (lift (parse_token_launched_receipt client.decoder answer.0 factory)) _ c1
                h1 in
            let (same, _) = pure_ok (answer.0, launched) c2 h2 in
            let own : receipt ≡ answer.0 = ap (λ x. x.0) same in
            let its : created ≡ launched = ap (λ x. x.1) same in
            (
              factory,
              answer.1,
              known,
              call_ok (client.wait_for_receipt hash) c e1 ∙ ap (λ x. ok (x, answer.1)) (sym own),
              ap (λ x. parse_token_launched_receipt client.decoder x factory) own
                  ∙ (lift_ok _ c1 e2).0
                  ∙ ap ok (sym its),
            )
      ]
