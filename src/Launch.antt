-- ===== src/Launch.antt =====
-- The launch of a token: `execute` of apps/web/src/app/create/page.tsx, and `mutation` of
-- apps/web/src/lib/api.ts, by which it uploads and finalizes the metadata.
pub mod Requests
pub mod Course
pub mod Outcome
pub mod Indexing
use zonk_fun.Base.{
  ℕ, zero, suc, Bool, true, false, not, ◌==◌, Option, none, some, Text, codes, text_eq, trim,
  to_string, ◌++◌, Result, ok, err, Thrown, new_error, if◌then◌else◌,
}
use zonk_fun.Client.{
  Address, Hash, Client, Context, Action, pure, throw, call, lift, throw_if, pause, ◌>>=◌, ◌>>◌,
}
use zonk_fun.Sdk.Receipt.{fixed_token_supply}
use zonk_fun.Curve.Resolve.{Config, submit_create_token, confirm_created_token}
use zonk_fun.Session.{ActiveWallet, off_chain}
use zonk_fun.DevBuy.{
  DevBuyInput, DevBuyStatus, DevBuyResult, DevBuyAttemptError, bought, failed, execute_dev_buy,
}
use zonk_fun.Inputs.{parse_dev_buy_amount}

pub record ImageFile : Type 0 where
  pub mime : Text
  pub size : ℕ
  pub contents : Text

pub data ImageSource : Type 0 where
  file url : ImageSource

pub record CreateTokenInput : Type 0 where
  pub name : Text
  pub symbol : Text
  pub description : Text
  pub website_url : Text
  pub x_url : Text
  pub telegram_url : Text
  pub discord_url : Text
  pub image_file : Option ImageFile
  pub image_url : Text
  pub image_source : ImageSource
  pub dev_buy_eth : Text

-- The `FormData` that is uploaded.
pub data ImagePart : Type 0 where
  image : Option ImageFile → ImagePart
  image_url : Text → ImagePart

pub record MetadataForm : Type 0 where
  pub name : Text
  pub symbol : Text
  pub description : Text
  pub website_url : Text
  pub x_url : Text
  pub telegram_url : Text
  pub discord_url : Text
  pub initial_supply : Text
  pub picture : ImagePart

abbrev picture_of : ImageSource → CreateTokenInput → ImagePart
picture_of file input = image input.image_file
picture_of url input = image_url (trim input.image_url)

unfoldable pub form_of : CreateTokenInput → MetadataForm
form_of input = record {
  name = trim input.name;
  symbol = trim input.symbol;
  description = trim input.description;
  website_url = trim input.website_url;
  x_url = trim input.x_url;
  telegram_url = trim input.telegram_url;
  discord_url = trim input.discord_url;
  initial_supply = to_string fixed_token_supply;
  picture = picture_of input.image_source input;
}

pub record ApiClientError : Type 0 where
  pub status : ℕ
  pub code : Text
  pub message : Text

-- A response of the index API, with what `errorSchema.safeParse` and `schema.safeParse` make of its
-- body: the code and the message of an error, and the value.
pub record Response (A : Type 0) : Type 0 where
  pub is_ok : Bool
  pub status : ℕ
  pub parsed_error : Option (Text × Text)
  pub parsed : Option A

-- What an API function returns or throws.
pub data ApiAnswer (A : Type 0) : Type 0 where
  answered : A → ApiAnswer A
  api_error : ApiClientError → ApiAnswer A

module _ {A : Type 0} where
  abbrev refused : ℕ → Option (Text × Text) → ApiAnswer A
  refused status none = api_error (record {
    status = status;
    code = codes "http_error";
    message = codes "The API request failed.";
  })
  refused status (some (code, message)) =
      api_error (record { status = status; code = code; message = message })

  abbrev accepted : Option A → ApiAnswer A
  accepted none = api_error (record {
    status = 500;
    code = codes "invalid_response";
    message = codes "The API returned an invalid response.";
  })
  accepted (some a) = answered a

  -- `mutation`, from what `fetch` gave: no response where it rejected.
  unfoldable pub mutation : Option (Response A) → ApiAnswer A
  mutation none = api_error (record {
    status = 0;
    code = codes "network_error";
    message = codes "The API could not be reached.";
  })
  mutation (some response) =
      if not response.is_ok
      then refused response.status response.parsed_error
      else accepted response.parsed

-- The statuses of the creation that `report` is called with, before those of the creator's buy.
pub data LaunchStatus : Type 0 where
  preparing awaiting_wallet : LaunchStatus
  submitted confirming : Hash → LaunchStatus
  dev_buying : DevBuyStatus → Hash → LaunchStatus

-- What the page calls and does not implement: the two requests, the random salt, and `report`.
pub record Page (W : Type 0) : Type 0 where
  pub upload : MetadataForm → W → Option (Response Text) × W
  pub finalize : (draft_id token hash : Text) → W → Option (Response (Unit {0})) × W
  pub user_salt : W → Result Text × W
  pub report : LaunchStatus → W → W

pub record CreateResult : Type 0 where
  pub token_address : Address
  pub hash : Hash
  pub dev_buy_hash : Option Hash

-- `DevBuyFailure`; its `retryDevBuy` is the buy of `dev_buy_input` with another report.
pub record DevBuyFailure : Type 0 where
  pub message : Text
  pub token_address : Address
  pub creation_hash : Hash
  pub retryable : Bool
  pub buy_hash : Option Hash
  pub rejected : Bool

pub data LaunchResult : Type 0 where
  launched : CreateResult → LaunchResult
  dev_buy_failed : DevBuyFailure → LaunchResult
  thrown : Thrown → LaunchResult

abbrev problem_of : (rejected retryable : Bool) → Text
problem_of true retryable = codes "was rejected"
problem_of false true = codes "could not be completed"
problem_of false false = codes "needs confirmation"

unfoldable pub failure_for : Address → Hash → DevBuyAttemptError → DevBuyFailure
failure_for token hash e = record {
  message =
      codes "Token created successfully, but the Dev buy "
      ++ problem_of e.rejected e.retryable
      ++ codes ".";
  token_address = token;
  creation_hash = hash;
  retryable = e.retryable;
  buy_hash = e.buy_hash;
  rejected = e.rejected;
}

unfoldable pub not_indexed_in_time : Text
not_indexed_in_time = codes "The transaction confirmed, but indexing did not finish in time."

module _ {W : Type 0} (client : Client W) (config : Config) (page : Page W) where
  unfoldable pub tell_page : LaunchStatus → Context W → Context W
  tell_page status c = record { world = page.report status c.world; trace = c.trace }

  unfoldable pub telling : LaunchStatus → Action W (Unit {0})
  unfolding tell_page
  telling status c = (ok tt, tell_page status c)

  unfoldable pub ask :
      {A : Type 0} → (W → Option (Response A) × W) → Context W → ApiAnswer A × Context W
  unfolding mutation
  ask request c =
      let (response, w) = request c.world in
      (mutation response, record { world = w; trace = c.trace })

  unfoldable pub upload_metadata : MetadataForm → Action W Text
  unfolding ask
  upload_metadata form c =
      let (answer, d) = ask (page.upload form) c in
      elim answer [ answered draft ↦ (ok draft, d) | api_error e ↦ (err (new_error e.message), d) ]

  -- The body of the loop, where `rest` are the attempts that are left: it goes on only where the
  -- token is not indexed yet.
  unfoldable pub after_finalize : Action W Bool → ApiAnswer (Unit {0}) → Action W Bool
  after_finalize rest (answered a) = pure true
  after_finalize rest (api_error e) =
      if text_eq e.code (codes "not_indexed")
      then pause client 2000 >> rest
      else throw (new_error e.message)

  unfoldable pub finalize_within : ℕ → Text → Address → Hash → Action W Bool
  unfolding ask after_finalize
  finalize_within zero draft token hash = pure false
  finalize_within (suc attempts) draft token hash = λ c.
      let (answer, d) = ask (page.finalize draft token hash) c in
      after_finalize (finalize_within attempts draft token hash) answer d

  -- `execute` from the confirmation of the creation up to the amount of the creator's buy.
  unfoldable pub finish_creation : Address → Text → Hash → Action W (Address × Hash)
  unfolding finalize_within
  finish_creation creator draft hash = do
    confirmed ← confirm_created_token client config hash
    throw_if
        (not (
          text_eq (client.decoder.get_address confirmed.1.creator)
            (client.decoder.get_address creator)))
        (new_error (codes "Confirmed creator does not match the connected wallet."))
    found ← finalize_within 60 draft confirmed.1.token hash
    throw_if (not found) (new_error not_indexed_in_time)
    pure (client.decoder.get_address confirmed.1.token, hash)

  -- `execute` up to there, for a wallet that has a client.
  unfoldable pub create_token : Address → CreateTokenInput → Action W (Address × Hash)
  unfolding telling upload_metadata finish_creation
  create_token creator input = do
    salt ← call page.user_salt
    telling preparing
    draft ← upload_metadata (form_of input)
    telling awaiting_wallet
    hash ←
        submit_create_token client config (client.decoder.get_address creator) (trim input.name)
          (trim input.symbol) salt
    telling (submitted hash)
    telling (confirming hash)
    finish_creation creator draft hash

  abbrev pub dev_buy_input : Address → Address → ℕ → Hash → DevBuyInput W
  dev_buy_input token creator amount hash = record {
    token_address = token;
    creator_address = client.decoder.get_address creator;
    amount = amount;
    creation_hash = hash;
    report = λ status shown w. page.report (dev_buying status shown) w;
  }

  abbrev pub with_dev_buy : Address → Hash → DevBuyResult × Context W → LaunchResult × Context W
  with_dev_buy token hash (bought buy_hash, c) =
      (launched (record { token_address = token; hash = hash; dev_buy_hash = some buy_hash }), c)
  with_dev_buy token hash (failed e, c) = (dev_buy_failed (failure_for token hash e), c)

  -- The rest of `execute`, from the created token on.
  unfoldable pub buy_first :
      Address → Result ℕ → Result (Address × Hash) × Context W → LaunchResult × Context W
  buy_first creator amount (err e, c) = (thrown e, c)
  buy_first creator (err e) (ok (token, hash), c) = (thrown e, c)
  buy_first creator (ok amount) (ok (token, hash), c) =
      if amount == 0
      then (launched (record { token_address = token; hash = hash; dev_buy_hash = none }), c)
      else with_dev_buy token hash
          (execute_dev_buy client config (dev_buy_input token creator amount hash) c)

  unfoldable pub launch_for :
      Option Address → Bool → CreateTokenInput → Context W → LaunchResult × Context W
  unfolding create_token buy_first
  launch_for (some creator) true input c =
      buy_first creator (parse_dev_buy_amount input.dev_buy_eth) (create_token creator input c)
  launch_for _ _ input c =
      (thrown (new_error (codes "Connect a browser wallet before creating a token.")), c)

  unfoldable pub launch : ActiveWallet → CreateTokenInput → Context W → LaunchResult × Context W
  unfolding launch_for
  launch active input c =
      if off_chain active.active_chain_id config.chain_id
      then (
        thrown (new_error (codes "Switch the connected wallet to Base before creating a token.")),
        c,
      )
      else launch_for active.active_address active.has_client input c
