-- ===== src/Client.antt =====
-- What the program calls and does not implement, as an interface: viem's public client, the
-- browser wallet, `parseEventLogs`, the clock. A world `W` holds the chain, the wallet, other tabs
-- and the time; each call may change it. `Action` is an `async` function: a computation on the
-- world that returns or throws, and that keeps a trace of what it did, newest first.
pub mod Laws
use zonk_fun.Base.{ℕ, Bool, Text, List, ◌∷◌, Option, Result, ok, err, Thrown}

abbrev pub Address : Type 0
Address = Text

abbrev pub Hash : Type 0
Hash = Text

pub data Side : Type 0 where
  buy sell : Side

-- The arguments of `simulateContract`, one constructor for each function that is called.
pub data Request : Type 0 where
  create_token : (factory : Address) (name symbol salt : Text) (account : Address) → Request
  buy_tokens : (curve : Address) (min_tokens deadline : ℕ) (account : Address) (sent : ℕ) → Request
  sell_tokens : (curve : Address) (tokens min_out deadline : ℕ) (account : Address) → Request
  approve : (token spender : Address) (amount : ℕ) (account : Address) → Request

-- `withBuilderCode(request)`: the request with a `dataSuffix`.
pub record Attributed : Type 0 where
  pub request : Request
  pub data_suffix : Text

pub record Transaction : Type 0 where
  pub from : Address
  pub nonce : ℕ
  pub to : Option Address
  pub sent : ℕ
  pub input : Text
  pub hash : Hash
  pub block_number : Option ℕ

pub record Log : Type 0 where
  pub address : Address
  pub topics : List Text
  pub payload : Text

pub data ReceiptStatus : Type 0 where
  success reverted : ReceiptStatus

pub record Receipt : Type 0 where
  pub status : ReceiptStatus
  pub transaction_hash : Hash
  pub logs : List Log

pub data ReplacementReason : Type 0 where
  cancelled replaced repriced : ReplacementReason

-- `quoteBuy` and `quoteSell` of the curve contract, the fields that are read.
pub record ChainBuyQuote : Type 0 where
  pub accepted_gross : ℕ
  pub net_curve_input : ℕ
  pub protocol_fee : ℕ
  pub creator_fee : ℕ
  pub tokens_out : ℕ

pub record ChainSellQuote : Type 0 where
  pub gross_curve_output : ℕ
  pub net_seller_output : ℕ
  pub protocol_fee : ℕ
  pub creator_fee : ℕ

-- Block entries: a transaction, or a bare hash.
pub data BlockEntry : Type 0 where
  full : Transaction → BlockEntry
  bare : Hash → BlockEntry

-- The events `TokensBought`, `TokensSold` and `TokenLaunchedV3` as `parseEventLogs` decodes them,
-- the arguments that are read. `trader` is `buyer` or `seller`.
pub record TradeLog : Type 0 where
  pub address : Address
  pub token : Address
  pub trader : Address
  pub token_amount : ℕ
  pub gross : ℕ
  pub net : ℕ
  pub protocol_fee : ℕ
  pub creator_fee : ℕ
  pub total_fee : ℕ
  pub community_fee : ℕ
  pub trader_rewards_fee : ℕ

pub record LaunchLog : Type 0 where
  pub address : Address
  pub token : Address
  pub curve : Address
  pub creator : Address
  pub protocol_version : Text
  pub total_supply : ℕ
  pub curve_allocation : ℕ
  pub lp_allocation : ℕ
  pub canonical_pool : Address

-- The pure functions of viem: `getAddress`, the checksum form of a well-formed address, and
-- `parseEventLogs` for each event.
pub record Decoder : Type 0 where
  pub get_address : Address → Address
  pub bought_logs : List Log → List TradeLog
  pub sold_logs : List Log → List TradeLog
  pub launch_logs : List Log → List LaunchLog

-- The interface.
pub record Client (W : Type 0) : Type 0 where
  pub decoder : Decoder
  pub data_suffix : Text
  pub now : W → ℕ × W
  pub sleep : ℕ → W → W
  pub get_chain_id : W → Result ℕ × W
  pub get_bytecode : Address → W → Result (Option Text) × W
  pub curve_of : Address → Address → W → Result (Option Address) × W
  pub sold_supply : Address → W → Result ℕ × W
  pub active_eth_reserve : Address → W → Result ℕ × W
  pub graduated : Address → W → Result Bool × W
  pub curve_factory : Address → W → Result Address × W
  pub curve_token : Address → W → Result Address × W
  pub curve_creator : Address → W → Result Address × W
  pub get_balance : Address → W → Result ℕ × W
  pub balance_of : Address → Address → W → Result ℕ × W
  pub allowance : Address → Address → Address → W → Result ℕ × W
  pub decimals : Address → W → Result ℕ × W
  pub quote_buy : Address → ℕ → W → Result ChainBuyQuote × W
  pub quote_sell : Address → ℕ → W → Result ChainSellQuote × W
  pub simulate : Request → W → Result Request × W
  pub write_contract : Attributed → W → Result Hash × W
  pub wait_for_receipt : Hash → W → Result (Receipt × Option ReplacementReason) × W
  pub get_receipt : Hash → W → Result Receipt × W
  pub get_transaction : Hash → W → Result Transaction × W
  pub get_block_number : W → Result ℕ × W
  pub get_transaction_count : Address → W → Result ℕ × W
  pub get_block : ℕ → W → Result (List BlockEntry) × W

-- What the functions of the program do that others can see, or that a later step relies on.
pub data Event : Type 0 where
  clock : ℕ → Event
  slept : ℕ → Event
  ready : Event
  native_balance : Address → ℕ → Event
  sell_state : (allowance balance : ℕ) → Event
  simulated : (asked prepared : Request) → Event
  wrote : Attributed → Hash → Event
  refused : Attributed → Event
  approval_requested : Event
  approval_submitted : Hash → Event
  approval_confirmed : Hash → Event
  sell_preparing : Event
  sell_requested : Event
  scanned : ℕ → Event

pub record Context (W : Type 0) : Type 0 where
  pub world : W
  pub trace : List Event

abbrev pub Action : Type 0 → Type 0 → Type 0
Action W A = Context W → Result A × Context W

module _ {W A : Type 0} where
  abbrev pub pure : A → Action W A
  pure a c = (ok a, c)

  abbrev pub throw : Thrown → Action W A
  throw e c = (err e, c)

  -- A pure function that may throw.
  unfoldable pub lift : Result A → Action W A
  lift r c = (r, c)

  -- A call of the interface.
  unfoldable pub call : (W → Result A × W) → Action W A
  call f c = let (r, w) = f c.world in (r, record { world = w; trace = c.trace })

  -- A call that leaves an event in the trace when it returns.
  unfoldable pub noted : (W → Result A × W) → (A → Event) → Action W A
  noted f note c =
      let (r, w) = f c.world in
      elim r [
        | ok a ↦ (ok a, record { world = w; trace = note a ∷ c.trace })
        | err e ↦ (err e, record { world = w; trace = c.trace })
      ]

  -- `try { … } catch (error) { … }`.
  unfoldable pub catching : Action W A → (Thrown → Action W A) → Action W A
  catching m handler c = let (r, c') = m c in elim r [ ok a ↦ (ok a, c') | err e ↦ handler e c' ]

infixl 5 ◌>>=◌ ◌>>◌
unfoldable pub ◌>>=◌ : {W A B : Type 0} → Action W A → (A → Action W B) → Action W B
◌>>=◌ m f c = let (r, c') = m c in elim r [ ok a ↦ f a c' | err e ↦ (err e, c') ]

abbrev pub ◌>>◌ : {W B : Type 0} → Action W (Unit {0}) → Action W B → Action W B
m >> k = m >>= λ _. k

module _ {W : Type 0} where
  unfoldable pub tell : Event → Action W (Unit {0})
  tell e c = (ok tt, record { world = c.world; trace = e ∷ c.trace })

  -- `if (test) throw e;`.
  unfoldable pub throw_if : Bool → Thrown → Action W (Unit {0})
  throw_if Bool.true e c = (err e, c)
  throw_if Bool.false e c = (ok tt, c)

module _ {W : Type 0} (client : Client W) where
  -- `Date.now()`.
  unfoldable pub date_now : Action W ℕ
  date_now c =
      let (t, w) = client.now c.world in (ok t, record { world = w; trace = clock t ∷ c.trace })

  -- `await new Promise((resolve) => setTimeout(resolve, ms))`.
  unfoldable pub pause : ℕ → Action W (Unit {0})
  pause ms c = (ok tt, record { world = client.sleep ms c.world; trace = slept ms ∷ c.trace })

  abbrev pub with_builder_code : Request → Attributed
  with_builder_code r = record { request = r; data_suffix = client.data_suffix }

  -- `publicClient.simulateContract(…)`.
  unfoldable pub simulate_contract : Request → Action W Request
  unfolding noted
  simulate_contract r = noted (client.simulate r) (λ prepared. simulated r prepared)

  -- `client.writeContract(withBuilderCode(request))`.
  unfoldable pub write_contract : Request → Action W Hash
  write_contract r c =
      let sent = with_builder_code r in
      let (answer, w) = client.write_contract sent c.world in
      elim answer [
        | ok h ↦ (ok h, record { world = w; trace = wrote sent h ∷ c.trace })
        | err e ↦ (err e, record { world = w; trace = refused sent ∷ c.trace })
      ]
