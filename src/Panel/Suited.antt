-- ===== src/Panel/Suited.antt =====
-- When a quote of the panel fits what the panel is shown, and what `begin` makes of it.
use mathlib.Core.Path.{subst}
use zonk_fun.Base.{
  ℕ, ◌+◌, ◌-◌, ◌*◌, ◌^◌, ◌≤◌, ◌<◌, ◌≡◌, ◌⊎◌, ◌∙◌, ◌++◌, codes, to_lower, leb, not_leb→lt,
  if◌then◌else◌, refl, ap, inl, inr, arith, Bool, true, false, not-false, ◌||◌, Bool-cases, Option,
  none, some, Option-cases, Text, ==_iff, ltb, not_ltb→le, leb→le, text_eq_sound,
}
use zonk_fun.Client.{Address, Side, buy, sell}
use zonk_fun.Curve.Resolve.{CurveTradeState}
use zonk_fun.Panel.State.{
  Quote, buying, selling, side_of, deadline_of, quote_expires_at, QuoteRecord, Props, Panel,
  side_allowed, trade_identity, trade_state_fingerprint,
}
use zonk_fun.Panel.State
use zonk_fun.Panel.Handlers.{Operation, same_chain, persist_hashless_unknown}
use zonk_fun.Panel.Submit.{lacking, is_outdated, begin}

-- The side can be traded in the lifecycle: buying on an active curve, selling while its graduation is
-- pending too.
abbrev pub IsOpen : Side → ℕ → Type 0
IsOpen buy lifecycle = lifecycle ≡ 0
IsOpen sell lifecycle = lifecycle ≤ 1

-- The balance covers what the quote takes.
abbrev pub Covers : CurveTradeState → Quote → Type 0
Covers state (buying q) = q.max_reserve_in ≤ state.native_balance
Covers state (selling q) = q.token_amount ≤ state.token_balance

-- The identity of a trade: the wallet and the token, in lower case.
abbrev pub identity_of : Address → Address → Text
identity_of wallet token = to_lower wallet ++ (codes ":" ++ to_lower token)

-- The minute of the quote is not over, nor has its deadline passed, in milliseconds, where that is a
-- safe integer.
abbrev pub IsInTime : ℕ → QuoteRecord → Type 0
IsInTime now r =
    (now < r.created_at + 60000)
    × ((now < deadline_of r.quote * 1000) ⊎ (2 ^ 53 ≤ deadline_of r.quote * 1000))

-- The quote was made for this wallet, token, state and chain, and its side is open.
pub record IsFor (props : Props) (side : Side) (wallet : Address) (r : QuoteRecord) : Type 0 where
  pub same_identity : r.identity ≡ identity_of wallet props.token_address
  pub same_state : r.state_fingerprint ≡ trade_state_fingerprint props.state side
  pub same_chain_id : r.chain_id ≡ props.chain_id
  pub state : CurveTradeState
  pub loaded : props.state ≡ some state
  pub side_open : IsOpen side state.lifecycle

-- The operation is for the token and the wallet, on the side of the quote.
pub record IsOperation (props : Props) (wallet : Address) (r : QuoteRecord) (generation : ℕ)
    (op : Operation) : Type 0 where
  pub own_side : op.side ≡ side_of r.quote
  pub own_wallet : op.wallet ≡ wallet
  pub own_token : op.token ≡ props.token_address
  pub own_identity : op.identity ≡ identity_of wallet props.token_address
  pub own_generation : op.generation ≡ generation

pub same_chain_sound : (a b : Option ℕ) → same_chain a b ≡ true → a ≡ b
same_chain_sound none none h = refl
same_chain_sound (some a) (some b) h = ap some ((==_iff a b).0 h)
same_chain_sound none (some b) h = absurd (ground arith)
same_chain_sound (some a) none h = absurd (ground arith)

side_allowed-IsOpen :
    (side : Side) (props : Props)
    → side_allowed props side ≡ true
    → (state : CurveTradeState) × (props.state ≡ some state) × IsOpen side state.lifecycle
unfolding side_allowed
side_allowed-IsOpen side props h = elim (Option-cases props.state) [
  | inl missing ↦ absurd (let no = rw missing at h in ground arith)
  | inr (state, loaded) ↦ (state, loaded, by_side side state (rw loaded at h))
]
  where
    by_side :
        (side : Side) (state : CurveTradeState)
        → side_allowed (record props { state = some state }) side ≡ true
        → IsOpen side state.lifecycle
    by_side buy state h = let le = leb→le _ _ h in omega (arith, le)
    by_side sell state h = leb→le _ _ h

pub lacking-Covers :
    (symbol : Text) (quote : Quote) (state : CurveTradeState)
    → lacking symbol quote (some state) ≡ none
    → Covers state quote
unfolding lacking
lacking-Covers symbol (buying q) state h =
    elim (Bool-cases (ltb state.native_balance q.max_reserve_in)) [
      | inl short ↦ absurd (ground (arith, short))
      | inr enough ↦ not_ltb→le _ _ enough
    ]
lacking-Covers symbol (selling q) state h =
    elim (Bool-cases (ltb state.token_balance q.token_amount)) [
      | inl short ↦ absurd (ground (arith, short))
      | inr enough ↦ not_ltb→le _ _ enough
    ]

trade_identity-connected :
    (props : Props) (wallet : Address)
    → props.wallet_address ≡ some wallet
    → trade_identity props.token_address props.wallet_address
      ≡ identity_of wallet props.token_address
unfolding trade_identity
trade_identity-connected props wallet connected = rw connected refl

-- A quote that has not expired is in time.
pub quote_expires_at-IsInTime :
    (r : QuoteRecord) (now : ℕ) → now < quote_expires_at r → IsInTime now r
unfolding quote_expires_at
quote_expires_at-IsInTime r now h =
    elim (Bool-cases (leb (deadline_of r.quote * 1000) (2 ^ 53 - 1))) [
      | inl safe ↦ by_less (deadline_of r.quote * 1000) (rw safe at h)
      | inr huge ↦ (ground (arith, huge), inr (ground (arith, huge)))
    ]
  where
    by_less :
        (deadline : ℕ)
        → now < (if leb (r.created_at + 60000) deadline then r.created_at + 60000 else deadline)
        → (now < r.created_at + 60000) × ((now < deadline) ⊎ (2 ^ 53 ≤ deadline))
    by_less deadline h = elim (Bool-cases (leb (r.created_at + 60000) deadline)) [
      | inl below ↦
          let at = rw below at h in let le = leb→le _ _ below in (at, inl (omega (arith, at, le)))
      | inr above ↦
          let at = rw above at h in let gt = not_leb→lt _ _ above in (omega (arith, at, gt), inl at)
    ]

pub or_false : (a b : Bool) → (a || b) ≡ false → (a ≡ false) × (b ≡ false)
or_false a b h = ground arith

pub is_outdated-IsFor :
    (props : Props) (p : Panel) (r : QuoteRecord) (wallet : Address)
    → props.wallet_address ≡ some wallet
    → is_outdated props p r ≡ false
    → IsFor props p.side wallet r
unfolding is_outdated
is_outdated-IsFor props p r wallet connected h =
    let (rest, closed) = or_false _ _ h in
    let (rest', other_chain) = or_false _ _ rest in
    let (other_identity, other_state) = or_false _ _ rest' in
    let (state, loaded, side_open) = side_allowed-IsOpen p.side props (not-false _ closed) in
    record {
      same_identity =
          text_eq_sound _ _ (not-false _ other_identity)
          ∙ trade_identity-connected props wallet connected;
      same_state = text_eq_sound _ _ (not-false _ other_state);
      same_chain_id = same_chain_sound _ _ (not-false _ other_chain);
      state = state;
      loaded = loaded;
      side_open = side_open;
    }

-- What `begin` makes.
abbrev BegunBy : Props → Address → QuoteRecord → ℕ → Panel × Option Operation → Type 0
BegunBy props wallet r generation (q, none) = Unit
BegunBy props wallet r generation (q, some op) =
    IsOperation props wallet r generation op × (q.operation ≡ true) × (q.status ≡ State.preparing)

pub begin-BegunBy :
    (props : Props) (wallet : Address) (r : QuoteRecord) (now : ℕ) (p q : Panel) (op : Operation)
    → props.wallet_address ≡ some wallet
    → begin props wallet r now p ≡ (q, some op)
    → BegunBy props wallet r p.generation (q, some op)
unfolding begin persist_hashless_unknown
begin-BegunBy props wallet r now p q op connected h =
    subst (BegunBy props wallet r p.generation) h (
      record {
        own_side = refl;
        own_wallet = refl;
        own_token = refl;
        own_identity = trade_identity-connected props wallet connected;
        own_generation = refl;
      },
      refl,
      refl,
    )
