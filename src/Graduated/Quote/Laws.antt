-- ===== src/Graduated/Quote/Laws.antt =====
-- What quotes of graduated swaps and validated pools promise.
use mathlib.Core.Path.{subst}
use zonk_fun.Base.{
  not-false, ℕ, ◌+◌, ◌-◌, ◌*◌, ◌/◌, ◌≤◌, ◌<◌, ◌≡◌, ◌≢◌, ◌⊎◌, inl, inr, sym, ap, ◌∙◌, arith, true,
  ◌&&◌, ◌||◌, Option, none, some, ltb, text_eq, text_eq_refl, text_eq_sound, to_lower, ok, Number,
  integer, pos, Bool-cases, and_true, Text, ◌==◌,
}
use zonk_fun.Client.{Address, Side, Client, Context}
use zonk_fun.Client.Laws.{bind_ok, throw_if_ok, pure_ok}
use zonk_fun.Sdk.Slippage.{min_output_with_slippage}
use zonk_fun.Graduated.Quote.{
  Periphery, UniswapV3Config, ValidatedPool, GraduatedQuote, minimum_output, quote_is_fresh,
  is_pair_of, validate_canonical_pool, quote_graduated_swap, check_bytecode, PoolLinks, read_links,
  check_links, canonical_pool_fee, selected_weth, selected_zonk_chain_id, quote_ttl_ms,
}

share_less :
    (amount bps : ℕ) → 0 < amount → 1 ≤ bps → bps ≤ 10000 → amount * (10000 - bps) / 10000 < amount
share_less amount bps some_amount some_bps h =
    let part : amount * (10000 - bps) + amount * bps ≡ amount * 10000 = grind arith in
    let least : amount ≤ amount * bps = grind arith in omega arith

-- For a positive output and a slippage between 1 and 2000 basis points, `minimumOutput` returns what
-- the curve's `minOutputWithSlippage` returns, and that is less than the output.
pub minimum_output_agrees :
    (amount bps : ℕ)
    → 0 < amount
    → 1 ≤ bps
    → bps ≤ 2000
    → (m : ℕ) × (minimum_output amount (integer (pos bps)) ≡ ok m)
      × (min_output_with_slippage amount (integer (pos bps)) ≡ ok m)
      × (m < amount)
unfolding minimum_output min_output_with_slippage
minimum_output_agrees amount bps some_amount some_bps bounded = (
  amount * (10000 - bps) / 10000,
  ground arith,
  ground arith,
  share_less amount bps some_amount some_bps (omega arith),
)

-- Within a minute of its clock reading a quote's deadline has not come.
deadline_later :
    (now t : ℕ) → ltb (now - t) 60000 && ltb (now / 1000) (t / 1000 + 300) ≡ ltb (now - t) 60000
deadline_later now t = ground arith

fresh_while :
    (q : GraduatedQuote) (wallet own_pool : Address) (now : ℕ)
    → to_lower q.wallet ≡ to_lower wallet
    → to_lower q.pool ≡ to_lower own_pool
    → q.chain_id ≡ selected_zonk_chain_id
    → q.deadline ≡ q.created_at / 1000 + 300
    → quote_is_fresh q wallet own_pool selected_zonk_chain_id now
      ≡ ltb (now - q.created_at) quote_ttl_ms
unfolding quote_is_fresh
fresh_while q wallet own_pool now same_wallet same_pool chain deadline =
    rw
      (
        same_wallet,
        same_pool,
        text_eq_refl (to_lower wallet),
        text_eq_refl (to_lower own_pool),
        chain,
        deadline,
      )
      (deadline_later now q.created_at)

one_of : (a b t : Text) → (text_eq a t || text_eq b t) ≡ true → (a ≡ t) ⊎ (b ≡ t)
one_of a b t h = elim (Bool-cases (text_eq a t)) [
  | inl e ↦ inl (text_eq_sound a t e)
  | inr e ↦ inr (text_eq_sound b t (rw e at h))
]

-- A set of two that has two different elements is those two.
pair_of :
    (a b weth token : Text)
    → is_pair_of a b weth token ≡ true
    → token ≢ weth
    → ((a ≡ weth) × (b ≡ token)) ⊎ ((a ≡ token) × (b ≡ weth))
pair_of a b weth token h other =
    let (h1, has_token) = and_true _ _ h in
    let (_, has_weth) = and_true _ _ h1 in
    elim (one_of a b weth has_weth) [
      | inl a_weth ↦ elim (one_of a b token has_token) [
        | inl a_token ↦ absurd (other (sym a_token ∙ a_weth))
        | inr b_token ↦ inl (a_weth, b_token)
      ]
      | inr b_weth ↦ elim (one_of a b token has_token) [
        | inl a_token ↦ inr (a_token, b_weth)
        | inr b_token ↦ absurd (other (sym b_token ∙ b_weth))
      ]
    ]

module _ {W : Type 0} (client : Client W) (periphery : Periphery W) where
  -- A quote that was returned is fresh for its wallet, its pool (in any spelling) and the selected
  -- chain exactly while less than a minute of the clock has passed: the deadline that it carries
  -- never cuts that minute short.
  pub quote_lifetime :
      (pool : ValidatedPool) (side : Side) (amount_in : ℕ) (bps : Number) (wallet : Address)
      (c d : Context W) (q : GraduatedQuote)
      → quote_graduated_swap client periphery pool side amount_in bps wallet c ≡ (ok q, d)
      → (own own_pool : Address) (now : ℕ) → to_lower wallet ≡ to_lower own
      → to_lower pool.pool ≡ to_lower own_pool
      → quote_is_fresh q own own_pool selected_zonk_chain_id now
        ≡ ltb (now - q.created_at) quote_ttl_ms
  unfolding quote_graduated_swap
  quote_lifetime pool side amount_in bps wallet c d q h own own_pool now same_wallet same_pool =
      let (_, c1, _, h1) = bind_ok _ _ c h in
      let (out, c2, _, h2) = bind_ok _ _ c1 h1 in
      let (t, c3, _, h3) = bind_ok _ _ c2 h2 in
      let (least, c4, _, h4) = bind_ok _ _ c3 h3 in
      let (made, _) = pure_ok _ c4 h4 in
      fresh_while q own own_pool now (ap (λ x. to_lower x.wallet) made ∙ same_wallet)
        (ap (λ x. to_lower x.pool) made ∙ same_pool) (ap (λ x. x.chain_id) made)
        (ap (λ x. x.deadline) made ∙ sym (ap (λ x. x.created_at / 1000 + 300) made))

  -- What `check_links` lets pass.
  links_checked :
      (config : UniswapV3Config) (token : Address) (links : PoolLinks) (c d : Context W)
      → check_links client periphery config token links c ≡ (ok tt, d)
      → (is_pair_of
            (to_lower (client.decoder.get_address links.token0))
            (to_lower (client.decoder.get_address links.token1))
            (to_lower selected_weth)
            (to_lower (client.decoder.get_address token))
          ≡ true)
        × ((links.fee == canonical_pool_fee) ≡ true)
  unfolding check_links
  links_checked config token links c d h =
      let (_, c1, h1, r1) = bind_ok _ _ c h in
      let (_, c2, h2, r2) = bind_ok _ _ c1 r1 in
      (not-false _ (throw_if_ok _ _ c h1).0, not-false _ (throw_if_ok _ _ c1 h2).0)

  -- A pool that was validated for a token other than WETH has two tokens, and they are WETH and the
  -- token, in some order.
  pub validated_pair :
      (config : Option UniswapV3Config) (pool token : Address) (c d : Context W) (v : ValidatedPool)
      → validate_canonical_pool client periphery config pool token c ≡ (ok v, d)
      → to_lower v.token ≢ to_lower selected_weth
      → ((to_lower v.token0 ≡ to_lower selected_weth) × (to_lower v.token1 ≡ to_lower v.token))
        ⊎ ((to_lower v.token0 ≡ to_lower v.token) × (to_lower v.token1 ≡ to_lower selected_weth))
  unfolding validate_canonical_pool
  validated_pair none pool token c d v h other = absurd (ground arith)
  validated_pair (some config) pool token c d v h other =
      let (_, c1, _, r1) = bind_ok (check_bytecode client periphery config pool) _ c h in
      let (links, c2, _, r2) = bind_ok (read_links client periphery config pool) _ c1 r1 in
      let (_, c3, h3, r3) = bind_ok (check_links client periphery config token links) _ c2 r2 in
      let (made, _) = pure_ok _ c3 r3 in
      pair_of (to_lower v.token0) (to_lower v.token1) (to_lower selected_weth) (to_lower v.token)
        (subst
          (λ x.
            is_pair_of (to_lower x.token0) (to_lower x.token1) (to_lower selected_weth)
              (to_lower x.token)
            ≡ true)
          (sym made) (links_checked config token links c2 c3 h3).0)
        other
