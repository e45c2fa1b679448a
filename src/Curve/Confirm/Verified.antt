-- ===== src/Curve/Confirm/Verified.antt =====
-- What stands behind a trade that is reported as confirmed.
use zonk_fun.Base.{
  not-false, or_not-false, ◌≡◌, ◌⊎◌, inl, inr, refl, ap, ◌∙◌, arith, true, Option, none, some,
  text_eq_sound, ok, err, Result, Bool-cases,
}
use zonk_fun.Client.{
  Address, Hash, Side, Transaction, Receipt, ReceiptStatus, ReplacementReason, Decoder, Client,
  Context, call, lift, throw_if,
}
use zonk_fun.Client.Laws.{bind_ok, call_ok, lift_ok, throw_if_ok, pure_ok, throw_not_ok}
use zonk_fun.Sdk.Receipt.{TradeReceipt, parse_trade_receipt}
use zonk_fun.Curve.Resolve.{Config, require_curve}
use zonk_fun.Curve.Recovery.Origin.{IsAnswered, recovered-IsAnswered}
use zonk_fun.Curve.Resolve.Answer.{IsCurveOf, require_curve-IsCurveOf}
use zonk_fun.Curve.Recovery.{
  TradeRecovery, RecoveryResult, is_receipt_timeout, recover_transaction_receipt,
}
use zonk_fun.Curve.Confirm.{
  TradeConfirmation, ConfirmationStatus, verify, by_status, targets, resolve_trade_receipt,
  resolve_recovery, check_trade, after_wait, confirm_trade,
}

-- The two addresses have one checksum form.
abbrev pub SameAddress : Decoder → Address → Address → Type 0
SameAddress decoder a b = decoder.get_address a ≡ decoder.get_address b

-- The client answered with this receipt for the hash: as what it waited for, and not replaced, or as
-- the receipt of the hash in some spelling.
abbrev pub IsReceiptOf : {W : Type 0} → Client W → Hash → Receipt → Type 0
IsReceiptOf {W = W} client hash r =
    ((w : W) × ((client.wait_for_receipt hash w).0 ≡ ok (r, none))) ⊎ IsAnswered client hash r

-- The receipt is the client's for the hash. The transaction of the receipt was sent by the trader to
-- the curve, the receipt holds exactly one trade event of the curve and the side, and that event names
-- the token and the trader.
abbrev pub Verified :
    {W : Type 0} → Client W → Hash → Address → Side → Address → Address → TradeConfirmation → Type 0
Verified {W = W} client hash curve side token trader k =
    (r : Receipt) × (w : W) × (t : Transaction) × (to : Address) × (trade : TradeReceipt)
    × IsReceiptOf client hash r
    × (k.hash ≡ r.transaction_hash)
    × (r.status ≡ ReceiptStatus.success)
    × ((client.get_transaction r.transaction_hash w).0 ≡ ok t)
    × SameAddress client.decoder t.from trader
    × (t.to ≡ some to)
    × SameAddress client.decoder to curve
    × (parse_trade_receipt client.decoder r curve side ≡ ok trade)
    × SameAddress client.decoder trade.token token
    × SameAddress client.decoder trade.trader trader

module _ {W : Type 0} (client : Client W) (hash : Hash) (curve : Address) (side : Side)
    (token trader : Address) where
  targets_ok :
      (o : Option Address)
      → targets client curve o ≡ true
      → (to : Address) × (o ≡ some to) × SameAddress client.decoder to curve
  targets_ok none h = cc
  targets_ok (some to) h = (to, refl, text_eq_sound _ _ h)

  verify_ok :
      (r : Receipt) (c : Context W) {k : TradeConfirmation} {d : Context W}
      → IsReceiptOf client hash r
      → r.status ≡ ReceiptStatus.success
      → verify client r curve side token trader c ≡ (ok k, d)
      → Verified client hash curve side token trader k
  unfolding verify
  verify_ok r c origin succeeded e =
      let (t, c1, e1, r1) = bind_ok (call (client.get_transaction r.transaction_hash)) _ c e in
      let (_, c2, e2, r2) = bind_ok (throw_if _ _) _ c1 r1 in
      let (_, c3, e3, r3) = bind_ok (throw_if _ _) _ c2 r2 in
      let (trade, c4, e4, r4) =
        bind_ok (lift (parse_trade_receipt client.decoder r curve side)) _ c3 r3 in
      let (_, c5, e5, r5) = bind_ok (throw_if _ _) _ c4 r4 in
      let (to, sent, target) = targets_ok t.to (not-false _ (throw_if_ok _ _ c2 e3).0) in
      let (named, traded) = or_not-false _ _ (throw_if_ok _ _ c4 e5).0 in
      (
        r,
        c.world,
        t,
        to,
        trade,
        origin,
        ap (λ x. x.hash) (pure_ok _ c5 r5).0,
        succeeded,
        call_ok (client.get_transaction r.transaction_hash) c e1,
        text_eq_sound _ _ (not-false _ (throw_if_ok _ _ c1 e2).0),
        sent,
        target,
        (lift_ok _ c3 e4).0,
        text_eq_sound _ _ named,
        text_eq_sound _ _ traded,
      )

  by_status_ok :
      (status : ReceiptStatus) (r : Receipt) (c : Context W) {k : TradeConfirmation} {d : Context W}
      → IsReceiptOf client hash r
      → r.status ≡ status
      → by_status client status r curve side token trader c ≡ (ok k, d)
      → k.status ≡ ConfirmationStatus.confirmed
      → Verified client hash curve side token trader k
  unfolding by_status
  by_status_ok ReceiptStatus.success r c origin s e confirmed = verify_ok r c origin s e
  by_status_ok ReceiptStatus.reverted r c origin s e confirmed =
      absurd (ground (arith, pure_ok _ c e))

  resolve_trade_receipt_ok :
      (r : Receipt) (why : Option ReplacementReason) (c : Context W) {k : TradeConfirmation}
      {d : Context W}
      → resolve_trade_receipt client r curve side token trader why c ≡ (ok k, d)
      → (why ≡ none → IsReceiptOf client hash r)
      → k.status ≡ ConfirmationStatus.confirmed
      → Verified client hash curve side token trader k
  unfolding resolve_trade_receipt
  resolve_trade_receipt_ok r (some why) c e origin confirmed =
      absurd (ground (arith, pure_ok _ c e))
  resolve_trade_receipt_ok r none c e origin confirmed =
      by_status_ok r.status r c (origin refl) refl e confirmed

  resolve_recovery_ok :
      (stored : Option TradeRecovery) (result : RecoveryResult) (c0 c : Context W)
      {k : TradeConfirmation} {d : Context W}
      → recover_transaction_receipt client hash stored c0 ≡ (ok result, c)
      → resolve_recovery client hash curve side token trader result c ≡ (ok k, d)
      → k.status ≡ ConfirmationStatus.confirmed
      → Verified client hash curve side token trader k
  unfolding resolve_recovery
  resolve_recovery_ok stored (RecoveryResult.receipt r) c0 c found e confirmed =
      resolve_trade_receipt_ok r none c e
        (λ _. inr (recovered-IsAnswered client hash stored c0 found)) confirmed
  resolve_recovery_ok stored (RecoveryResult.replacement r why) c0 c found e confirmed =
      absurd (ground (arith, pure_ok _ c e))
  resolve_recovery_ok stored (RecoveryResult.pending recovery) c0 c found e confirmed =
      absurd (ground (arith, pure_ok _ c e))

-- The trade is verified for the curve of the token.
abbrev pub IsConfirmed :
    {W : Type 0} → Client W → Config → Hash → Side → Address → Address → TradeConfirmation → Type 0
IsConfirmed client config hash side token trader k =
    (curve : Address) × IsCurveOf client config token curve
    × Verified client hash curve side token trader k

module _ {W : Type 0} (client : Client W) (config : Config) where
  check_trade-Verified :
      (hash : Hash) (side : Side) (token trader : Address) (recovery : Option TradeRecovery)
      (c : Context W) {k : TradeConfirmation} {d : Context W}
      → check_trade client config hash side token trader recovery c ≡ (ok k, d)
      → k.status ≡ ConfirmationStatus.confirmed
      → IsConfirmed client config hash side token trader k
  unfolding check_trade
  check_trade-Verified hash side token trader recovery c e confirmed =
      let (curve, c1, e1, r1) = bind_ok (require_curve client config token) _ c e in
      let (result, c2, e2, r2) =
        bind_ok (recover_transaction_receipt client hash recovery) _ c1 r1 in
      (
        curve,
        require_curve-IsCurveOf client config token c e1,
        resolve_recovery_ok client hash curve side token trader recovery result c1 c2 e2 r2
            confirmed,
      )

  after_wait-Verified :
      (hash : Hash) (curve : Address) (side : Side) (token trader : Address)
      (recovery : Option TradeRecovery) (answer : Result (Receipt × Option ReplacementReason))
      (c : Context W) {k : TradeConfirmation} {d : Context W}
      → IsCurveOf client config token curve
      → (w : W) × ((client.wait_for_receipt hash w).0 ≡ answer)
      → after_wait client config hash curve side token trader recovery answer c ≡ (ok k, d)
      → k.status ≡ ConfirmationStatus.confirmed
      → IsConfirmed client config hash side token trader k
  unfolding after_wait
  after_wait-Verified hash curve side token trader recovery (ok answer) c own (w, waited) e
        confirmed =
      (
        curve,
        own,
        resolve_trade_receipt_ok client hash curve side token trader answer.0 answer.1 c e
            (λ same. inl (w, waited ∙ ap (λ why. ok (answer.0, why)) same)) confirmed,
      )
  after_wait-Verified hash curve side token trader recovery (err x) c own waited e confirmed =
      elim (Bool-cases (is_receipt_timeout x)) [
        | inl late ↦ check_trade-Verified hash side token trader recovery c (rw late at e) confirmed
        | inr other ↦ absurd (throw_not_ok x c (rw other at e))
      ]

  -- A trade that `confirmTrade` reports as confirmed, whether by its own wait or by the recovery
  -- behind a timeout, is verified for the curve of the token, which is the configured one or the
  -- answer of the factory for the token: the client answered with a receipt for the hash that was
  -- to be confirmed, in some spelling of its letters, the reported hash is the receipt's, the
  -- receipt succeeded, its transaction went from the trader's wallet to the curve, and the receipt
  -- holds exactly one trade event of that curve and side, which names the token and the trader.
  pub confirmed_is_Verified :
      (hash : Hash) (side : Side) (token trader : Address) (recovery : Option TradeRecovery)
      (c : Context W) {k : TradeConfirmation} {d : Context W}
      → confirm_trade client config hash side token trader recovery c ≡ (ok k, d)
      → k.status ≡ ConfirmationStatus.confirmed
      → IsConfirmed client config hash side token trader k
  unfolding confirm_trade
  confirmed_is_Verified hash side token trader recovery c e confirmed =
      let (curve, c1, e1, r1) = bind_ok (require_curve client config token) _ c e in
      let (answer, w) = client.wait_for_receipt hash c1.world in
      after_wait-Verified hash curve side token trader recovery answer
        (record { world = w; trace = c1.trace }) (require_curve-IsCurveOf client config token c e1)
        (c1.world, refl) r1 confirmed
