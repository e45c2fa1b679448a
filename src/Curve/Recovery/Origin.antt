-- ===== src/Curve/Recovery/Origin.antt =====
-- Where the receipt comes from that `recoverTransactionReceipt` returns.
use zonk_fun.Base.{
  ℕ, ◌+◌, ◌-◌, ◌≡◌, inl, inr, refl, sym, ap, arith, Bool-cases, Option, none, some, ok, text_eq,
  text_eq_sound, to_lower, ltb, leb,
}
use mathlib.Core.Path.{subst}
use zonk_fun.Client.{Hash, Transaction, Receipt, Client, Context, call, lift}
use zonk_fun.Client.Laws.{bind_ok, call_ok, catching_ok, pure_ok, throw_not_ok}
use zonk_fun.Curve.Recovery.{
  TradeRecovery, RecoveryResult, receipt, pending, is_receipt_not_found, find_replacement, conclude,
  scan_blocks, scan_batch, search_blocks, last_block, bigint_of_text, own_receipt, known_recovery,
  search_or_wait, without_receipt, recover_transaction_receipt,
}
use zonk_fun.Curve.Recovery.Scan.{Judged, scan-some}

module _ {W : Type 0} (client : Client W) (hash : Hash) where
  -- The client answered with this receipt for the hash, in some spelling of it.
  abbrev pub IsAnswered : Receipt → Type 0
  IsAnswered r =
      (own : Hash) × (w : W) × (to_lower own ≡ to_lower hash)
      × ((client.get_receipt own w).0 ≡ ok r)

  own_receipt-IsAnswered :
      (c : Context W) {r : Receipt} {d : Context W}
      → own_receipt client hash c ≡ (ok (some r), d)
      → IsAnswered r
  unfolding own_receipt
  own_receipt-IsAnswered c {r} {d} h = elim (catching_ok _ _ c h) [
    | inl returned ↦
        let (r', c1, e1, r1) = bind_ok (call (client.get_receipt hash)) _ c returned in
        let same : r ≡ r' = let eq = (pure_ok _ c1 r1).0 in ground arith in
        (hash, c.world, refl, rw same (call_ok (client.get_receipt hash) c e1))
    | inr (e, c', handled) ↦ elim (Bool-cases (is_receipt_not_found e)) [
      | inl missing ↦ absurd (let eq = pure_ok _ c' {d = d} (rw missing at handled) in ground arith)
      | inr other ↦ absurd (throw_not_ok _ c' {d = d} (rw other at handled))
    ]
  ]

  module _ (recovery : TradeRecovery) where
    Judged-IsAnswered :
        (t : Transaction) (r : Receipt) → Judged client hash recovery t (receipt r) → IsAnswered r
    Judged-IsAnswered t r (w, r', got, same) =
        elim (Bool-cases (text_eq (to_lower t.hash) (to_lower hash))) [
          | inl own ↦
              let eq : r ≡ r' = ground arith in (t.hash, w, text_eq_sound _ _ own, rw eq got)
          | inr other ↦ absurd (ground arith)
        ]

    conclude-receipt :
        (last latest : ℕ) (found : Option RecoveryResult) (c : Context W) {r : Receipt}
        {d : Context W}
        → conclude client recovery last latest found c ≡ (ok (receipt r), d)
        → found ≡ some (receipt r)
    unfolding conclude
    conclude-receipt last latest (some found) c h = ap some (sym (pure_ok _ c h).0)
    conclude-receipt last latest none c {d = d} h = elim (Bool-cases (ltb last latest)) [
      | inl more ↦
          let (same, unchanged) = pure_ok _ c {d = d} (rw more at h) in absurd (ground arith)
      | inr done ↦ absurd (throw_not_ok _ c {d = d} (rw done at h))
    ]

    scan_batch-IsAnswered :
        (latest first : ℕ) (c : Context W) {r : Receipt} {d : Context W}
        → scan_batch client hash recovery latest first c ≡ (ok (receipt r), d)
        → IsAnswered r
    unfolding scan_batch
    scan_batch-IsAnswered latest first c {r} h =
        let rounds = last_block first latest + 1 - first in
        let (found, c1, e1, r1) = bind_ok (scan_blocks client hash recovery rounds first) _ c h in
        let same = conclude-receipt (last_block first latest) latest found c1 r1 in
        let (n, below, before, entries, w, got, t, fits, judged) =
          scan-some client hash recovery rounds first c {d = c1}
            (subst (λ f. scan_blocks client hash recovery rounds first c ≡ (ok f, c1)) same e1) in
        Judged-IsAnswered t r judged

    find_replacement-IsAnswered :
        (c : Context W) {r : Receipt} {d : Context W}
        → find_replacement client hash recovery c ≡ (ok (receipt r), d)
        → IsAnswered r
    unfolding find_replacement search_blocks
    find_replacement-IsAnswered c {d = d} h =
        let count = call (client.get_transaction_count recovery.sender) in
        let (consumed, c1, e1, r1) = bind_ok count _ c h in
        elim (Bool-cases (leb consumed recovery.nonce)) [
          | inl waiting ↦
              let (same, unchanged) =
                pure_ok (pending (some recovery)) c1 {d = d} (rw waiting at r1) in
              absurd (ground arith)
          | inr gone ↦
              let (latest, c2, e2, r2) =
                bind_ok (call client.get_block_number) _ c1 {d = d} (rw gone at r1) in
              let (first, c3, e3, r3) =
                bind_ok (lift (bigint_of_text recovery.next_scan_block)) _ c2 r2 in
              scan_batch-IsAnswered latest first c3 r3
        ]

  search_or_wait-IsAnswered :
      (known : Option TradeRecovery) (c : Context W) {r : Receipt} {d : Context W}
      → search_or_wait client hash known c ≡ (ok (receipt r), d)
      → IsAnswered r
  unfolding search_or_wait
  search_or_wait-IsAnswered none c h = absurd (let eq = pure_ok _ c h in ground arith)
  search_or_wait-IsAnswered (some recovery) c h = find_replacement-IsAnswered recovery c h

  without_receipt-IsAnswered :
      (stored : Option TradeRecovery) (found : Option Receipt) (c c' : Context W) {r : Receipt}
      {d : Context W}
      → own_receipt client hash c ≡ (ok found, c')
      → without_receipt client hash stored found c' ≡ (ok (receipt r), d)
      → IsAnswered r
  unfolding without_receipt
  without_receipt-IsAnswered stored (some own) c c' {r} got h =
      let same : own ≡ r = let eq = pure_ok _ c' h in ground arith in
      subst IsAnswered same (own_receipt-IsAnswered c got)
  without_receipt-IsAnswered stored none c c' got h =
      let (known, c1, _, r1) = bind_ok (known_recovery client hash stored) _ c' h in
      search_or_wait-IsAnswered known c1 r1

  -- A receipt that the recovery returns is the client's answer for the hash.
  pub recovered-IsAnswered :
      (stored : Option TradeRecovery) (c : Context W) {r : Receipt} {d : Context W}
      → recover_transaction_receipt client hash stored c ≡ (ok (receipt r), d)
      → IsAnswered r
  unfolding recover_transaction_receipt
  recovered-IsAnswered stored c h =
      let (found, c1, e1, r1) = bind_ok (own_receipt client hash) _ c h in
      without_receipt-IsAnswered stored found c c1 e1 r1
