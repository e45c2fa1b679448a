-- ===== src/Curve/Recovery/Scan.antt =====
-- The search for the transaction that took a nonce, block by block.
use mathlib.Core.List.{Memᴰ}
use mathlib.Core.Path.{subst}
use zonk_fun.Base.{
  ℕ, zero, suc, ◌+◌, ◌<◌, ◌≡◌, inl, inr, ap, ◌∙◌, arith, Bool-cases, List, [], ◌∷◌, Option, none,
  some, Option-cases, ok, Result-cases, text_eq, text_eq_sound, to_lower, and_true, ==_iff,
  if◌then◌else◌,
}
use zonk_fun.Client.{
  Hash, Transaction, Receipt, BlockEntry, full, bare, Event, scanned, Client, Context, Action, call,
  pure, ◌>>=◌, noted,
}
use zonk_fun.Client.Laws.{bind_ok, pure_ok, call_ok}
use zonk_fun.Curve.Recovery.{
  TradeRecovery, RecoveryResult, receipt, replacement, is_candidate, find_candidate, judge,
  scan_blocks, replacement_reason,
}

-- The events of a scan of `rounds` blocks from `block` on, newest first, on the trace before it.
abbrev pub scan_events : ℕ → ℕ → List Event → List Event
scan_events zero block l = l
scan_events (suc rounds) block l = scan_events rounds (block + 1) (scanned block ∷ l)

module _ {W : Type 0} (client : Client W) (hash : Hash) (recovery : TradeRecovery) where
  -- The transaction stands in the block's list and has the sender and the nonce looked for.
  abbrev pub IsCandidateIn : List BlockEntry → Transaction → Type 0
  IsCandidateIn entries t =
      Memᴰ (full t) entries
      × (client.decoder.get_address t.from ≡ client.decoder.get_address recovery.sender)
      × (t.nonce ≡ recovery.nonce)

  pub find_candidate_sound :
      (entries : List BlockEntry) (t : Transaction)
      → find_candidate client recovery entries ≡ some t
      → IsCandidateIn entries t
  unfolding find_candidate
  find_candidate_sound [] t h = cc
  find_candidate_sound (bare other ∷ entries) t h =
      let (at, same, nonce) = find_candidate_sound entries t h in (Memᴰ.tail at, same, nonce)
  find_candidate_sound (full u ∷ entries) t h = elim (Bool-cases (is_candidate client recovery u)) [
    | inl fits ↦
        let here : t ≡ u = ground arith in
        (
          Memᴰ.head (ap full here),
          rw here (text_eq_sound _ _ (and_true _ _ fits).0),
          rw here ((==_iff u.nonce recovery.nonce).0 (and_true _ _ fits).1),
        )
    | inr other ↦
        let (at, same, nonce) = find_candidate_sound entries t (ground arith) in
        (Memᴰ.tail at, same, nonce)
  ]

  -- Each of `rounds` blocks from `block` on was read, and its list has no candidate.
  abbrev pub NoCandidates : ℕ → ℕ → Type 0
  NoCandidates zero block = Unit
  NoCandidates (suc rounds) block =
      ((w : W) × (entries : List BlockEntry) × ((client.get_block block w).0 ≡ ok entries)
        × (find_candidate client recovery entries ≡ none))
      × NoCandidates rounds (block + 1)

  -- One round in which the block was read.
  round_trace :
      (block : ℕ) (c : Context W) {entries : List BlockEntry}
      → (noted (client.get_block block) (λ _. scanned block) c).0 ≡ ok entries
      → ((client.get_block block c.world).0 ≡ ok entries)
        × ((noted (client.get_block block) (λ _. scanned block) c).1.trace
            ≡ scanned block ∷ c.trace)
  unfolding noted
  round_trace block c h = elim (Result-cases (client.get_block block c.world).0) [
    | inl (a, e) ↦ (ground arith, ground arith)
    | inr (x, e) ↦ absurd (ground arith)
  ]

  abbrev scan : ℕ → ℕ → Action W (Option RecoveryResult)
  scan = scan_blocks client hash recovery

  -- What a candidate is judged to be.
  abbrev pub Judged : Transaction → RecoveryResult → Type 0
  Judged t result =
      (w : W) × (r : Receipt) × ((client.get_receipt t.hash w).0 ≡ ok r)
      × (result ≡ (
          if text_eq (to_lower t.hash) (to_lower hash)
          then receipt r
          else replacement r (replacement_reason client recovery t)))

  judge_ok :
      (t : Transaction) (c : Context W) {result : RecoveryResult} {d : Context W}
      → judge client hash recovery t c ≡ (ok result, d)
      → Judged t result
  unfolding judge
  judge_ok t c h =
      let (r, c1, e1, r1) = bind_ok (call (client.get_receipt t.hash)) _ c h in
      (c.world, r, call_ok (client.get_receipt t.hash) c e1, (pure_ok _ c1 r1).0)

  Judged-ok :
      (t : Transaction) (c : Context W) {x : Option RecoveryResult} {d : Context W}
      → (judge client hash recovery t >>= λ found. pure (some found)) c ≡ (ok x, d)
      → (result : RecoveryResult) × (x ≡ some result) × Judged t result
  Judged-ok t c h =
      let (result, c1, e1, r1) = bind_ok (judge client hash recovery t) _ c h in
      (result, (pure_ok _ c1 r1).0, judge_ok t c e1)

  -- A scan that ends with nothing found has read every block once, in order, and none had a
  -- candidate.
  pub scan-none :
      (rounds block : ℕ) (c : Context W) {d : Context W}
      → scan rounds block c ≡ (ok none, d)
      → NoCandidates rounds block × (d.trace ≡ scan_events rounds block c.trace)
  unfolding scan_blocks
  scan-none zero block c h = (tt, ground arith)
  scan-none (suc rounds) block c {d} h =
      let (answer, c') = noted (client.get_block block) (λ _. scanned block) c in
      elim (Result-cases answer) [
        | inr (x, e) ↦ absurd (ground arith)
        | inl (entries, e) ↦ elim (Option-cases (find_candidate client recovery entries)) [
          | inr (t, found) ↦
              let (found', some_found, e') = Judged-ok t c' {x = none} {d = d} (ground arith) in
              absurd (ground arith)
          | inl nothing ↦
              let (at, step) = round_trace block c e in
              let (later, rest) = scan-none rounds (block + 1) c' {d = d} (ground arith) in
              (
                ((c.world, entries, at, nothing), later),
                rest ∙ ap (scan_events rounds (block + 1)) step,
              )
        ]
      ]

  -- A scan that finds something has found it in a block of its range, by the first candidate there,
  -- and no block before that had one.
  abbrev pub FoundIn : ℕ → ℕ → RecoveryResult → Type 0
  FoundIn rounds block result =
      (n : ℕ) × (n < rounds)
      × NoCandidates n block
      × (entries : List BlockEntry) × (w : W) × ((client.get_block (block + n) w).0 ≡ ok entries)
      × (t : Transaction) × IsCandidateIn entries t
      × Judged t result

  FoundIn-later :
      (rounds block : ℕ) (result : RecoveryResult) (c : Context W) {entries : List BlockEntry}
      → (client.get_block block c.world).0 ≡ ok entries
      → find_candidate client recovery entries ≡ none
      → FoundIn rounds (block + 1) result
      → FoundIn (suc rounds) block result
  FoundIn-later rounds block result c {entries} at nothing
        (n, below, before, there, w, got, t, fits, judged) =
      let shift : block + 1 + n ≡ block + suc n = omega arith in
      (
        suc n,
        omega arith,
        ((c.world, entries, at, nothing), before),
        there,
        w,
        subst (λ b. (client.get_block b w).0 ≡ ok there) shift got,
        t,
        fits,
        judged,
      )

  pub scan-some :
      (rounds block : ℕ) (c : Context W) {result : RecoveryResult} {d : Context W}
      → scan rounds block c ≡ (ok (some result), d)
      → FoundIn rounds block result
  unfolding scan_blocks
  scan-some zero block c h = absurd (ground arith)
  scan-some (suc rounds) block c {result} {d} h =
      let (answer, c') = noted (client.get_block block) (λ _. scanned block) c in
      elim (Result-cases answer) [
        | inr (x, e) ↦ absurd (ground arith)
        | inl (entries, e) ↦ elim (Option-cases (find_candidate client recovery entries)) [
          | inr (t, found) ↦
              let (result', same, judged) =
                Judged-ok t c' {x = some result} {d = d} (ground arith) in
              let alike : result ≡ result' = ground arith in
              let (at, step) = round_trace block c e in
              let first : block ≡ block + 0 = omega arith in
              (
                0,
                omega arith,
                tt,
                entries,
                c.world,
                subst (λ b. (client.get_block b c.world).0 ≡ ok entries) first at,
                t,
                find_candidate_sound entries t found,
                rw alike judged,
              )
          | inl nothing ↦
              let (at, step) = round_trace block c e in
              FoundIn-later rounds block result c at nothing
                (scan-some rounds (block + 1) c' {d = d} (ground arith))
        ]
      ]
