-- ===== src/Panel/Quoting/Fresh.antt =====
-- What is kept of the requests that wait and of the quote that is held.
use zonk_fun.Base.{
  ℕ, ◌+◌, ◌≤◌, ◌<◌, ◌≡◌, inl, inr, refl, sym, arith, Bool-cases, ◌==◌, ==_iff, List, [], ◌∷◌,
  Option, none, some, Thrown, if-both,
}
use zonk_fun.Panel.State.{Quote, side_of, QuoteRecord, Panel, Latest}
use zonk_fun.Panel.Quoting.{Units, Typed, Request, quote_landed, quote_failed}
use zonk_fun.Panel.Quoting.Steps.{System, Taken, first, later, IsAsked, IsLogged}
use zonk_fun.Panel.Quoting.Quiet.{IsQuiet}

-- The numbers of the requests fall from the newest on, and stay below a bound.
abbrev pub IsFalling : ℕ → List Request → Type 0
IsFalling n [] = Unit
IsFalling n (r ∷ l) = (r.id < n) × IsFalling r.id l

-- A waiting request with the last number was made for what is typed now, and no quote is shown.
abbrev pub IsCurrent : ℕ → Typed → Option QuoteRecord → List Request → Type 0
IsCurrent n typed shown [] = Unit
IsCurrent n typed shown (r ∷ l) =
    (r.id ≡ n → (r.typed ≡ typed) × (shown ≡ none)) × IsCurrent n typed shown l

pub IsFalling-mono : (n m : ℕ) (l : List Request) → n ≤ m → IsFalling n l → IsFalling m l
IsFalling-mono n m [] h f = tt
IsFalling-mono n m (r ∷ l) h (below, f) = (omega arith, f)

-- Requests with smaller numbers are not current.
pub IsCurrent-below :
    (n m : ℕ) (typed : Typed) (shown : Option QuoteRecord) (l : List Request)
    → n ≤ m
    → IsFalling n l
    → IsCurrent m typed shown l
IsCurrent-below n m typed shown [] h f = tt
IsCurrent-below n m typed shown (r ∷ l) h (below, f) =
    (λ e. absurd (omega arith), IsCurrent-below r.id m typed shown l (omega arith) f)

Taken-IsFalling :
    {r : Request} {l k : List Request} (n : ℕ)
    → Taken r l k
    → IsFalling n l
    → IsFalling n k × (r.id < n)
Taken-IsFalling n (first {r} {l}) (below, f) = (IsFalling-mono r.id n l (omega arith) f, below)
Taken-IsFalling n (later {r} {x} {l} {k} t) (below, f) =
    let (rest, less) = Taken-IsFalling x.id t f in ((below, rest), omega arith)

-- What is left when the request with the last number is taken has smaller numbers.
Taken-last :
    {r : Request} {l k : List Request} (n : ℕ)
    → Taken r l k
    → IsFalling (n + 1) l
    → r.id ≡ n
    → IsFalling n k
Taken-last n (first {r} {l}) (below, f) e = IsFalling-mono r.id n l (omega arith) f
Taken-last n (later {r} {x} {l} {k} t) (below, f) e =
    absurd (omega (arith, (Taken-IsFalling x.id t f).1))

Taken-IsCurrent :
    {r : Request} {l k : List Request} (n : ℕ) (typed : Typed) (shown : Option QuoteRecord)
    → Taken r l k
    → IsCurrent n typed shown l
    → (r.id ≡ n → (r.typed ≡ typed) × (shown ≡ none)) × IsCurrent n typed shown k
Taken-IsCurrent n typed shown first (h, c) = (h, c)
Taken-IsCurrent n typed shown (later t) (h, c) =
    let (mine, rest) = Taken-IsCurrent n typed shown t c in (mine, (h, rest))

IsCurrent-none :
    (n : ℕ) (typed : Typed) (shown : Option QuoteRecord) (l : List Request)
    → IsCurrent n typed shown l
    → IsCurrent n typed none l
IsCurrent-none n typed shown [] c = tt
IsCurrent-none n typed shown (r ∷ l) (h, c) =
    (λ e. ((h e).0, refl), IsCurrent-none n typed shown l c)

module _ (units : Units) where
  abbrev pub AreAsked : List Request → Type 0
  AreAsked [] = Unit
  AreAsked (r ∷ l) = IsAsked units r × AreAsked l

  Taken-AreAsked :
      {r : Request} {l k : List Request} → Taken r l k → AreAsked l → IsAsked units r × AreAsked k
  Taken-AreAsked first (a, rest) = (a, rest)
  Taken-AreAsked (later t) (a, rest) =
      let (mine, others) = Taken-AreAsked t rest in (mine, (a, others))

  -- The record holds the answer to a request for the amount and the slippage that are typed.
  abbrev pub IsAnswer : QuoteRecord → Typed → List (Request × Quote) → Type 0
  IsAnswer x typed log =
      (r : Request) × IsLogged r x.quote log
      × IsAsked units r
      × (r.typed ≡ typed)
      × (side_of x.quote ≡ r.side)
      × (x.identity ≡ r.identity)
      × (x.state_fingerprint ≡ r.state_fingerprint)
      × (x.chain_id ≡ r.chain_id)

  abbrev pub IsShown : Option QuoteRecord → Typed → List (Request × Quote) → Type 0
  IsShown none typed log = Unit
  IsShown (some x) typed log = IsAnswer x typed log

  abbrev pub IsFresh : System → Type 0
  IsFresh s =
      IsFalling (s.panel.quote_request + 1) s.flying
      × IsCurrent s.panel.quote_request s.typed s.panel.quote_record s.flying
      × AreAsked s.flying
      × IsShown s.panel.quote_record s.typed s.answered

  -- A new number, with no quote shown.
  pub moved-IsFresh :
      (s : System) (typed : Typed) (p : Panel)
      → IsFresh s
      → p.quote_request ≡ s.panel.quote_request + 1
      → p.quote_record ≡ none
      → IsFresh (record s { typed = typed; panel = p })
  moved-IsFresh s typed p (falling, current, asked, shown) number empty =
      rw (number, empty)
        (
          IsFalling-mono (s.panel.quote_request + 1) (s.panel.quote_request + 1 + 1) s.flying
              (omega arith) falling,
          IsCurrent-below (s.panel.quote_request + 1) (s.panel.quote_request + 1) typed none
              s.flying (omega arith) falling,
          asked,
          tt,
        )

  -- The same number, and the same quote or none.
  pub quiet-IsFresh :
      (s : System) (p : Panel) → IsFresh s → IsQuiet s.panel p → IsFresh (record s { panel = p })
  quiet-IsFresh s p (falling, current, asked, shown) (number, inl same) =
      rw (number, same) (falling, current, asked, shown)
  quiet-IsFresh s p (falling, current, asked, shown) (number, inr empty) =
      rw (number, empty)
        (
          falling,
          IsCurrent-none s.panel.quote_request s.typed s.panel.quote_record s.flying current,
          asked,
          tt,
        )

  -- A longer log of answers.
  IsShown-more :
      (shown : Option QuoteRecord) (typed : Typed) (log : List (Request × Quote))
      (x : Request × Quote)
      → IsShown shown typed log
      → IsShown shown typed (x ∷ log)
  IsShown-more none typed log x h = tt
  IsShown-more (some q) typed log x (r, logged, asked, t, a, b, c, d) =
      (r, inr logged, asked, t, a, b, c, d)

  -- A request is taken, and the panel stays.
  dropped-IsFresh :
      (s : System) (r : Request) (rest : List Request)
      → Taken r s.flying rest
      → IsFresh s
      → IsFresh (record s { flying = rest })
  dropped-IsFresh s r rest taken (falling, current, asked, shown) = (
    (Taken-IsFalling (s.panel.quote_request + 1) taken falling).0,
    (Taken-IsCurrent s.panel.quote_request s.typed s.panel.quote_record taken current).1,
    (Taken-AreAsked taken asked).1,
    shown,
  )

  pub landed-IsFresh :
      (s : System) (r : Request) (rest : List Request) (q : Quote) (latest : Latest) (now : ℕ)
      → Taken r s.flying rest
      → side_of q ≡ r.side
      → IsFresh s
      → IsFresh (record s {
        panel = quote_landed r q latest now s.panel;
        flying = rest;
        answered = (r, q) ∷ s.answered;
      })
  unfolding quote_landed
  landed-IsFresh s r rest q latest now taken of_side (falling, current, asked, shown) =
      elim (Bool-cases (s.panel.quote_request == r.id)) [
        | inr other ↦ rw other kept
        | inl last ↦
            let number : r.id ≡ s.panel.quote_request = sym ((==_iff _ _).0 last) in
            rw last (
              if-both after _ kept (
                kept.0,
                IsCurrent-below s.panel.quote_request s.panel.quote_request s.typed _ rest
                    (omega arith) (Taken-last s.panel.quote_request taken falling number),
                kept.2,
                (
                  r,
                  inl refl,
                  (Taken-AreAsked taken asked).0,
                  ((Taken-IsCurrent s.panel.quote_request s.typed s.panel.quote_record taken
                        current).0
                      number).0,
                  of_side,
                  refl,
                  refl,
                  refl,
                ),
              ))
      ]
    where
      after : Panel → Type 0
      after p = IsFresh (record s { panel = p; flying = rest; answered = (r, q) ∷ s.answered })

      kept : after s.panel
      kept =
          let (f, c, a, h) = dropped-IsFresh s r rest taken (falling, current, asked, shown) in
          (f, c, a, IsShown-more s.panel.quote_record s.typed s.answered (r, q) shown)

  pub failed-IsFresh :
      (s : System) (r : Request) (rest : List Request) (e : Thrown)
      → Taken r s.flying rest
      → IsFresh s
      → IsFresh (record s { panel = quote_failed r.id e s.panel; flying = rest })
  unfolding quote_failed
  failed-IsFresh s r rest e taken fresh =
      if-both (λ p. IsFresh (record s { panel = p; flying = rest })) (s.panel.quote_request == r.id)
        (dropped-IsFresh s r rest taken fresh) (dropped-IsFresh s r rest taken fresh)
