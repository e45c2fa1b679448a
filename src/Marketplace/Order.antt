-- ===== src/Marketplace/Order.antt =====
-- The order that `arrangeTokens` gives the tokens.
use mathlib.Core.List.{Memᴰ, Permᴰ}
use mathlib.Core.List.Permᴰ
use mathlib.Core.Path.{subst}
use zonk_fun.Base.{
  ◌≡◌, ◌≢◌, ◌⊎◌, inl, inr, refl, sym, ap, arith, Bool, true, false, List, [], ◌∷◌, Sign, below,
  equal, above, Bool-cases, compare_ℤ, compare_ℤ-flip, compare_ℤ-trans, ℤ, filter, is_some, get_or,
  every, and_true, pos, negsuc, ◌≤◌, ◌∙◌, Option-cases,
}
use zonk_fun.Marketplace.{
  Token, insert, sort, is_behind, arrange_tokens, top, near, by_progress, by_value, has_progress,
  progress, value_of, compare_integer_strings,
}

module _ {A : Type 0} (compare : A → A → Sign) where
  insert-Perm : (x : A) (xs : List A) → Permᴰ (x ∷ xs) (insert compare x xs)
  insert-Perm x [] = Permᴰ.refl (x ∷ [])
  insert-Perm x (y ∷ ys) = elim (Bool-cases (is_behind compare (compare x y))) [
    | inl behind ↦
        rw behind (Permᴰ.trans (Permᴰ.swap refl refl) (Permᴰ.cons refl (insert-Perm x ys)))
    | inr not_behind ↦ rw not_behind (Permᴰ.refl (x ∷ y ∷ ys))
  ]

  -- Sorting only changes the order.
  sort-Perm : (xs : List A) → Permᴰ xs (sort compare xs)
  sort-Perm [] = Permᴰ.refl []
  sort-Perm (x ∷ xs) =
      Permᴰ.trans (Permᴰ.cons refl (sort-Perm xs)) (insert-Perm x (sort compare xs))

  -- No entry has to follow one that stands behind it.
  abbrev pub IsOrdered : List A → Type 0
  IsOrdered [] = Unit {0}
  IsOrdered (x ∷ xs) = ((y : A) → Memᴰ y xs → compare x y ≢ above) × IsOrdered xs

  after :
      {x y z : A} {ys zs : List A}
      → (Memᴰ z zs → (z ≡ x) ⊎ Memᴰ z ys)
      → Memᴰ z (y ∷ zs)
      → (z ≡ x) ⊎ Memᴰ z (y ∷ ys)
  after more (Memᴰ.head e) = inr (Memᴰ.head e)
  after more (Memᴰ.tail m) = elim (more m) [ inl e ↦ inl e | inr k ↦ inr (Memᴰ.tail k) ]

  before : {x z : A} {ys : List A} → Memᴰ z (x ∷ ys) → (z ≡ x) ⊎ Memᴰ z ys
  before (Memᴰ.head e) = inl e
  before (Memᴰ.tail m) = inr m

  of_insert : (x : A) (xs : List A) (z : A) → Memᴰ z (insert compare x xs) → (z ≡ x) ⊎ Memᴰ z xs
  of_insert x [] z (Memᴰ.head e) = inl e
  of_insert x [] z (Memᴰ.tail at) = elim at [ ]
  of_insert x (y ∷ ys) z at = elim (Bool-cases (is_behind compare (compare x y))) [
    | inl behind ↦ after (of_insert x ys z) (rw behind at at)
    | inr not_behind ↦ before (rw not_behind at at)
  ]

  not_behind-above : (s : Sign) → is_behind compare s ≡ false → s ≢ above
  not_behind-above above h = absurd (ground arith)
  not_behind-above below h = λ e. ground (arith, e)
  not_behind-above equal h = λ e. ground (arith, e)

  behind-above : (s : Sign) → is_behind compare s ≡ true → s ≡ above
  behind-above above h = refl
  behind-above below h = absurd (ground arith)
  behind-above equal h = absurd (ground arith)

  -- Where the comparison is consistent on the entries that `P` holds of.
  module _ (P : A → Type 0)
      (flip : (x y : A) → P x → P y → compare x y ≡ above → compare y x ≢ above)
      (chain : (x y z : A)
        → P x
        → P y
        → P z
        → compare x y ≢ above
        → compare y z ≢ above
        → compare x z ≢ above) where
    insert-IsOrdered :
        (x : A) (xs : List A)
        → P x
        → ((y : A) → Memᴰ y xs → P y)
        → IsOrdered xs
        → IsOrdered (insert compare x xs)
    insert-IsOrdered x [] px ps o = (λ y at. absurd (elim at [ ]), tt)
    insert-IsOrdered x (y ∷ ys) px ps (least, o) =
        elim (Bool-cases (is_behind compare (compare x y))) [
          | inl behind ↦
              let py = ps y (Memᴰ.head refl) in
              rw behind (
                λ z at. elim (of_insert x ys z at) [
                  | inl e ↦
                      subst (λ w. compare y w ≢ above) (sym e)
                        (flip x y px py (behind-above (compare x y) behind))
                  | inr m ↦ least z m
                ],
                insert-IsOrdered x ys px (λ z m. ps z (Memᴰ.tail m)) o,
              )
          | inr not_behind ↦
              let first = not_behind-above (compare x y) not_behind in
              rw not_behind (λ z at. reaches first z at, (least, o))
        ]
      where
        reaches : compare x y ≢ above → (z : A) → Memᴰ z (y ∷ ys) → compare x z ≢ above
        reaches first z (Memᴰ.head e) = subst (λ w. compare x w ≢ above) (sym e) first
        reaches first z (Memᴰ.tail m) =
            chain x y z px (ps y (Memᴰ.head refl)) (ps z (Memᴰ.tail m)) first (least z m)

    of_sort : (xs : List A) (z : A) → Memᴰ z (sort compare xs) → Memᴰ z xs
    of_sort [] z at = at
    of_sort (x ∷ xs) z at = elim (of_insert x (sort compare xs) z at) [
      | inl e ↦ Memᴰ.head e
      | inr m ↦ Memᴰ.tail (of_sort xs z m)
    ]

    sort-IsOrdered : (xs : List A) → ((y : A) → Memᴰ y xs → P y) → IsOrdered (sort compare xs)
    sort-IsOrdered [] ps = tt
    sort-IsOrdered (x ∷ xs) ps =
        insert-IsOrdered x (sort compare xs) (ps x (Memᴰ.head refl))
          (λ y m. ps y (Memᴰ.tail (of_sort xs y m))) (sort-IsOrdered xs (λ y m. ps y (Memᴰ.tail m)))

-- Not above, on integers.
abbrev pub IsAtMost : ℤ → ℤ → Type 0
IsAtMost (pos a) (pos b) = a ≤ b
IsAtMost (pos a) (negsuc b) = ⊥
IsAtMost (negsuc a) (pos b) = Unit {0}
IsAtMost (negsuc a) (negsuc b) = b ≤ a

IsAtMost-of : (a b : ℤ) → compare_ℤ a b ≢ above → IsAtMost a b
unfolding compare_ℤ
IsAtMost-of (pos a) (pos b) h = ground (arith, h)
IsAtMost-of (pos a) (negsuc b) h = h refl
IsAtMost-of (negsuc a) (pos b) h = tt
IsAtMost-of (negsuc a) (negsuc b) h = ground (arith, h)

-- Every token is followed only by tokens whose key is not above its own.
abbrev pub IsRanked : (Token → ℤ) → List Token → Type 0
IsRanked key [] = Unit {0}
IsRanked key (t ∷ ts) = ((u : Token) → Memᴰ u ts → IsAtMost (key u) (key t)) × IsRanked key ts

-- The fully diluted value as an integer.
abbrev pub value_or_zero : Token → ℤ
value_or_zero t = get_or (value_of t) (pos 0)

IsRanked-of_ordered :
    (compare : Token → Token → Sign) (key : Token → ℤ) (P : Token → Type 0)
    → ((t u : Token) → P t → P u → compare t u ≡ compare_ℤ (key u) (key t))
    → (ts : List Token) → ((t : Token) → Memᴰ t ts → P t)
    → IsOrdered compare ts
    → IsRanked key ts
IsRanked-of_ordered compare key P agrees [] ps o = tt
IsRanked-of_ordered compare key P agrees (t ∷ ts) ps (least, o) = (
  λ u m. IsAtMost-of (key u) (key t) (
      subst (λ s. s ≢ above) (agrees t u (ps t (Memᴰ.head refl)) (ps u (Memᴰ.tail m))) (least u m)),
  IsRanked-of_ordered compare key P agrees ts (λ u m. ps u (Memᴰ.tail m)) o,
)

-- A comparison that is that of integer keys, from high to low, sorts by the keys.
sorted-IsRanked :
    (compare : Token → Token → Sign) (key : Token → ℤ) (P : Token → Type 0)
    → ((t u : Token) → P t → P u → compare t u ≡ compare_ℤ (key u) (key t))
    → (ts : List Token) → ((t : Token) → Memᴰ t ts → P t)
    → IsRanked key (sort compare ts)
sorted-IsRanked compare key P agrees ts ps =
    IsRanked-of_ordered compare key P agrees (sort compare ts)
      (λ t m. ps t (of_sort compare P flip chain ts t m))
      (sort-IsOrdered compare P flip chain ts ps)
  where
    flip : (x y : Token) → P x → P y → compare x y ≡ above → compare y x ≢ above
    flip x y px py h =
        subst (λ s. s ≢ above) (sym (agrees y x py px))
          (compare_ℤ-flip (key y) (key x) (sym (agrees x y px py) ∙ h))

    chain :
        (x y z : Token)
        → P x
        → P y
        → P z
        → compare x y ≢ above
        → compare y z ≢ above
        → compare x z ≢ above
    chain x y z px py pz h k =
        subst (λ s. s ≢ above) (sym (agrees x z px pz))
          (compare_ℤ-trans (key z) (key y) (key x) (subst (λ s. s ≢ above) (agrees y z py pz) k)
            (subst (λ s. s ≢ above) (agrees x y px py) h))

by_value-agrees :
    (t u : Token)
    → is_some (value_of t) ≡ true
    → is_some (value_of u) ≡ true
    → by_value t u ≡ compare_ℤ (value_or_zero u) (value_or_zero t)
unfolding compare_integer_strings value_of
by_value-agrees t u h k = elim (Option-cases (value_of t)) [
  | inl missing ↦ absurd (ground (arith, h, missing))
  | inr (a, at) ↦ elim (Option-cases (value_of u)) [
    | inl missing ↦ absurd (ground (arith, k, missing))
    | inr (b, bt) ↦ rw at (rw bt refl)
  ]
]

member-every :
    {A : Type 0} (p : A → Bool) (xs : List A) (x : A) → every p xs ≡ true → Memᴰ x xs → p x ≡ true
member-every p [] x h at = elim at [ ]
member-every p (y ∷ ys) x h (Memᴰ.head e) = ap p e ∙ (and_true (p y) _ h).0
member-every p (y ∷ ys) x h (Memᴰ.tail m) = member-every p ys x (and_true (p y) _ h).1 m

-- Where `BigInt` reads the fully diluted value of every token, the top tokens are all the tokens,
-- each followed only by tokens of at most its value. The tokens near graduation are those that have
-- a progress, each followed only by tokens of at most its progress.
pub arranged :
    (items : List Token)
    → every (λ t. is_some (value_of t)) items ≡ true
    → Permᴰ items (arrange_tokens items top)
      × IsRanked value_or_zero (arrange_tokens items top)
      × Permᴰ (filter has_progress items) (arrange_tokens items near)
      × IsRanked progress (arrange_tokens items near)
unfolding arrange_tokens
arranged items readable = (
  sort-Perm by_value items,
  sorted-IsRanked by_value value_or_zero (λ t. is_some (value_of t) ≡ true) by_value-agrees items
      (λ t m. member-every (λ t. is_some (value_of t)) items t readable m),
  sort-Perm by_progress (filter has_progress items),
  sorted-IsRanked by_progress progress (λ t. Unit {0}) (λ t u _ _. refl) (filter has_progress items)
      (λ t m. tt),
)
