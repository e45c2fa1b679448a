-- ===== src/PendingTrade/Store/Laws.antt =====
-- What the three operations on the stored record promise.
use mathlib.Core.Path.{subst}
use zonk_fun.Base.{
  or_not-false, if◌then◌else◌, ◌≡◌, inl, inr, refl, arith, true, Option, none, some, Option-cases,
  Bool-cases, Text, text_eq, text_eq_refl, text_eq_sound, to_lower, not, ◌||◌, ap, ◌∙◌,
}
use zonk_fun.Client.{Address}
use zonk_fun.PendingTrade.Json.{Json}
use zonk_fun.PendingTrade.Guards.{PendingTrade, is_pending_trade, encode}
use zonk_fun.PendingTrade.Guards.RoundTrip.{IsTrade, decode-encode}
use zonk_fun.PendingTrade.Store.{
  Storage, Stored, json, empty, malformed, pending_trade_key, persist_pending_trade,
  read_pending_trade, read_stored, accept_stored, accept, settle, clear_pending_trade,
}

-- The addresses of the record are the ones asked for, up to the case of their letters.
abbrev pub IsAbout : Address → Address → PendingTrade → Type 0
IsAbout token wallet t =
    (to_lower t.token_address ≡ to_lower token) × (to_lower t.wallet_address ≡ to_lower wallet)

-- A key is the same for every spelling of the addresses' letters.
same_key :
    (token wallet other_token other_wallet : Address)
    → to_lower token ≡ to_lower other_token
    → to_lower wallet ≡ to_lower other_wallet
    → pending_trade_key token wallet ≡ pending_trade_key other_token other_wallet
unfolding pending_trade_key
same_key token wallet other_token other_wallet same_token same_wallet = rw (same_wallet, same_token)

-- The stored form of a well-formed trade is accepted for its own addresses.
accept_stored-encode :
    (t : PendingTrade) (token wallet : Address)
    → IsTrade t
    → IsAbout token wallet t
    → accept_stored token wallet (json (encode t)) ≡ some t
unfolding accept_stored accept
accept_stored-encode t token wallet valid (same_token, same_wallet) = rw (
  decode-encode t valid,
  same_token,
  same_wallet,
  text_eq_refl (to_lower token),
  text_eq_refl (to_lower wallet),
)

-- In a browser, a well-formed trade that was persisted is what a read for its token and wallet, in
-- any spelling of their letters, returns, and the read changes nothing.
pub read-persist :
    (t : PendingTrade) (token wallet : Address) (s : Storage)
    → IsTrade t
    → IsAbout token wallet t
    → s.has_window ≡ true
    → read_pending_trade token wallet (persist_pending_trade t s)
      ≡ (some t, persist_pending_trade t s)
unfolding read_pending_trade persist_pending_trade read_stored settle
read-persist t token wallet s valid about browser = rw (
  browser,
  same_key t.token_address t.wallet_address token wallet about.0 about.1,
  text_eq_refl (pending_trade_key token wallet),
  accept_stored-encode t token wallet valid about,
)

accept_sound :
    (token wallet : Address) (found : Option PendingTrade) (t : PendingTrade)
    → accept token wallet found ≡ some t
    → IsAbout token wallet t × (found ≡ some t)
unfolding accept
accept_sound token wallet none t h = absurd (ground arith)
accept_sound token wallet (some u) t h =
    elim (Bool-cases (
      not (text_eq (to_lower u.token_address) (to_lower token))
      || not (text_eq (to_lower u.wallet_address) (to_lower wallet)))) [
        | inl other ↦ absurd (ground arith)
        | inr same ↦
            let u_t : u ≡ t = ground arith in
            let (token_same, wallet_same) = or_not-false _ _ same in
            (
              subst (IsAbout token wallet) u_t
                  (text_eq_sound _ _ token_same, text_eq_sound _ _ wallet_same),
              ap some u_t,
            )
      ]

settle_sound :
    (token wallet : Address) (raw : Stored) (s : Storage) (t : PendingTrade)
    → (settle (pending_trade_key token wallet) raw (accept_stored token wallet raw) s).0 ≡ some t
    → IsAbout token wallet t × (v : Json) × (raw ≡ json v) × (is_pending_trade v ≡ some t)
unfolding settle accept_stored
settle_sound token wallet empty s t h = absurd (ground arith)
settle_sound token wallet malformed s t h = absurd (ground arith)
settle_sound token wallet (json v) s t h =
    elim (Option-cases (accept token wallet (is_pending_trade v))) [
      | inl e ↦ absurd (ground (arith, e))
      | inr (u, e) ↦
          let (about, same) = accept_sound token wallet (is_pending_trade v) u e in
          let u_t : u ≡ t = ground (arith, e) in
          (subst (IsAbout token wallet) u_t about, v, refl, same ∙ ap some u_t)
    ]

-- A trade that a read returns is what the guard makes of the value that is stored under the key of the
-- addresses asked for, and it is about them.
pub read_pending_trade_sound :
    (token wallet : Address) (s : Storage) (t : PendingTrade)
    → (read_pending_trade token wallet s).0 ≡ some t
    → IsAbout token wallet t
      × (v : Json) × (s.get_item (pending_trade_key token wallet) ≡ some (json v))
      × (is_pending_trade v ≡ some t)
unfolding read_pending_trade read_stored accept_stored accept settle
read_pending_trade_sound token wallet s t found = elim (Bool-cases s.has_window) [
  | inl browser ↦ elim (Option-cases (s.get_item (pending_trade_key token wallet))) [
    | inl e ↦ absurd (ground (arith, e))
    | inr (raw, e) ↦
        let (about, v, is_json, valid) =
          settle_sound token wallet raw (record s { has_window = true }) t
            (rw (browser, e) at found) in
        (about, v, e ∙ ap some is_json, valid)
  ]
  | inr server ↦ absurd (ground (arith, server))
]

pub clear-read :
    (token wallet other_token other_wallet : Address) (s : Storage)
    → to_lower token ≡ to_lower other_token
    → to_lower wallet ≡ to_lower other_wallet
    → (read_pending_trade other_token other_wallet (clear_pending_trade token wallet s)).0 ≡ none
unfolding read_pending_trade clear_pending_trade read_stored
clear-read token wallet other_token other_wallet s same_token same_wallet =
    elim (Bool-cases s.has_window) [
      | inl browser ↦ rw (
        browser,
        same_key token wallet other_token other_wallet same_token same_wallet,
        text_eq_refl (pending_trade_key other_token other_wallet),
      )
      | inr server ↦ rw server
    ]

accept_same :
    (token wallet other_token other_wallet : Address) (found : Option PendingTrade)
    → to_lower token ≡ to_lower other_token
    → to_lower wallet ≡ to_lower other_wallet
    → accept token wallet found ≡ accept other_token other_wallet found
unfolding accept
accept_same token wallet other_token other_wallet none same_token same_wallet = refl
accept_same token wallet other_token other_wallet (some t) same_token same_wallet =
    rw (same_token, same_wallet)

read_stored_same :
    (token wallet other_token other_wallet : Address) (found : Option Stored) (s : Storage)
    → to_lower token ≡ to_lower other_token
    → to_lower wallet ≡ to_lower other_wallet
    → read_stored token wallet found s ≡ read_stored other_token other_wallet found s
unfolding read_stored accept_stored
read_stored_same token wallet other_token other_wallet none s same_token same_wallet = refl
read_stored_same token wallet other_token other_wallet (some empty) s same_token same_wallet =
    ap (λ k. settle k empty none s)
      (same_key token wallet other_token other_wallet same_token same_wallet)
read_stored_same token wallet other_token other_wallet (some malformed) s same_token same_wallet =
    ap (λ k. settle k malformed none s)
      (same_key token wallet other_token other_wallet same_token same_wallet)
read_stored_same token wallet other_token other_wallet (some (json v)) s same_token same_wallet =
    ap (λ k. settle k (json v) (accept token wallet (is_pending_trade v)) s)
      (same_key token wallet other_token other_wallet same_token same_wallet)
    ∙ ap (λ o. settle (pending_trade_key other_token other_wallet) (json v) o s)
        (accept_same token wallet other_token other_wallet (is_pending_trade v) same_token
          same_wallet)

-- A read gives the same for every spelling of the addresses' letters.
pub read-same :
    (token wallet other_token other_wallet : Address) (s : Storage)
    → to_lower token ≡ to_lower other_token
    → to_lower wallet ≡ to_lower other_wallet
    → read_pending_trade token wallet s ≡ read_pending_trade other_token other_wallet s
unfolding read_pending_trade
read-same token wallet other_token other_wallet s same_token same_wallet =
    ap (λ x. if s.has_window then x else (none, s))
      (ap (λ k. read_stored token wallet (s.get_item k) s)
          (same_key token wallet other_token other_wallet same_token same_wallet)
        ∙ read_stored_same token wallet other_token other_wallet _ s same_token same_wallet)

has_window-settle :
    (key : Text) (raw : Stored) (accepted : Option PendingTrade) (s : Storage)
    → (settle key raw accepted s).1.has_window ≡ s.has_window
unfolding settle
has_window-settle key empty accepted s = refl
has_window-settle key malformed none s = refl
has_window-settle key malformed (some t) s = refl
has_window-settle key (json v) none s = refl
has_window-settle key (json v) (some t) s = refl

has_window-read_stored :
    (token wallet : Address) (found : Option Stored) (s : Storage)
    → (read_stored token wallet found s).1.has_window ≡ s.has_window
unfolding read_stored
has_window-read_stored token wallet none s = refl
has_window-read_stored token wallet (some raw) s =
    has_window-settle (pending_trade_key token wallet) raw (accept_stored token wallet raw) s

pub has_window-read :
    (token wallet : Address) (s : Storage)
    → (read_pending_trade token wallet s).1.has_window ≡ s.has_window
unfolding read_pending_trade
has_window-read token wallet s = elim (Bool-cases s.has_window) [
  | inl browser ↦ rw browser (has_window-read_stored token wallet _ _)
  | inr server ↦ rw server
]
