-- ===== src/Panel/Blocking.antt =====
-- What the handlers of the panel keep: refs that the guard of the stored record accepts, and a
-- record in storage from the start of a trade until its outcome is known.
use zonk_fun.Base.{
  ℕ, ◌<◌, ◌≡◌, inl, inr, refl, true, Option, none, some, Text, Bool-cases, get_or, ap, ◌∙◌,
  is_hex_of_length, pos, lt→ltb,
}
use zonk_fun.Client.{Address, Hash, Side}
use zonk_fun.Curve.Recovery.{TradeRecovery}
use zonk_fun.PendingTrade.Json.{JsonNumber, whole, is_finite_positive}
use zonk_fun.PendingTrade.Guards.{PendingTrade, PendingStatus}
use zonk_fun.PendingTrade.Guards.RoundTrip.{IsTrade, IsOptional, IsOptionalRecovery}
use zonk_fun.PendingTrade.Store.{Storage, read_pending_trade, persist_pending_trade}
use zonk_fun.PendingTrade.Store.Laws.{read-persist}
use zonk_fun.Panel.State.{Panel}
use zonk_fun.Panel.Handlers.{persist, persist_hashless_unknown}

abbrev pub IsHash : Text → Type 0
IsHash h = is_hex_of_length 64 h ≡ true

abbrev pub IsAddress : Text → Type 0
IsAddress a = is_hex_of_length 40 a ≡ true

abbrev pub IsTime : Option JsonNumber → Type 0
IsTime none = Unit
IsTime (some t) = is_finite_positive t ≡ true

-- The panel runs in a browser, and its refs hold what the guard of the stored record accepts.
abbrev pub IsReady : Panel → Type 0
IsReady p =
    (p.storage.has_window ≡ true)
    × IsOptionalRecovery p.recovery
    × IsOptional IsHash p.submitted_hash
    × IsTime p.submitted_at

-- A record is stored for the two addresses.
abbrev pub IsBlocked : Address → Address → Storage → Type 0
IsBlocked token wallet s = (t : PendingTrade) × ((read_pending_trade token wallet s).0 ≡ some t)

-- A well-formed record that is persisted blocks its addresses.
IsBlocked-by :
    (t : PendingTrade) (s : Storage)
    → IsTrade t
    → s.has_window ≡ true
    → IsBlocked t.token_address t.wallet_address (persist_pending_trade t s)
IsBlocked-by t s valid browser = (
  t,
  ap (λ r. r.0) (read-persist t t.token_address t.wallet_address s valid (refl, refl) browser),
)

has_window-persist :
    (t : PendingTrade) (s : Storage) → (persist_pending_trade t s).has_window ≡ s.has_window
unfolding persist_pending_trade
has_window-persist t s = elim (Bool-cases s.has_window) [ inl e ↦ rw e | inr e ↦ rw e ]

time_kept :
    (at : Option JsonNumber) (now : ℕ)
    → 0 < now
    → IsTime at
    → is_finite_positive (get_or at (whole (pos now))) ≡ true
time_kept none now later valid = lt→ltb 0 now later
time_kept (some t) now later valid = valid

-- The panel is ready and its addresses are blocked.
abbrev pub IsHeld : Address → Address → Panel → Type 0
IsHeld token wallet p = IsReady p × IsBlocked token wallet p.storage

stored-IsHeld :
    (t : PendingTrade) (p : Panel)
    → IsTrade t
    → IsReady p
    → IsHeld t.token_address t.wallet_address (record p {
      submitted_at = some t.submitted_at;
      storage = persist_pending_trade t p.storage;
    })
stored-IsHeld t p valid (browser, recovery_valid, hash_valid, time_valid) = (
  (has_window-persist t p.storage ∙ browser, recovery_valid, hash_valid, valid.time_positive),
  IsBlocked-by t p.storage valid browser,
)

pub persist-IsHeld :
    (side : Side) (h : Hash) (status : PendingStatus) (wallet token : Address)
    (r : Option TradeRecovery) (now : ℕ) (p : Panel)
    → IsHash h
    → IsAddress wallet
    → IsAddress token
    → IsOptionalRecovery r
    → 0 < now
    → IsReady p
    → IsHeld token wallet (persist side h status wallet token r now p)
unfolding persist
persist-IsHeld side h status wallet token none now p hex wallet_hex token_hex recovery_valid later
      ready =
    stored-IsHeld _ p
      (record {
        wallet_hex = wallet_hex;
        token_hex = token_hex;
        hash_hex = hex;
        time_positive = time_kept p.submitted_at now later ready.3;
        recovery_valid = ready.1;
      })
      ready
persist-IsHeld side h status wallet token (some r) now p hex wallet_hex token_hex recovery_valid
      later ready =
    stored-IsHeld _ p
      (record {
        wallet_hex = wallet_hex;
        token_hex = token_hex;
        hash_hex = hex;
        time_positive = time_kept p.submitted_at now later ready.3;
        recovery_valid = recovery_valid;
      })
      ready

pub persist_hashless-IsHeld :
    (side : Side) (wallet token : Address) (now : ℕ) (p : Panel)
    → IsAddress wallet
    → IsAddress token
    → 0 < now
    → IsReady p
    → IsHeld token wallet (persist_hashless_unknown side wallet token now p)
unfolding persist_hashless_unknown
persist_hashless-IsHeld side wallet token now p wallet_hex token_hex later ready =
    stored-IsHeld _ p
      (record {
        wallet_hex = wallet_hex;
        token_hex = token_hex;
        hash_hex = tt;
        time_positive = time_kept p.submitted_at now later ready.3;
        recovery_valid = tt;
      })
      ready
