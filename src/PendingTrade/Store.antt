-- ===== src/PendingTrade/Store.antt =====
-- `persistPendingTrade`, `readPendingTrade`, `clearPendingTrade` on localStorage.
pub mod Laws
use zonk_fun.Base.{
  Bool, true, false, not, ◌||◌, List, [], ◌∷◌, ◌++◌, Option, none, some, Text, codes, text_eq,
  to_lower, if◌then◌else◌,
}
use zonk_fun.Client.{Address}
use zonk_fun.PendingTrade.Json.{Json}
use zonk_fun.PendingTrade.Guards.{PendingTrade, is_pending_trade, encode}

-- A stored text by what `JSON.parse` makes of it.
pub data Stored : Type 0 where
  empty malformed : Stored
  json : Json → Stored

-- `has_window` is false on the server; `get_item` is `localStorage.getItem`.
pub record Storage : Type 0 where
  pub has_window : Bool
  pub get_item : Text → Option Stored

unfoldable pub pending_trade_key : Address → Address → Text
pending_trade_key token wallet =
    codes "zonk:pending-trade:v1:" ++ (to_lower wallet ++ (codes ":" ++ to_lower token))

-- `localStorage.setItem` and `removeItem`.
abbrev pub put : Text → Option Stored → Storage → Storage
put key v s = record s { get_item = λ k. if text_eq key k then v else s.get_item k }

unfoldable pub persist_pending_trade : PendingTrade → Storage → Storage
persist_pending_trade trade s =
    if s.has_window
    then put (pending_trade_key trade.token_address trade.wallet_address)
        (some (json (encode trade))) s
    else s

-- `value.tokenAddress.toLowerCase() !== token.toLowerCase() || …`.
abbrev pub is_other_trade : Address → Address → PendingTrade → Bool
is_other_trade token wallet t =
    not (text_eq (to_lower t.token_address) (to_lower token))
    || not (text_eq (to_lower t.wallet_address) (to_lower wallet))

-- The body of the `try`: what it returns, or nothing where it throws.
accept : Address → Address → Option PendingTrade → Option PendingTrade
accept token wallet none = none
accept token wallet (some t) = if is_other_trade token wallet t then none else some t

accept_stored : Address → Address → Stored → Option PendingTrade
unfolding accept
accept_stored token wallet empty = none
accept_stored token wallet malformed = none
accept_stored token wallet (json v) = accept token wallet (is_pending_trade v)

-- An accepted value is returned; anything else but the empty text is removed.
settle : Text → Stored → Option PendingTrade → Storage → Option PendingTrade × Storage
settle key empty accepted s = (none, s)
settle key raw (some t) s = (some t, s)
settle key raw none s = (none, put key none s)

unfoldable pub read_stored :
    Address → Address → Option Stored → Storage → Option PendingTrade × Storage
unfolding accept_stored settle
read_stored token wallet none s = (none, s)
read_stored token wallet (some raw) s =
    settle (pending_trade_key token wallet) raw (accept_stored token wallet raw) s

unfoldable pub read_pending_trade : Address → Address → Storage → Option PendingTrade × Storage
unfolding read_stored
read_pending_trade token wallet s =
    if s.has_window
    then read_stored token wallet (s.get_item (pending_trade_key token wallet)) s
    else (none, s)

unfoldable pub clear_pending_trade : Address → Address → Storage → Storage
clear_pending_trade token wallet s =
    if s.has_window then put (pending_trade_key token wallet) none s else s
