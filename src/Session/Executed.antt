-- ===== src/Session/Executed.antt =====
-- A trade that `execute` reports as confirmed was submitted by this wallet and is verified.
use zonk_fun.Base.{◌≡◌, ok}
use zonk_fun.Client.{Address, Hash, Client, Context}
use zonk_fun.Curve.Resolve.{Config}
use zonk_fun.Curve.Confirm.{TradeConfirmation}
use zonk_fun.Curve.Confirm.Verified.{IsConfirmed}
use zonk_fun.Panel.State.{Quote, side_of}
use zonk_fun.Session.{Callbacks, submit_quote}

-- The trade was submitted in some context, and what is reported is verified for the hash that the
-- submission returned.
abbrev pub IsExecuted :
    {W : Type 0}
    → Client W
    → Config
    → Address
    → Callbacks W
    → Address
    → Quote
    → TradeConfirmation
    → Type 0
IsExecuted {W} client config token callbacks wallet quote k =
    (hash : Hash) × (before after : Context W) × (submit_quote client config token callbacks wallet
        quote before
      ≡ (ok hash, after))
    × IsConfirmed client config hash (side_of quote) token wallet k
