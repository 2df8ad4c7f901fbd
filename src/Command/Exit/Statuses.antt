-- ===== src/Command/Exit/Statuses.antt =====
-- The status of `exit`.
use pisshoff.Base.{ℕ, ◌≤◌, List, ◌∷◌, Bytes, ◌≡◌, refl}
use pisshoff.Std.Numbers.{show, u32_max}
use pisshoff.Std.Numbers.Decimals.{parse_unsigned-show}
use pisshoff.Session.{ThrusshSession, ChannelId}
use pisshoff.Connection.{ConnectionState}
use pisshoff.Command.Results.{close}
use pisshoff.Command.Exit.{exit_status, new}

-- `exit` with a status in decimal closes the channel with that status, whatever it is among the
-- 32-bit numbers and whatever follows it on the line.
new-show :
    {S : Type 0} ⦃t : ThrusshSession S⦄ (n : ℕ) (ps : List Bytes) (c : ConnectionState)
    (ch : ChannelId) (s : S)
    → n ≤ u32_max
    → new c (show n ∷ ps) ch s ≡ (close n, c, s)
unfolding new exit_status
new-show n ps c ch s h = rw (new, exit_status, parse_unsigned-show u32_max n h) refl
