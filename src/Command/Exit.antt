-- ===== src/Command/Exit.antt =====
-- pisshoff-server/src/command/exit.rs
pub mod Statuses
use pisshoff.Base.{ℕ, List, [], ◌∷◌, none, some, Bytes}
use pisshoff.Std.Numbers.{parse_unsigned, u32_max}
use pisshoff.Session.{ThrusshSession, ChannelId}
use pisshoff.Connection.{ConnectionState}
use pisshoff.Command.Results.{exit, close, Ran}

pub data Exit : Type 0 where
  exit_command : Exit

exit_status : List Bytes → ℕ
exit_status [] = 0
exit_status (p ∷ ps) = elim (parse_unsigned u32_max p) [ none ↦ 2 | some n ↦ n ]

module _ {S : Type 0} ⦃t : ThrusshSession S⦄ where
  unfoldable pub new : ConnectionState → List Bytes → ChannelId → S → Ran Exit S
  unfolding exit_status
  new c params ch s = (close (exit_status params), c, s)

  unfoldable pub stdin : Exit → ConnectionState → ChannelId → Bytes → S → Ran Exit S
  stdin cmd c ch input s = (exit 0, c, s)
