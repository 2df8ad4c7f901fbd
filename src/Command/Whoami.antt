-- ===== src/Command/Whoami.antt =====
-- pisshoff-server/src/command/whoami.rs
use pisshoff.Base.{List, ◌++◌, Bytes, bytes}
use pisshoff.Session.{ThrusshSession, ChannelId}
use pisshoff.Connection.{ConnectionState, username}
use pisshoff.Command.Results.{exit, Ran}

pub data Whoami : Type 0 where
  whoami : Whoami

module _ {S : Type 0} ⦃t : ThrusshSession S⦄ where
  unfoldable pub new : ConnectionState → List Bytes → ChannelId → S → Ran Whoami S
  new c params ch s = (exit 0, c, t.data_to ch (username c ++ bytes "\n") s)

  unfoldable pub stdin : Whoami → ConnectionState → ChannelId → Bytes → S → Ran Whoami S
  stdin cmd c ch input s = (exit 0, c, s)
