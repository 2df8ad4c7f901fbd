-- ===== src/Command/Pwd.antt =====
-- pisshoff-server/src/command/pwd.rs
use pisshoff.Base.{List, ◌++◌, Bytes, bytes}
use pisshoff.Session.{ThrusshSession, ChannelId}
use pisshoff.Connection.{ConnectionState, file_system}
use pisshoff.Command.Results.{exit, Ran}

pub data Pwd : Type 0 where
  pwd : Pwd

module _ {S : Type 0} ⦃t : ThrusshSession S⦄ where
  unfoldable pub new : ConnectionState → List Bytes → ChannelId → S → Ran Pwd S
  new c params ch s =
      let (fs, c') = file_system c in (exit 0, c', t.data_to ch (fs.pwd ++ bytes "\n") s)

  unfoldable pub stdin : Pwd → ConnectionState → ChannelId → Bytes → S → Ran Pwd S
  stdin cmd c ch input s = (exit 0, c, s)
