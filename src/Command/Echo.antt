-- ===== src/Command/Echo.antt =====
-- pisshoff-server/src/command/echo.rs
use pisshoff.Base.{List, ◌++◌, Bytes, bytes, join, if◌then◌else◌}
use pisshoff.Session.{ThrusshSession, ChannelId}
use pisshoff.Connection.{ConnectionState}
use pisshoff.Command.Results.{exit, Ran}

pub data Echo : Type 0 where
  echo : Echo

module _ {S : Type 0} ⦃t : ThrusshSession S⦄ where
  -- Output that is captured for an expansion has no newline.
  unfoldable pub new : ConnectionState → List Bytes → ChannelId → S → Ran Echo S
  new c params ch s =
      let suffix = if t.redirected s then bytes "" else bytes "\n" in
      (exit 0, c, t.data_to ch (join (bytes " ") params ++ suffix) s)

  unfoldable pub stdin : Echo → ConnectionState → ChannelId → Bytes → S → Ran Echo S
  stdin cmd c ch input s = (exit 0, c, s)
