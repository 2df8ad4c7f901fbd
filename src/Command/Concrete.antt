-- ===== src/Command/Concrete.antt =====
-- `PartialCommand` and `ConcreteCommand` of pisshoff-server/src/command.rs.
use pisshoff.Base.{List, ◌++◌, map, Option, none, some, Bytes, bytes, beq, if◌then◌else◌}
use pisshoff.Std.Utf8.{from_utf8_lossy}
use pisshoff.Nom.{Nom}
use pisshoff.Session.{ThrusshSession, ChannelId}
use pisshoff.Connection.{ConnectionState}
use pisshoff.Command.Results.{exit, map_result, Ran}
use pisshoff.Command.Echo
use pisshoff.Command.Exit
use pisshoff.Command.Ls
use pisshoff.Command.Pwd
use pisshoff.Command.Scp
use pisshoff.Command.Uname
use pisshoff.Command.Whoami
use pisshoff.Command.Cat

pub record PartialCommand : Type 0 where
  pub exec : Option Bytes
  pub params : List Bytes

pub data ConcreteCommand : Type 0 where
  echo : Echo.Echo → ConcreteCommand
  exit_ : Exit.Exit → ConcreteCommand
  ls : Ls.Ls → ConcreteCommand
  pwd : Pwd.Pwd → ConcreteCommand
  scp : Scp.Scp → ConcreteCommand
  uname : Uname.Uname → ConcreteCommand
  whoami : Whoami.Whoami → ConcreteCommand
  cat : Cat.Cat → ConcreteCommand

-- `.map(Self::$name)`
abbrev pub wrap : {C S : Type 0} → (C → ConcreteCommand) → Ran C S → Ran ConcreteCommand S
wrap f (r, c, s) = (map_result f r, c, s)

module _ {S : Type 0} ⦃t : ThrusshSession S⦄ where
  unfoldable pub not_found : ConnectionState → Bytes → ChannelId → S → Ran ConcreteCommand S
  not_found c other ch s = (
    exit 1,
    c,
    t.data_to ch (bytes "bash: " ++ (from_utf8_lossy other ++ bytes ": command not found\n")) s,
  )

  unfoldable pub dispatch :
      ConnectionState → Bytes → List Bytes → ChannelId → S → Ran ConcreteCommand S
  dispatch c command params ch s =
      if beq command (bytes "echo")
      then wrap echo (Echo.new c params ch s)
      else if beq command (bytes "exit")
      then wrap exit_ (Exit.new c params ch s)
      else if beq command (bytes "ls")
      then wrap ls (Ls.new c params ch s)
      else if beq command (bytes "pwd")
      then wrap pwd (Pwd.new c params ch s)
      else if beq command (bytes "scp")
      then wrap scp (Scp.new c params ch s)
      else if beq command (bytes "uname")
      then wrap uname (Uname.new c params ch s)
      else if beq command (bytes "whoami")
      then wrap whoami (Whoami.new c params ch s)
      else if beq command (bytes "cat")
      then wrap cat (Cat.new c params ch s)
      else not_found c command ch s

  unfoldable pub new :
      ConnectionState → Option Bytes → List Bytes → ChannelId → S → Ran ConcreteCommand S
  unfolding dispatch not_found
  new c none params ch s = (exit 0, c, s)
  new c (some command) params ch s = dispatch c command params ch s

  unfoldable pub into_concrete_command :
      PartialCommand → ConnectionState → ChannelId → S → Ran ConcreteCommand S
  unfolding new
  into_concrete_command p c ch s = new c p.exec (map from_utf8_lossy p.params) ch s

module _ ⦃nom : Nom⦄ {S : Type 0} ⦃t : ThrusshSession S⦄ where
  unfoldable pub stdin :
      ConcreteCommand → ConnectionState → ChannelId → Bytes → S → Ran ConcreteCommand S
  stdin (echo cmd) c ch input s = wrap echo (Echo.stdin cmd c ch input s)
  stdin (exit_ cmd) c ch input s = wrap exit_ (Exit.stdin cmd c ch input s)
  stdin (ls cmd) c ch input s = wrap ls (Ls.stdin cmd c ch input s)
  stdin (pwd cmd) c ch input s = wrap pwd (Pwd.stdin cmd c ch input s)
  stdin (scp cmd) c ch input s = wrap scp (Scp.stdin cmd c ch input s)
  stdin (uname cmd) c ch input s = wrap uname (Uname.stdin cmd c ch input s)
  stdin (whoami cmd) c ch input s = wrap whoami (Whoami.stdin cmd c ch input s)
  stdin (cat cmd) c ch input s = wrap cat (Cat.stdin cmd c ch input s)
