-- ===== src/Shell/Executing.antt =====
-- `ExecutingCommand` of pisshoff-server/src/subsystem/shell.rs: it runs the commands that an
-- iterator yields, those of expansions with their output captured.
pub mod Termination
pub mod Restart
pub mod Plain
pub mod Logs
use pisshoff.Base.{
  ℕ, zero, suc, ◌+◌, Bool, true, false, Option, none, some, Bytes, [], is_empty, if◌then◌else◌,
}
use pisshoff.Nom.{Nom}
use pisshoff.Session.{
  ChannelId, Session, StdoutCaptureSession, EitherSession, left, right, session, stdout_capture,
  either,
}
use pisshoff.Connection.{ConnectionState}
use pisshoff.Command.Results.{CommandResult, read_stdin, exit, close, Ran}
use pisshoff.Command.Concrete
use pisshoff.Command.Concrete.{ConcreteCommand, PartialCommand, into_concrete_command}
use pisshoff.Shell.Parts.{Parts}
use pisshoff.Shell.Iter as Iter
use pisshoff.Shell.Iter.{Iter, IterState, expand, ready, step, nonempty}
use pisshoff.Shell.Weights.{weight_iter}

pub record ExecutingCommand : Type 0 where
  pub iter_left : Iter
  pub current : ConcreteCommand
  pub buf : Option Bytes

abbrev pub Either : Type 0
Either = EitherSession StdoutCaptureSession Session

-- The buffer behind a capturing session, and the session behind the other.
abbrev pub captured : Either → Bytes
captured (left s) = s.out
captured (right s) = []

abbrev pub live : Session → Either → Session
live before (left s) = before
live before (right s) = s

module _ (ch : ChannelId) where
  -- The outcome of a command that was run for an expansion: `again` goes on with its output.
  pub after_capture :
      (Bytes → ConnectionState → Session → Ran ExecutingCommand Session)
      → Iter
      → Session
      → Ran ConcreteCommand Either
      → Ran ExecutingCommand Session
  after_capture again left_over s (read_stdin cmd, c, e) =
      (read_stdin (record { iter_left = left_over; current = cmd; buf = some (captured e) }), c, s)
  after_capture again left_over s (exit status, c, e) = again (captured e) c s
  after_capture again left_over s (close status, c, e) = (close status, c, s)

  -- The outcome of the command itself.
  pub after_live : Iter → Session → Ran ConcreteCommand Either → Ran ExecutingCommand Session
  after_live left_over s (read_stdin cmd, c, e) =
      (read_stdin (record { iter_left = left_over; current = cmd; buf = none }), c, live s e)
  after_live left_over s (exit status, c, e) = (exit status, c, live s e)
  after_live left_over s (close status, c, e) = (close status, c, live s e)

  pub one_round :
      (Iter → Bytes → ConnectionState → Session → Ran ExecutingCommand Session)
      → IterState × Iter
      → ConnectionState
      → Session
      → Ran ExecutingCommand Session
  unfolding after_capture after_live
  one_round again (expand cmd, i) c s =
      after_capture (again i) i s
        (into_concrete_command {S = Either} cmd c ch (left (record { out = [] })))
  one_round again (ready cmd, i) c s =
      after_live i s (into_concrete_command {S = Either} cmd c ch (right s))

  -- The loop of `new_inner` on fuel, with the end of the fuel as a parameter: it is never met.
  pub new_inner :
      Ran ExecutingCommand Session
      → ℕ
      → Iter
      → Bytes
      → ConnectionState
      → Session
      → Ran ExecutingCommand Session
  unfolding one_round
  new_inner spent zero i buf c s = spent
  new_inner spent (suc fuel) i buf c s =
      one_round (new_inner spent fuel) (step c.environment (nonempty buf) i) c s

  -- A result for the end of the fuel, which is enough.
  pub execute : Iter → Bytes → ConnectionState → Session → Ran ExecutingCommand Session
  unfolding new_inner
  execute i buf c s = new_inner (exit 0, c, s) (suc (weight_iter i)) i buf c s

  -- `ExecutingCommand::new`
  pub new : Iter → ConnectionState → Session → Ran ExecutingCommand Session
  unfolding execute
  new i c s = execute i [] c s

module _ ⦃nom : Nom⦄ (ch : ChannelId) where
  -- The session that the input's command writes to.
  pub input_session : Option Bytes → Session → Either
  input_session none s = right s
  input_session (some buf) s = left (record { out = buf })

  -- The buffer afterwards, which is there for an expansion alone.
  abbrev buffer_after : Option Bytes → Either → Option Bytes
  buffer_after none e = none
  buffer_after (some buf) e = some (captured e)

  pub after_input :
      ExecutingCommand → Session → Ran ConcreteCommand Either → Ran ExecutingCommand Session
  after_input x s (read_stdin cmd, c, e) = (
    read_stdin (record { iter_left = x.iter_left; current = cmd; buf = buffer_after x.buf e }),
    c,
    live s e,
  )
  after_input x s (exit status, c, e) =
      execute ch x.iter_left (Iter.value_of (buffer_after x.buf e)) c (live s e)
  after_input x s (close status, c, e) = (close status, c, live s e)

  -- `ExecutingCommand::stdin`
  pub stdin : ExecutingCommand → ConnectionState → Bytes → Session → Ran ExecutingCommand Session
  unfolding execute input_session after_input
  stdin x c input s =
      after_input x s (Concrete.stdin {S = Either} x.current c ch input (input_session x.buf s))
