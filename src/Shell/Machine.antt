-- ===== src/Shell/Machine.antt =====
-- `Shell` of pisshoff-server/src/subsystem/shell.rs: the state machine of a shell channel.
pub mod Rounds
pub mod Logs
use pisshoff.Base.{
  ℕ, zero, suc, Bool, true, false, List, [], ◌∷◌, Bytes, bytes, Result, ok, err, if◌then◌else◌,
}
use pisshoff.Std.Utf8.{from_utf8_lossy}
use pisshoff.Nom.{Nom, IResult}
use pisshoff.Audit.{exec_command}
use pisshoff.Session.{ChannelId, Session, ◌▸◌, data_call, exit_status_request, close_call}
use pisshoff.Connection.{ConnectionState, push}
use pisshoff.Command.Results as Results
use pisshoff.Command.Results.{CommandResult, Ran}
use pisshoff.Shell.Parts.{Parts}
use pisshoff.Shell.Iter as Iter
use pisshoff.Shell.Tokens.{tokenize}
use pisshoff.Shell.Executing as Executing
use pisshoff.Shell.Executing.{ExecutingCommand}

abbrev pub shell_prompt : Bytes
shell_prompt = bytes "bash-5.1$ "

pub data State : Type 0 where
  prompt : State
  running : ExecutingCommand → State
  exit : ℕ → State
  quit : ℕ → State

pub record Shell : Type 0 where
  pub interactive : Bool
  pub state : State

-- `Shell::new`
unfoldable pub new : Bool → ChannelId → Session → Shell × Session
new interactive ch s = (
  record { interactive = interactive; state = prompt },
  if interactive then s ▸ data_call ch shell_prompt else s,
)

-- The next state, and whether the loop ends.
pub handle_command_result : Bool → CommandResult ExecutingCommand → State × Bool
handle_command_result interactive (Results.read_stdin cmd) = (running cmd, true)
handle_command_result true (Results.exit status) = (exit status, false)
handle_command_result false (Results.exit status) = (quit status, false)
handle_command_result interactive (Results.close status) = (quit status, false)

-- One round of the loop: the next state and whether the loop ends, or a `break` out of it.
pub data Round : Type 0 where
  next : State × Bool → ConnectionState → Session → Round
  breaks : ConnectionState → Session → Round

pub handled : Bool → Ran ExecutingCommand Session → Round
unfolding handle_command_result
handled interactive (r, c, s) = next (handle_command_result interactive r) c s

module _ ⦃nom : Nom⦄ (interactive : Bool) (ch : ChannelId) where
  pub on_parsed : IResult Parts → ConnectionState → Session → Round
  unfolding handled
  on_parsed (ok (unparsed, args)) c s = handled interactive (Executing.new ch (Iter.new args) c s)
  on_parsed (err e) c s = next (prompt, true) c (s ▸ data_call ch (bytes "bash: syntax error\n"))

  pub round : State → Bytes → ConnectionState → Session → Round
  unfolding on_parsed handled
  round prompt input c s =
      on_parsed (tokenize input)
        (push (exec_command (record { args = from_utf8_lossy input ∷ [] })) c) s
  round (running cmd) input c s = handled interactive (Executing.stdin ch cmd c input s)
  round (exit status) input c s = next (prompt, true) c (s ▸ exit_status_request ch status)
  round (quit status) input c s = breaks c (s ▸ exit_status_request ch status ▸ close_call ch)

  -- The loop on fuel. It takes the state out, so that a `break` leaves the default, `prompt`.
  pub loop : ℕ → State → Bytes → ConnectionState → Session → State × ConnectionState × Session
  unfolding round
  loop zero state input c s = (state, c, s)
  loop (suc fuel) state input c s = elim (round state input c s) [
    | breaks c' s' ↦ (prompt, c', s')
    | next (state', ends) c' s' ↦ elim ends [
      | true ↦ (state', c', s')
      | false ↦ loop fuel state' input c' s'
    ]
  ]

-- The prompt is shown again where the shell waits for a command.
pub finish :
    ChannelId → Bool → State × ConnectionState × Session → Shell × ConnectionState × Session
finish ch interactive (prompt, c, s) =
    (record { interactive = interactive; state = prompt }, c, s ▸ data_call ch shell_prompt)
finish ch interactive (state, c, s) = (record { interactive = interactive; state = state }, c, s)

-- A round that does not end the loop leads to a state that does, so two rounds are enough.
unfoldable pub data_received :
    ⦃nom : Nom⦄
    → Shell
    → ConnectionState
    → ChannelId
    → Bytes
    → Session
    → Shell × ConnectionState × Session
unfolding loop finish
data_received shell c ch input s =
    finish ch shell.interactive (loop shell.interactive ch 2 shell.state input c s)
