-- ===== src/Command/Scp.antt =====
-- pisshoff-server/src/command/scp.rs: the receiving side of the scp protocol. The path is the bytes
-- of a `PathBuf`; it is joined from valid texts, so `to_string_lossy` leaves it as it is.
pub mod Messages
pub mod Termination
pub mod Transfers
use pisshoff.Base.{
  ℕ, zero, suc, ◌+◌, ◌*◌, ◌-◌, Bool, true, false, not, ◌&&◌, List, [], ◌∷◌, ◌++◌, Option, none,
  some, Bytes, bytes, beq, length, take, drop, is_empty, ltb, ◌==◌, ◌||◌, Result, ok, err,
  if◌then◌else◌,
}
use pisshoff.Std.Paths.{join_path, pop}
use pisshoff.Audit.{AuditLogAction, write_file}
use pisshoff.Nom.{Nom, IResult}
use pisshoff.Session.{ThrusshSession, ChannelId}
use pisshoff.Connection.{ConnectionState, push}
use pisshoff.Command.Results.{
  CommandResult, read_stdin, exit, Ran, Arg, operand, long, short, argparse,
}
use pisshoff.Command.Scp.Messages.{
  Receive, file_copy, directory_copy, end_directory, access_time, parse,
}

abbrev pub success : Bytes
success = 0 ∷ []

abbrev pub help : Bytes
help =
    bytes
      "usage: scp [-346ABCOpqRrsTv] [-c cipher] [-D sftp_server_path] [-F ssh_config]\n           [-i identity_file] [-J destination] [-l limit] [-o ssh_option]\n           [-P port] [-S program] [-X sftp_option] source ... target\n"

abbrev pub ambiguous_target : Bytes
ambiguous_target = bytes "scp: ambiguous target\n"

pub data State : Type 0 where
  waiting : State
  receiving_file : ℕ → Bytes → State
  awaiting_separator : State

pub record Scp : Type 0 where
  pub path : Bytes
  pub pending_data : Bytes
  pub state : State

-- The loop over the arguments: the last operand and whether `-t` stood there; `none` where an
-- argument is refused.
abbrev pub scan : List Arg → Option Bytes → Bool → Option (Option Bytes × Bool)
scan [] path transfer = some (path, transfer)
scan (operand p ∷ args) path transfer = scan args (some p) transfer
scan (long l ∷ args) path transfer = none
scan (short c ∷ args) path transfer = elim (beq c (bytes "t")) [
  | true ↦ scan args path true
  | false ↦ elim (beq c (bytes "r") || beq c (bytes "v")) [
    | true ↦ scan args path transfer
    | false ↦ none
  ]
]

abbrev pub starts_with_zero : Bytes → Bool
starts_with_zero [] = false
starts_with_zero (b ∷ s) = b == 0

-- What a message does to the path and the state.
pub received : Receive → Scp → Scp
received (file_copy mode size name) scp = record scp {
  state = receiving_file size (join_path scp.path name);
}
received (directory_copy mode size name) scp = record scp {
  path = join_path scp.path name;
  state = waiting;
}
received end_directory scp = record scp { path = pop scp.path; state = waiting }
received (access_time m mm a am) scp = record scp { state = waiting }

-- Each message takes a byte, and between two messages there are at most two rounds more.
abbrev pub enough : Scp → ℕ
enough scp = 3 * length scp.pending_data + 3

-- One round of the loop: the call is refused, or it goes on, or it waits for more data.
pub data Turn (S : Type 0) : Type 0 where
  rejected : Turn S
  going : Scp → ConnectionState → S → Turn S
  starved : Scp → ConnectionState → S → Turn S

module _ ⦃nom : Nom⦄ {S : Type 0} ⦃t : ThrusshSession S⦄ where
  unfoldable pub on_message : IResult Receive → Scp → ConnectionState → ChannelId → S → Turn S
  on_message (err e) scp c ch s = rejected
  on_message (ok (rest, message)) scp c ch s =
      let left = drop (length scp.pending_data - length rest) scp.pending_data in
      going (received message (record scp { pending_data = left })) c (t.data_to ch success s)

  unfoldable pub turn_in : State → Scp → ConnectionState → ChannelId → S → Turn S
  unfolding on_message received
  turn_in waiting scp c ch s = on_message (parse scp.pending_data) scp c ch s
  turn_in (receiving_file size path) scp c ch s =
      if ltb (length scp.pending_data) size
      then starved scp c s
      else going
          (record scp { pending_data = drop size scp.pending_data; state = awaiting_separator })
          (push (write_file (record { path = path; content = take size scp.pending_data })) c) s
  turn_in awaiting_separator scp c ch s =
      if starts_with_zero scp.pending_data
      then going (record scp { pending_data = drop 1 scp.pending_data; state = waiting }) c
          (t.data_to ch success s)
      else going (record scp { state = waiting }) c s

  unfoldable pub after_turn :
      (Scp → ConnectionState → S → Ran Scp S) → ConnectionState → S → Turn S → Ran Scp S
  after_turn again c s rejected = (exit 1, c, s)
  after_turn again c s (going scp' c' s') = again scp' c' s'
  after_turn again c s (starved scp' c' s') = (read_stdin scp', c', s')

  -- The `while` loop, on fuel: at the end of the fuel it would wait for more data.
  unfoldable pub loop : ℕ → Scp → ConnectionState → ChannelId → S → Ran Scp S
  unfolding after_turn
  loop zero scp c ch s = (read_stdin scp, c, s)
  loop (suc fuel) scp c ch s = elim (is_empty scp.pending_data) [
    | true ↦ (read_stdin scp, c, s)
    | false ↦ after_turn (λ scp' c' s'. loop fuel scp' c' ch s') c s (turn_in scp.state scp c ch s)
  ]

  unfoldable pub stdin : Scp → ConnectionState → ChannelId → Bytes → S → Ran Scp S
  unfolding loop turn_in
  stdin scp c ch input s =
      let scp' = record scp { pending_data = scp.pending_data ++ input } in
      loop (enough scp') scp' c ch s

module _ {S : Type 0} ⦃t : ThrusshSession S⦄ where
  unfoldable pub start : Option (Option Bytes × Bool) → ConnectionState → ChannelId → S → Ran Scp S
  start none c ch s = (exit 1, c, t.data_to ch help s)
  start (some (none, transfer)) c ch s = (exit 1, c, t.data_to ch ambiguous_target s)
  start (some (some path, transfer)) c ch s =
      if transfer
      then (
        read_stdin (record { path = join_path [] path; pending_data = []; state = waiting }),
        c,
        t.data_to ch success s,
      )
      else (exit 1, c, t.data_to ch help s)

  unfoldable pub new : ConnectionState → List Bytes → ChannelId → S → Ran Scp S
  unfolding start argparse
  new c params ch s = start (scan (argparse params) none false) c ch s
