-- ===== src/Command/Cat.antt =====
-- pisshoff-server/src/command/cat.rs. What it prints on the server's own stderr is left out.
pub mod Runs
use pisshoff.Base.{
  ℕ, List, [], ◌∷◌, ◌++◌, Bytes, bytes, beq, is_empty, Result, ok, err, if◌then◌else◌,
}
use pisshoff.Session.{ThrusshSession, ChannelId}
use pisshoff.Connection.{ConnectionState, file_system}
use pisshoff.FileSystem.{read}
use pisshoff.FileSystem.Nodes.{LsError, message}
use pisshoff.Command.Results.{read_stdin, exit, Ran}

pub record Cat : Type 0 where
  pub remaining_params : List Bytes
  pub status : ℕ

-- What is sent for a file, and the exit status after it.
pub shown : Bytes → ℕ → Result LsError Bytes → Bytes × ℕ
shown param status (ok content) = (content, status)
shown param status (err e) = (bytes "cat: " ++ (param ++ (bytes ": " ++ message e)), 1)

module _ {S : Type 0} ⦃t : ThrusshSession S⦄ where
  -- The loop of `run` over the parameters that remain.
  unfoldable pub run : List Bytes → ℕ → ConnectionState → ChannelId → S → Ran Cat S
  unfolding shown
  run [] status c ch s = (exit status, c, s)
  run (param ∷ params) status c ch s =
      let (fs, c') = file_system c in
      let (out, status') = shown param status (read param fs) in
      let rest = run params status' c' ch (t.data_to ch out s) in
      if beq param (bytes "-")
      then (read_stdin (record { remaining_params = params; status = status }), c, s)
      else rest

  unfoldable pub new : ConnectionState → List Bytes → ChannelId → S → Ran Cat S
  unfolding run
  new c params ch s =
      if is_empty params
      then (read_stdin (record { remaining_params = params; status = 0 }), c, s)
      else run params 0 c ch s

  unfoldable pub stdin : Cat → ConnectionState → ChannelId → Bytes → S → Ran Cat S
  unfolding run
  stdin cmd c ch input s = run cmd.remaining_params cmd.status c ch (t.data_to ch input s)
