-- ===== src/Command/Ls.antt =====
-- pisshoff-server/src/command/ls.rs
use pisshoff.Base.{
  Bool, true, false, List, [], ◌∷◌, ◌++◌, none, some, Bytes, bytes, join, is_empty, Result, ok, err,
  if◌then◌else◌,
}
use pisshoff.Std.Chars.{trim}
use pisshoff.Session.{ThrusshSession, ChannelId}
use pisshoff.Connection.{ConnectionState, file_system}
use pisshoff.FileSystem.{FileSystem, ls}
use pisshoff.FileSystem.Nodes.{LsError, message}
use pisshoff.Command.Results.{exit, Ran}

pub data Ls : Type 0 where
  ls_command : Ls

-- What is written so far, and whether anything failed.
abbrev pub Report : Type 0
Report = Bytes × Bool

-- The answer for one directory, behind a heading, or the error under its name.
pub answer : Bytes → Bytes → Result LsError (List Bytes) → Report
answer heading shown (ok names) = (heading ++ join (bytes "  ") names, false)
answer heading shown (err e) = (bytes "ls: " ++ (shown ++ (bytes ": " ++ message e)), true)

-- The loop over several directories.
pub list_each : FileSystem → List Bytes → Report → Report
unfolding answer
list_each fs [] r = r
list_each fs (dir ∷ dirs) (out, error) =
    let out = if is_empty out then out else out ++ bytes "\n" in
    let (text, failed) = answer (dir ++ bytes ":\n") dir (ls (some dir) fs) in
    list_each fs dirs (out ++ text, if failed then true else error)

report : FileSystem → List Bytes → Report
unfolding answer list_each
report fs [] = answer [] fs.pwd (ls none fs)
report fs (dir ∷ []) = answer [] dir (ls (some dir) fs)
report fs (dir ∷ dir' ∷ dirs) = list_each fs (dir ∷ dir' ∷ dirs) ([], false)

module _ {S : Type 0} ⦃t : ThrusshSession S⦄ where
  unfoldable pub new : ConnectionState → List Bytes → ChannelId → S → Ran Ls S
  unfolding report
  new c params ch s =
      let (fs, c') = file_system c in
      let (resp, error) = report fs params in
      (
        exit (if error then 1 else 0),
        c',
        if is_empty resp then s else t.data_to ch (trim resp ++ bytes "\n") s,
      )

  unfoldable pub stdin : Ls → ConnectionState → ChannelId → Bytes → S → Ran Ls S
  stdin cmd c ch input s = (exit 0, c, s)
