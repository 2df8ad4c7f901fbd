-- ===== src/AuditWriter.antt =====
-- pisshoff-server/src/audit.rs: the task that writes the logs of ended connections to the audit file,
-- one line each. Files and buffered writers are those of the crate tokio, and a log becomes text by
-- the crate serde_json: both are parameters.
pub mod Io
pub mod Turns
pub mod Grown
pub mod Lines
pub mod Ends
pub mod Continued
pub mod Memory
mod Tests
use pisshoff.Base.{
  Bool, List, [], ◌∷◌, ◌++◌, Option, none, some, Bytes, bytes, Result, ok, err, is_empty,
  if◌then◌else◌,
}
use pisshoff.Audit.{AuditLog}
use pisshoff.AuditWriter.Io.{Files}

-- What the `select!` of the loop wakes up for: a log that was sent, the end of all senders, the signal
-- to shut down or the loss of its sender, five seconds without anything else, a request to reopen the
-- file, and that every branch is disabled.
pub data Wake : Type 0 where
  received : AuditLog → Wake
  senders_gone shutdown_signalled slept reloaded all_disabled : Wake

module _ (files : Files) (to_vec : AuditLog → Option Bytes) where
  open files use {Disk, Writer, IoError}

  -- A turn of the loop goes on, or sets `shutdown`, or returns an error.
  pub data Turn : Type 0 where
    goes_on : Writer → Disk → Turn
    stops : Writer → Disk → Turn
    fails : IoError → Disk → Turn

  -- The operator `?` on an operation that has changed the disk.
  abbrev pub and_then : {A : Type 0} → Result IoError A × Disk → (A → Disk → Turn) → Turn
  and_then (ok a, d) f = f a d
  and_then (err e, d) f = fails e d

  pub write_line : Option Bytes → Writer → Disk → Turn
  write_line none w d = fails files.other d
  write_line (some json) w d =
      and_then (files.write_all json w d) λ w d. and_then (files.write_all (bytes "\n") w d) goes_on

  pub reopened : Writer → Disk → Turn
  reopened w d = and_then (files.flush w d) λ w d. and_then (files.open_append d) goes_on

  unfoldable pub turn : Wake → Writer → Disk → Turn
  unfolding write_line reopened
  turn (received log) w d = write_line (to_vec log) w d
  turn senders_gone w d = stops w d
  turn shutdown_signalled w d = stops w d
  turn slept w d =
      if is_empty (files.buffer w) then goes_on w d else and_then (files.flush w d) goes_on
  turn reloaded w d = reopened w d
  turn all_disabled w d = stops w d

  -- What has become of the task: it waits in `select!`, or it has returned.
  pub data Task : Type 0 where
    waits : Writer → Disk → Task
    finished : Disk → Task
    failed : IoError → Disk → Task

  -- The flush behind the loop.
  abbrev pub finish : Result IoError Writer × Disk → Task
  finish (ok w, d) = finished d
  finish (err e, d) = failed e d

  abbrev pub next : (Writer → Disk → Task) → Turn → Task
  next f (goes_on w d) = f w d
  next f (stops w d) = finish (files.flush w d)
  next f (fails e d) = failed e d

  -- The loop, woken up for these reasons one after the other.
  unfoldable pub loop : List Wake → Writer → Disk → Task
  loop [] w d = waits w d
  loop (wake ∷ wakes) w d = next (loop wakes) (turn wake w d)

  abbrev pub opened : (Writer → Disk → Task) → Result IoError Writer × Disk → Task
  opened f (ok w, d) = f w d
  opened f (err e, d) = failed e d

  -- `start_audit_writer`
  unfoldable pub start_audit_writer : List Wake → Disk → Task
  start_audit_writer wakes d = opened (loop wakes) (files.open_append d)
