-- ===== src/Main.antt =====
-- pisshoff-server/src/main.rs: the program with all its tasks, and what makes `run` return. The
-- connections are those of Server.Lives, the writer of the audit log is that of AuditWriter; between
-- them is the channel of logs, which is the logs that have been sent and how many were taken.
pub mod Phases
pub mod Invariants
pub mod Acts
pub mod Recorded
pub mod Returns
pub mod Exported
mod Tests
use pisshoff.Base.{
  ℕ, zero, suc, Bool, true, false, List, [], ◌∷◌, Option, none, some, Bytes, Result, ok, err,
  get_elem?, length, leb, is_empty, ◌&&◌, if◌then◌else◌,
}
use pisshoff.Nom.{Nom}
use pisshoff.Audit.{AuditLog}
use pisshoff.Sftp.{Uuids}
use pisshoff.Server.{Server}
use pisshoff.Server.Lives.{World, Happening, happen, started}
use pisshoff.AuditWriter.Io.{Files}
use pisshoff.AuditWriter.{
  Wake, received, senders_gone, shutdown_signalled, slept, reloaded, Task, waits, finished, failed,
  turn, next, start_audit_writer,
}

module _ {F64 : Type 0} (at_most : F64 → F64 → Bool) (files : Files)
    (to_vec : AuditLog → Option Bytes) where
  -- What `run` fails with: the server, the writer, or one of the two that watch for signals.
  pub data Failure : Type 0 where
    server_failed : Failure
    writer_failed : files.IoError → Failure
    watcher_failed : Failure

  -- Where `run` is: in its `select!`, in the wait for the writer behind it, behind that, or in a wait
  -- for a writer whose end it has seen already, which never ends.
  pub data Phase : Type 0 where
    selecting : Phase
    finishing : Phase
    returned : Result Failure (Unit {0}) → Phase
    stuck : Phase

  -- `taken` is the number of logs that the writer has taken, and the flags are the signals that it
  -- has not seen yet.
  pub record Program : Type 0 where
    pub world : World at_most
    pub taken : ℕ
    pub reload : Bool
    pub shutdown : Bool
    pub task : Task files to_vec
    pub phase : Phase

  -- Something happens to a connection; the writer wakes up for a log, after five seconds, to reopen
  -- its file, to shut down, or as no sender is left; SIGHUP and ctrl-c arrive; the server ends, or
  -- what watches for SIGHUP; and `run` sees that the writer has ended.
  pub data Step : Type 0 where
    happens : Happening at_most → Step
    takes sleeps hangs_up reopens shuts_down loses_senders joins : Step
    interrupted server_ends watcher_ends : Result Failure (Unit {0}) → Step

  -- `audit_handle` in the `select!`, and in the wait behind it, which is for the same handle: `??`.
  unfoldable pub settled : Phase → Result files.IoError (Unit {0}) → Phase
  settled selecting (ok u) = stuck
  settled selecting (err e) = returned (err (writer_failed e))
  settled finishing (ok u) = returned (ok u)
  settled finishing (err e) = returned (err (writer_failed e))
  settled (returned r) j = returned r
  settled stuck j = stuck

  abbrev pub join : Program → Task files to_vec → Option Program
  join p (waits w d) = none
  join p (finished d) = some (record p { phase = settled p.phase (ok tt) })
  join p (failed e d) = some (record p { phase = settled p.phase (err e) })

  -- The writer goes on with this reason.
  abbrev pub woken : Wake → Program → Task files to_vec → Option Program
  woken wake p (finished d) = none
  woken wake p (failed e d) = none
  woken wake p (waits w d) =
      some (record p { task = next files to_vec waits (turn files to_vec wake w d) })

  -- `res?` in the `select!`: an error is returned, else the senders of both signals are gone, which
  -- is a signal to shut down too.
  abbrev pub selected : Program → Phase → Result Failure (Unit {0}) → Option Program
  selected p selecting (ok u) = some (record p { phase = finishing; shutdown = true })
  selected p selecting (err e) = some (record p { phase = returned (err e) })
  selected p _ r = none

  abbrev pub take_one : Program → Option AuditLog → Option Program
  take_one p none = none
  take_one p (some log) = woken (received log) (record p { taken = suc p.taken }) p.task

  abbrev pub signal_reload : Program → Phase → Option Program
  signal_reload p selecting = some (record p { reload = true })
  signal_reload p _ = none

  abbrev pub lose_senders : Program → Phase → Option Program
  lose_senders p finishing =
      if is_empty p.world.clients && leb (length p.world.sent) p.taken
      then woken senders_gone p p.task
      else none
  lose_senders p _ = none

  abbrev pub with_world : Program → Option (World at_most) → Option Program
  with_world p none = none
  with_world p (some w) = some (record p { world = w })

  -- `main`: the status with which the process exits.
  unfoldable pub exit_status : Phase → Option ℕ
  exit_status (returned (ok u)) = some 0
  exit_status (returned (err e)) = some 1
  exit_status _ = none

  -- `run`, up to its `select!`.
  unfoldable pub begin : Server at_most → Bytes → files.Disk → Program
  begin server hostname d = record {
    world = started at_most server hostname;
    taken = 0;
    reload = false;
    shutdown = false;
    task = start_audit_writer files to_vec [] d;
    phase = selecting;
  }

  abbrev pub is_returned : Phase → Bool
  is_returned (returned r) = true
  is_returned _ = false

module _ {F64 : Type 0} (at_most : F64 → F64 → Bool) ⦃nom : Nom⦄ ⦃uuids : Uuids⦄ (files : Files)
    (to_vec : AuditLog → Option Bytes) where
  -- Connections go on after the `select!` too; the model lets them begin then as well.
  unfoldable pub act :
      Step at_most files to_vec
      → Program at_most files to_vec
      → Option (Program at_most files to_vec)
  act (happens h) p = with_world at_most files to_vec p (happen at_most h p.world)
  act takes p = take_one at_most files to_vec p (get_elem? p.world.sent p.taken)
  act sleeps p = woken at_most files to_vec slept p p.task
  act hangs_up p = signal_reload at_most files to_vec p p.phase
  act reopens p =
      if p.reload
      then woken at_most files to_vec reloaded (record p { reload = false }) p.task
      else none
  act shuts_down p =
      if p.shutdown then woken at_most files to_vec shutdown_signalled p p.task else none
  act loses_senders p = lose_senders at_most files to_vec p p.phase
  act joins p = join at_most files to_vec p p.task
  act (interrupted r) p = selected at_most files to_vec p p.phase r
  act (server_ends r) p = selected at_most files to_vec p p.phase r
  act (watcher_ends r) p = selected at_most files to_vec p p.phase r

  -- There is no result where the step cannot be taken, as where the program has returned.
  unfoldable pub step :
      Step at_most files to_vec
      → Program at_most files to_vec
      → Option (Program at_most files to_vec)
  unfolding act
  step s p = if is_returned at_most files to_vec p.phase then none else act s p

  abbrev pub and_then :
      (Program at_most files to_vec → Option (Program at_most files to_vec))
      → Option (Program at_most files to_vec)
      → Option (Program at_most files to_vec)
  and_then f none = none
  and_then f (some p) = f p

  abbrev pub steps :
      List (Step at_most files to_vec)
      → Program at_most files to_vec
      → Option (Program at_most files to_vec)
  steps [] p = some p
  steps (s ∷ ss) p = and_then (steps ss) (step s p)
