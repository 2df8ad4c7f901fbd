-- ===== src/Main/Recorded.antt =====
-- What is in the audit file, whatever the program does.
use pisshoff.Base.{Bool, List, [], ◌++◌, Option, some, Bytes, ◌≡◌, take, All, Pairs}
use pisshoff.Nom.{Nom}
use pisshoff.Audit.{AuditLog}
use pisshoff.Sftp.{Uuids}
use pisshoff.Server.{Server}
use pisshoff.Server.Lives.Histories.{IsLogOf, ends}
use pisshoff.Server.Lives.Sent.{happen_all-sent}
use pisshoff.AuditWriter.Io.{Files, FilesLaws, Prefix}
use pisshoff.AuditWriter.Grown.{disk_of}
use pisshoff.AuditWriter.Lines.{lines, HasText, Written, start_audit_writer-Written}
use pisshoff.Main.{Program, Step, begin, steps}
use pisshoff.Main.Phases.{happenings, Fits}
use pisshoff.Main.Invariants.{begin-Inv}
use pisshoff.Main.Acts.{steps-Inv}

module _ {F64 : Type 0} (at_most : F64 → F64 → Bool) ⦃nom : Nom⦄ ⦃uuids : Uuids⦄ (files : Files)
    (laws : FilesLaws files) (to_vec : AuditLog → Option Bytes) where
  abbrev pub taken_logs : Program at_most files to_vec → List AuditLog
  taken_logs p = take p.taken p.world.sent

  -- Whatever the order in which connections begin, do things and end, signals arrive and the writer
  -- of the audit log wakes up: the audit file and the buffer have the lines of the first of the logs
  -- of the connections that have ended, in the order of the ends and behind what was there; each is
  -- the log of what its connection did. Where run has returned without an error, the writer has
  -- finished, and the file alone has these lines; where the writer has failed, the file has what was
  -- there and a first part of the lines; and run does not wait for a writer that has finished before.
  pub steps-Written :
      (server : Server at_most) (hostname : Bytes) (d : files.Disk)
      (ss : List (Step at_most files to_vec)) (p : Program at_most files to_vec)
      → steps at_most files to_vec ss (begin at_most files to_vec server hostname d) ≡ some p
      → Written files laws to_vec
          (laws.arrived d ++ lines to_vec (taken_logs p))
          (All (HasText to_vec) (taken_logs p))
          p.task
        × Pairs
            (IsLogOf at_most hostname (happenings at_most files to_vec ss))
            (ends at_most (happenings at_most files to_vec ss))
            p.world.sent
        × Prefix (laws.arrived d) (laws.arrived (disk_of files laws to_vec p.task))
        × Fits at_most files to_vec p.phase p.shutdown p.task
  steps-Written server hostname d ss p e =
      let i =
        steps-Inv at_most files to_vec server hostname d [] ss
          (begin at_most files to_vec server hostname d) p
          (begin-Inv at_most files to_vec server hostname d) e in
      (
        rw (i.task_same, ← i.took) ((start_audit_writer-Written files laws to_vec i.wakes d).0),
        happen_all-sent at_most server hostname _ p.world i.lived,
        rw i.task_same ((start_audit_writer-Written files laws to_vec i.wakes d).1),
        i.fits,
      )
