-- ===== src/AuditWriter/Tests.antt =====
-- Runs of the task that writes the logs, on a disk in memory.
use pisshoff.Base.{List, [], ◌∷◌, ◌++◌, Option, none, some, Bytes, bytes, ◌≡◌, refl, All}
use pisshoff.Audit.{AuditLog, default}
use pisshoff.AuditWriter.{
  Wake, received, shutdown_signalled, slept, reloaded, finished, start_audit_writer, loop, turn,
}
use pisshoff.AuditWriter.Io.{Prefix}
use pisshoff.AuditWriter.Grown.{disk_of}
use pisshoff.AuditWriter.Memory.{memory, memory-FilesLaws}
use pisshoff.AuditWriter.Lines.{taken, lines, HasText, Written, start_audit_writer-Written}
use pisshoff.AuditWriter.Ends.{HasReturned, start_audit_writer-ends}

-- The host of a log as its text, where it has one.
abbrev to_vec : AuditLog → Option Bytes
to_vec log = elim log.host [ [] ↦ none | c ∷ cs ↦ some (c ∷ cs) ]

abbrev log : Bytes → AuditLog
log host = record (default 0 (λ n. n)) { host = host }

abbrev wakes : List Wake
wakes = received (log (bytes "one")) ∷ slept ∷ received (log (bytes "two")) ∷ reloaded ∷ []

two_lines :
    start_audit_writer memory to_vec (wakes ++ shutdown_signalled ∷ []) (bytes "zero\n")
    ≡ finished (bytes "zero\none\ntwo\n")
unfolding start_audit_writer loop turn
two_lines = refl

start_audit_writer-Written_example :
    Written memory memory-FilesLaws to_vec
      (bytes "zero\n" ++ lines to_vec (taken wakes))
      (All (HasText to_vec) (taken wakes))
      (start_audit_writer memory to_vec wakes (bytes "zero\n"))
    × Prefix (bytes "zero\n") (
        disk_of memory memory-FilesLaws to_vec
          (start_audit_writer memory to_vec wakes (bytes "zero\n")))
start_audit_writer-Written_example =
    start_audit_writer-Written memory memory-FilesLaws to_vec wakes (bytes "zero\n")

-- The last log is sent too late.
start_audit_writer-ends_example :
    HasReturned memory to_vec (
      start_audit_writer memory to_vec
        (wakes ++ shutdown_signalled ∷ received (log (bytes "three")) ∷ [])
        (bytes "zero\n"))
    × (start_audit_writer memory to_vec
          (wakes ++ shutdown_signalled ∷ received (log (bytes "three")) ∷ [])
          (bytes "zero\n")
        ≡ start_audit_writer memory to_vec (wakes ++ shutdown_signalled ∷ []) (bytes "zero\n"))
start_audit_writer-ends_example =
    start_audit_writer-ends memory to_vec wakes shutdown_signalled
      (received (log (bytes "three")) ∷ []) (bytes "zero\n") tt
