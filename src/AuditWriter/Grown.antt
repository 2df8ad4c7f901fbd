-- ===== src/AuditWriter/Grown.antt =====
-- That the task takes nothing back of what has arrived in the audit file.
use pisshoff.Base.{
  List, [], ◌∷◌, ◌++◌, Option, none, some, Bytes, bytes, Result, ok, err, sym, ap, ◌∙◌,
  append_assoc, append-nil, Bool-cases, inl, inr, is_empty,
}
use pisshoff.Audit.{AuditLog}
use pisshoff.AuditWriter.Io.{Files, FilesLaws, Prefix}
use pisshoff.AuditWriter.{
  Wake, received, senders_gone, shutdown_signalled, slept, reloaded, all_disabled, Turn, goes_on,
  stops, fails, and_then, write_line, reopened, turn, Task, waits, finished, failed, finish, next,
  loop, opened, start_audit_writer,
}

Prefix-refl : (s : Bytes) → Prefix s s
Prefix-refl s = record { rest = []; whole = append-nil s }

Prefix-trans : (s t u : Bytes) → Prefix s t → Prefix t u → Prefix s u
Prefix-trans s t u p q = record {
  rest = p.rest ++ q.rest;
  whole = sym (append_assoc s p.rest q.rest) ∙ ap (λ (x : Bytes). x ++ q.rest) p.whole ∙ q.whole;
}

module _ (files : Files) (laws : FilesLaws files) (to_vec : AuditLog → Option Bytes) where
  open laws use {arrived}

  abbrev disk_of_turn : Turn files to_vec → files.Disk
  disk_of_turn (goes_on w d) = d
  disk_of_turn (stops w d) = d
  disk_of_turn (fails e d) = d

  abbrev pub disk_of : Task files to_vec → files.Disk
  disk_of (waits w d) = d
  disk_of (finished d) = d
  disk_of (failed e d) = d

  abbrev Grown : files.Disk → files.Disk → Type 0
  Grown d d' = Prefix (arrived d) (arrived d')

  and_then-Grown :
      (d : files.Disk) (r : Result files.IoError files.Writer × files.Disk)
      (f : files.Writer → files.Disk → Turn files to_vec)
      → Grown d r.1
      → ((w : files.Writer) (d' : files.Disk) → Grown d' (disk_of_turn (f w d')))
      → Grown d (disk_of_turn (and_then files to_vec r f))
  and_then-Grown d (ok w, d') f p h = Prefix-trans _ _ _ p (h w d')
  and_then-Grown d (err e, d') f p h = p

  write_line-Grown :
      (json : Option Bytes) (w : files.Writer) (d : files.Disk)
      → Grown d (disk_of_turn (write_line files to_vec json w d))
  unfolding write_line
  write_line-Grown none w d = Prefix-refl (arrived d)
  write_line-Grown (some json) w d =
      and_then-Grown d (files.write_all json w d) _ (laws.write_all_grows json w d) (λ w' d'.
        and_then-Grown d' (files.write_all (bytes "\n") w' d') goes_on
          (laws.write_all_grows (bytes "\n") w' d') (λ w d. Prefix-refl (arrived d)))

  turn-Grown :
      (wake : Wake) (w : files.Writer) (d : files.Disk)
      → Grown d (disk_of_turn (turn files to_vec wake w d))
  unfolding turn reopened
  turn-Grown (received log) w d = write_line-Grown (to_vec log) w d
  turn-Grown slept w d = elim (Bool-cases (is_empty (files.buffer w))) [
    | inl nothing ↦ rw nothing (Prefix-refl (arrived d))
    | inr something ↦ rw something (
        and_then-Grown d (files.flush w d) goes_on (laws.flush_grows w d)
          (λ w d. Prefix-refl (arrived d)))
  ]
  turn-Grown reloaded w d = and_then-Grown d (files.flush w d) _ (laws.flush_grows w d) (λ w' d'.
      and_then-Grown d' (files.open_append d') goes_on (laws.open_append_grows d')
        (λ w d. Prefix-refl (arrived d)))
  turn-Grown senders_gone w d = Prefix-refl (arrived d)
  turn-Grown shutdown_signalled w d = Prefix-refl (arrived d)
  turn-Grown all_disabled w d = Prefix-refl (arrived d)

  finish-Grown :
      (d : files.Disk) (r : Result files.IoError files.Writer × files.Disk)
      → Grown d r.1
      → Grown d (disk_of (finish files to_vec r))
  finish-Grown d (ok w, d') p = p
  finish-Grown d (err e, d') p = p

  next-Grown :
      (d : files.Disk) (f : files.Writer → files.Disk → Task files to_vec) (r : Turn files to_vec)
      → Grown d (disk_of_turn r)
      → ((w : files.Writer) (d' : files.Disk) → Grown d' (disk_of (f w d')))
      → Grown d (disk_of (next files to_vec f r))
  next-Grown d f (goes_on w d') p h = Prefix-trans _ _ _ p (h w d')
  next-Grown d f (stops w d') p h =
      finish-Grown d (files.flush w d') (Prefix-trans _ _ _ p (laws.flush_grows w d'))
  next-Grown d f (fails e d') p h = p

  loop-Grown :
      (wakes : List Wake) (w : files.Writer) (d : files.Disk)
      → Grown d (disk_of (loop files to_vec wakes w d))
  unfolding loop
  loop-Grown [] w d = Prefix-refl (arrived d)
  loop-Grown (wake ∷ wakes) w d =
      next-Grown d (loop files to_vec wakes) (turn files to_vec wake w d) (turn-Grown wake w d)
        (loop-Grown wakes)

  -- Whatever wakes the task up, and whatever fails.
  pub start_audit_writer-Grown :
      (wakes : List Wake) (d : files.Disk)
      → Prefix (arrived d) (arrived (disk_of (start_audit_writer files to_vec wakes d)))
  unfolding start_audit_writer
  start_audit_writer-Grown wakes d = first (files.open_append d) (laws.open_append_grows d)
    where
      first :
          (r : Result files.IoError files.Writer × files.Disk)
          → Grown d r.1
          → Grown d (disk_of (opened files to_vec (loop files to_vec wakes) r))
      first (ok w, d') p = Prefix-trans _ _ _ p (loop-Grown wakes w d')
      first (err e, d') p = p
