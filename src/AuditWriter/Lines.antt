-- ===== src/AuditWriter/Lines.antt =====
-- That no log is lost on the way to the audit file.
use pisshoff.Base.{
  List, [], ◌∷◌, ◌++◌, Option, none, some, Bytes, bytes, Result, ok, err, ◌≡◌, refl, sym, ap, ◌∙◌,
  All, append_assoc, append-nil, subst, Option-cases, inl, inr,
}
use pisshoff.Audit.{AuditLog}
use pisshoff.AuditWriter.Io.{Files, FilesLaws, Prefix, Passes, Empties}
use pisshoff.AuditWriter.Grown.{disk_of, start_audit_writer-Grown}
use pisshoff.AuditWriter.Turns.{
  After, Prefix-append, write_line-After, flush-Passes, reopened-After, slept-After,
}
use pisshoff.AuditWriter.{
  Wake, received, senders_gone, shutdown_signalled, slept, reloaded, all_disabled, Turn, goes_on,
  stops, fails, write_line, reopened, turn, Task, waits, finished, failed, finish, next, loop,
  opened, start_audit_writer,
}

-- The logs that the task takes: those that come before it is to stop.
abbrev pub taken : List Wake → List AuditLog
taken [] = []
taken (received log ∷ wakes) = log ∷ taken wakes
taken (slept ∷ wakes) = taken wakes
taken (reloaded ∷ wakes) = taken wakes
taken (senders_gone ∷ wakes) = []
taken (shutdown_signalled ∷ wakes) = []
taken (all_disabled ∷ wakes) = []

abbrev pub in_front : Option Bytes → Bytes → Bytes
in_front none rest = []
in_front (some json) rest = json ++ b'\n' ∷ rest

module _ (to_vec : AuditLog → Option Bytes) where
  -- The lines of some logs, up to one that has no text.
  abbrev pub lines : List AuditLog → Bytes
  lines [] = []
  lines (log ∷ logs) = in_front (to_vec log) (lines logs)

  abbrev pub HasText : AuditLog → Type 0
  HasText log = (json : Bytes) × (to_vec log ≡ some json)

module _ (files : Files) (laws : FilesLaws files) (to_vec : AuditLog → Option Bytes) where
  open laws use {arrived}

  -- What they have of the task, with `A` where it has returned no error: where it has returned, the buffer
  -- has been written as well.
  abbrev pub Written : Bytes → Type 0 → Task files to_vec → Type 0
  Written t A (waits w d) = (arrived d ++ files.buffer w ≡ t) × A
  Written t A (finished d) = (arrived d ≡ t) × A
  Written t A (failed e d) = Prefix (arrived d) t

  finish-Written :
      (t : Bytes) (r : Result files.IoError files.Writer × files.Disk)
      → Passes files arrived t r
      → Empties files r
      → Written t Unit (finish files to_vec r)
  finish-Written t (ok w, d) p e =
      (sym (append-nil (arrived d)) ∙ ap (λ (x : Bytes). arrived d ++ x) (sym e) ∙ p, tt)
  finish-Written t (err e, d) p tt = p

  Written-map :
      (t t' : Bytes) (A B : Type 0) (task : Task files to_vec)
      → t ≡ t'
      → (A → B)
      → Written t A task
      → Written t' B task
  Written-map t t' A B (waits w d) e f (h, a) = (h ∙ e, f a)
  Written-map t t' A B (finished d) e f (h, a) = (h ∙ e, f a)
  Written-map t t' A B (failed x d) e f h = subst (Prefix (arrived d)) e h

  -- One turn, and the turns after it.
  next-Written :
      (t u : Bytes) (A : Type 0) (f : files.Writer → files.Disk → Task files to_vec)
      (r : Turn files to_vec)
      → After files laws to_vec t r
      → ((w : files.Writer) (d : files.Disk)
          → arrived d ++ files.buffer w ≡ t
          → Written (t ++ u) A (f w d))
      → Written (t ++ u) A (next files to_vec f r)
  next-Written t u A f (goes_on w d) h go = go w d h
  next-Written t u A f (stops w d) h go = absurd h
  next-Written t u A f (fails e d) h go = Prefix-append files laws to_vec (arrived d) t u h

  stops-Written :
      (w : files.Writer) (d : files.Disk) (t : Bytes)
      (f : files.Writer → files.Disk → Task files to_vec)
      → arrived d ++ files.buffer w ≡ t
      → Written (t ++ []) Unit (next files to_vec f (stops w d))
  stops-Written w d t f h = rw (append-nil t) (
      finish-Written t (files.flush w d) (flush-Passes files laws to_vec w d t h)
        (laws.flush_empties w d))

  received-Written :
      (log : AuditLog) (w : files.Writer) (d : files.Disk) (t u : Bytes) (A : Type 0)
      (f : files.Writer → files.Disk → Task files to_vec)
      → arrived d ++ files.buffer w ≡ t
      → ((json : Bytes) (w : files.Writer) (d : files.Disk)
          → arrived d ++ files.buffer w ≡ t ++ json ++ bytes "\n"
          → Written (t ++ json ++ bytes "\n" ++ u) A (f w d))
      → Written
          (t ++ in_front (to_vec log) u)
          (HasText to_vec log × A)
          (next files to_vec f (turn files to_vec (received log) w d))
  unfolding turn write_line
  received-Written log w d t u A f h go = elim (Option-cases (to_vec log)) [
    | inl no_text ↦ rw (no_text, append-nil t, ← h) (record { rest = files.buffer w; whole = refl })
    | inr (json, e) ↦ rw e (
        Written-map (t ++ json ++ bytes "\n" ++ u) (t ++ (json ++ b'\n' ∷ u)) A _ _
          (append_assoc (t ++ json) (bytes "\n") u ∙ append_assoc t json (b'\n' ∷ u))
          (λ a. ((json, refl), a))
          (next-Written (t ++ json ++ bytes "\n") u A f (write_line files to_vec (some json) w d)
            (write_line-After files laws to_vec json w d t h) (go json)))
  ]

  loop-Written :
      (wakes : List Wake) (w : files.Writer) (d : files.Disk) (t : Bytes)
      → arrived d ++ files.buffer w ≡ t
      → Written
          (t ++ lines to_vec (taken wakes))
          (All (HasText to_vec) (taken wakes))
          (loop files to_vec wakes w d)
  unfolding loop turn
  loop-Written [] w d t h = (h ∙ sym (append-nil t), tt)
  loop-Written (received log ∷ wakes) w d t h =
      received-Written log w d t (lines to_vec (taken wakes)) (All (HasText to_vec) (taken wakes))
        (loop files to_vec wakes) h (λ json w d. loop-Written wakes w d (t ++ json ++ bytes "\n"))
  loop-Written (slept ∷ wakes) w d t h =
      next-Written t _ _ _ (turn files to_vec slept w d) (slept-After files laws to_vec w d t h)
        (λ w d. loop-Written wakes w d t)
  loop-Written (reloaded ∷ wakes) w d t h =
      next-Written t _ _ _ (reopened files to_vec w d) (reopened-After files laws to_vec w d t h)
        (λ w d. loop-Written wakes w d t)
  loop-Written (senders_gone ∷ wakes) w d t h = stops-Written w d t (loop files to_vec wakes) h
  loop-Written (shutdown_signalled ∷ wakes) w d t h =
      stops-Written w d t (loop files to_vec wakes) h
  loop-Written (all_disabled ∷ wakes) w d t h = stops-Written w d t (loop files to_vec wakes) h

  -- Whatever wakes the task up: the audit file and the buffer have the lines of all logs that it has
  -- taken, in their order and behind what was there, also across a reopening of the file. Once the
  -- task has returned, the file alone has them; where it has returned an error, the file has what was
  -- there and a first part of the lines; no log without a text is passed over.
  pub start_audit_writer-Written :
      (wakes : List Wake) (d : files.Disk)
      → Written
          (arrived d ++ lines to_vec (taken wakes))
          (All (HasText to_vec) (taken wakes))
          (start_audit_writer files to_vec wakes d)
        × Prefix
            (arrived d)
            (arrived (disk_of files laws to_vec (start_audit_writer files to_vec wakes d)))
  unfolding start_audit_writer
  start_audit_writer-Written wakes d = (
    first (files.open_append d) (laws.open_append_passes d),
    start_audit_writer-Grown files laws to_vec wakes d,
  )
    where
      first :
          (r : Result files.IoError files.Writer × files.Disk)
          → Passes files arrived (arrived d) r
          → Written
              (arrived d ++ lines to_vec (taken wakes))
              (All (HasText to_vec) (taken wakes))
              (opened files to_vec (loop files to_vec wakes) r)
      first (ok w, d') p = loop-Written wakes w d' (arrived d) p
      first (err e, d') p =
          Prefix-append files laws to_vec (arrived d') (arrived d) (lines to_vec (taken wakes)) p
