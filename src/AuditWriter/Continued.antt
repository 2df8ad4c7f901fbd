-- ===== src/AuditWriter/Continued.antt =====
-- The task that writes the logs, woken up once more.
use pisshoff.Base.{
  List, [], ◌∷◌, ◌++◌, Option, Bytes, Result, ok, err, ◌≡◌, ◌≢◌, refl, ap, ◌∙◌, arith, bytes, some,
  none, is_empty, Bool-cases, inl, inr,
}
use pisshoff.Audit.{AuditLog}
use pisshoff.AuditWriter.Io.{Files}
use pisshoff.AuditWriter.{
  Wake, received, senders_gone, shutdown_signalled, slept, reloaded, all_disabled, Turn, goes_on,
  stops, fails, and_then, write_line, reopened, turn, Task, waits, finished, failed, finish, next,
  loop, opened, start_audit_writer,
}
use pisshoff.AuditWriter.Lines.{taken}

-- The reasons to wake up that do not end the task.
abbrev pub GoesOn : Wake → Type 0
GoesOn (received log) = Unit
GoesOn slept = Unit
GoesOn reloaded = Unit
GoesOn _ = ⊥

module _ (files : Files) (to_vec : AuditLog → Option Bytes) where
  abbrev pub IsUnfinished : Task files to_vec → Type 0
  IsUnfinished (waits w d) = Unit
  IsUnfinished (finished d) = ⊥
  IsUnfinished (failed e d) = Unit

  abbrev Unstopped : Turn files to_vec → Type 0
  Unstopped r = IsUnfinished (next files to_vec waits r)

  and_then-Unstopped :
      (r : Result files.IoError files.Writer × files.Disk)
      (f : files.Writer → files.Disk → Turn files to_vec)
      → ((w : files.Writer) (d : files.Disk) → Unstopped (f w d))
      → Unstopped (and_then files to_vec r f)
  and_then-Unstopped (ok w, d) f h = h w d
  and_then-Unstopped (err e, d) f h = tt

  write_line-Unstopped :
      (json : Option Bytes) (w : files.Writer) (d : files.Disk)
      → Unstopped (write_line files to_vec json w d)
  unfolding write_line
  write_line-Unstopped none w d = tt
  write_line-Unstopped (some json) w d =
      and_then-Unstopped (files.write_all json w d) _
        (λ w d. and_then-Unstopped (files.write_all (bytes "\n") w d) goes_on (λ w d. tt))

  -- These do not end it, but by an error.
  pub turn-IsUnfinished :
      (wake : Wake) (w : files.Writer) (d : files.Disk)
      → GoesOn wake
      → IsUnfinished (next files to_vec waits (turn files to_vec wake w d))
  unfolding turn reopened
  turn-IsUnfinished (received log) w d h = write_line-Unstopped (to_vec log) w d
  turn-IsUnfinished slept w d h = elim (Bool-cases (is_empty (files.buffer w))) [
    | inl nothing ↦ rw nothing tt
    | inr something ↦ rw something (and_then-Unstopped (files.flush w d) goes_on (λ w d. tt))
  ]
  turn-IsUnfinished reloaded w d h =
      and_then-Unstopped (files.flush w d) _
        (λ w d. and_then-Unstopped (files.open_append d) goes_on (λ w d. tt))
  turn-IsUnfinished senders_gone w d h = absurd h
  turn-IsUnfinished shutdown_signalled w d h = absurd h
  turn-IsUnfinished all_disabled w d h = absurd h

  pub begin-IsUnfinished : (d : files.Disk) → IsUnfinished (start_audit_writer files to_vec [] d)
  unfolding start_audit_writer loop
  begin-IsUnfinished d = first (files.open_append d)
    where
      first :
          (r : Result files.IoError files.Writer × files.Disk)
          → IsUnfinished (opened files to_vec (loop files to_vec []) r)
      first (ok w, d') = tt
      first (err e, d') = tt

  finish-ne_waits :
      (r : Result files.IoError files.Writer × files.Disk) (w : files.Writer) (d : files.Disk)
      → finish files to_vec r ≢ waits w d
  finish-ne_waits (ok v, d') w d e = ground (arith, e)
  finish-ne_waits (err v, d') w d e = ground (arith, e)

  -- A task that waits after a turn has gone on.
  record WentOn (f : files.Writer → files.Disk → Task files to_vec) (r : Turn files to_vec)
      (w : files.Writer) (d : files.Disk) : Type 0 where
    writer : files.Writer
    disk : files.Disk
    turned : r ≡ goes_on writer disk
    rest : f writer disk ≡ waits w d

  next-WentOn :
      (f : files.Writer → files.Disk → Task files to_vec) (r : Turn files to_vec) (w : files.Writer)
      (d : files.Disk)
      → next files to_vec f r ≡ waits w d
      → WentOn f r w d
  next-WentOn f (goes_on v c) w d e = record { writer = v; disk = c; turned = refl; rest = e }
  next-WentOn f (stops v c) w d e = absurd (finish-ne_waits (files.flush v c) w d e)
  next-WentOn f (fails x c) w d e = absurd (ground (arith, e))

  -- One turn more, where the task waits.
  abbrev once_more : Wake → Task files to_vec → Task files to_vec
  once_more k (waits w d) = next files to_vec waits (turn files to_vec k w d)
  once_more k (finished d) = finished d
  once_more k (failed e d) = failed e d

  loop-woken :
      (wakes : List Wake) (k : Wake) (w w' : files.Writer) (d d' : files.Disk)
      → loop files to_vec wakes w d ≡ waits w' d'
      → loop files to_vec (wakes ++ k ∷ []) w d
        ≡ next files to_vec waits (turn files to_vec k w' d')
  unfolding loop
  loop-woken [] k w w' d d' e = ap (once_more k) e
  loop-woken (wake ∷ wakes) k w w' d d' e =
      let on = next-WentOn (loop files to_vec wakes) (turn files to_vec wake w d) w' d' e in
      ap (next files to_vec (loop files to_vec (wakes ++ k ∷ []))) on.turned
      ∙ loop-woken wakes k on.writer w' on.disk d' on.rest

  loop-taken :
      (wakes : List Wake) (k : Wake) (w w' : files.Writer) (d d' : files.Disk)
      → loop files to_vec wakes w d ≡ waits w' d'
      → taken (wakes ++ k ∷ []) ≡ taken wakes ++ taken (k ∷ [])
  unfolding loop turn
  loop-taken [] k w w' d d' e = refl
  loop-taken (senders_gone ∷ wakes) k w w' d d' e =
      absurd (finish-ne_waits (files.flush w d) w' d' e)
  loop-taken (shutdown_signalled ∷ wakes) k w w' d d' e =
      absurd (finish-ne_waits (files.flush w d) w' d' e)
  loop-taken (all_disabled ∷ wakes) k w w' d d' e =
      absurd (finish-ne_waits (files.flush w d) w' d' e)
  loop-taken (received log ∷ wakes) k w w' d d' e =
      let on =
        next-WentOn (loop files to_vec wakes) (turn files to_vec (received log) w d) w' d' e in
      ap (◌∷◌ log) (loop-taken wakes k on.writer w' on.disk d' on.rest)
  loop-taken (slept ∷ wakes) k w w' d d' e =
      let on = next-WentOn (loop files to_vec wakes) (turn files to_vec slept w d) w' d' e in
      loop-taken wakes k on.writer w' on.disk d' on.rest
  loop-taken (reloaded ∷ wakes) k w w' d d' e =
      let on = next-WentOn (loop files to_vec wakes) (turn files to_vec reloaded w d) w' d' e in
      loop-taken wakes k on.writer w' on.disk d' on.rest

  -- Where the task waits, another reason to wake up is one turn more.
  pub start_audit_writer-woken :
      (wakes : List Wake) (k : Wake) (c : files.Disk) (w : files.Writer) (d : files.Disk)
      → start_audit_writer files to_vec wakes c ≡ waits w d
      → (start_audit_writer files to_vec (wakes ++ k ∷ []) c
          ≡ next files to_vec waits (turn files to_vec k w d))
        × (taken (wakes ++ k ∷ []) ≡ taken wakes ++ taken (k ∷ []))
  unfolding start_audit_writer
  start_audit_writer-woken wakes k c w d e = first (files.open_append c) e
    where
      first :
          (r : Result files.IoError files.Writer × files.Disk)
          → opened files to_vec (loop files to_vec wakes) r ≡ waits w d
          → (opened files to_vec (loop files to_vec (wakes ++ k ∷ [])) r
              ≡ next files to_vec waits (turn files to_vec k w d))
            × (taken (wakes ++ k ∷ []) ≡ taken wakes ++ taken (k ∷ []))
      first (ok v, c') e = (loop-woken wakes k v w c' d e, loop-taken wakes k v w c' d e)
      first (err x, c') e = absurd (ground (arith, e))
