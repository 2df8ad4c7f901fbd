-- ===== src/AuditWriter/Ends.antt =====
-- When the task that writes the logs ends.
use pisshoff.Base.{List, [], ◌∷◌, ◌++◌, Option, Bytes, Result, ok, err, ◌≡◌, refl}
use pisshoff.Audit.{AuditLog}
use pisshoff.AuditWriter.Io.{Files}
use pisshoff.AuditWriter.{
  Wake, received, senders_gone, shutdown_signalled, slept, reloaded, all_disabled, Turn, goes_on,
  stops, fails, turn, Task, waits, finished, failed, finish, next, loop, opened, start_audit_writer,
}

abbrev pub IsEnd : Wake → Type 0
IsEnd senders_gone = Unit
IsEnd shutdown_signalled = Unit
IsEnd _ = ⊥

module _ (files : Files) (to_vec : AuditLog → Option Bytes) where
  abbrev pub HasReturned : Task files to_vec → Type 0
  HasReturned (waits w d) = ⊥
  HasReturned (finished d) = Unit
  HasReturned (failed e d) = Unit

  -- It has returned, and as `task` has.
  abbrev Settles : Task files to_vec → Task files to_vec → Type 0
  Settles task task' = HasReturned task × (task ≡ task')

  finish-Settles :
      (r : Result files.IoError files.Writer × files.Disk)
      → Settles (finish files to_vec r) (finish files to_vec r)
  finish-Settles (ok w, d) = (tt, refl)
  finish-Settles (err e, d) = (tt, refl)

  next-Settles :
      (f g : files.Writer → files.Disk → Task files to_vec) (r : Turn files to_vec)
      → ((w : files.Writer) (d : files.Disk) → Settles (f w d) (g w d))
      → Settles (next files to_vec f r) (next files to_vec g r)
  next-Settles f g (goes_on w d) h = h w d
  next-Settles f g (stops w d) h = finish-Settles (files.flush w d)
  next-Settles f g (fails e d) h = (tt, refl)

  end-Settles :
      (wake : Wake) (after : List Wake) (w : files.Writer) (d : files.Disk)
      → IsEnd wake
      → Settles (loop files to_vec (wake ∷ after) w d) (loop files to_vec (wake ∷ []) w d)
  unfolding loop turn
  end-Settles senders_gone after w d h = finish-Settles (files.flush w d)
  end-Settles shutdown_signalled after w d h = finish-Settles (files.flush w d)
  end-Settles (received log) after w d h = absurd h
  end-Settles slept after w d h = absurd h
  end-Settles reloaded after w d h = absurd h
  end-Settles all_disabled after w d h = absurd h

  loop-Settles :
      (before : List Wake) (wake : Wake) (after : List Wake) (w : files.Writer) (d : files.Disk)
      → IsEnd wake
      → Settles
          (loop files to_vec (before ++ wake ∷ after) w d)
          (loop files to_vec (before ++ wake ∷ []) w d)
  unfolding loop
  loop-Settles [] wake after w d h = end-Settles wake after w d h
  loop-Settles (b ∷ before) wake after w d h =
      next-Settles (loop files to_vec (before ++ wake ∷ after))
        (loop files to_vec (before ++ wake ∷ [])) (turn files to_vec b w d)
        (λ w d. loop-Settles before wake after w d h)

  -- Once it is signalled to shut down, or no sender is left, the task returns, whatever came before;
  -- and nothing that comes later has an effect, so logs that were sent and not yet taken are lost.
  pub start_audit_writer-ends :
      (before : List Wake) (wake : Wake) (after : List Wake) (d : files.Disk)
      → IsEnd wake
      → HasReturned (start_audit_writer files to_vec (before ++ wake ∷ after) d)
        × (start_audit_writer files to_vec (before ++ wake ∷ after) d
            ≡ start_audit_writer files to_vec (before ++ wake ∷ []) d)
  unfolding start_audit_writer
  start_audit_writer-ends before wake after d h = first (files.open_append d)
    where
      first :
          (r : Result files.IoError files.Writer × files.Disk)
          → Settles
              (opened files to_vec (loop files to_vec (before ++ wake ∷ after)) r)
              (opened files to_vec (loop files to_vec (before ++ wake ∷ [])) r)
      first (ok w, d') = loop-Settles before wake after w d' h
      first (err e, d') = (tt, refl)
