-- ===== src/Main/Returns.antt =====
-- That the program can always be ended.
use pisshoff.Base.{
  Bool, true, false, List, [], ◌∷◌, Option, some, Bytes, ok, err, ◌≡◌, refl, Result, arith,
}
use pisshoff.Nom.{Nom}
use pisshoff.Audit.{AuditLog}
use pisshoff.Sftp.{Uuids}
use pisshoff.Server.{Server}
use pisshoff.AuditWriter.Io.{Files}
use pisshoff.AuditWriter.{Task, waits, finished, failed, finish, turn}
use pisshoff.Main.{
  Phase, selecting, finishing, returned, stuck, writer_failed, Program, Step, shuts_down, joins,
  interrupted, settled, begin, act, step, steps,
}
use pisshoff.Main.Phases.{Fits}
use pisshoff.Main.Invariants.{begin-Inv}
use pisshoff.Main.Acts.{steps-Inv}

module _ {F64 : Type 0} (at_most : F64 → F64 → Bool) ⦃nom : Nom⦄ ⦃uuids : Uuids⦄ (files : Files)
    (to_vec : AuditLog → Option Bytes) where
  -- ctrl-c, where `run` is in its `select!`, that the writer sees the signal, where it has not ended,
  -- and that `run` sees its end.
  abbrev pub ending :
      Phase at_most files to_vec → Task files to_vec → List (Step at_most files to_vec)
  ending selecting (waits w d) = interrupted (ok tt) ∷ shuts_down ∷ joins ∷ []
  ending finishing (waits w d) = shuts_down ∷ joins ∷ []
  ending (returned r) (waits w d) = []
  ending stuck (waits w d) = []
  ending (returned r) (finished d) = []
  ending (returned r) (failed e d) = []
  ending _ (finished d) = joins ∷ []
  ending _ (failed e d) = joins ∷ []

  abbrev pub IsReturned : Phase at_most files to_vec → Type 0
  IsReturned (returned r) = Unit
  IsReturned _ = ⊥

  -- The steps can be taken, and `run` has returned after them.
  pub record Ended (ss : List (Step at_most files to_vec)) (p : Program at_most files to_vec)
      : Type 0 where
    pub last : Program at_most files to_vec
    pub reached : steps at_most files to_vec ss p ≡ some last
    pub over : IsReturned last.phase

  -- With the phase, the flag and the writer as they are.
  abbrev at :
      Program at_most files to_vec
      → Phase at_most files to_vec
      → Bool
      → Task files to_vec
      → Program at_most files to_vec
  at p phase shutdown task = record p { phase = phase; shutdown = shutdown; task = task }

  -- Where the flush behind the loop of the writer has left this.
  joined :
      (p : Program at_most files to_vec) (r : Result files.IoError files.Writer × files.Disk)
      → Ended (joins ∷ []) (at p finishing true (finish files to_vec r))
  unfolding step act settled
  joined p (ok w, d) = record {
    last = at p (returned (ok tt)) true (finished d);
    reached = refl;
    over = tt;
  }
  joined p (err e, d) = record {
    last = at p (returned (err (writer_failed e))) true (failed e d);
    reached = refl;
    over = tt;
  }

  signalled :
      (p : Program at_most files to_vec) (w : files.Writer) (d : files.Disk)
      → Ended (shuts_down ∷ joins ∷ []) (at p finishing true (waits w d))
  unfolding step act turn
  signalled p w d =
      let end = joined p (files.flush w d) in
      record { last = end.last; reached = end.reached; over = end.over }

  ended :
      (p : Program at_most files to_vec) (phase : Phase at_most files to_vec) (shutdown : Bool)
      (task : Task files to_vec)
      → Fits at_most files to_vec phase shutdown task
      → Ended (ending phase task) (at p phase shutdown task)
  unfolding step act settled
  ended p selecting shutdown (waits w d) h =
      let end = signalled p w d in
      record { last = end.last; reached = end.reached; over = end.over }
  ended p selecting shutdown (finished d) (h, e) = absurd h
  ended p selecting shutdown (failed x d) h = record {
    last = at p (returned (err (writer_failed x))) shutdown (failed x d);
    reached = refl;
    over = tt;
  }
  ended p finishing true (waits w d) h = signalled p w d
  ended p finishing false (waits w d) h = absurd (ground (arith, h))
  ended p finishing shutdown (finished d) h = record {
    last = at p (returned (ok tt)) shutdown (finished d);
    reached = refl;
    over = tt;
  }
  ended p finishing shutdown (failed x d) h = record {
    last = at p (returned (err (writer_failed x))) shutdown (failed x d);
    reached = refl;
    over = tt;
  }
  ended p (returned r) shutdown (waits w d) h = record {
    last = at p (returned r) shutdown (waits w d);
    reached = refl;
    over = tt;
  }
  ended p (returned r) shutdown (finished d) h = record {
    last = at p (returned r) shutdown (finished d);
    reached = refl;
    over = tt;
  }
  ended p (returned r) shutdown (failed x d) h = record {
    last = at p (returned r) shutdown (failed x d);
    reached = refl;
    over = tt;
  }
  ended p stuck shutdown task h = absurd h

  -- The program can be ended whatever it has done: where run is in its select!, ctrl-c, the writer's
  -- seeing the signal and run's seeing the writer's end can follow, and then run has returned; where
  -- run waits for the writer, the last two can; where the writer has ended, the last; and a wait for a
  -- writer whose end has been seen before is never reached.
  pub steps-Ended :
      (server : Server at_most) (hostname : Bytes) (d : files.Disk)
      (ss : List (Step at_most files to_vec)) (p : Program at_most files to_vec)
      → steps at_most files to_vec ss (begin at_most files to_vec server hostname d) ≡ some p
      → Ended (ending p.phase p.task) p
  steps-Ended server hostname d ss p e =
      let i =
        steps-Inv at_most files to_vec server hostname d [] ss
          (begin at_most files to_vec server hostname d) p
          (begin-Inv at_most files to_vec server hostname d) e in
      ended p p.phase p.shutdown p.task i.fits
