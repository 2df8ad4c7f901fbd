-- ===== src/Main/Acts.antt =====
-- That every step of the program keeps what holds of it.
use pisshoff.Base.{
  Bool, false, ◌&&◌, leb, is_empty, List, [], ◌∷◌, ◌++◌, Option, some, Bytes, Result, ok, err, ◌≡◌,
  refl, sym, subst, arith, length, append-nil, append_assoc, Option-cases, Bool-cases, inl, inr,
}
use pisshoff.Nom.{Nom}
use pisshoff.Audit.{AuditLog}
use pisshoff.Sftp.{Uuids}
use pisshoff.Server.{Server}
use pisshoff.Server.Lives.{Happening}
use pisshoff.AuditWriter.Io.{Files}
use pisshoff.AuditWriter.{
  senders_gone, shutdown_signalled, slept, reloaded, Task, waits, finished, failed,
}
use pisshoff.Main.Invariants.{Inv, OnSome, guarded, idle-Inv, takes-Inv, happens-Inv}
use pisshoff.Main.Phases.{happening, happenings, Fits, finished-Fits, failed-Fits}
use pisshoff.Main.{
  Failure, Phase, selecting, finishing, returned, stuck, Program, Step, happens, takes, sleeps,
  hangs_up, reopens, shuts_down, loses_senders, joins, interrupted, server_ends, watcher_ends,
  settled, act, step, steps, selected, join, signal_reload, lose_senders, is_returned,
}

module _ {F64 : Type 0} (at_most : F64 → F64 → Bool) ⦃nom : Nom⦄ ⦃uuids : Uuids⦄ (files : Files)
    (to_vec : AuditLog → Option Bytes) (server : Server at_most) (hostname : Bytes)
    (disk : files.Disk) where
  -- Where these things have happened to connections: the logs that the writer has taken are the first
  -- of those that were sent.
  abbrev Holds : List (Happening at_most) → Program at_most files to_vec → Type 0
  Holds = Inv at_most files to_vec server hostname disk

  selected-Inv :
      (hs : List (Happening at_most)) (p : Program at_most files to_vec)
      (r : Result (Failure at_most files to_vec) (Unit {0}))
      → Holds hs p
      → OnSome at_most files to_vec server hostname disk
          (Holds hs)
          (selected at_most files to_vec p p.phase r)
  selected-Inv hs p r i = by_phase p.phase r refl
    where
      by_phase :
          (phase : Phase at_most files to_vec)
          (r : Result (Failure at_most files to_vec) (Unit {0}))
          → p.phase ≡ phase
          → OnSome at_most files to_vec server hostname disk
              (Holds hs)
              (selected at_most files to_vec p phase r)
      by_phase selecting (ok u) e = record {
        wakes = i.wakes;
        lived = i.lived;
        task_same = i.task_same;
        took = i.took;
        within = i.within;
        fits = refl;
      }
      by_phase selecting (err x) e = record {
        wakes = i.wakes;
        lived = i.lived;
        task_same = i.task_same;
        took = i.took;
        within = i.within;
        fits = tt;
      }
      by_phase finishing r e = tt
      by_phase (returned x) r e = tt
      by_phase stuck r e = tt

  hangs_up-Inv :
      (hs : List (Happening at_most)) (p : Program at_most files to_vec)
      (phase : Phase at_most files to_vec)
      → Holds hs p
      → OnSome at_most files to_vec server hostname disk
          (Holds hs)
          (signal_reload at_most files to_vec p phase)
  hangs_up-Inv hs p selecting i = record {
    wakes = i.wakes;
    lived = i.lived;
    task_same = i.task_same;
    took = i.took;
    within = i.within;
    fits = i.fits;
  }
  hangs_up-Inv hs p finishing i = tt
  hangs_up-Inv hs p (returned r) i = tt
  hangs_up-Inv hs p stuck i = tt

  loses_senders-Inv :
      (hs : List (Happening at_most)) (p : Program at_most files to_vec)
      → Holds hs p
      → OnSome at_most files to_vec server hostname disk
          (Holds hs)
          (lose_senders at_most files to_vec p p.phase)
  loses_senders-Inv hs p i = by_phase p.phase refl
    where
      by_phase :
          (phase : Phase at_most files to_vec)
          → p.phase ≡ phase
          → OnSome at_most files to_vec server hostname disk
              (Holds hs)
              (lose_senders at_most files to_vec p phase)
      by_phase selecting e = tt
      by_phase finishing e =
          let signalled =
            subst (λ phase. Fits at_most files to_vec phase p.shutdown p.task) e i.fits in
          guarded at_most files to_vec server hostname disk (Holds hs)
            (is_empty p.world.clients && leb (length p.world.sent) p.taken) _
            (λ gone.
              idle-Inv at_most files to_vec server hostname disk hs p senders_gone p.reload i refl
                (λ e. absurd (ground (arith, e, signalled))))
      by_phase (returned r) e = tt
      by_phase stuck e = tt

  joins-Inv :
      (hs : List (Happening at_most)) (p : Program at_most files to_vec)
      → Holds hs p
      → OnSome at_most files to_vec server hostname disk
          (Holds hs)
          (join at_most files to_vec p p.task)
  joins-Inv hs p i = by_task p.task refl
    where
      settled_Inv :
          (phase : Phase at_most files to_vec)
          → Fits at_most files to_vec phase p.shutdown p.task
          → Holds hs (record p { phase = phase })
      settled_Inv phase f = record {
        wakes = i.wakes;
        lived = i.lived;
        task_same = i.task_same;
        took = i.took;
        within = i.within;
        fits = f;
      }

      by_task :
          (task : Task files to_vec)
          → p.task ≡ task
          → OnSome at_most files to_vec server hostname disk
              (Holds hs)
              (join at_most files to_vec p task)
      by_task (waits w d) e = tt
      by_task (finished d) e = settled_Inv (settled at_most files to_vec p.phase (ok tt)) (
          subst
            (Fits at_most files to_vec (settled at_most files to_vec p.phase (ok tt)) p.shutdown)
            (sym e)
            (finished-Fits at_most files to_vec p.phase p.shutdown d
              (subst (Fits at_most files to_vec p.phase p.shutdown) e i.fits)))
      by_task (failed x d) e = settled_Inv (settled at_most files to_vec p.phase (err x)) (
          subst
            (Fits at_most files to_vec (settled at_most files to_vec p.phase (err x)) p.shutdown)
            (sym e)
            (failed-Fits at_most files to_vec p.phase p.shutdown x d
              (subst (Fits at_most files to_vec p.phase p.shutdown) e i.fits)))

  act-Inv :
      (hs : List (Happening at_most)) (s : Step at_most files to_vec)
      (p : Program at_most files to_vec)
      → Holds hs p
      → OnSome at_most files to_vec server hostname disk
          (Holds (hs ++ happening at_most files to_vec s))
          (act at_most files to_vec s p)
  unfolding act
  act-Inv hs (happens h) p i = happens-Inv at_most files to_vec server hostname disk hs p h i
  act-Inv hs takes p i =
      rw (append-nil hs) (takes-Inv at_most files to_vec server hostname disk hs p i)
  act-Inv hs sleeps p i =
      rw (append-nil hs)
        (idle-Inv at_most files to_vec server hostname disk hs p slept p.reload i refl (λ e. tt))
  act-Inv hs hangs_up p i = rw (append-nil hs) (hangs_up-Inv hs p p.phase i)
  act-Inv hs reopens p i = rw (append-nil hs) (
      guarded at_most files to_vec server hostname disk (Holds hs) p.reload _ (λ signalled.
        idle-Inv at_most files to_vec server hostname disk hs p reloaded false i refl (λ e. tt)))
  act-Inv hs shuts_down p i = rw (append-nil hs) (
      guarded at_most files to_vec server hostname disk (Holds hs) p.shutdown _ (λ signalled.
        idle-Inv at_most files to_vec server hostname disk hs p shutdown_signalled p.reload i refl
          (λ e. absurd (ground (arith, e, signalled)))))
  act-Inv hs loses_senders p i = rw (append-nil hs) (loses_senders-Inv hs p i)
  act-Inv hs joins p i = rw (append-nil hs) (joins-Inv hs p i)
  act-Inv hs (interrupted r) p i = rw (append-nil hs) (selected-Inv hs p r i)
  act-Inv hs (server_ends r) p i = rw (append-nil hs) (selected-Inv hs p r i)
  act-Inv hs (watcher_ends r) p i = rw (append-nil hs) (selected-Inv hs p r i)

  step-Inv :
      (hs : List (Happening at_most)) (s : Step at_most files to_vec)
      (p : Program at_most files to_vec)
      → Holds hs p
      → OnSome at_most files to_vec server hostname disk
          (Holds (hs ++ happening at_most files to_vec s))
          (step at_most files to_vec s p)
  unfolding step
  step-Inv hs s p i = elim (Bool-cases (is_returned at_most files to_vec p.phase)) [
    | inl over ↦ rw over tt
    | inr going ↦ rw going (act-Inv hs s p i)
  ]

  pub steps-Inv :
      (hs : List (Happening at_most)) (ss : List (Step at_most files to_vec))
      (p q : Program at_most files to_vec)
      → Holds hs p
      → steps at_most files to_vec ss p ≡ some q
      → Holds (hs ++ happenings at_most files to_vec ss) q
  steps-Inv hs [] p q i e = rw (append-nil hs) (subst (Holds hs) (ground (arith, e)) i)
  steps-Inv hs (s ∷ ss) p q i e = elim (Option-cases (step at_most files to_vec s p)) [
    | inl refused ↦ absurd (ground (arith, refused, e))
    | inr (p', f) ↦
        let now =
          subst
            (OnSome at_most files to_vec server hostname disk
              (Holds (hs ++ happening at_most files to_vec s)))
            f (step-Inv hs s p i) in
        rw
          (← append_assoc hs (happening at_most files to_vec s)
            (happenings at_most files to_vec ss))
          (steps-Inv (hs ++ happening at_most files to_vec s) ss p' q now (rw f at e))
  ]
