-- ===== src/Main/Phases.antt =====
-- How the phase of `run` goes with the writer of the audit log.
use pisshoff.Base.{
  ℕ, zero, suc, ◌≤◌, Bool, true, false, List, [], ◌∷◌, ◌++◌, Option, some, Bytes, ok, err, ◌≡◌,
  refl, ap, arith, take, length, get_elem?,
}
use pisshoff.Audit.{AuditLog}
use pisshoff.Server.Lives.{Happening}
use pisshoff.AuditWriter.Io.{Files}
use pisshoff.AuditWriter.{Wake, Task, waits, finished, failed, turn, next}
use pisshoff.AuditWriter.Continued.{GoesOn, IsUnfinished, turn-IsUnfinished}
use pisshoff.Main.{Phase, selecting, finishing, returned, stuck, Step, happens, settled}

module _ {A : Type 0} where
  pub take-behind : (n : ℕ) (xs ys : List A) → n ≤ length xs → take n (xs ++ ys) ≡ take n xs
  take-behind zero xs ys l = refl
  take-behind (suc n) [] ys l = absurd (omega arith)
  take-behind (suc n) (x ∷ xs) ys l = ap (◌∷◌ x) (take-behind n xs ys (omega arith))

  pub take-next :
      (n : ℕ) (xs : List A) (x : A)
      → get_elem? xs n ≡ some x
      → (take (suc n) xs ≡ take n xs ++ x ∷ []) × (suc n ≤ length xs)
  take-next n [] x e = absurd (ground (arith, e))
  take-next zero (y ∷ xs) x e = (ground (arith, e), omega arith)
  take-next (suc n) (y ∷ xs) x e = let (t, l) = take-next n xs x e in (ap (◌∷◌ y) t, omega arith)

module _ {F64 : Type 0} (at_most : F64 → F64 → Bool) (files : Files)
    (to_vec : AuditLog → Option Bytes) where
  -- What happens to connections among some steps.
  abbrev pub happening : Step at_most files to_vec → List (Happening at_most)
  happening (happens h) = h ∷ []
  happening _ = []

  abbrev pub happenings : List (Step at_most files to_vec) → List (Happening at_most)
  happenings [] = []
  happenings (s ∷ ss) = happening s ++ happenings ss

  abbrev pub IsFinished : Task files to_vec → Type 0
  IsFinished (finished d) = Unit
  IsFinished _ = ⊥

  -- What is asked of the phase of `run` and the writer together: that the writer has finished where
  -- `run` has returned no error, and that `run` is in no wait for a writer whose end it has seen.
  abbrev pub Fits : Phase at_most files to_vec → Bool → Task files to_vec → Type 0
  Fits selecting shutdown task = IsUnfinished files to_vec task × (shutdown ≡ false)
  Fits finishing shutdown task = shutdown ≡ true
  Fits (returned (ok u)) shutdown task = IsFinished task
  Fits (returned (err e)) shutdown task = Unit
  Fits stuck shutdown task = ⊥

  -- While nothing has signalled it to shut down, a turn of the writer does not finish it.
  pub turn-Fits :
      (phase : Phase at_most files to_vec) (shutdown : Bool) (wake : Wake) (w : files.Writer)
      (d : files.Disk)
      → Fits phase shutdown (waits w d)
      → (shutdown ≡ false → GoesOn wake)
      → Fits phase shutdown (next files to_vec waits (turn files to_vec wake w d))
  turn-Fits selecting shutdown wake w d (h, e) m =
      (turn-IsUnfinished files to_vec wake w d (m e), e)
  turn-Fits finishing shutdown wake w d h m = h
  turn-Fits (returned (ok u)) shutdown wake w d h m = absurd h
  turn-Fits (returned (err e)) shutdown wake w d h m = tt
  turn-Fits stuck shutdown wake w d h m = absurd h

  pub finished-Fits :
      (phase : Phase at_most files to_vec) (shutdown : Bool) (d : files.Disk)
      → Fits phase shutdown (finished d)
      → Fits (settled at_most files to_vec phase (ok tt)) shutdown (finished d)
  unfolding settled
  finished-Fits selecting shutdown d (h, e) = absurd h
  finished-Fits finishing shutdown d h = tt
  finished-Fits (returned (ok u)) shutdown d h = h
  finished-Fits (returned (err e)) shutdown d h = tt
  finished-Fits stuck shutdown d h = absurd h

  pub failed-Fits :
      (phase : Phase at_most files to_vec) (shutdown : Bool) (e : files.IoError) (d : files.Disk)
      → Fits phase shutdown (failed e d)
      → Fits (settled at_most files to_vec phase (err e)) shutdown (failed e d)
  unfolding settled
  failed-Fits selecting shutdown e d h = tt
  failed-Fits finishing shutdown e d h = tt
  failed-Fits (returned (ok u)) shutdown e d h = absurd h
  failed-Fits (returned (err x)) shutdown e d h = tt
  failed-Fits stuck shutdown e d h = absurd h
