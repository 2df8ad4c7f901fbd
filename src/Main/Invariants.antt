-- ===== src/Main/Invariants.antt =====
-- What holds of the program after any steps.
use pisshoff.Base.{
  ℕ, suc, ◌≤◌, Bool, true, false, List, [], ◌∷◌, ◌++◌, Option, none, some, Bytes, ◌≡◌, refl, sym,
  ap, ◌∙◌, subst, arith, take, length, length-append, get_elem?, append-nil, Option-cases, inl, inr,
  if◌then◌else◌,
}
use pisshoff.Nom.{Nom}
use pisshoff.Audit.{AuditLog}
use pisshoff.Sftp.{Uuids}
use pisshoff.Server.{Server}
use pisshoff.Server.Lives.{World, Happening, happen, happen_all, started}
use pisshoff.Server.Lives.Grown.{happen-Longer}
use pisshoff.AuditWriter.Io.{Files}
use pisshoff.AuditWriter.{Wake, received, Task, waits, finished, failed, start_audit_writer}
use pisshoff.AuditWriter.Lines as Lines
use pisshoff.AuditWriter.Continued.{GoesOn, start_audit_writer-woken, begin-IsUnfinished}
use pisshoff.Main.Phases.{take-behind, take-next, Fits, turn-Fits}
use pisshoff.Main.{Program, begin, with_world, woken, take_one}

module _ {F64 : Type 0} (at_most : F64 → F64 → Bool) ⦃nom : Nom⦄ ⦃uuids : Uuids⦄ (files : Files)
    (to_vec : AuditLog → Option Bytes) (server : Server at_most) (hostname : Bytes)
    (disk : files.Disk) where
  -- Where these things have happened to connections: the logs that the writer has taken are the first
  -- of those that were sent.
  pub record Inv (hs : List (Happening at_most)) (p : Program at_most files to_vec) : Type 0 where
    pub wakes : List Wake
    pub lived : happen_all at_most hs (started at_most server hostname) ≡ some p.world
    pub task_same : p.task ≡ start_audit_writer files to_vec wakes disk
    pub took : Lines.taken wakes ≡ take p.taken p.world.sent
    pub within : p.taken ≤ length p.world.sent
    pub fits : Fits at_most files to_vec p.phase p.shutdown p.task

  abbrev pub OnSome :
      (Program at_most files to_vec → Type 0) → Option (Program at_most files to_vec) → Type 0
  OnSome P none = Unit
  OnSome P (some p) = P p

  pub guarded :
      (P : Program at_most files to_vec → Type 0) (b : Bool)
      (x : Option (Program at_most files to_vec))
      → (b ≡ true → OnSome P x)
      → OnSome P (if b then x else none)
  guarded P true x h = h refl
  guarded P false x h = tt

  pub begin-Inv : Inv [] (begin at_most files to_vec server hostname disk)
  unfolding begin
  begin-Inv = record {
    wakes = [];
    lived = refl;
    task_same = refl;
    took = refl;
    within = omega arith;
    fits = (begin-IsUnfinished files to_vec disk, refl);
  }

  happen_all-concat :
      (hs : List (Happening at_most)) (h : Happening at_most) (v w w' : World at_most)
      → happen_all at_most hs v ≡ some w
      → happen at_most h w ≡ some w'
      → happen_all at_most (hs ++ h ∷ []) v ≡ some w'
  happen_all-concat [] h v w w' e k = ground (arith, e, k)
  happen_all-concat (g ∷ hs) h v w w' e k = elim (Option-cases (happen at_most g v)) [
    | inl no_world ↦ absurd (ground (arith, no_world, e))
    | inr (u, f) ↦ rw f (happen_all-concat hs h u w w' (rw f at e) k)
  ]

  -- The writer wakes up once more, and may take a log.
  woken-Inv :
      (hs : List (Happening at_most)) (p : Program at_most files to_vec) (wake : Wake) (n : ℕ)
      (r : Bool)
      → Inv hs p
      → take n p.world.sent ≡ take p.taken p.world.sent ++ Lines.taken (wake ∷ [])
      → n ≤ length p.world.sent
      → (p.shutdown ≡ false → GoesOn wake)
      → OnSome
          (Inv hs)
          (woken at_most files to_vec wake (record p { taken = n; reload = r }) p.task)
  woken-Inv hs p wake n r i t l m = by_task p.task refl
    where
      by_task :
          (task : Task files to_vec)
          → p.task ≡ task
          → OnSome
              (Inv hs)
              (woken at_most files to_vec wake (record p { taken = n; reload = r }) task)
      by_task (finished d) e = tt
      by_task (failed x d) e = tt
      by_task (waits w d) e =
          let (again, logs) =
            start_audit_writer-woken files to_vec i.wakes wake disk w d (sym i.task_same ∙ e) in
          let fits = subst (Fits at_most files to_vec p.phase p.shutdown) e i.fits in
          record {
            wakes = i.wakes ++ wake ∷ [];
            lived = i.lived;
            task_same = sym again;
            took = logs ∙ ap (λ (ls : List AuditLog). ls ++ Lines.taken (wake ∷ [])) i.took ∙ sym t;
            within = l;
            fits = turn-Fits at_most files to_vec p.phase p.shutdown wake w d fits m;
          }

  -- A turn that takes no log.
  pub idle-Inv :
      (hs : List (Happening at_most)) (p : Program at_most files to_vec) (wake : Wake) (r : Bool)
      → Inv hs p
      → Lines.taken (wake ∷ []) ≡ []
      → (p.shutdown ≡ false → GoesOn wake)
      → OnSome (Inv hs) (woken at_most files to_vec wake (record p { reload = r }) p.task)
  idle-Inv hs p wake r i t m =
      woken-Inv hs p wake p.taken r i (rw (t, append-nil (take p.taken p.world.sent)) refl) i.within
        m

  pub takes-Inv :
      (hs : List (Happening at_most)) (p : Program at_most files to_vec)
      → Inv hs p
      → OnSome (Inv hs) (take_one at_most files to_vec p (get_elem? p.world.sent p.taken))
  takes-Inv hs p i = elim (Option-cases (get_elem? p.world.sent p.taken)) [
    | inl nothing ↦ rw nothing tt
    | inr (log, e) ↦
        let (t, l) = take-next p.taken p.world.sent log e in
        rw e (woken-Inv hs p (received log) (suc p.taken) p.reload i t l (λ e. tt))
  ]

  pub happens-Inv :
      (hs : List (Happening at_most)) (p : Program at_most files to_vec) (h : Happening at_most)
      → Inv hs p
      → OnSome (Inv (hs ++ h ∷ [])) (with_world at_most files to_vec p (happen at_most h p.world))
  happens-Inv hs p h i = elim (Option-cases (happen at_most h p.world)) [
    | inl nothing ↦ rw nothing tt
    | inr (w, e) ↦
        let more = happen-Longer at_most h p.world w e in
        rw e (record {
          wakes = i.wakes;
          lived = happen_all-concat hs h _ p.world w i.lived e;
          task_same = i.task_same;
          took =
              i.took ∙ rw more.whole (sym (take-behind p.taken p.world.sent more.added i.within));
          within = rw more.whole (omega (arith, i.within, length-append p.world.sent more.added));
          fits = i.fits;
        })
  ]
