-- ===== src/Server/Lives/Keeps.antt =====
-- What a happening that ends no connection keeps of what holds of a server with its connections.
use pisshoff.Base.{
  Option-cases, inl, inr, length-append, All-map, length, ℕ, suc, ◌≤◌, Bool, List, [], ◌∷◌, ◌++◌,
  Option, none, some, Bytes, ◌≡◌, refl, ap, ◌∙◌, arith, append-nil,
}
use pisshoff.Nom.{Nom}
use pisshoff.Audit.{AuditLog}
use pisshoff.Session.{Session}
use pisshoff.Sftp.{Uuids}
use pisshoff.Server.{Server}
use pisshoff.Server.Channels.{Connection, Request, respond}
use pisshoff.Server.Channels.Logs.{event_of}
use pisshoff.Server.Lives.{
  Opening, Client, at, departed, returned, Attempt, authenticate, World, Happening, opened, tried,
  asked, known, with_clients, happen,
}
use pisshoff.Server.Lives.Clients.{
  numbers, Differs, Updated, at-Updated, Updated-numbers, Updated-Differs, Updated-lt, Updated-All,
}
use pisshoff.Server.Lives.Histories.{
  event_of_attempt, event_at, openings, ends, IsLogOf, IsGone, Inv, Continues, openings-append,
  ends-append, IsLogOf-append, IsLogOf-idle, about-Differs, logs-append, unborn-append, new-IsLogOf,
}
use pisshoff.Server.Lives.Continues.{asked-Continues, tried-Continues}

abbrev pub OnSome : {A : Type 0} → (A → Type 0) → Option A → Type 0
OnSome P none = Unit
OnSome P (some a) = P a

IsGone-opened : (n : ℕ) (ks : List ℕ) (j : ℕ) → IsGone n ks j → IsGone (suc n) (n ∷ ks) j
IsGone-opened n ks j (less, differ) = (omega arith, (ground arith, differ))

module _ {F64 : Type 0} (at_most : F64 → F64 → Bool) ⦃nom : Nom⦄ ⦃uuids : Uuids⦄ where
  abbrev pub Keeps :
      Bytes → List (Happening at_most) → Happening at_most → Option (World at_most) → Type 0
  Keeps hostname hs h = OnSome (Inv at_most hostname (hs ++ h ∷ []))

  pub opened-Inv :
      (hostname : Bytes) (hs : List (Happening at_most)) (w : World at_most) (o : Opening)
      → Inv at_most hostname hs w
      → Keeps hostname hs (opened o) (happen at_most (opened o) w)
  unfolding happen
  opened-Inv hostname hs w o i =
      let idle = λ (j : ℕ) (l : AuditLog) (k : IsLogOf at_most hostname hs j l).
        IsLogOf-idle at_most hostname hs (opened o) j l refl k in
      let same : ends at_most (hs ++ opened o ∷ []) ≡ ends at_most hs =
        ends-append at_most hs (opened o ∷ []) ∙ append-nil (ends at_most hs) in
      record {
        begun =
            rw (openings-append at_most hs (opened o ∷ []))
              (omega (arith, i.begun, length-append (openings at_most hs) (o ∷ [])));
        hostname_same = i.hostname_same;
        descends = (omega arith, i.descends);
        alive = (
          rw (i.begun, i.hostname_same)
              (new-IsLogOf at_most hostname hs o
                (i.unborn (length (openings at_most hs)) (omega (arith, i.begun)))),
          All-map _ _ (λ (x : Client) k. idle x.number x.connection.state.audit_log k) w.clients
              i.alive,
        );
        gone = rw same (
            All-map (IsGone w.begun (numbers w.clients))
              (IsGone (suc w.begun) (w.begun ∷ numbers w.clients))
              (IsGone-opened w.begun (numbers w.clients)) (ends at_most hs) i.gone);
        logs =
            rw same
              (logs-append at_most hostname hs (opened o) _ w.sent (λ j less. refl) i.gone i.logs);
        unborn = λ k l. unborn-append at_most hs (opened o) k refl (i.unborn k (omega arith));
      }

  changed-Inv :
      (hostname : Bytes) (hs : List (Happening at_most)) (h : Happening at_most) (w : World at_most)
      (k : ℕ) (f : Connection → Session → Option (Connection × Session)) (server : Server at_most)
      (ys : List Client)
      → openings at_most (h ∷ []) ≡ []
      → ends at_most (h ∷ []) ≡ []
      → ((j : ℕ) → Differs k j → event_at at_most j h ≡ [])
      → ((c c' : Connection) (s s' : Session)
          → f c s ≡ some (c', s')
          → Continues at_most (event_at at_most k h) c.state.audit_log c'.state.audit_log)
      → Updated k f w.clients ys
      → Inv at_most hostname hs w
      → Inv at_most hostname (hs ++ h ∷ []) (record w { server = server; clients = ys })
  changed-Inv hostname hs h w k f server ys none_opened none_ended others_idle continues u i =
      let numbers_same = Updated-numbers k f u in
      let same_ends : ends at_most (hs ++ h ∷ []) ≡ ends at_most hs =
        ends-append at_most hs (h ∷ [])
        ∙ ap (λ (js : List ℕ). ends at_most hs ++ js) none_ended
        ∙ append-nil (ends at_most hs) in
      let same_openings : openings at_most (hs ++ h ∷ []) ≡ openings at_most hs =
        openings-append at_most hs (h ∷ [])
        ∙ ap (λ (os : List Opening). openings at_most hs ++ os) none_opened
        ∙ append-nil (openings at_most hs) in
      record {
        begun = rw same_openings i.begun;
        hostname_same = i.hostname_same;
        descends = rw numbers_same i.descends;
        alive =
            Updated-All k f (λ j c. IsLogOf at_most hostname hs j c.state.audit_log)
              (λ j c. IsLogOf at_most hostname (hs ++ h ∷ []) j c.state.audit_log)
              (λ c c' s s' e.
                IsLogOf-append at_most hostname hs h k c.state.audit_log c'.state.audit_log
                  (continues c c' s s' e))
              (λ j c d. IsLogOf-idle at_most hostname hs h j c.state.audit_log (others_idle j d))
              w.begun u i.descends i.alive;
        gone = rw (same_ends, numbers_same) i.gone;
        logs = rw same_ends (
            logs-append at_most hostname hs h _ w.sent
              (λ j (less, differ). others_idle j (swapped j (Updated-Differs k f j u differ)))
              i.gone i.logs);
        unborn = λ j l. unborn-append at_most hs h j (others_idle j (later j l)) (i.unborn j l);
      }
    where
      swapped : (j : ℕ) → Differs j k → Differs k j
      swapped j d = ground arith

      later : (j : ℕ) → w.begun ≤ j → Differs k j
      later j l = let less = Updated-lt k f w.begun u i.descends in ground arith

  changes :
      (k : ℕ) (f : Connection → Session → Option (Connection × Session)) (w : World at_most)
      (P : World at_most → Type 0) (server : Server at_most) (r : Option (List Client))
      → ((ys : List Client) → r ≡ some ys → P (record w { server = server; clients = ys }))
      → OnSome P (with_clients at_most (record w { server = server }) r)
  changes k f w P server none h = tt
  changes k f w P server (some ys) h = h ys refl

  pub asked-Inv :
      (hostname : Bytes) (hs : List (Happening at_most)) (w : World at_most) (k : ℕ) (r : Request)
      → Inv at_most hostname hs w
      → Keeps hostname hs (asked k r) (happen at_most (asked k r) w)
  unfolding happen
  asked-Inv hostname hs w k r i =
      let f : Connection → Session → Option (Connection × Session) =
        λ c s. returned (respond r c s) in
      changes k f w (Inv at_most hostname (hs ++ asked k r ∷ [])) w.server (at k f w.clients)
        (λ ys e.
          changed-Inv hostname hs (asked k r) w k f w.server ys refl refl
            (λ j d. about-Differs at_most k j (event_of r) d)
            (λ c c' s s' e. asked-Continues at_most k r c c' s s' e) (at-Updated k f w.clients ys e)
            i)

  pub tried-Inv :
      (hostname : Bytes) (hs : List (Happening at_most)) (w : World at_most) (k : ℕ)
      (a : Attempt at_most)
      → Inv at_most hostname hs w
      → Keeps hostname hs (tried k a) (happen at_most (tried k a) w)
  unfolding happen
  tried-Inv hostname hs w k a i = elim (Option-cases (departed k w.clients)) [
    | inl nobody ↦ rw nobody (any w.server)
    | inr ((x, xs), e) ↦ rw e (any (authenticate at_most a w.server x.connection.state).1)
  ]
    where
      f : Connection → Session → Option (Connection × Session)
      f = known at_most a w.server

      any :
          (server : Server at_most)
          → Keeps hostname hs (tried k a) (
              with_clients at_most
                (record w { server = server })
                (at k (known at_most a w.server) w.clients))
      any server =
          changes k f w (Inv at_most hostname (hs ++ tried k a ∷ [])) server (at k f w.clients)
            (λ ys e.
              changed-Inv hostname hs (tried k a) w k f server ys refl refl
                (λ j d. about-Differs at_most k j (event_of_attempt at_most a) d)
                (λ c c' s s' g. tried-Continues at_most k a w.server c c' s s' g)
                (at-Updated k f w.clients ys e) i)
