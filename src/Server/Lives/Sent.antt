-- ===== src/Server/Lives/Sent.antt =====
-- That the logs which are sent are those of the connections that have ended.
use pisshoff.Base.{
  Option-cases, inl, inr, All-append, Pairs, Pairs-append, All-map, subst, ℕ, Bool, List, [], ◌∷◌,
  ◌++◌, some, Bytes, ◌≡◌, refl, arith, append_assoc, append-nil,
}
use pisshoff.Nom.{Nom}
use pisshoff.Audit.{AuditLog}
use pisshoff.Sftp.{Uuids}
use pisshoff.Server.{Server}
use pisshoff.Server.Lives.{
  Client, departed, World, Happening, opened, tried, asked, closed, happen, happen_all, started,
}
use pisshoff.Server.Lives.Clients.{
  numbers, Differs, Departed, departed-Departed, Departed-number, Departed-All, Departed-numbers,
  Departed-Descends, Departed-Differs,
}
use pisshoff.Server.Lives.Histories.{
  openings, ends, IsLogOf, IsGone, Inv, openings-append, ends-append, IsLogOf-idle, started-Inv,
  logs-append, unborn-append,
}
use pisshoff.Server.Lives.Keeps.{Keeps, OnSome, opened-Inv, asked-Inv, tried-Inv}

module _ {F64 : Type 0} (at_most : F64 → F64 → Bool) ⦃nom : Nom⦄ ⦃uuids : Uuids⦄ where
  left-Inv :
      (hostname : Bytes) (hs : List (Happening at_most)) (w : World at_most) (k : ℕ) (x : Client)
      (xs : List Client)
      → Departed k x w.clients xs
      → Inv at_most hostname hs w
      → Inv at_most hostname
          (hs ++ closed k ∷ [])
          (record w { clients = xs; sent = w.sent ++ x.connection.state.audit_log ∷ [] })
  left-Inv hostname hs w k x xs g i =
      let idle = λ (j : ℕ) (l : AuditLog) (m : IsLogOf at_most hostname hs j l).
        IsLogOf-idle at_most hostname hs (closed k) j l refl m in
      let (last, stay) =
        Departed-All
          (λ (y : Client). IsLogOf at_most hostname hs y.number y.connection.state.audit_log) g
          i.alive in
      let (less, descends) = Departed-Descends w.begun g i.descends in
      record {
        begun =
            rw (openings-append at_most hs (closed k ∷ []), append-nil (openings at_most hs))
              i.begun;
        hostname_same = i.hostname_same;
        descends = descends;
        alive =
            All-map _ _ (λ (y : Client) m. idle y.number y.connection.state.audit_log m) xs stay;
        gone = rw (ends-append at_most hs (closed k ∷ [])) (
            All-append (IsGone w.begun (numbers xs)) (ends at_most hs) (k ∷ [])
              (All-map (IsGone w.begun (numbers w.clients)) (IsGone w.begun (numbers xs))
                (λ j (l, d). (l, (Departed-numbers (Differs j) g d).1)) (ends at_most hs) i.gone)
              ((less, Departed-Differs w.begun g i.descends), tt));
        logs = rw (ends-append at_most hs (closed k ∷ [])) (
            Pairs-append (IsLogOf at_most hostname (hs ++ closed k ∷ [])) (ends at_most hs) w.sent k
              x.connection.state.audit_log
              (logs-append at_most hostname hs (closed k) _ w.sent (λ j m. refl) i.gone i.logs)
              (subst
                (λ j. IsLogOf at_most hostname (hs ++ closed k ∷ []) j x.connection.state.audit_log)
                (Departed-number g) (idle x.number x.connection.state.audit_log last)));
        unborn = λ j l. unborn-append at_most hs (closed k) j refl (i.unborn j l);
      }

  closed-Inv :
      (hostname : Bytes) (hs : List (Happening at_most)) (w : World at_most) (k : ℕ)
      → Inv at_most hostname hs w
      → Keeps at_most hostname hs (closed k) (happen at_most (closed k) w)
  unfolding happen
  closed-Inv hostname hs w k i = elim (Option-cases (departed k w.clients)) [
    | inl nobody ↦ rw nobody tt
    | inr ((x, xs), e) ↦
        rw e (left-Inv hostname hs w k x xs (departed-Departed k x w.clients xs e) i)
  ]

  happen-Inv :
      (hostname : Bytes) (hs : List (Happening at_most)) (w : World at_most) (h : Happening at_most)
      → Inv at_most hostname hs w
      → Keeps at_most hostname hs h (happen at_most h w)
  happen-Inv hostname hs w (opened o) i = opened-Inv at_most hostname hs w o i
  happen-Inv hostname hs w (tried k a) i = tried-Inv at_most hostname hs w k a i
  happen-Inv hostname hs w (asked k r) i = asked-Inv at_most hostname hs w k r i
  happen-Inv hostname hs w (closed k) i = closed-Inv hostname hs w k i

  happen_all-Inv :
      (hostname : Bytes) (hs gs : List (Happening at_most)) (w w' : World at_most)
      → Inv at_most hostname hs w
      → happen_all at_most gs w ≡ some w'
      → Inv at_most hostname (hs ++ gs) w'
  happen_all-Inv hostname hs [] w w' i h =
      rw (append-nil hs) (subst (Inv at_most hostname hs) (ground arith) i)
  happen_all-Inv hostname hs (g ∷ gs) w w' i h = elim (Option-cases (happen at_most g w)) [
    | inl stuck ↦ absurd (ground (arith, stuck))
    | inr (v, e) ↦ rw (← append_assoc hs (g ∷ []) gs) (
        happen_all-Inv hostname (hs ++ g ∷ []) gs v w'
          (subst (OnSome (Inv at_most hostname (hs ++ g ∷ []))) e (happen-Inv hostname hs w g i))
          (rw e at h))
  ]

  -- Whatever the order in which connections begin, log in, make requests and end, where no handler
  -- panics: the logs that have
  -- been sent are those of the connections that have ended, one for each and in the order of the
  -- ends. Each has the identifier and the peer that its connection began with, the host of the server, and the events of what this
  -- one connection did, in its order, perhaps with others between them.
  pub happen_all-sent :
      (server : Server at_most) (hostname : Bytes) (hs : List (Happening at_most))
      (w : World at_most)
      → happen_all at_most hs (started at_most server hostname) ≡ some w
      → Pairs (IsLogOf at_most hostname hs) (ends at_most hs) w.sent
  happen_all-sent server hostname hs w h =
      let i =
        happen_all-Inv hostname [] hs (started at_most server hostname) w
          (started-Inv at_most server hostname) h in
      i.logs
