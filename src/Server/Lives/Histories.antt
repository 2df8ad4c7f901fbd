-- ===== src/Server/Lives/Histories.antt =====
-- What is sent to the writer of the audit log, whatever connections there are at the same time.
use pisshoff.Base.{
  get_elem?, get_elem?-append, get_elem?-behind, Pairs, Pairs-map, length, ℕ, ◌==◌, ◌<◌, ◌≤◌, Bool,
  false, List, [], ◌∷◌, ◌++◌, Option, none, some, Bytes, ◌≡◌, refl, sym, ap, ◌∙◌, arith, All,
  append_assoc, append-nil, if◌then◌else◌,
}
use pisshoff.Std.Utf8.{from_utf8_lossy}
use pisshoff.Audit.{
  AuditLog, AuditLogAction, AuditLogEvent, login_attempt, username_password, public_key, default,
}
use pisshoff.Server.{Server}
use pisshoff.Server.Channels.Logs.{event_of}
use pisshoff.Server.Channels.Histories.{with_event, StandIn, done, StandIn-append}
use pisshoff.Server.Lives.{
  Opening, Client, Attempt, no_method, password, public_key_offered, keyboard_interactive, World,
  Happening, opened, tried, asked, closed, started, new,
}
use pisshoff.Server.Lives.Clients.{numbers, Descends, Differs}

-- The number `j` has been given, and is not among those that are there.
abbrev pub IsGone : ℕ → List ℕ → ℕ → Type 0
IsGone n ks j = (j < n) × All (Differs j) ks

module _ {F64 : Type 0} (at_most : F64 → F64 → Bool) where
  -- The event of a request for authentication.
  abbrev pub event_of_attempt : Attempt at_most → Option AuditLogAction
  event_of_attempt (no_method u) = none
  event_of_attempt (password draw u p) = some (login_attempt (username_password u p))
  event_of_attempt (public_key_offered u kind fingerprint) =
      some (login_attempt (public_key kind fingerprint))
  event_of_attempt (keyboard_interactive draw u (some (answer ∷ answers))) =
      some (login_attempt (username_password u (from_utf8_lossy answer)))
  event_of_attempt (keyboard_interactive draw u (some [])) = none
  event_of_attempt (keyboard_interactive draw u none) = none

  abbrev pub about : ℕ → ℕ → Option AuditLogAction → List AuditLogAction
  about k j a = if j == k then with_event a [] else []

  -- The events of what happens to the connection `k`, in order.
  abbrev pub event_at : ℕ → Happening at_most → List AuditLogAction
  event_at k (opened o) = []
  event_at k (tried j a) = about k j (event_of_attempt a)
  event_at k (asked j r) = about k j (event_of r)
  event_at k (closed j) = []

  abbrev pub events_at : ℕ → List (Happening at_most) → List AuditLogAction
  events_at k [] = []
  events_at k (h ∷ hs) = event_at k h ++ events_at k hs

  -- The beginnings and the numbers of the ends, in order.
  abbrev pub openings : List (Happening at_most) → List Opening
  openings [] = []
  openings (opened o ∷ hs) = o ∷ openings hs
  openings (_ ∷ hs) = openings hs

  abbrev pub ends : List (Happening at_most) → List ℕ
  ends [] = []
  ends (closed k ∷ hs) = k ∷ ends hs
  ends (_ ∷ hs) = ends hs

  events_at-append :
      (k : ℕ) (hs : List (Happening at_most)) (h : Happening at_most)
      → events_at k (hs ++ h ∷ []) ≡ events_at k hs ++ event_at k h
  events_at-append k [] h = append-nil (event_at k h)
  events_at-append k (g ∷ hs) h =
      ap (λ (as' : List AuditLogAction). event_at k g ++ as') (events_at-append k hs h)
      ∙ sym (append_assoc (event_at k g) (events_at k hs) (event_at k h))

  pub openings-append :
      (hs gs : List (Happening at_most)) → openings (hs ++ gs) ≡ openings hs ++ openings gs
  openings-append [] gs = refl
  openings-append (opened o ∷ hs) gs = ap (◌∷◌ o) (openings-append hs gs)
  openings-append (tried k a ∷ hs) gs = openings-append hs gs
  openings-append (asked k r ∷ hs) gs = openings-append hs gs
  openings-append (closed k ∷ hs) gs = openings-append hs gs

  pub ends-append : (hs gs : List (Happening at_most)) → ends (hs ++ gs) ≡ ends hs ++ ends gs
  ends-append [] gs = refl
  ends-append (opened o ∷ hs) gs = ends-append hs gs
  ends-append (tried k a ∷ hs) gs = ends-append hs gs
  ends-append (asked k r ∷ hs) gs = ends-append hs gs
  ends-append (closed k ∷ hs) gs = ap (◌∷◌ k) (ends-append hs gs)

  -- The log of the connection `k`: it has the identifier and the peer of the beginning, and what
  -- happened to this connection in its order.
  pub record IsLogOf (hostname : Bytes) (hs : List (Happening at_most)) (k : ℕ) (log : AuditLog)
      : Type 0 where
    pub opening : Opening
    pub begun : get_elem? (openings hs) k ≡ some opening
    pub connection_id : log.connection_id ≡ opening.connection_id
    pub peer_address : log.peer_address ≡ opening.peer_address
    pub host : log.host ≡ hostname
    pub events : StandIn (events_at k hs) log.events

  -- What one happening may do to the log of a connection.
  pub record Continues (as' : List AuditLogAction) (l l' : AuditLog) : Type 0 where
    pub more : List AuditLogEvent
    pub events : l'.events ≡ l.events ++ more
    pub order : StandIn as' more
    pub connection_id : l'.connection_id ≡ l.connection_id
    pub peer_address : l'.peer_address ≡ l.peer_address
    pub host : l'.host ≡ l.host

  pub Continues-refl : (l : AuditLog) → Continues [] l l
  Continues-refl l = record {
    more = [];
    events = sym (append-nil l.events);
    order = done;
    connection_id = refl;
    peer_address = refl;
    host = refl;
  }

  pub IsLogOf-append :
      (hostname : Bytes) (hs : List (Happening at_most)) (h : Happening at_most) (k : ℕ)
      (l l' : AuditLog)
      → Continues (event_at k h) l l'
      → IsLogOf hostname hs k l
      → IsLogOf hostname (hs ++ h ∷ []) k l'
  IsLogOf-append hostname hs h k l l' c i = record {
    opening = i.opening;
    begun =
        rw (openings-append hs (h ∷ []))
          (get_elem?-append (openings hs) (openings (h ∷ [])) k i.opening i.begun);
    connection_id = c.connection_id ∙ i.connection_id;
    peer_address = c.peer_address ∙ i.peer_address;
    host = c.host ∙ i.host;
    events = rw (events_at-append k hs h, c.events) (StandIn-append i.events c.order);
  }

  pub IsLogOf-idle :
      (hostname : Bytes) (hs : List (Happening at_most)) (h : Happening at_most) (k : ℕ)
      (l : AuditLog)
      → event_at k h ≡ []
      → IsLogOf hostname hs k l
      → IsLogOf hostname (hs ++ h ∷ []) k l
  IsLogOf-idle hostname hs h k l e i =
      IsLogOf-append hostname hs h k l l (rw e (Continues-refl l)) i

  pub about-Differs : (k j : ℕ) (a : Option AuditLogAction) → Differs k j → about j k a ≡ []
  about-Differs k j a d = let differs : (k == j) ≡ false = ground arith in rw differs refl

  pub about_self : (k : ℕ) (a : Option AuditLogAction) → about k k a ≡ with_event a []
  about_self k a = ground arith

  -- What is known of the world after a history.
  pub record Inv (hostname : Bytes) (hs : List (Happening at_most)) (w : World at_most)
      : Type 0 where
    pub begun : w.begun ≡ length (openings hs)
    pub hostname_same : w.hostname ≡ hostname
    pub descends : Descends w.begun (numbers w.clients)
    pub alive :
        All (λ (x : Client). IsLogOf hostname hs x.number x.connection.state.audit_log) w.clients
    pub gone : All (IsGone w.begun (numbers w.clients)) (ends hs)
    pub logs : Pairs (IsLogOf hostname hs) (ends hs) w.sent
    pub unborn : (k : ℕ) → w.begun ≤ k → events_at k hs ≡ []

  pub started-Inv :
      (server : Server at_most) (hostname : Bytes)
      → Inv hostname [] (started at_most server hostname)
  started-Inv server hostname = record {
    begun = refl;
    hostname_same = refl;
    descends = tt;
    alive = tt;
    gone = tt;
    logs = tt;
    unborn = λ k h. refl;
  }

  -- A happening that leaves the logs of the ended connections alone.
  pub logs-append :
      (hostname : Bytes) (hs : List (Happening at_most)) (h : Happening at_most) (P : ℕ → Type 0)
      (ls : List AuditLog)
      → ((j : ℕ) → P j → event_at j h ≡ [])
      → All P (ends hs)
      → Pairs (IsLogOf hostname hs) (ends hs) ls
      → Pairs (IsLogOf hostname (hs ++ h ∷ [])) (ends hs) ls
  logs-append hostname hs h P ls idle ps i =
      Pairs-map P (IsLogOf hostname hs) (IsLogOf hostname (hs ++ h ∷ []))
        (λ j l p. IsLogOf-idle hostname hs h j l (idle j p)) (ends hs) ls ps i

  pub unborn-append :
      (hs : List (Happening at_most)) (h : Happening at_most) (k : ℕ)
      → event_at k h ≡ []
      → events_at k hs ≡ []
      → events_at k (hs ++ h ∷ []) ≡ []
  unborn-append hs h k e i = rw (events_at-append k hs h, i, e) refl

  pub new-IsLogOf :
      (hostname : Bytes) (hs : List (Happening at_most)) (o : Opening)
      → events_at (length (openings hs)) hs ≡ []
      → IsLogOf hostname
          (hs ++ opened o ∷ [])
          (length (openings hs))
          (new hostname o).state.audit_log
  unfolding new default
  new-IsLogOf hostname hs o e = record {
    opening = o;
    begun = rw (openings-append hs (opened o ∷ [])) (get_elem?-behind (openings hs) [] o);
    connection_id = refl;
    peer_address = refl;
    host = refl;
    events = rw (unborn-append hs (opened o) (length (openings hs)) refl e) done;
  }
