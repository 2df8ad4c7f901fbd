-- ===== src/Server/Channels/Histories.antt =====
-- The audit log after a whole sequence of requests.
use pisshoff.Base.{
  List, [], ◌∷◌, ◌++◌, Option, none, some, Outcome, returns, panics, ◌≡◌, refl, sym, ap, ◌∙◌,
  append_assoc, append-nil, subst,
}
use pisshoff.Nom.{Nom}
use pisshoff.Audit.{AuditLogAction, AuditLogEvent, push_action}
use pisshoff.Session.{Session}
use pisshoff.Connection.{ConnectionState, push}
use pisshoff.Connection.Grows.{Grows}
use pisshoff.Sftp.{Uuids}
use pisshoff.Sftp.Branches.{Where}
use pisshoff.Server.Channels.{Connection, Request, respond}
use pisshoff.Server.Channels.Logs.{event_of, pushed, respond-logs}

abbrev pub with_event : Option AuditLogAction → List AuditLogAction → List AuditLogAction
with_event none as' = as'
with_event (some a) as' = a ∷ as'

-- The events of a sequence of requests.
abbrev pub events_of : List Request → List AuditLogAction
events_of [] = []
events_of (r ∷ rs) = with_event (event_of r) (events_of rs)

-- Some actions stand in a log in their order, perhaps with others between them.
pub data StandIn : List AuditLogAction → List AuditLogEvent → Type 0 where
  done : StandIn [] []
  other :
      {as' : List AuditLogAction} {es : List AuditLogEvent} (e : AuditLogEvent)
      → StandIn as' es
      → StandIn as' (e ∷ es)
  this :
      {as' : List AuditLogAction} {es : List AuditLogEvent} (e : AuditLogEvent)
      → StandIn as' es
      → StandIn (e.action ∷ as') (e ∷ es)

others :
    {as' : List AuditLogAction} {es : List AuditLogEvent} (more : List AuditLogEvent)
    → StandIn as' es
    → StandIn as' (more ++ es)
others [] h = h
others (e ∷ more) h = other e (others more h)

-- A log that has new events behind those that were there.
pub record Logged (as' : List AuditLogAction) (c c' : ConnectionState) : Type 0 where
  pub more : List AuditLogEvent
  pub events : c'.audit_log.events ≡ c.audit_log.events ++ more
  pub order : StandIn as' more

-- What a part of the requests has logged, and then the others.
pub StandIn-append :
    {as' bs : List AuditLogAction} {es fs : List AuditLogEvent}
    → StandIn as' es
    → StandIn bs fs
    → StandIn (as' ++ bs) (es ++ fs)
StandIn-append done k = k
StandIn-append (other e h) k = other e (StandIn-append h k)
StandIn-append (this e h) k = this e (StandIn-append h k)

pushed-Logged :
    (a : Option AuditLogAction) (as' : List AuditLogAction) (c d e : ConnectionState)
    → Grows (pushed a c) d
    → Logged as' d e
    → Logged (with_event a as') c e
unfolding push push_action
pushed-Logged none as' c d e g l = record {
  more = g.more ++ l.more;
  events =
      l.events
      ∙ ap (λ (es : List AuditLogEvent). es ++ l.more) g.events
      ∙ append_assoc c.audit_log.events g.more l.more;
  order = others g.more l.order;
}
pushed-Logged (some a) as' c d e g l =
    let event : AuditLogEvent = record { start_offset = _; action = a } in
    record {
      more = event ∷ g.more ++ l.more;
      events =
          l.events
          ∙ ap (λ (es : List AuditLogEvent). es ++ l.more) g.events
          ∙ append_assoc (c.audit_log.events ++ event ∷ []) g.more l.more
          ∙ append_assoc c.audit_log.events (event ∷ []) (g.more ++ l.more);
      order = this event (others g.more l.order);
    }

-- The event of one request, and what stands behind it.
pub Grows-Logged :
    (a : Option AuditLogAction) (c c' : ConnectionState)
    → Grows (pushed a c) c'
    → Logged (with_event a []) c c'
Grows-Logged a c c' g =
    pushed-Logged a [] c c' c' g
      (record { more = []; events = sym (append-nil c'.audit_log.events); order = done })

module _ ⦃nom : Nom⦄ ⦃uuids : Uuids⦄ where
  abbrev and_then :
      (Connection → Session → Outcome (Connection × Session))
      → Outcome (Connection × Session)
      → Outcome (Connection × Session)
  and_then f (returns (c, s)) = f c s
  and_then f panics = panics

  -- The requests of a connection one after the other.
  abbrev pub respond_all : List Request → Connection → Session → Outcome (Connection × Session)
  respond_all [] c s = returns (c, s)
  respond_all (r ∷ rs) c s = and_then (respond_all rs) (respond r c s)

  abbrev Ends : List AuditLogAction → ConnectionState → Connection × Session → Type 0
  Ends as' c (d, t) = Logged as' c d.state

  and_then-Ends :
      (a : Option AuditLogAction) (as' : List AuditLogAction) (c : ConnectionState)
      → (f : Connection → Session → Outcome (Connection × Session))
        (o : Outcome (Connection × Session))
      → ((d : Connection) (t : Session) → o ≡ returns (d, t) → Grows (pushed a c) d.state)
      → ((d : Connection) (t : Session) → Where (Ends as' d.state) (f d t))
      → Where (Ends (with_event a as') c) (and_then f o)
  and_then-Ends a as' c f panics g k = tt
  and_then-Ends a as' c f (returns (d, t)) g k = both (f d t) (k d t)
    where
      both :
          (o : Outcome (Connection × Session))
          → Where (Ends as' d.state) o
          → Where (Ends (with_event a as') c) o
      both panics l = tt
      both (returns (e, u)) l = pushed-Logged a as' c d.state e.state (g d t refl) l

  respond_all-Ends :
      (rs : List Request) (c : Connection) (s : Session)
      → Where (Ends (events_of rs) c.state) (respond_all rs c s)
  respond_all-Ends [] c s = record {
    more = [];
    events = sym (append-nil c.state.audit_log.events);
    order = done;
  }
  respond_all-Ends (r ∷ rs) c s =
      and_then-Ends (event_of r) (events_of rs) c.state (respond_all rs) (respond r c s)
        (λ d t e. respond-logs r c d s t e) (λ d t. respond_all-Ends rs d t)

  -- Where the handlers of a sequence of requests all return, the audit log has behind the events that
  -- were there the events of the requests, in the order of the requests, with what commands and
  -- packets log between them.
  pub respond_all-logs :
      (rs : List Request) (c c' : Connection) (s s' : Session)
      → respond_all rs c s ≡ returns (c', s')
      → Logged (events_of rs) c.state c'.state
  respond_all-logs rs c c' s s' h =
      subst (Where (Ends (events_of rs) c.state)) h (respond_all-Ends rs c s)
