-- ===== src/Connection/Grows.antt =====
-- How a connection may change while its commands run.
use pisshoff.Base.{
  List, [], ◌∷◌, ◌++◌, ◌≡◌, refl, ap, sym, ◌∙◌, append_assoc, append-nil, Option-cases, inl, inr,
  some,
}
use pisshoff.Audit.{AuditLogAction, AuditLogEvent, push_action}
use pisshoff.Connection.{ConnectionState, file_system, push}

-- Events are added behind those that are there, and nothing else that a command could read or that
-- is logged changes, the file system aside.
pub record Grows (c c' : ConnectionState) : Type 0 where
  pub more : List AuditLogEvent
  pub events : c'.audit_log.events ≡ c.audit_log.events ++ more
  pub connection_id : c'.audit_log.connection_id ≡ c.audit_log.connection_id
  pub peer_address : c'.audit_log.peer_address ≡ c.audit_log.peer_address
  pub host : c'.audit_log.host ≡ c.audit_log.host
  pub environment : c'.environment ≡ c.environment
  pub username : c'.username ≡ c.username

pub Grows-refl : (c : ConnectionState) → Grows c c
Grows-refl c = record {
  more = [];
  events = sym (append-nil c.audit_log.events);
  connection_id = refl;
  peer_address = refl;
  host = refl;
  environment = refl;
  username = refl;
}

pub Grows-trans : {c d e : ConnectionState} → Grows c d → Grows d e → Grows c e
Grows-trans {c} g h = record {
  more = g.more ++ h.more;
  events =
      h.events
      ∙ ap (λ (es : List AuditLogEvent). es ++ h.more) g.events
      ∙ append_assoc c.audit_log.events g.more h.more;
  connection_id = h.connection_id ∙ g.connection_id;
  peer_address = h.peer_address ∙ g.peer_address;
  host = h.host ∙ g.host;
  environment = h.environment ∙ g.environment;
  username = h.username ∙ g.username;
}

pub push-Grows : (action : AuditLogAction) (c : ConnectionState) → Grows c (push action c)
unfolding push push_action
push-Grows action c = record {
  more = record { start_offset = _; action = action } ∷ [];
  events = refl;
  connection_id = refl;
  peer_address = refl;
  host = refl;
  environment = refl;
  username = refl;
}

pub file_system-Grows : (c : ConnectionState) → Grows c (file_system c).1
unfolding file_system
file_system-Grows c = elim (Option-cases c.file_system) [
  | inl nothing ↦ rw nothing (record {
    more = [];
    events = sym (append-nil c.audit_log.events);
    connection_id = refl;
    peer_address = refl;
    host = refl;
    environment = refl;
    username = refl;
  })
  | inr (fs, e) ↦ rw e (Grows-refl (record c { file_system = some fs }))
]
