-- ===== src/Server/Lives.antt =====
-- Connections from their beginning to their end: `Server::new`, the handlers of any number of
-- connections in any order, and `Drop for Connection` of pisshoff-server/src/server.rs. The times and
-- identifiers that the crates time and uuid make are arguments.
pub mod Clients
pub mod Histories
pub mod Continues
pub mod Keeps
pub mod Sent
pub mod Grown
mod Tests
use pisshoff.Base.{
  ℕ, suc, ◌==◌, Bool, List, [], ◌∷◌, ◌++◌, Option, none, some, Bytes, Outcome, returns, panics,
  if◌then◌else◌,
}
use pisshoff.Nom.{Nom}
use pisshoff.Audit.{AuditLog, Uuid, OffsetDateTime, Duration, SocketAddr, default}
use pisshoff.Session.{Session}
use pisshoff.Connection.{ConnectionState}
use pisshoff.Sftp.{Uuids}
use pisshoff.Server.{
  Server, Auth, auth_none, auth_password, auth_publickey, auth_keyboard_interactive,
}
use pisshoff.Server.Channels.{Connection, Request, respond}

-- What `Server::new` finds: the identifier, the time and the clock of the new log, and the peer.
pub record Opening : Type 0 where
  pub connection_id : Uuid
  pub now : OffsetDateTime
  pub start : ℕ → Duration
  pub peer_address : Option SocketAddr

-- `Server::new`
unfoldable pub new : Bytes → Opening → Connection
unfolding default
new hostname o = record {
  state = record {
    audit_log = record (default o.now o.start) {
      connection_id = o.connection_id;
      host = hostname;
      peer_address = o.peer_address;
    };
    username = none;
    file_system = none;
    environment = [];
  };
  subsystem = [];
}

-- A connection is known by its number, in the order of their beginnings.
pub record Client : Type 0 where
  pub number : ℕ
  pub connection : Connection
  pub session : Session

abbrev pub replaced : Client → List Client → Option (Connection × Session) → Option (List Client)
replaced x xs none = none
replaced x xs (some (c, s)) = some (record x { connection = c; session = s } ∷ xs)

abbrev pub kept : Client → Option (List Client) → Option (List Client)
kept x none = none
kept x (some xs) = some (x ∷ xs)

-- `f` on the client with a number.
abbrev pub at :
    ℕ → (Connection → Session → Option (Connection × Session)) → List Client → Option (List Client)
at k f [] = none
at k f (x ∷ xs) =
    let later = at k f xs in
    if x.number == k then replaced x xs (f x.connection x.session) else kept x later

-- The client with a number, and the others.
abbrev pub departed : ℕ → List Client → Option (Client × List Client)
departed k [] = none
departed k (x ∷ xs) =
    let later = departed k xs in
    if x.number == k
    then some (x, xs)
    else elim later [ none ↦ none | some (y, ys) ↦ some (y, x ∷ ys) ]

abbrev pub returned : Outcome (Connection × Session) → Option (Connection × Session)
returned (returns r) = some r
returned panics = none

module _ {F64 : Type 0} (at_most : F64 → F64 → Bool) where
  -- A request for authentication, with the number that is drawn for it.
  pub data Attempt : Type 0 where
    no_method : Bytes → Attempt
    password : F64 → Bytes → Bytes → Attempt
    public_key_offered : Bytes → Bytes → Bytes → Attempt
    keyboard_interactive : F64 → Bytes → Option (List Bytes) → Attempt

  unfoldable pub authenticate :
      Attempt → Server at_most → ConnectionState → Auth × Server at_most × ConnectionState
  authenticate (no_method u) server c = auth_none at_most server c u
  authenticate (password draw u p) server c = auth_password at_most draw server c u p
  authenticate (public_key_offered u kind fingerprint) server c =
      auth_publickey at_most server c u kind fingerprint
  authenticate (keyboard_interactive draw u answers) server c =
      auth_keyboard_interactive at_most draw server c u answers

  -- The server with its connections: how many there have been, those that are there, and the logs
  -- that have been sent to the writer of the audit log.
  pub record World : Type 0 where
    pub server : Server at_most
    pub hostname : Bytes
    pub begun : ℕ
    pub clients : List Client
    pub sent : List AuditLog

  -- What happens to the connection with a number.
  pub data Happening : Type 0 where
    opened : Opening → Happening
    tried : ℕ → Attempt → Happening
    asked : ℕ → Request → Happening
    closed : ℕ → Happening

  abbrev pub with_clients : World → Option (List Client) → Option World
  with_clients w none = none
  with_clients w (some xs) = some (record w { clients = xs })

  -- Logging in changes the server, which all connections share.
  abbrev pub let_in : Attempt → World → Option (Client × List Client) → World
  let_in a w none = w
  let_in a w (some (x, xs)) = record w { server = (authenticate a w.server x.connection.state).1 }

  abbrev pub known : Attempt → Server at_most → Connection → Session → Option (Connection × Session)
  known a server c s = some (record c { state = (authenticate a server c.state).2 }, s)

  -- `Drop for Connection`: what is left of the log is not read again.
  abbrev pub dropped : World → Option (Client × List Client) → Option World
  dropped w none = none
  dropped w (some (x, xs)) =
      some (record w { clients = xs; sent = w.sent ++ x.connection.state.audit_log ∷ [] })

  abbrev pub started : Server at_most → Bytes → World
  started server hostname = record {
    server = server;
    hostname = hostname;
    begun = 0;
    clients = [];
    sent = [];
  }

module _ {F64 : Type 0} (at_most : F64 → F64 → Bool) ⦃nom : Nom⦄ ⦃uuids : Uuids⦄ where
  -- There is no result where the connection is not there, or where its handler panics.
  unfoldable pub happen : Happening at_most → World at_most → Option (World at_most)
  happen (opened o) w = some (record w {
    begun = suc w.begun;
    clients = record { number = w.begun; connection = new w.hostname o; session = [] } ∷ w.clients;
  })
  happen (tried k a) w =
      with_clients at_most (let_in at_most a w (departed k w.clients))
        (at k (known at_most a w.server) w.clients)
  happen (asked k r) w = with_clients at_most w (at k (λ c s. returned (respond r c s)) w.clients)
  happen (closed k) w = dropped at_most w (departed k w.clients)

  abbrev pub and_then :
      (World at_most → Option (World at_most)) → Option (World at_most) → Option (World at_most)
  and_then f none = none
  and_then f (some w) = f w

  abbrev pub happen_all : List (Happening at_most) → World at_most → Option (World at_most)
  happen_all [] w = some w
  happen_all (h ∷ hs) w = and_then (happen_all hs) (happen h w)
