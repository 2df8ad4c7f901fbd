-- ===== src/Exporter.antt =====
-- pisshoff-timescaledb-exporter/src/main.rs: lines of an audit log that come over a socket are put into
-- a database. The database, the codec of lines, and what serde and strum derive for the types of the
-- log are parameters.
pub mod Postgres
pub mod Rows
pub mod Atomic
pub mod Reliable
pub mod Pipeline
pub mod Listeners
pub mod Samples
mod Tests
use pisshoff.Base.{◌+◌, List, [], ◌∷◌, ◌++◌, map, Option, none, some, Bytes, bytes, Result, ok, err}
use pisshoff.Audit.{AuditLog, AuditLogEvent, AuditLogAction, Uuid, SocketAddr}
use pisshoff.Exporter.Postgres.{Row, audit, environment_variable, event, Postgres as Client}

-- What is derived: the parser of a log, the name of an action and its text.
pub record Derived : Type 0 where
  pub from_str : Bytes → Option AuditLog
  pub name : AuditLogAction → Bytes
  pub to_value : AuditLogAction → Option Bytes

-- A step of the three futures: to prepare a statement, to insert a row, and an event without a text.
pub data Statement : Type 0 where
  prepared : Bytes → Statement
  insert : Row → Statement
  unprintable : Statement

abbrev pub insert_environment_variable : Bytes
insert_environment_variable =
    bytes "INSERT INTO audit_environment_variables (connection_id, name, value) VALUES ($1, $2, $3)"

abbrev pub insert_event_text : Bytes
insert_event_text =
    bytes
      "INSERT INTO audit_events (timestamp, connection_id, type, content) VALUES ($1, $2, $3, $4)"

abbrev pub with_content : (Bytes → Row) → Option Bytes → Statement
with_content row none = unprintable
with_content row (some content) = insert (row content)

module _ (derived : Derived) where
  open derived use {from_str, name, to_value}

  unfoldable pub insert_event : AuditLog → AuditLogEvent → Statement
  insert_event log e =
      with_content (event (log.ts + e.start_offset) log.connection_id (name e.action))
        (to_value e.action)

  variable_row : Uuid → Bytes × Bytes → Statement
  variable_row id (key, value) = insert (environment_variable id key value)

  -- The steps of the three futures, one future after the other.
  unfoldable pub statements : AuditLog → SocketAddr → List Statement
  unfolding variable_row
  statements log peer =
      insert (audit log.ts log.connection_id peer log.host)
        ∷ prepared insert_environment_variable
        ∷ map (variable_row log.connection_id) log.environment_variables
      ++ prepared insert_event_text ∷ map (insert_event log) log.events

module _ (pg : Client) (derived : Derived) where
  pub data Error : Type 0 where
    database : pg.DbError → Error
    json : Error

  abbrev pub or_db : {A : Type 0} → Result pg.DbError A → Result Error A
  or_db (ok a) = ok a
  or_db (err e) = err (database e)

  infixl 5 ◌>>=◌
  abbrev pub ◌>>=◌ : {A B : Type 0} → Result Error A → (A → Result Error B) → Result Error B
  ok a >>= f = f a
  err e >>= f = err e

  unfoldable pub run : Statement → pg.Transaction → Result Error pg.Transaction
  run (prepared s) tx = or_db (pg.prepare s tx)
  run (insert row) tx = or_db (pg.execute row tx)
  run unprintable tx = err json

  -- `try_join!` and `try_join_all`, with the steps of all futures in the order in which they run.
  unfoldable pub run_all : List Statement → pg.Transaction → Result Error pg.Transaction
  run_all [] tx = ok tx
  run_all (s ∷ ss) tx = run s tx >>= run_all ss

  -- An error leaves the database as it was: a transaction that is not committed is rolled back.
  ingest :
      (List Statement → List Statement) → AuditLog → pg.Db → Option SocketAddr → Result Error pg.Db
  ingest order log db none = ok db
  ingest order log db (some peer) =
      or_db (pg.transaction db) >>= run_all (order (statements derived log peer)) >>= λ tx.
      or_db (pg.commit tx)

  parsed : (List Statement → List Statement) → pg.Db → Option AuditLog → Result Error pg.Db
  parsed order db none = err json
  parsed order db (some log) = ingest order log db log.peer_address

  unfoldable pub ingest_log : (List Statement → List Statement) → pg.Db → Bytes → Result Error pg.Db
  unfolding ingest parsed
  ingest_log order db line = parsed order db (derived.from_str line)

-- The lines for which a task is started, and whether the connection ends with an error.
unfoldable pub handle_connection :
    {E : Type 0} → List (Result E Bytes) → List Bytes × Result E (Unit {0})
handle_connection [] = ([], ok tt)
handle_connection (err e ∷ items) = ([], err e)
handle_connection (ok line ∷ items) = let (lines, r) = handle_connection items in (line ∷ lines, r)

-- What is accepted, one after the other: the tasks of the connections, and the error with which the
-- listener has ended, if it has.
unfoldable pub spawn_listener :
    {E F : Type 0}
    → List (Result F (List (Result E Bytes)))
    → List (List Bytes × Result E (Unit {0})) × Option F
spawn_listener [] = ([], none)
spawn_listener (err e ∷ rest) = ([], some e)
spawn_listener (ok items ∷ rest) =
    let (tasks, end) = spawn_listener rest in (handle_connection items ∷ tasks, end)
