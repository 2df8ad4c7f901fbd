-- ===== src/Connection.antt =====
-- `ConnectionState` of pisshoff-server/src/server.rs.
pub mod Grows
use pisshoff.Base.{List, Option, none, some, Bytes, bytes}
use pisshoff.Audit.{AuditLog, AuditLogAction, push_action}
use pisshoff.FileSystem
use pisshoff.FileSystem.{FileSystem}

pub record ConnectionState : Type 0 where
  pub audit_log : AuditLog
  pub username : Option Bytes
  pub file_system : Option FileSystem
  pub environment : List (Bytes × Bytes)

unfoldable pub username : ConnectionState → Bytes
username c = elim c.username [ none ↦ bytes "root" | some u ↦ u ]

-- The file system is made at its first use.
unfoldable pub file_system : ConnectionState → FileSystem × ConnectionState
unfolding username
file_system c = elim c.file_system [
  | some fs ↦ (fs, c)
  | none ↦ let fs = FileSystem.new (username c) in (fs, record c { file_system = some fs })
]

-- `audit_log().push_action(action)`
unfoldable pub push : AuditLogAction → ConnectionState → ConnectionState
unfolding push_action
push action c = record c { audit_log = push_action action c.audit_log }
