-- ===== src/Audit.antt =====
-- pisshoff-types/src/audit.rs: the audit log of a connection.
use pisshoff.Base.{ℕ, List, [], ◌∷◌, ◌++◌, Option, none, Bytes, Bool, length}

-- Identifiers and times are only carried along: a number, or the text of an address.
abbrev pub Uuid : Type 0
Uuid = ℕ

abbrev pub OffsetDateTime : Type 0
OffsetDateTime = ℕ

abbrev pub Duration : Type 0
Duration = ℕ

abbrev pub SocketAddr : Type 0
SocketAddr = Bytes

pub record MkdirEvent : Type 0 where
  pub path : Bytes

pub record WriteFileEvent : Type 0 where
  pub path : Bytes
  pub content : Bytes

pub record ExecCommandEvent : Type 0 where
  pub args : List Bytes

pub record WindowAdjustedEvent : Type 0 where
  pub new_size : ℕ

pub record SubsystemRequestEvent : Type 0 where
  pub name : Bytes

pub record SignalEvent : Type 0 where
  pub name : Bytes

pub data LoginAttemptEvent : Type 0 where
  username_password : Bytes → Bytes → LoginAttemptEvent
  public_key : Bytes → Bytes → LoginAttemptEvent

pub record PtyRequestEvent : Type 0 where
  pub term : Bytes
  pub col_width : ℕ
  pub row_height : ℕ
  pub pix_width : ℕ
  pub pix_height : ℕ
  pub modes : List (ℕ × ℕ)

pub record OpenX11Event : Type 0 where
  pub originator_address : Bytes
  pub originator_port : ℕ

pub record X11RequestEvent : Type 0 where
  pub single_connection : Bool
  pub x11_auth_protocol : Bytes
  pub x11_auth_cookie : Bytes
  pub x11_screen_number : ℕ

pub record OpenDirectTcpIpEvent : Type 0 where
  pub host_to_connect : Bytes
  pub port_to_connect : ℕ
  pub originator_address : Bytes
  pub originator_port : ℕ

pub record WindowChangeRequestEvent : Type 0 where
  pub col_width : ℕ
  pub row_height : ℕ
  pub pix_width : ℕ
  pub pix_height : ℕ

pub record TcpIpForwardEvent : Type 0 where
  pub address : Bytes
  pub port : ℕ

pub data AuditLogAction : Type 0 where
  login_attempt : LoginAttemptEvent → AuditLogAction
  pty_request : PtyRequestEvent → AuditLogAction
  x11_request : X11RequestEvent → AuditLogAction
  open_x11 : OpenX11Event → AuditLogAction
  open_direct_tcp_ip : OpenDirectTcpIpEvent → AuditLogAction
  exec_command : ExecCommandEvent → AuditLogAction
  window_adjusted : WindowAdjustedEvent → AuditLogAction
  shell_requested : AuditLogAction
  subsystem_request : SubsystemRequestEvent → AuditLogAction
  window_change_request : WindowChangeRequestEvent → AuditLogAction
  signal : SignalEvent → AuditLogAction
  tcp_ip_forward : TcpIpForwardEvent → AuditLogAction
  cancel_tcp_ip_forward : TcpIpForwardEvent → AuditLogAction
  mkdir : MkdirEvent → AuditLogAction
  write_file : WriteFileEvent → AuditLogAction

pub record AuditLogEvent : Type 0 where
  pub start_offset : Duration
  pub action : AuditLogAction

-- `start` is the clock of the log: `start n` is what its reading `n` of `elapsed()` returns. The log
-- reads it once for every event.
pub record AuditLog : Type 0 where
  pub connection_id : Uuid
  pub ts : OffsetDateTime
  pub peer_address : Option SocketAddr
  pub host : Bytes
  pub environment_variables : List (Bytes × Bytes)
  pub events : List AuditLogEvent
  pub start : ℕ → Duration

unfoldable pub push_action : AuditLogAction → AuditLog → AuditLog
push_action action log = record log {
  events =
      log.events ++ record { start_offset = log.start (length log.events); action = action } ∷ [];
}

-- `AuditLog::default`, at a time and with a clock.
unfoldable pub default : OffsetDateTime → (ℕ → Duration) → AuditLog
default now start = record {
  connection_id = 0;
  ts = now;
  peer_address = none;
  host = [];
  environment_variables = [];
  events = [];
  start = start;
}
