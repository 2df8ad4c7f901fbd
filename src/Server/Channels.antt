-- ===== src/Server/Channels.antt =====
-- The requests of a client once it is let in: the handlers of `Connection` in
-- pisshoff-server/src/server.rs, and what is sent off at its end.
pub mod Logs
pub mod Histories
mod Tests
use pisshoff.Base.{
  ℕ, ◌==◌, Bool, true, false, List, [], ◌∷◌, ◌++◌, Option, none, some, Bytes, bytes, beq, Outcome,
  returns, panics, if◌then◌else◌,
}
use pisshoff.Nom.{Nom}
use pisshoff.Audit.{
  AuditLog, AuditLogAction, PtyRequestEvent, OpenX11Event, X11RequestEvent, OpenDirectTcpIpEvent,
  WindowChangeRequestEvent, TcpIpForwardEvent, pty_request, x11_request, open_x11,
  open_direct_tcp_ip, window_adjusted, shell_requested, subsystem_request, window_change_request,
  signal, tcp_ip_forward, cancel_tcp_ip_forward,
}
use pisshoff.Session.{
  ChannelId, Session, ◌▸◌, exit_status_request, close_call, channel_success, channel_failure,
}
use pisshoff.Connection.{ConnectionState, push}
use pisshoff.Shell.Machine as Shell
use pisshoff.Sftp as Sftp
use pisshoff.Sftp.{Uuids}

pub data Subsystem : Type 0 where
  shell : Shell.Shell → Subsystem
  sftp : Sftp.Sftp → Subsystem

abbrev pub Subsystems : Type 0
Subsystems = List (ChannelId × Subsystem)

-- `HashMap::get`, `HashMap::insert` and `HashMap::remove`
abbrev pub subsystem_of : ChannelId → Subsystems → Option Subsystem
subsystem_of ch [] = none
subsystem_of ch ((k, x) ∷ xs) = if k == ch then some x else subsystem_of ch xs

abbrev pub without : ChannelId → Subsystems → Subsystems
without ch [] = []
without ch ((k, x) ∷ xs) = let rest = without ch xs in if k == ch then rest else (k, x) ∷ rest

abbrev pub with_subsystem : ChannelId → Subsystem → Subsystems → Subsystems
with_subsystem ch x xs = (ch, x) ∷ without ch xs

-- Without the server, which only logging in and the end of a connection use.
pub record Connection : Type 0 where
  pub state : ConnectionState
  pub subsystem : Subsystems

-- A handler with its arguments.
pub data Request : Type 0 where
  channel_close channel_eof channel_open_session : ChannelId → Request
  channel_open_x11 : ChannelId → OpenX11Event → Request
  channel_open_direct_tcpip : ChannelId → OpenDirectTcpIpEvent → Request
  data_request : ChannelId → Bytes → Request
  extended_data : ChannelId → ℕ → Bytes → Request
  window_adjusted_request : ChannelId → ℕ → Request
  pty : ChannelId → PtyRequestEvent → Request
  x11 : ChannelId → X11RequestEvent → Request
  env_request : ChannelId → Bytes → Bytes → Request
  shell_request : ChannelId → Request
  exec_request : ChannelId → Bytes → Request
  subsystem_named : ChannelId → Bytes → Request
  window_change : ChannelId → WindowChangeRequestEvent → Request
  signalled : ChannelId → Bytes → Request
  tcpip_forward cancel_tcpip_forward : TcpIpForwardEvent → Request

abbrev pub logs : AuditLogAction → Connection → Connection
logs action c = record c { state = push action c.state }

module _ ⦃nom : Nom⦄ ⦃uuids : Uuids⦄ where
  eof : ChannelId → Connection → Session → Connection × Session
  eof ch c s = elim (subsystem_of ch c.subsystem) [
    | none ↦ (c, s ▸ channel_failure ch ▸ close_call ch)
    | some x ↦ (
      record c { subsystem = without ch c.subsystem },
      s ▸ exit_status_request ch 0 ▸ channel_success ch ▸ close_call ch,
    )
  ]

  -- The result of a subsystem, which is put back where it was.
  put_shell :
      ChannelId → Connection → Shell.Shell × ConnectionState × Session → Connection × Session
  put_shell ch c (x, state, s) =
      (record { state = state; subsystem = with_subsystem ch (shell x) c.subsystem }, s)

  put_sftp :
      ChannelId
      → Connection
      → Outcome (Sftp.Sftp × ConnectionState × Session)
      → Outcome (Connection × Session)
  put_sftp ch c panics = panics
  put_sftp ch c (returns (x, state, s)) =
      returns (record { state = state; subsystem = with_subsystem ch (sftp x) c.subsystem }, s)

  -- `data`: the channel's subsystem is unwrapped.
  data_to_channel :
      ChannelId → Bytes → Connection → Session → Option Subsystem → Outcome (Connection × Session)
  unfolding put_shell put_sftp
  data_to_channel ch input c s none = panics
  data_to_channel ch input c s (some (shell x)) =
      returns (put_shell ch c (Shell.data_received x c.state ch input s))
  data_to_channel ch input c s (some (sftp x)) =
      put_sftp ch c (Sftp.data_received x c.state ch input s)

  exec : ChannelId → Bytes → Connection → Shell.Shell × Session → Connection × Session
  unfolding put_shell
  exec ch input c (x, s) =
      let (c', s') = put_shell ch c (Shell.data_received x c.state ch input s) in
      (c', s' ▸ channel_success ch)

  open_shell : ChannelId → Connection → Shell.Shell × Session → Connection × Session
  open_shell ch c (x, s) =
      (record c { subsystem = with_subsystem ch (shell x) c.subsystem }, s ▸ channel_success ch)

  named : ChannelId → Bytes → Connection → Session → Connection × Session
  named ch name c s =
      if beq name (bytes "sftp")
      then (
        record c {
          subsystem =
              with_subsystem ch (sftp (record { open_files = []; pending_data = []; drawn = 0 }))
                c.subsystem;
        },
        s ▸ channel_success ch,
      )
      else (c, s ▸ channel_failure ch)

  env_logged : Bytes → Bytes → Connection → Connection
  env_logged name v c = record c {
    state = record c.state {
      audit_log = record c.state.audit_log {
        environment_variables = c.state.audit_log.environment_variables ++ (name, v) ∷ [];
      };
    };
  }

  unfoldable pub respond : Request → Connection → Session → Outcome (Connection × Session)
  unfolding eof data_to_channel exec open_shell named env_logged
  respond (channel_close ch) c s = returns (c, s ▸ channel_success ch)
  respond (channel_eof ch) c s = returns (eof ch c s)
  respond (channel_open_session ch) c s = returns (c, s ▸ channel_success ch)
  respond (channel_open_x11 ch e) c s = returns (logs (open_x11 e) c, s ▸ channel_failure ch)
  respond (channel_open_direct_tcpip ch e) c s =
      returns (logs (open_direct_tcp_ip e) c, s ▸ channel_failure ch)
  respond (data_request ch input) c s = data_to_channel ch input c s (subsystem_of ch c.subsystem)
  respond (extended_data ch code input) c s = returns (c, s)
  respond (window_adjusted_request ch n) c s =
      returns (logs (window_adjusted (record { new_size = n })) c, s)
  respond (pty ch e) c s = returns (logs (pty_request e) c, s ▸ channel_failure ch)
  respond (x11 ch e) c s = returns (logs (x11_request e) c, s ▸ channel_failure ch)
  respond (env_request ch name v) c s = returns (env_logged name v c, s ▸ channel_success ch)
  respond (shell_request ch) c s =
      returns (open_shell ch (logs shell_requested c) (Shell.new true ch s))
  respond (exec_request ch input) c s = returns (exec ch input c (Shell.new false ch s))
  respond (subsystem_named ch name) c s =
      returns (named ch name (logs (subsystem_request (record { name = name })) c) s)
  respond (window_change ch e) c s =
      returns (logs (window_change_request e) c, s ▸ channel_success ch)
  respond (signalled ch name) c s = returns (logs (signal (record { name = name })) c, s)
  respond (tcpip_forward e) c s = returns (logs (tcp_ip_forward e) c, s)
  respond (cancel_tcpip_forward e) c s = returns (logs (cancel_tcp_ip_forward e) c, s)
