-- ===== src/Server/Channels/Logs.antt =====
-- What the requests of a client leave in the audit log.
use pisshoff.Base.{
  false, [], ◌∷◌, Option, none, some, Bytes, bytes, beq, Outcome, returns, panics, ◌≡◌, refl, sym,
  subst, append-nil, Bool-cases, Option-cases, inl, inr,
}
use pisshoff.Std.Utf8.{from_utf8_lossy}
use pisshoff.Nom.{Nom}
use pisshoff.Audit.{
  AuditLogAction, exec_command, pty_request, x11_request, open_x11, open_direct_tcp_ip,
  window_adjusted, shell_requested, subsystem_request, window_change_request, signal,
  tcp_ip_forward, cancel_tcp_ip_forward,
}
use pisshoff.Session.{ChannelId, Session}
use pisshoff.Connection.{ConnectionState, push}
use pisshoff.Connection.Grows.{Grows, Grows-refl}
use pisshoff.Shell.Machine as Shell
use pisshoff.Shell.Machine.Logs.{data_received-Grows, data_received-logs_line}
use pisshoff.Sftp as Sftp
use pisshoff.Sftp.{Uuids}
use pisshoff.Sftp.Branches.{Where}
use pisshoff.Sftp.Logs.{data_received-kept}
use pisshoff.Server.Channels.{
  Subsystem, shell, sftp, subsystem_of, Connection, Request, channel_close, channel_eof,
  channel_open_session, channel_open_x11, channel_open_direct_tcpip, data_request, extended_data,
  window_adjusted_request, pty, x11, env_request, shell_request, exec_request, subsystem_named,
  window_change, signalled, tcpip_forward, cancel_tcpip_forward, eof, put_sftp, data_to_channel,
  named, env_logged, exec, open_shell, logs, respond,
}

-- The event of a request.
abbrev pub event_of : Request → Option AuditLogAction
event_of (channel_open_x11 ch e) = some (open_x11 e)
event_of (channel_open_direct_tcpip ch e) = some (open_direct_tcp_ip e)
event_of (window_adjusted_request ch n) = some (window_adjusted (record { new_size = n }))
event_of (pty ch e) = some (pty_request e)
event_of (x11 ch e) = some (x11_request e)
event_of (shell_request ch) = some shell_requested
event_of (exec_request ch input) =
    some (exec_command (record { args = from_utf8_lossy input ∷ [] }))
event_of (subsystem_named ch name) = some (subsystem_request (record { name = name }))
event_of (window_change ch e) = some (window_change_request e)
event_of (signalled ch name) = some (signal (record { name = name }))
event_of (tcpip_forward e) = some (tcp_ip_forward e)
event_of (cancel_tcpip_forward e) = some (cancel_tcp_ip_forward e)
event_of _ = none

abbrev pub pushed : Option AuditLogAction → ConnectionState → ConnectionState
pushed none c = c
pushed (some action) c = push action c

abbrev Leaves : ConnectionState → Connection × Session → Type 0
Leaves c (c', s) = Grows c c'.state

module _ ⦃nom : Nom⦄ ⦃uuids : Uuids⦄ where
  put_sftp-Leaves :
      (ch : ChannelId) (c : Connection) (o : Outcome (Sftp.Sftp × ConnectionState × Session))
      → ((x : Sftp.Sftp) (c' : ConnectionState) (s : Session)
          → o ≡ returns (x, c', s)
          → Grows c.state c')
      → Where (Leaves c.state) (put_sftp ch c o)
  unfolding put_sftp
  put_sftp-Leaves ch c panics h = tt
  put_sftp-Leaves ch c (returns (x, c', s)) h = h x c' s refl

  data_to_channel-Leaves :
      (ch : ChannelId) (input : Bytes) (c : Connection) (s : Session) (o : Option Subsystem)
      → Where (Leaves c.state) (data_to_channel ch input c s o)
  unfolding data_to_channel
  data_to_channel-Leaves ch input c s none = tt
  data_to_channel-Leaves ch input c s (some (shell x)) = data_received-Grows x c.state ch input s
  data_to_channel-Leaves ch input c s (some (sftp x)) =
      put_sftp-Leaves ch c (Sftp.data_received x c.state ch input s)
        (λ x' c' s' e. data_received-kept x x' c.state c' ch input s s' e)

  named-Leaves :
      (ch : ChannelId) (name : Bytes) (c : Connection) (s : Session)
      → Leaves c.state (named ch name c s)
  unfolding named
  named-Leaves ch name c s = elim (Bool-cases (beq name (bytes "sftp"))) [
    | inl known ↦ rw known (Grows-refl c.state)
    | inr unknown ↦ rw unknown (Grows-refl c.state)
  ]

  eof-Leaves : (ch : ChannelId) (c : Connection) (s : Session) → Leaves c.state (eof ch c s)
  unfolding eof
  eof-Leaves ch c s = elim (Option-cases (subsystem_of ch c.subsystem)) [
    | inl nothing ↦ rw (nothing, eof) (Grows-refl c.state)
    | inr (x, e) ↦ rw (e, eof) (Grows-refl c.state)
  ]

  env_logged-Grows : (name v : Bytes) (c : Connection) → Grows c.state (env_logged name v c).state
  unfolding env_logged
  env_logged-Grows name v c = record {
    more = [];
    events = sym (append-nil c.state.audit_log.events);
    connection_id = refl;
    peer_address = refl;
    host = refl;
    environment = refl;
    username = refl;
  }

  exec-Leaves :
      (ch : ChannelId) (input : Bytes) (c : Connection) (s : Session)
      → Leaves
          (push (exec_command (record { args = from_utf8_lossy input ∷ [] })) c.state)
          (exec ch input c (Shell.new false ch s))
  unfolding exec Shell.new
  exec-Leaves ch input c s = data_received-logs_line false c.state ch input s

  respond-Leaves :
      (r : Request) (c : Connection) (s : Session)
      → Where (Leaves (pushed (event_of r) c.state)) (respond r c s)
  unfolding respond open_shell Shell.new
  respond-Leaves (channel_close ch) c s = Grows-refl c.state
  respond-Leaves (channel_eof ch) c s = eof-Leaves ch c s
  respond-Leaves (channel_open_session ch) c s = Grows-refl c.state
  respond-Leaves (channel_open_x11 ch e) c s = Grows-refl (push _ c.state)
  respond-Leaves (channel_open_direct_tcpip ch e) c s = Grows-refl (push _ c.state)
  respond-Leaves (data_request ch input) c s =
      data_to_channel-Leaves ch input c s (subsystem_of ch c.subsystem)
  respond-Leaves (extended_data ch code input) c s = Grows-refl c.state
  respond-Leaves (window_adjusted_request ch n) c s = Grows-refl (push _ c.state)
  respond-Leaves (pty ch e) c s = Grows-refl (push _ c.state)
  respond-Leaves (x11 ch e) c s = Grows-refl (push _ c.state)
  respond-Leaves (env_request ch name v) c s = env_logged-Grows name v c
  respond-Leaves (shell_request ch) c s = Grows-refl (push _ c.state)
  respond-Leaves (exec_request ch input) c s = exec-Leaves ch input c s
  respond-Leaves (subsystem_named ch name) c s =
      named-Leaves ch name (logs (subsystem_request (record { name = name })) c) s
  respond-Leaves (window_change ch e) c s = Grows-refl (push _ c.state)
  respond-Leaves (signalled ch name) c s = Grows-refl (push _ c.state)
  respond-Leaves (tcpip_forward e) c s = Grows-refl (push _ c.state)
  respond-Leaves (cancel_tcpip_forward e) c s = Grows-refl (push _ c.state)

  -- Where a handler returns, the event of its request, if the request has one, stands in the audit
  -- log behind all the events that were there, and what a command or a packet logs stands behind it;
  -- no event is lost or changed. The connection's identity, user and environment stay the same, also
  -- after a request to set a variable of the environment.
  pub respond-logs :
      (r : Request) (c c' : Connection) (s s' : Session)
      → respond r c s ≡ returns (c', s')
      → Grows (pushed (event_of r) c.state) c'.state
  respond-logs r c c' s s' e =
      subst (Where (Leaves (pushed (event_of r) c.state))) e (respond-Leaves r c s)
