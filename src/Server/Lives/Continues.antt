-- ===== src/Server/Lives/Continues.antt =====
-- What a handler of a connection leaves in its log.
use pisshoff.Base.{
  ℕ, Bool, [], ◌∷◌, Option, none, some, Bytes, Outcome, returns, panics, ◌≡◌, refl, sym, ap, ◌∙◌,
  arith,
}
use pisshoff.Std.Utf8.{from_utf8_lossy}
use pisshoff.Nom.{Nom}
use pisshoff.Audit.{AuditLogAction, login_attempt, username_password, push_action}
use pisshoff.Session.{Session}
use pisshoff.Connection.{ConnectionState, push}
use pisshoff.Connection.Grows.{Grows, Grows-refl}
use pisshoff.Sftp.{Uuids}
use pisshoff.Server.{
  Server, auth_none, auth_password, auth_publickey, auth_keyboard_interactive, try_login,
}
use pisshoff.Server.Logins.{attempt}
use pisshoff.Server.Channels.{Connection, Request, respond}
use pisshoff.Server.Channels.Logs.{event_of, pushed, respond-logs}
use pisshoff.Server.Channels.Histories.{with_event, Grows-Logged}
use pisshoff.Server.Lives.{
  returned, Attempt, no_method, password, public_key_offered, keyboard_interactive, authenticate,
  known,
}
use pisshoff.Server.Lives.Histories.{event_of_attempt, about, Continues, about_self}

module _ {F64 : Type 0} (at_most : F64 → F64 → Bool) ⦃nom : Nom⦄ ⦃uuids : Uuids⦄ where
  returned-returns :
      (o : Outcome (Connection × Session)) (c : Connection) (s : Session)
      → returned o ≡ some (c, s)
      → o ≡ returns (c, s)
  returned-returns (returns r) c s h = ground arith
  returned-returns panics c s h = cc

  Grows-Continues :
      (a : Option AuditLogAction) (c c' : ConnectionState)
      → Grows (pushed a c) c'
      → Continues at_most (with_event a []) c.audit_log c'.audit_log
  unfolding push push_action
  Grows-Continues none c c' g =
      let l = Grows-Logged none c c' g in
      record {
        more = l.more;
        events = l.events;
        order = l.order;
        connection_id = g.connection_id;
        peer_address = g.peer_address;
        host = g.host;
      }
  Grows-Continues (some a) c c' g =
      let l = Grows-Logged (some a) c c' g in
      record {
        more = l.more;
        events = l.events;
        order = l.order;
        connection_id = g.connection_id;
        peer_address = g.peer_address;
        host = g.host;
      }

  try_login-log :
      (draw : F64) (server : Server at_most) (c : ConnectionState) (u p : Bytes)
      → (try_login at_most draw server c u p).2.audit_log
        ≡ (push (login_attempt (username_password u p)) c).audit_log
  unfolding push
  try_login-log draw server c u p =
      ap (λ (d : ConnectionState). d.audit_log) (attempt at_most draw server c u p)

  authenticate-log :
      (a : Attempt at_most) (server : Server at_most) (c : ConnectionState)
      → (authenticate at_most a server c).2.audit_log
        ≡ (pushed (event_of_attempt at_most a) c).audit_log
  unfolding authenticate auth_none auth_password auth_publickey auth_keyboard_interactive
  authenticate-log (no_method u) server c = refl
  authenticate-log (password draw u p) server c = try_login-log draw server c u p
  authenticate-log (public_key_offered u kind fingerprint) server c = refl
  authenticate-log (keyboard_interactive draw u (some (answer ∷ answers))) server c =
      try_login-log draw server c u (from_utf8_lossy answer)
  authenticate-log (keyboard_interactive draw u (some [])) server c = refl
  authenticate-log (keyboard_interactive draw u none) server c = refl

  pub tried-Continues :
      (k : ℕ) (a : Attempt at_most) (server : Server at_most) (c c' : Connection) (s s' : Session)
      → known at_most a server c s ≡ some (c', s')
      → Continues at_most
          (about at_most k k (event_of_attempt at_most a))
          c.state.audit_log
          c'.state.audit_log
  tried-Continues k a server c c' s s' h =
      let same : record c { state = (authenticate at_most a server c.state).2 } ≡ c' =
        ground arith in
      let e : c'.state.audit_log ≡ (pushed (event_of_attempt at_most a) c.state).audit_log =
        ap (λ (d : Connection). d.state.audit_log) (sym same) ∙ authenticate-log a server c.state in
      rw (about_self at_most k (event_of_attempt at_most a), e)
        (Grows-Continues (event_of_attempt at_most a) c.state
          (pushed (event_of_attempt at_most a) c.state) (Grows-refl _))

  pub asked-Continues :
      (k : ℕ) (r : Request) (c c' : Connection) (s s' : Session)
      → returned (respond r c s) ≡ some (c', s')
      → Continues at_most (about at_most k k (event_of r)) c.state.audit_log c'.state.audit_log
  asked-Continues k r c c' s s' h = rw (about_self at_most k (event_of r)) (
      Grows-Continues (event_of r) c.state c'.state
        (respond-logs r c c' s s' (returned-returns (respond r c s) c' s' h)))
