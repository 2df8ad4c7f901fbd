-- ===== src/Shell/Machine/Logs.antt =====
-- What a shell channel adds to the audit log.
use pisshoff.Base.{ℕ, zero, suc, Bool, true, false, [], ◌∷◌, Bytes, ◌≡◌, refl, ok, err}
use pisshoff.Std.Utf8.{from_utf8_lossy}
use pisshoff.Nom.{Nom, IResult}
use pisshoff.Audit.{exec_command}
use pisshoff.Session.{ChannelId, Session}
use pisshoff.Connection.{ConnectionState, push}
use pisshoff.Connection.Grows.{Grows, Grows-refl, Grows-trans, push-Grows}
use pisshoff.Command.Results.{Ran}
use pisshoff.Shell.Parts.{Parts}
use pisshoff.Shell.Iter as Iter
use pisshoff.Shell.Tokens.{tokenize}
use pisshoff.Shell.Executing as Executing
use pisshoff.Shell.Executing.{ExecutingCommand}
use pisshoff.Shell.Executing.Logs.{new-Grows, stdin-Grows}
use pisshoff.Shell.Machine.{
  State, prompt, running, exit, quit, Shell, Round, next, breaks, handled, on_parsed, round, loop,
  finish, data_received,
}
use pisshoff.Shell.Machine.Rounds.{go_on, loop-go_on}

after : Round → ConnectionState
after (next state c s) = c
after (breaks c s) = c

module _ ⦃nom : Nom⦄ (interactive : Bool) (ch : ChannelId) where
  handled-Grows :
      (c : ConnectionState) (r : Ran ExecutingCommand Session)
      → Grows c r.1
      → Grows c (after (handled interactive r))
  unfolding after handled
  handled-Grows c (r, c', s) g = g

  on_parsed-Grows :
      (r : IResult Parts) (c : ConnectionState) (s : Session)
      → Grows c (after (on_parsed interactive ch r c s))
  unfolding on_parsed after
  on_parsed-Grows (ok (rest, args)) c s =
      handled-Grows c (Executing.new ch (Iter.new args) c s) (new-Grows ch (Iter.new args) c s)
  on_parsed-Grows (err e) c s = Grows-refl c

  round-Grows :
      (state : State) (input : Bytes) (c : ConnectionState) (s : Session)
      → Grows c (after (round interactive ch state input c s))
  unfolding round after
  round-Grows prompt input c s = Grows-trans (push-Grows _ c) (on_parsed-Grows (tokenize input) _ s)
  round-Grows (running cmd) input c s =
      handled-Grows c (Executing.stdin ch cmd c input s) (stdin-Grows ch cmd c input s)
  round-Grows (exit n) input c s = Grows-refl c
  round-Grows (quit n) input c s = Grows-refl c

  go_on-Grows :
      (go : State → ConnectionState → Session → State × ConnectionState × Session)
      (c : ConnectionState) (r : Round)
      → Grows c (after r)
      → ((state : State) (c : ConnectionState) (s : Session) → Grows c (go state c s).1)
      → Grows c (go_on interactive ch go r).1
  unfolding go_on after
  go_on-Grows go c (breaks c' s) g h = g
  go_on-Grows go c (next (state, true) c' s) g h = g
  go_on-Grows go c (next (state, false) c' s) g h = Grows-trans g (h state c' s)

  loop-Grows :
      (k : ℕ) (state : State) (input : Bytes) (c : ConnectionState) (s : Session)
      → Grows c (loop interactive ch k state input c s).1
  unfolding loop
  loop-Grows zero state input c s = Grows-refl c
  loop-Grows (suc k) state input c s = rw loop-go_on (
      go_on-Grows
        (λ (state : State) (c : ConnectionState) (s : Session).
          loop interactive ch k state input c s)
        c (round interactive ch state input c s) (round-Grows state input c s)
        (λ state c s. loop-Grows k state input c s))

  finish_connection : (x : State × ConnectionState × Session) → (finish ch interactive x).1 ≡ x.1
  unfolding finish
  finish_connection (prompt, c, s) = refl
  finish_connection (running cmd, c, s) = refl
  finish_connection (exit n, c, s) = refl
  finish_connection (quit n, c, s) = refl

-- Whatever the client sends to a shell channel, no event of the audit log is lost or changed: new
-- events stand behind those that were there. The identity of the connection, its environment and its
-- user stay the same.
pub data_received-Grows :
    ⦃nom : Nom⦄ (shell : Shell) (c : ConnectionState) (ch : ChannelId) (input : Bytes) (s : Session)
    → Grows c (data_received shell c ch input s).1
unfolding data_received
data_received-Grows shell c ch input s =
    rw finish_connection (loop-Grows shell.interactive ch 2 shell.state input c s)

pub data_received-logs_line :
    ⦃nom : Nom⦄ (interactive : Bool) (c : ConnectionState) (ch : ChannelId) (input : Bytes)
    (s : Session)
    → Grows
        (push (exec_command (record { args = from_utf8_lossy input ∷ [] })) c)
        (data_received (record { interactive = interactive; state = prompt }) c ch input s).1
unfolding data_received round
data_received-logs_line interactive c ch input s =
    let logged = push (exec_command (record { args = from_utf8_lossy input ∷ [] })) c in
    rw (finish_connection, loop-go_on)
      (go_on-Grows interactive ch
        (λ (state : State) (c : ConnectionState) (s : Session).
          loop interactive ch 1 state input c s)
        logged (on_parsed interactive ch (tokenize input) logged s)
        (on_parsed-Grows interactive ch (tokenize input) logged s)
        (λ state c s. loop-Grows interactive ch 1 state input c s))
