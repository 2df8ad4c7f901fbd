-- ===== src/Shell/Executing/Logs.antt =====
-- Running the commands of a line only adds to the connection's log.
use pisshoff.Base.{ℕ, zero, suc, ◌<◌, [], arith, Bytes}
use pisshoff.Nom.{Nom}
use pisshoff.Session.{ChannelId, Session, session, stdout_capture, either}
use pisshoff.Connection.{ConnectionState}
use pisshoff.Connection.Grows.{Grows, Grows-trans}
use pisshoff.Command.Results.{read_stdin, exit, close, Ran}
use pisshoff.Command.Logs.{into_concrete_command-Grows, stdin-Grows as command_stdin-Grows}
use pisshoff.Command.Concrete.{ConcreteCommand}
use pisshoff.Shell.Iter.{Iter, IterState, expand, ready, nonempty}
use pisshoff.Shell.Weights.{weight_iter, Lighter, step-Lighter}
use pisshoff.Shell.Executing.{
  ExecutingCommand, Either, after_capture, after_live, one_round, new_inner, execute, new, stdin,
  after_input, input_session,
}

abbrev Going : Type 0
Going = Bytes → ConnectionState → Session → Ran ExecutingCommand Session

abbrev Grower : Going → Type 0
Grower f = (buf : Bytes) (c : ConnectionState) (s : Session) → Grows c (f buf c s).1

module _ (ch : ChannelId) where
  after_capture-Grows :
      (f : Going) (i : Iter) (s : Session) (c : ConnectionState) (r : Ran ConcreteCommand Either)
      → Grows c r.1
      → Grower f
      → Grows c (after_capture ch f i s r).1
  unfolding after_capture
  after_capture-Grows f i s c (read_stdin cmd, c', e) g h = g
  after_capture-Grows f i s c (exit status, c', e) g h = Grows-trans g (h _ c' s)
  after_capture-Grows f i s c (close status, c', e) g h = g

  after_live-Grows :
      (i : Iter) (s : Session) (c : ConnectionState) (r : Ran ConcreteCommand Either)
      → Grows c r.1
      → Grows c (after_live ch i s r).1
  unfolding after_live
  after_live-Grows i s c (read_stdin cmd, c', e) g = g
  after_live-Grows i s c (exit status, c', e) g = g
  after_live-Grows i s c (close status, c', e) g = g

  one_round-Grows :
      (f : Iter → Going) (n : ℕ) (x : IterState × Iter) (c : ConnectionState) (s : Session)
      → Lighter n x
      → ((i : Iter) → weight_iter i < n → Grower (f i))
      → Grows c (one_round ch f x c s).1
  unfolding one_round
  one_round-Grows f n (expand cmd, i) c s l h =
      after_capture-Grows (f i) i s c _ (into_concrete_command-Grows cmd c ch _) (h i l)
  one_round-Grows f n (ready cmd, i) c s l h =
      after_live-Grows i s c _ (into_concrete_command-Grows cmd c ch _)

  new_inner-Grows :
      (spent : Ran ExecutingCommand Session) (k : ℕ) (i : Iter) (buf : Bytes) (c : ConnectionState)
      (s : Session)
      → weight_iter i < k
      → Grows c (new_inner ch spent k i buf c s).1
  unfolding new_inner
  new_inner-Grows spent zero i buf c s l = absurd (omega arith)
  new_inner-Grows spent (suc k) i buf c s l =
      one_round-Grows (new_inner ch spent k) (weight_iter i) _ c s
        (step-Lighter c.environment (nonempty buf) i)
        (λ j m buf c s. new_inner-Grows spent k j buf c s (omega arith))

  pub execute-Grows :
      (i : Iter) (buf : Bytes) (c : ConnectionState) (s : Session)
      → Grows c (execute ch i buf c s).1
  unfolding execute
  execute-Grows i buf c s =
      new_inner-Grows (exit 0, c, s) (suc (weight_iter i)) i buf c s (omega arith)

  pub new-Grows : (i : Iter) (c : ConnectionState) (s : Session) → Grows c (new ch i c s).1
  unfolding new
  new-Grows i c s = execute-Grows i [] c s

module _ ⦃nom : Nom⦄ (ch : ChannelId) where
  after_input-Grows :
      (x : ExecutingCommand) (s : Session) (c : ConnectionState) (r : Ran ConcreteCommand Either)
      → Grows c r.1
      → Grows c (after_input ch x s r).1
  unfolding after_input
  after_input-Grows x s c (read_stdin cmd, c', e) g = g
  after_input-Grows x s c (exit status, c', e) g =
      Grows-trans g (execute-Grows ch x.iter_left _ c' _)
  after_input-Grows x s c (close status, c', e) g = g

  pub stdin-Grows :
      (x : ExecutingCommand) (c : ConnectionState) (input : Bytes) (s : Session)
      → Grows c (stdin ch x c input s).1
  unfolding stdin
  stdin-Grows x c input s =
      after_input-Grows x s c _
        (command_stdin-Grows x.current c ch input (input_session ch x.buf s))
