-- ===== src/Shell/Executing/Termination.antt =====
-- The loop of `ExecutingCommand::new_inner` ends.
use pisshoff.Base.{ℕ, zero, suc, ◌<◌, Bytes, ◌≡◌, refl, arith}
use pisshoff.Session.{ChannelId, Session, session, stdout_capture, either}
use pisshoff.Connection.{ConnectionState}
use pisshoff.Command.Results.{read_stdin, exit, close, Ran}
use pisshoff.Command.Concrete.{ConcreteCommand}
use pisshoff.Shell.Iter.{Iter, IterState, expand, ready, step, nonempty}
use pisshoff.Shell.Weights.{weight_iter, Lighter, step-Lighter}
use pisshoff.Shell.Executing.{
  ExecutingCommand, Either, captured, after_capture, one_round, new_inner, execute,
}

abbrev Going : Type 0
Going = Bytes → ConnectionState → Session → Ran ExecutingCommand Session

module _ (ch : ChannelId) where
  after_capture_cong :
      (f g : Going) (i : Iter) (s : Session) (r : Ran ConcreteCommand Either)
      → ((buf : Bytes) (c : ConnectionState) (s : Session) → f buf c s ≡ g buf c s)
      → after_capture ch f i s r ≡ after_capture ch g i s r
  unfolding after_capture
  after_capture_cong f g i s (read_stdin cmd, c, e) h = refl
  after_capture_cong f g i s (exit status, c, e) h = h (captured e) c s
  after_capture_cong f g i s (close status, c, e) h = refl

  one_round_cong :
      (f g : Iter → Going) (n : ℕ) (x : IterState × Iter) (c : ConnectionState) (s : Session)
      → Lighter n x
      → ((i : Iter)
          → weight_iter i < n
          → (buf : Bytes) (c : ConnectionState) (s : Session) → f i buf c s ≡ g i buf c s)
      → one_round ch f x c s ≡ one_round ch g x c s
  unfolding one_round
  one_round_cong f g n (expand cmd, i) c s l h = after_capture_cong (f i) (g i) i s _ (h i l)
  one_round_cong f g n (ready cmd, i) c s l h = refl

  -- With fuel beyond the weight of the iterator, the result of the loop depends neither on how much
  -- fuel there is nor on what the end of the fuel would give.
  pub new_inner_ends :
      (x y : Ran ExecutingCommand Session) (f g : ℕ) (i : Iter) (buf : Bytes) (c : ConnectionState)
      (s : Session)
      → weight_iter i < f
      → weight_iter i < g
      → new_inner ch x f i buf c s ≡ new_inner ch y g i buf c s
  unfolding new_inner
  new_inner_ends x y zero g i buf c s h k = absurd (omega arith)
  new_inner_ends x y (suc f) zero i buf c s h k = absurd (omega arith)
  new_inner_ends x y (suc f) (suc g) i buf c s h k =
      one_round_cong (new_inner ch x f) (new_inner ch y g) (weight_iter i) _ c s
        (step-Lighter c.environment (nonempty buf) i)
        (λ j l buf c s. new_inner_ends x y f g j buf c s (omega arith) (omega arith))

  -- `new_inner` is its loop: one round, which goes on with `new_inner` itself. So every iterator,
  -- output and connection has a result, and no bound on the rounds is part of it.
  pub execute-one_round :
      (i : Iter) (buf : Bytes) (c : ConnectionState) (s : Session)
      → execute ch i buf c s ≡ one_round ch (execute ch) (step c.environment (nonempty buf) i) c s
  unfolding execute
  execute-one_round i buf c s =
      one_round_cong (new_inner ch (exit 0, c, s) (weight_iter i)) (execute ch) (weight_iter i) _ c
        s (step-Lighter c.environment (nonempty buf) i)
        (λ j l buf' c' s'.
          new_inner_ends (exit 0, c, s) (exit 0, c', s') (weight_iter i) (suc (weight_iter j)) j
            buf' c' s' l (omega arith))
