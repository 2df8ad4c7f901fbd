-- ===== src/Shell/Executing/Plain.antt =====
-- A line without a command to substitute.
use pisshoff.Base.{[], none, Bytes, ◌≡◌, refl, ap, ◌∙◌}
use pisshoff.Session.{ChannelId, Session, session, stdout_capture, either, right, right-IsMorphism}
use pisshoff.Connection.{ConnectionState}
use pisshoff.Command.Results.{read_stdin, exit, close, Ran, map_result}
use pisshoff.Command.Sessions.{carry, into_concrete_command-carry}
use pisshoff.Command.Concrete.{ConcreteCommand, PartialCommand, into_concrete_command}
use pisshoff.Shell.Parts.{
  break, string, expansion, redirection, variable, command, Parts, nil, cons,
}
use pisshoff.Shell.Iter as Iter
use pisshoff.Shell.Iter.{
  Env, Built, Iter, iter, not_expanding, IterState, ready, fresh, run, step, on_break, store,
  redirect, value_of, lookup, partial,
}
use pisshoff.Shell.Iter.Meaning.{meaning}
use pisshoff.Shell.Executing.{ExecutingCommand, Either, after_live, one_round, execute, new}
use pisshoff.Shell.Executing.Termination.{execute-one_round}

-- No part of the line is a command to substitute.
abbrev pub IsPlain : Parts → Type 0
IsPlain nil = Unit
IsPlain (cons break rest) = IsPlain rest
IsPlain (cons (string text) rest) = IsPlain rest
IsPlain (cons (expansion (variable name)) rest) = IsPlain rest
IsPlain (cons (expansion (command inner)) rest) = ⊥
IsPlain (cons (redirection idx target) rest) = IsPlain rest

abbrev done : Built → IterState × Iter
done b = (ready (partial b), iter nil not_expanding b)

run-plain :
    (env : Env) (answer : PartialCommand → Bytes) (ps : Parts) (b : Built)
    → IsPlain ps
    → run env ps b ≡ done (meaning env answer ps b)
unfolding run meaning
run-plain env answer nil b h = refl
run-plain env answer (cons break rest) b h = run-plain env answer rest (on_break b) h
run-plain env answer (cons (string text) rest) b h = run-plain env answer rest (store text b) h
run-plain env answer (cons (expansion (variable name)) rest) b h =
    run-plain env answer rest (store (value_of (lookup name env)) b) h
run-plain env answer (cons (expansion (command inner)) rest) b h = absurd h
run-plain env answer (cons (redirection idx target) rest) b h =
    run-plain env answer rest (redirect idx target b) h

-- A command that waits for input is kept with the iterator behind it.
abbrev pub waits : Iter → ConcreteCommand → ExecutingCommand
waits i cmd = record { iter_left = i; current = cmd; buf = none }

module _ (ch : ChannelId) where
  after_live-carry :
      (i : Iter) (s : Session) (r : Ran ConcreteCommand Session)
      → after_live ch i s (carry {T = Either} right r) ≡ (map_result (waits i) r.0, r.1, r.2)
  unfolding after_live
  after_live-carry i s (read_stdin cmd, c, s') = refl
  after_live-carry i s (exit n, c, s') = refl
  after_live-carry i s (close n, c, s') = refl

  -- A line without a command to substitute runs one command, the one that the line means, and runs
  -- it on the client's session itself: what the command leaves is what the line leaves.
  pub new-plain :
      (answer : PartialCommand → Bytes) (ps : Parts) (c : ConnectionState) (s : Session)
      → IsPlain ps
      → let b = meaning c.environment answer ps fresh in
        let r = into_concrete_command {S = Session} (partial b) c ch s in
        new ch (Iter.new ps) c s ≡ (map_result (waits (iter nil not_expanding b)) r.0, r.1, r.2)
  unfolding new step Iter.new one_round
  new-plain answer ps c s h =
      let b = meaning c.environment answer ps fresh in
      execute-one_round ch (iter ps not_expanding fresh) [] c s
      ∙ ap (λ (x : IterState × Iter). one_round ch (execute ch) x c s)
          (run-plain c.environment answer ps fresh h)
      ∙ ap (after_live ch (iter nil not_expanding b) s)
          (into_concrete_command-carry {T = Either} right right-IsMorphism (partial b) c ch s)
      ∙ after_live-carry (iter nil not_expanding b) s (into_concrete_command (partial b) c ch s)
