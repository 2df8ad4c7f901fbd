-- ===== src/Shell/Executing/Restart.antt =====
-- What `ExecutingCommand::stdin` does when the command that reads the input ends.
use pisshoff.Base.{ℕ, [], Option, none, some, Bytes, ◌≡◌, refl, subst, ap, ◌∙◌}
use pisshoff.Nom.{Nom}
use pisshoff.Session.{ChannelId, Session, right, session, stdout_capture, either}
use pisshoff.Connection.{ConnectionState}
use pisshoff.Command.Results.{exit}
use pisshoff.Command.Concrete
use pisshoff.Command.Concrete.{ConcreteCommand, PartialCommand, into_concrete_command}
use pisshoff.Shell.Parts.{
  break, string, expansion, redirection, variable, command, Parts, nil, cons,
}
use pisshoff.Shell.Iter.{
  Env, Built, Iter, iter, not_expanding, expanding, IterState, expand, ready, fresh, run, step,
  yielded, on_break, store, redirect, value_of, lookup,
}
use pisshoff.Shell.Executing.{
  ExecutingCommand, Either, after_live, after_input, execute, one_round, stdin, input_session,
  buffer_after,
}
use pisshoff.Shell.Executing.Termination.{execute-one_round}

-- An iterator that has yielded its own command yields it again, with nothing left to do.
abbrev Finished : IterState × Iter → Type 0
Finished (expand cmd, i) = Unit
Finished (ready cmd, i) = (env : Env) → step env none i ≡ (ready cmd, i)

yielded-Finished : (rest : Parts) (b : Built) (x : IterState × Iter) → Finished (yielded rest b x)
yielded-Finished rest b (expand cmd, i) = tt
yielded-Finished rest b (ready cmd, i) = tt

run-Finished : (env : Env) (ps : Parts) (b : Built) → Finished (run env ps b)
unfolding run step
run-Finished env nil b = λ env'. refl
run-Finished env (cons break rest) b = run-Finished env rest (on_break b)
run-Finished env (cons (string text) rest) b = run-Finished env rest (store text b)
run-Finished env (cons (expansion (variable name)) rest) b =
    run-Finished env rest (store (value_of (lookup name env)) b)
run-Finished env (cons (expansion (command inner)) rest) b =
    yielded-Finished rest b (run env inner fresh)
run-Finished env (cons (redirection idx target) rest) b =
    run-Finished env rest (redirect idx target b)

step-Finished : (env : Env) (out : Option Bytes) (i : Iter) → Finished (step env out i)
unfolding step
step-Finished env out (iter rest (expanding inner) b) = yielded-Finished rest b (step env out inner)
step-Finished env none (iter rest not_expanding b) = run-Finished env rest b
step-Finished env (some out) (iter rest not_expanding b) = run-Finished env rest (store out b)

module _ ⦃nom : Nom⦄ (ch : ChannelId) where
  -- A command of the line itself that has read input and ends with it does not end the line: what it
  -- left is kept, its exit status is dropped, and the same command is started once more.
  pub stdin-restarts :
      (x : ExecutingCommand) (env : Env) (out : Option Bytes) (i : Iter) (cmd : PartialCommand)
      → (c c' : ConnectionState) (input : Bytes) (s s' : Session) (status : ℕ) → x.buf ≡ none
      → step env out i ≡ (ready cmd, x.iter_left)
      → Concrete.stdin {S = Either} x.current c ch input (right s) ≡ (exit status, c', right s')
      → stdin ch x c input s
        ≡ after_live ch x.iter_left s' (into_concrete_command {S = Either} cmd c' ch (right s'))
  unfolding stdin one_round after_input input_session
  stdin-restarts x env out i cmd c c' input s s' status live yields ends =
      ap
        (λ (b : Option Bytes).
          after_input ch x s
            (Concrete.stdin {S = Either} x.current c ch input (input_session ch b s)))
        live
      ∙ ap (after_input ch x s) ends
      ∙ ap
          (λ (b : Option Bytes).
            execute ch x.iter_left (value_of (buffer_after ch b (right s'))) c' s')
          live
      ∙ execute-one_round ch x.iter_left [] c' s'
      ∙ ap (λ (r : IterState × Iter). one_round ch (execute ch) r c' s')
          (subst Finished yields (step-Finished env out i) c'.environment)
