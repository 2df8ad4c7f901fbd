-- ===== src/Shell/Iter/Meaning.antt =====
-- What a command line means, without an iterator; and that driving the iterator computes it.
use pisshoff.Base.{ℕ, zero, suc, ◌<◌, Option, none, some, Bytes, ◌≡◌, refl, ap, ◌∙◌, arith}
use pisshoff.Command.Concrete.{PartialCommand}
use pisshoff.Shell.Parts.{
  break, string, expansion, redirection, variable, command, Parts, nil, cons, append,
}
use pisshoff.Shell.Iter.{
  Env, Built, Iter, iter, not_expanding, expanding, IterState, expand, ready, fresh, new, run, step,
  yielded, on_break, store, redirect, value_of, lookup, partial, nonempty,
}
use pisshoff.Shell.Weights.{weight, weight_iter, Lighter, step-Lighter}

-- The output of a command goes in where the command stood, unless it is empty.
abbrev pub feed : Option Bytes → Built → Built
feed none b = b
feed (some out) b = store out b

module _ (env : Env) (answer : PartialCommand → Bytes) where
  -- What the parts of a command add up to, where `answer` is the output of each command that is run.
  unfoldable pub meaning : Parts → Built → Built
  meaning nil b = b
  meaning (cons break rest) b = meaning rest (on_break b)
  meaning (cons (string text) rest) b = meaning rest (store text b)
  meaning (cons (expansion (variable name)) rest) b =
      meaning rest (store (value_of (lookup name env)) b)
  meaning (cons (expansion (command inner)) rest) b =
      meaning rest (feed (nonempty (answer (partial (meaning inner fresh)))) b)
  meaning (cons (redirection idx target) rest) b = meaning rest (redirect idx target b)

  -- The same of an iterator that is half way through, and is handed an output.
  abbrev meaning_iter : Option Bytes → Iter → Built
  meaning_iter out (iter rest (expanding inner) b) =
      meaning rest (feed (nonempty (answer (partial (meaning_iter out inner)))) b)
  meaning_iter out (iter rest not_expanding b) = meaning rest (feed out b)

  -- A step of the iterator keeps the meaning.
  abbrev Agrees : Built → IterState × Iter → Type 0
  Agrees v (ready cmd, i) = cmd ≡ partial v
  Agrees v (expand cmd, i) = meaning_iter (nonempty (answer cmd)) i ≡ v

  yielded-Agrees :
      (v : Built) (rest : Parts) (b : Built) (x : IterState × Iter)
      → Agrees v x
      → Agrees (meaning rest (feed (nonempty (answer (partial v))) b)) (yielded rest b x)
  yielded-Agrees v rest b (expand cmd, i) h =
      ap (λ w. meaning rest (feed (nonempty (answer (partial w))) b)) h
  yielded-Agrees v rest b (ready cmd, i) h = ap (λ w. meaning rest (feed (nonempty (answer w)) b)) h

  run-Agrees : (ps : Parts) (b : Built) → Agrees (meaning ps b) (run env ps b)
  unfolding run meaning
  run-Agrees nil b = refl
  run-Agrees (cons break rest) b = run-Agrees rest (on_break b)
  run-Agrees (cons (string text) rest) b = run-Agrees rest (store text b)
  run-Agrees (cons (expansion (variable name)) rest) b =
      run-Agrees rest (store (value_of (lookup name env)) b)
  run-Agrees (cons (expansion (command inner)) rest) b =
      yielded-Agrees (meaning inner fresh) rest b (run env inner fresh) (run-Agrees inner fresh)
  run-Agrees (cons (redirection idx target) rest) b = run-Agrees rest (redirect idx target b)

  step-Agrees : (out : Option Bytes) (i : Iter) → Agrees (meaning_iter out i) (step env out i)
  unfolding step
  step-Agrees out (iter rest (expanding inner) b) =
      yielded-Agrees (meaning_iter out inner) rest b (step env out inner) (step-Agrees out inner)
  step-Agrees none (iter rest not_expanding b) = run-Agrees rest b
  step-Agrees (some out) (iter rest not_expanding b) = run-Agrees rest (store out b)

  drive_next :
      (Option Bytes → Iter → Option PartialCommand) → IterState × Iter → Option PartialCommand
  drive_next go (ready cmd, i) = some cmd
  drive_next go (expand cmd, i) = go (nonempty (answer cmd)) i

  -- Step the iterator until its command is ready, answering each command that it yields.
  unfoldable pub drive : ℕ → Option Bytes → Iter → Option PartialCommand
  unfolding drive_next
  drive zero out i = none
  drive (suc fuel) out i = drive_next (drive fuel) (step env out i)

  drive_next-meaning :
      (n f : ℕ) (v : Built) (x : IterState × Iter)
      → Agrees v x
      → Lighter n x
      → ((out : Option Bytes) (i : Iter)
          → weight_iter i < n
          → drive f out i ≡ some (partial (meaning_iter out i)))
      → drive_next (drive f) x ≡ some (partial v)
  unfolding drive_next
  drive_next-meaning n f v (ready cmd, i) h l rec = ap some h
  drive_next-meaning n f v (expand cmd, i) h l rec =
      rec (nonempty (answer cmd)) i l ∙ ap (λ w. some (partial w)) h

  drive-meaning_iter :
      (f : ℕ) (out : Option Bytes) (i : Iter)
      → weight_iter i < f
      → drive f out i ≡ some (partial (meaning_iter out i))
  unfolding drive
  drive-meaning_iter zero out i h = absurd (omega arith)
  drive-meaning_iter (suc f) out i h =
      drive_next-meaning (weight_iter i) f (meaning_iter out i) (step env out i) (step-Agrees out i)
        (step-Lighter env out i) (λ out j l. drive-meaning_iter f out j (omega arith))

  -- Stepping the iterator of a command line, and answering each command that it yields with that
  -- command's output, ends with the command that the line means: expansions nested to any depth are
  -- run from the inside out, each once.
  pub drive-new :
      (parts : Parts)
      → drive (suc (weight parts)) none (new parts) ≡ some (partial (meaning parts fresh))
  unfolding new
  drive-new parts =
      drive-meaning_iter (suc (weight parts)) none (iter parts not_expanding fresh) (omega arith)

-- The parts of a line one after the other.
pub meaning-append :
    (env : Env) (answer : PartialCommand → Bytes) (ps qs : Parts) (b : Built)
    → meaning env answer (append ps qs) b ≡ meaning env answer qs (meaning env answer ps b)
unfolding meaning
meaning-append env answer nil qs b = refl
meaning-append env answer (cons break rest) qs b = meaning-append env answer rest qs (on_break b)
meaning-append env answer (cons (string text) rest) qs b =
    meaning-append env answer rest qs (store text b)
meaning-append env answer (cons (expansion (variable name)) rest) qs b =
    meaning-append env answer rest qs (store (value_of (lookup name env)) b)
meaning-append env answer (cons (expansion (command inner)) rest) qs b =
    meaning-append env answer rest qs
      (feed (nonempty (answer (partial (meaning env answer inner fresh)))) b)
meaning-append env answer (cons (redirection idx target) rest) qs b =
    meaning-append env answer rest qs (redirect idx target b)
