-- ===== src/Shell/Weights.antt =====
-- A bound on the commands that an iterator can still yield for expansions.
use pisshoff.Base.{ℕ, suc, ◌+◌, ◌≤◌, ◌<◌, ◌≤◌, Option, none, some, Bytes, arith}
use pisshoff.Shell.Parts.{
  ParsedPart, break, string, expansion, redirection, Expansion, variable, command, Parts, nil, cons,
}
use pisshoff.Shell.Iter.{
  Env, Built, Iter, iter, Expanding, not_expanding, expanding, IterState, expand, ready, fresh, run,
  step, yielded, on_break, store, redirect, value_of, lookup,
}

abbrev mutual
  pub weight : Parts → ℕ
  weight nil = 0
  weight (cons p ps) = suc (weight_part p + weight ps)

  pub weight_part : ParsedPart → ℕ
  weight_part break = 0
  weight_part (string s) = 0
  weight_part (expansion e) = weight_expansion e
  weight_part (redirection n r) = 0

  pub weight_expansion : Expansion → ℕ
  weight_expansion (variable v) = 0
  weight_expansion (command ps) = suc (weight ps)

abbrev mutual
  pub weight_iter : Iter → ℕ
  weight_iter (iter ps e b) = weight ps + weight_expanding e

  pub weight_expanding : Expanding → ℕ
  weight_expanding not_expanding = 0
  weight_expanding (expanding i) = suc (weight_iter i)

-- What is left after a command was yielded for an expansion weighs less than `n`.
abbrev pub Lighter : ℕ → IterState × Iter → Type 0
Lighter n (expand cmd, i) = weight_iter i < n
Lighter n (ready cmd, i) = Unit

Lighter-le : (m n : ℕ) (x : IterState × Iter) → m ≤ n → Lighter m x → Lighter n x
Lighter-le m n (expand cmd, i) h l = omega arith
Lighter-le m n (ready cmd, i) h l = tt

yielded-Lighter :
    (n : ℕ) (rest : Parts) (b : Built) (x : IterState × Iter)
    → Lighter n x
    → Lighter (suc (n + weight rest)) (yielded rest b x)
yielded-Lighter n rest b (expand cmd, i) l = omega arith
yielded-Lighter n rest b (ready cmd, i) l = omega arith

run-Lighter : (env : Env) (ps : Parts) (b : Built) → Lighter (weight ps) (run env ps b)
unfolding run
run-Lighter env nil b = tt
run-Lighter env (cons break rest) b =
    Lighter-le (weight rest) _ (run env rest (on_break b)) (omega arith) (run-Lighter env rest _)
run-Lighter env (cons (string text) rest) b =
    Lighter-le (weight rest) _ (run env rest (store text b)) (omega arith) (run-Lighter env rest _)
run-Lighter env (cons (expansion (variable name)) rest) b =
    Lighter-le (weight rest) _ (run env rest (store (value_of (lookup name env)) b)) (omega arith)
      (run-Lighter env rest _)
run-Lighter env (cons (expansion (command inner)) rest) b =
    Lighter-le (suc (weight inner + weight rest)) _ (yielded rest b (run env inner fresh))
      (omega arith)
      (yielded-Lighter (weight inner) rest b (run env inner fresh) (run-Lighter env inner fresh))
run-Lighter env (cons (redirection idx target) rest) b =
    Lighter-le (weight rest) _ (run env rest (redirect idx target b)) (omega arith)
      (run-Lighter env rest _)

-- Every step that yields a command for an expansion makes the iterator lighter.
pub step-Lighter :
    (env : Env) (out : Option Bytes) (i : Iter) → Lighter (weight_iter i) (step env out i)
unfolding step
step-Lighter env out (iter rest (expanding inner) b) =
    Lighter-le (suc (weight_iter inner + weight rest)) _ (yielded rest b (step env out inner))
      (omega arith)
      (yielded-Lighter (weight_iter inner) rest b (step env out inner) (step-Lighter env out inner))
step-Lighter env none (iter rest not_expanding b) =
    Lighter-le (weight rest) _ (run env rest b) (omega arith) (run-Lighter env rest b)
step-Lighter env (some out) (iter rest not_expanding b) =
    Lighter-le (weight rest) _ (run env rest (store out b)) (omega arith) (run-Lighter env rest _)
