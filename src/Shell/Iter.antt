-- ===== src/Shell/Iter.antt =====
-- `Iter` of subsystem/shell/parser.rs: it walks the parts of a command, and stops wherever a command
-- has to be run.
pub mod Meaning
pub mod Words
pub mod Quotes
use pisshoff.Base.{
  ℕ, zero, suc, Bool, true, false, List, [], ◌∷◌, ◌++◌, Option, none, some, Bytes, beq, is_empty,
  if◌then◌else◌, last, init,
}
use pisshoff.Command.Concrete.{PartialCommand}
use pisshoff.Shell.Parts.{
  RedirectionTo, stdio, ParsedPart, break, string, expansion, redirection, Expansion, variable,
  command, Parts, nil, cons,
}

abbrev pub Env : Type 0
Env = List (Bytes × Bytes)

-- `HashMap::get`
abbrev pub lookup : Bytes → Env → Option Bytes
lookup k [] = none
lookup k ((j, v) ∷ env) = if beq j k then some v else lookup k env

-- What has been built of a command: the redirections of stdout and stderr, its name, its parameters.
pub record Built : Type 0 where
  pub stdout_to : RedirectionTo
  pub stderr_to : RedirectionTo
  pub exec : Option Bytes
  pub params : List Bytes

-- An iterator is the parts that are left, the inner iterator of an expansion that is being run, and
-- what has been built.
mutual
  pub data Iter : Type 0 where
    iter : Parts → Expanding → Built → Iter

  pub data Expanding : Type 0 where
    not_expanding : Expanding
    expanding : Iter → Expanding

pub data IterState : Type 0 where
  expand : PartialCommand → IterState
  ready : PartialCommand → IterState

abbrev pub fresh : Built
fresh = record { stdout_to = stdio 0; stderr_to = stdio 1; exec = none; params = [] }

unfoldable pub new : Parts → Iter
new parts = iter parts not_expanding fresh

-- A break begins a new parameter, unless the last one is still empty.
unfoldable pub on_break : Built → Built
on_break b = elim (last b.params) [
  | none ↦ record b { params = b.params ++ [] ∷ [] }
  | some p ↦ if is_empty p then b else record b { params = b.params ++ [] ∷ [] }
]

-- The first output is the name of the command; the others go to the end of the last parameter.
unfoldable pub store : Bytes → Built → Built
store out b = elim b.exec [
  | none ↦ record b { exec = some out }
  | some name ↦ elim (last b.params) [
    | some p ↦ record b { params = init b.params ++ (p ++ out) ∷ [] }
    | none ↦ record b { params = b.params ++ out ∷ [] }
  ]
]

-- `stdio_out.get_mut(idx)`: there are two places.
unfoldable pub redirect : ℕ → RedirectionTo → Built → Built
redirect zero target b = record b { stdout_to = target }
redirect (suc zero) target b = record b { stderr_to = target }
redirect (suc (suc n)) target b = b

abbrev pub value_of : Option Bytes → Bytes
value_of none = []
value_of (some v) = v

-- `Some(buf).filter(|v| !v.is_empty())`
abbrev pub nonempty : Bytes → Option Bytes
nonempty b = if is_empty b then none else some b

abbrev pub partial : Built → PartialCommand
partial b = record { exec = b.exec; params = b.params }

-- What the inner iterator of an expansion came to: it has to run a command for its own parameters,
-- or its command is ready, and is run for the outer one's.
abbrev pub yielded : Parts → Built → IterState × Iter → IterState × Iter
yielded rest b (expand cmd, inner) = (expand cmd, iter rest (expanding inner) b)
yielded rest b (ready cmd, inner) = (expand cmd, iter rest not_expanding b)

-- The loop of `step` with no output at hand and no inner iterator. A command to be substituted gets
-- an iterator of its own, which the loop steps at once.
unfoldable pub run : Env → Parts → Built → IterState × Iter
run env nil b = (ready (partial b), iter nil not_expanding b)
run env (cons break rest) b = run env rest (on_break b)
run env (cons (string text) rest) b = run env rest (store text b)
run env (cons (expansion (variable name)) rest) b =
    run env rest (store (value_of (lookup name env)) b)
run env (cons (expansion (command inner)) rest) b = yielded rest b (run env inner fresh)
run env (cons (redirection idx target) rest) b = run env rest (redirect idx target b)

unfoldable pub step : Env → Option Bytes → Iter → IterState × Iter
unfolding run
step env out (iter rest (expanding inner) b) = yielded rest b (step env out inner)
step env none (iter rest not_expanding b) = run env rest b
step env (some out) (iter rest not_expanding b) = run env rest (store out b)
