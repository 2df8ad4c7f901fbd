-- ===== src/Shell/Runs.antt =====
-- Runs of commands in a shell channel, and instances of the theorems on them.
use pisshoff.Base.{Bytes, bytes, [], ◌∷◌, none, some, ok, ◌≡◌, refl}
use pisshoff.Nom.{Nom, IResult}
use pisshoff.Nom.Reference.{reference}
use pisshoff.Session.{Session, right, data_call, session, stdout_capture, either}
use pisshoff.Connection.{ConnectionState}
use pisshoff.Command.Results.{exit}
use pisshoff.Command.Concrete
use pisshoff.Command.Concrete.{PartialCommand, cat, into_concrete_command}
use pisshoff.Shell.Parts.{break, string, expansion, command, Parts, nil, cons}
use pisshoff.Shell.Tokens.{tokenize}
use pisshoff.Shell.Iter as Iter
use pisshoff.Shell.Iter.{Iter, iter, not_expanding, ready, step, run, nonempty}
use pisshoff.Shell.Executing as Executing
use pisshoff.Shell.Executing.{ExecutingCommand, Either, execute, one_round, new_inner, after_live}
use pisshoff.Shell.Executing.Termination.{execute-one_round}
use pisshoff.Shell.Executing.Plain.{new-plain, waits}
use pisshoff.Connection.Grows.{Grows}
use pisshoff.Command.Results.{map_result}
use pisshoff.Shell.Iter.Meaning.{meaning}
use pisshoff.Shell.Executing.Restart.{stdin-restarts}

instance abbrev nom_7 : Nom
nom_7 = reference

abbrev connection : ConnectionState
connection = record {
  audit_log = record {
    connection_id = 1;
    ts = 0;
    peer_address = none;
    host = bytes "host";
    environment_variables = [];
    events = [];
    start = λ n. n;
  };
  username = some (bytes "root");
  file_system = none;
  environment = [];
}

-- `echo $(whoami)`
abbrev echo_line : Parts
echo_line =
    cons (string (bytes "echo"))
      (cons break (cons (expansion (command (cons (string (bytes "whoami")) nil))) nil))

abbrev cat_iter : Iter
cat_iter = Iter.new (cons (string (bytes "cat")) nil)

abbrev reading : ExecutingCommand
reading = record {
  iter_left = iter nil not_expanding (record Iter.fresh { exec = some (bytes "cat") });
  current = cat (record { remaining_params = []; status = 0 });
  buf = none;
}

execute-one_round_example :
    execute 0 (Iter.new echo_line) [] connection []
    ≡ one_round 0 (execute 0) (step [] none (Iter.new echo_line)) connection []
execute-one_round_example = execute-one_round 0 (Iter.new echo_line) [] connection []

cat_yields :
    step [] none cat_iter
    ≡ (ready (record { exec = some (bytes "cat"); params = [] }), reading.iter_left)
unfolding step run Iter.new Iter.store
cat_yields = refl

cat_ends :
    Concrete.stdin {S = Either} reading.current connection 0 (bytes "hi") (right [])
    ≡ (exit 0, connection, right (data_call 0 (bytes "hi") ∷ []))
unfolding Concrete.stdin pisshoff.Command.Cat.stdin
cat_ends = refl

-- `cat` has shown its input and its end is the exit of `cat`, yet it is started again.
stdin-restarts_example :
    Executing.stdin 0 reading connection (bytes "hi") []
    ≡ after_live 0 reading.iter_left (data_call 0 (bytes "hi") ∷ []) (
        into_concrete_command {S = Either}
          (record { exec = some (bytes "cat"); params = [] })
          connection
          0
          (right (data_call 0 (bytes "hi") ∷ [])))
stdin-restarts_example =
    stdin-restarts 0 reading [] none cat_iter (record { exec = some (bytes "cat"); params = [] })
      connection connection (bytes "hi") [] (data_call 0 (bytes "hi") ∷ []) 0 refl cat_yields
      cat_ends

parsed : tokenize (bytes "whoami") ≡ ok ([], cons (string (bytes "whoami")) nil)
unfolding tokenize pisshoff.Nom.Reference.fold_loop pisshoff.Std.Numbers.is_digit
    pisshoff.Nom.Reference.escaped_loop
parsed = refl

abbrev silent : PartialCommand → Bytes
silent cmd = []

abbrev whoami_line : Parts
whoami_line = cons (string (bytes "whoami")) nil

new-plain_example : Executing.new 0 (Iter.new whoami_line) connection [] ≡ (
  map_result
      (waits (iter nil not_expanding (meaning [] silent whoami_line Iter.fresh)))
      (into_concrete_command {S = Session}
        (Iter.partial (meaning [] silent whoami_line Iter.fresh))
        connection
        0
        []).0,
  (into_concrete_command {S = Session}
      (Iter.partial (meaning [] silent whoami_line Iter.fresh))
      connection
      0
      []).1,
  (into_concrete_command {S = Session}
      (Iter.partial (meaning [] silent whoami_line Iter.fresh))
      connection
      0
      []).2,
)
new-plain_example = new-plain 0 silent whoami_line connection [] tt
