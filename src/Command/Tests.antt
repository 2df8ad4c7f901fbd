-- ===== src/Command/Tests.antt =====
-- Runs of commands, and instances of the theorems on them.
use pisshoff.Base.{arith, All, Perm, Permᴰ, bytes, [], ◌∷◌, none, some, ok, ◌≡◌, refl}
use pisshoff.Nom.Reference.{reference, reference-NomLaws}
use pisshoff.Std.Utf8.{is_utf8}
use pisshoff.Std.Numbers.{show}
use pisshoff.FileSystem
use pisshoff.Audit.{write_file}
use pisshoff.Session.{Session, data_call, StdoutCaptureSession, session, stdout_capture, either}
use pisshoff.Connection.{ConnectionState, push}
use pisshoff.Command.Results.{read_stdin, exit, argparse}
use pisshoff.Command.Uname
use pisshoff.Command.Uname.Orders.{IsFlag, execute-Perm}
use pisshoff.Command.Scp
use pisshoff.Command.Scp.Messages.{Receive, file_copy, parse}
use pisshoff.Command.Scp.Messages.Prints.{print_onto, IsPrintable, parse-print_onto}
use pisshoff.Command.Scp.Transfers.{stdin-split, stdin-file}
use pisshoff.Command.Cat
use pisshoff.Command.Concrete as Concrete
use pisshoff.Command.Concrete.{PartialCommand, into_concrete_command}

abbrev pub connection : ConnectionState
connection = record {
  audit_log = record {
    connection_id = 1;
    ts = 0;
    peer_address = none;
    host = bytes "host";
    environment_variables = [];
    events = [];
    start = λ n. n;
  };
  username = some (bytes "root");
  file_system = none;
  environment = [];
}

abbrev echo_hi : PartialCommand
echo_hi = record { exec = some (bytes "echo"); params = bytes "hi" ∷ [] }

-- Output that is captured has no newline at its end.
echoes :
    (into_concrete_command {S = Session} echo_hi connection 0 []
      ≡ (exit 0, connection, data_call 0 (bytes "hi\n") ∷ []))
    × (into_concrete_command {S = StdoutCaptureSession} echo_hi connection 0 (record { out = [] })
        ≡ (exit 0, connection, record { out = bytes "hi" }))
unfolding into_concrete_command Concrete.new Concrete.dispatch pisshoff.Command.Echo.new
    pisshoff.Std.Utf8.from_utf8_lossy
echoes = (refl, refl)

flags : All IsFlag (argparse (bytes "-sn" ∷ []))
unfolding argparse Uname.action Uname.on_short pisshoff.Std.Chars.chars
flags = (tt, (tt, tt))

spread : Perm (argparse (bytes "-sn" ∷ [])) (argparse (bytes "-n" ∷ bytes "-s" ∷ []))
unfolding argparse pisshoff.Std.Chars.chars
spread = ∣ Permᴰ.swap refl refl ∣₁

execute-Perm_example :
    Uname.execute (bytes "-sn" ∷ []) ≡ Uname.execute (bytes "-n" ∷ bytes "-s" ∷ [])
execute-Perm_example = execute-Perm (bytes "-sn" ∷ []) (bytes "-n" ∷ bytes "-s" ∷ []) flags spread

abbrev transfer : Scp.Scp
transfer = record {
  path = bytes "/tmp";
  pending_data = bytes "a";
  state = Scp.receiving_file 3 (bytes "/tmp/f");
}

stdin-split_example :
    (Scp.stdin ⦃nom = reference⦄ {S = Session} transfer connection 0 (bytes "b") []
      ≡ (read_stdin (record transfer { pending_data = bytes "ab" }), connection, []))
    × (Scp.stdin ⦃nom = reference⦄ {S = Session}
          (record transfer { pending_data = bytes "ab" })
          connection
          0
          (bytes "c")
          []
        ≡ Scp.stdin ⦃nom = reference⦄ {S = Session} transfer connection 0 (bytes "bc") [])
stdin-split_example =
    stdin-split ⦃nom = reference⦄ transfer connection 0 (bytes "b") (bytes "c") [] 3
      (bytes "/tmp/f") refl (omega arith)

stdin-file_example :
    Scp.stdin ⦃nom = reference⦄ {S = Session} transfer connection 0 (98 ∷ 99 ∷ 0 ∷ []) [] ≡ (
      read_stdin (record transfer { pending_data = []; state = Scp.waiting }),
      push (write_file (record { path = bytes "/tmp/f"; content = bytes "abc" })) connection,
      data_call 0 Scp.success ∷ [],
    )
stdin-file_example =
    stdin-file ⦃nom = reference⦄ transfer connection 0 (98 ∷ 99 ∷ 0 ∷ []) (bytes "abc")
      (bytes "/tmp/f") [] refl refl

abbrev at_home : ConnectionState
at_home = record connection { file_system = some (FileSystem.new (bytes "root")) }

abbrev announced : Receive
announced = file_copy (bytes "0644") 12 (bytes "notes")

announced-IsPrintable : IsPrintable announced
unfolding IsPrintable is_utf8
announced-IsPrintable = (refl, refl, omega arith, refl, (refl, (refl, (refl, (refl, (refl, tt))))))

-- The line as a sender writes it.
announced_text : print_onto announced [] ≡ bytes "C0644 12 notes\n"
unfolding print_onto show
announced_text = refl

parse-print_onto_example :
    parse ⦃nom = reference⦄ (print_onto announced (bytes "content"))
    ≡ ok (bytes "content", announced)
parse-print_onto_example =
    parse-print_onto ⦃nom = reference⦄ reference-NomLaws announced (bytes "content")
      announced-IsPrintable
