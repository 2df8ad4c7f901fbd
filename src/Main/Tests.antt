-- ===== src/Main/Tests.antt =====
-- A run of the program with one connection, up to ctrl-c.
use mathlib.Core.List.Permᴰ
use pisshoff.Base.{
  List, bytes, [], ◌∷◌, ◌++◌, some, ok, true, false, ◌≡◌, refl, leb, Pairs, All, take, Permᴰ,
}
use pisshoff.Std.Numbers.{show, parse_unsigned, u64_max}
use pisshoff.Nom.{Nom}
use pisshoff.Nom.Reference.{reference}
use pisshoff.Sftp.{Uuids}
use pisshoff.Server.{Server}
use pisshoff.Server.Channels.{shell_request}
use pisshoff.Server.Lives.{Opening, World, opened, asked, closed}
use pisshoff.Server.Lives.Histories.{IsLogOf}
use pisshoff.AuditWriter.{waits, finished}
use pisshoff.AuditWriter.Io.{Prefix}
use pisshoff.AuditWriter.Memory.{memory, memory-FilesLaws}
use pisshoff.AuditWriter.Lines.{lines, HasText, Written}
use pisshoff.Exporter.{Statement}
use pisshoff.Exporter.Samples as Samples
use pisshoff.Exporter.Samples.{sample, to_vec}
use pisshoff.Main.{
  Program, Step, happens, takes, sleeps, hangs_up, reopens, shuts_down, joins, interrupted,
  returned, selecting, begin, steps,
}
use pisshoff.Main.Phases.{happenings, Fits}
use pisshoff.Main.Recorded.{steps-Written}
use pisshoff.Main.Returns.{Ended, steps-Ended}

instance abbrev nom_7 : Nom
nom_7 = reference

instance abbrev decimals : Uuids
decimals = record { new_v4 = λ n. n; display = show; from_str = parse_unsigned u64_max }

abbrev server : Server leb
server = record { access_probability = 2; previously_accepted_passwords = [] }

abbrev opening : Opening
opening = record { connection_id = 2; now = 0; start = λ n. n; peer_address = some [] }

abbrev first_steps : List (Step leb memory to_vec)
first_steps =
    happens (opened opening)
    ∷ hangs_up
    ∷ happens (asked 0 (shell_request 0))
    ∷ happens (closed 0)
    ∷ takes
    ∷ reopens
    ∷ interrupted (ok tt)
    ∷ []

abbrev all_steps : List (Step leb memory to_vec)
all_steps = first_steps ++ shuts_down ∷ joins ∷ []

abbrev last_world : World leb
last_world = record {
  server = server;
  hostname = [];
  begun = 1;
  clients = [];
  sent = sample 2 ∷ [];
}

abbrev last : Program leb memory to_vec
last = record {
  world = last_world;
  taken = 1;
  reload = false;
  shutdown = true;
  task = finished (bytes "{xx}\n");
  phase = returned (ok tt);
}

ran : steps leb memory to_vec all_steps (begin leb memory to_vec server [] []) ≡ some last
unfolding begin pisshoff.Main.step pisshoff.Main.act pisshoff.Main.settled
    pisshoff.Server.Lives.happen pisshoff.Server.Lives.new pisshoff.Server.Channels.respond
    pisshoff.Connection.push pisshoff.AuditWriter.start_audit_writer pisshoff.AuditWriter.loop
    pisshoff.AuditWriter.turn
ran = refl

steps-Written_example :
    Written memory memory-FilesLaws to_vec
      (lines to_vec (sample 2 ∷ []))
      (All (HasText to_vec) (sample 2 ∷ []))
      last.task
    × Pairs (IsLogOf leb [] (happenings leb memory to_vec all_steps)) (0 ∷ []) (sample 2 ∷ [])
    × Prefix [] (bytes "{xx}\n")
    × Fits leb memory to_vec (returned (ok tt)) true last.task
steps-Written_example =
    steps-Written leb memory memory-FilesLaws to_vec server [] [] all_steps last ran

-- Before ctrl-c, with a log that the writer has not taken and a file that is to be opened again.
abbrev some_steps : List (Step leb memory to_vec)
some_steps = take 4 first_steps

abbrev midway : Program leb memory to_vec
midway = record {
  world = last_world;
  taken = 0;
  reload = true;
  shutdown = false;
  task = waits [] [];
  phase = selecting;
}

ran_midway : steps leb memory to_vec some_steps (begin leb memory to_vec server [] []) ≡ some midway
unfolding begin pisshoff.Main.step pisshoff.Main.act pisshoff.Main.settled
    pisshoff.Server.Lives.happen pisshoff.Server.Lives.new pisshoff.Server.Channels.respond
    pisshoff.Connection.push pisshoff.AuditWriter.start_audit_writer pisshoff.AuditWriter.loop
ran_midway = refl

steps-Ended_example : Ended leb memory to_vec (interrupted (ok tt) ∷ shuts_down ∷ joins ∷ []) midway
steps-Ended_example = steps-Ended leb memory to_vec server [] [] some_steps midway ran_midway

abbrev in_order : List Statement → List Statement
in_order ss = ss
