-- ===== src/Server/Lives/Tests.antt =====
-- Two connections at the same time.
use pisshoff.Base.{ℕ, List, bytes, [], ◌∷◌, some, ◌≡◌, refl, leb, Pairs}
use pisshoff.Std.Numbers.{show, parse_unsigned, u64_max}
use pisshoff.Nom.{Nom}
use pisshoff.Nom.Reference.{reference}
use pisshoff.Audit.{AuditLog, login_attempt, username_password, signal}
use pisshoff.Sftp.{Uuids}
use pisshoff.Server.{Server}
use pisshoff.Server.Channels.{signalled}
use pisshoff.Server.Lives.{
  Opening, World, Happening, opened, tried, asked, closed, password, happen_all, started, happen,
  new, authenticate,
}
use pisshoff.Server.Lives.Histories.{IsLogOf, ends}
use pisshoff.Server.Lives.Sent.{happen_all-sent}

instance abbrev nom_7 : Nom
nom_7 = reference

instance abbrev decimals : Uuids
decimals = record { new_v4 = λ n. n; display = show; from_str = parse_unsigned u64_max }

abbrev server : Server leb
server = record { access_probability = 2; previously_accepted_passwords = [] }

abbrev opening : ℕ → Opening
opening id = record {
  connection_id = id;
  now = 0;
  start = λ n. n;
  peer_address = some (bytes "127.0.0.1:1");
}

-- The second ends before the first.
abbrev history : List (Happening leb)
history =
    opened (opening 11)
    ∷ opened (opening 12)
    ∷ tried 0 (password 9 (bytes "root") (bytes "toor"))
    ∷ asked 1 (signalled 0 (bytes "TERM"))
    ∷ closed 1
    ∷ closed 0
    ∷ []

abbrev log : ℕ → AuditLog
log id = record {
  connection_id = id;
  ts = 0;
  peer_address = some (bytes "127.0.0.1:1");
  host = bytes "host";
  environment_variables = [];
  events = [];
  start = λ n. n;
}

abbrev last : World leb
last = record {
  server = server;
  hostname = bytes "host";
  begun = 2;
  clients = [];
  sent =
      record (log 12) {
        events = record { start_offset = 0; action = signal (record { name = bytes "TERM" }) } ∷ [];
      }
      ∷ record (log 11) {
        events =
            record {
              start_offset = 0;
              action = login_attempt (username_password (bytes "root") (bytes "toor"));
            }
            ∷ [];
      }
      ∷ [];
}

happened : happen_all leb history (started leb server (bytes "host")) ≡ some last
unfolding happen authenticate new pisshoff.Server.Channels.respond pisshoff.Connection.push
    pisshoff.Server.auth_password pisshoff.Server.try_login
happened = refl

happen_all-sent_example : Pairs (IsLogOf leb (bytes "host") history) (ends leb history) last.sent
happen_all-sent_example = happen_all-sent leb server (bytes "host") history last happened
