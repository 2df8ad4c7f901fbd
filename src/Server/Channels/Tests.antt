-- ===== src/Server/Channels/Tests.antt =====
-- Instances of the theorems on the requests of a client.
use pisshoff.Base.{bytes, [], ◌∷◌, none, some, returns, ◌≡◌, refl}
use pisshoff.Std.Numbers.{show, parse_unsigned, u64_max}
use pisshoff.Nom.{Nom}
use pisshoff.Nom.Reference.{reference}
use pisshoff.Audit.{subsystem_request, signal}
use pisshoff.Session.{◌▸◌, channel_success}
use pisshoff.Connection.Grows.{Grows}
use pisshoff.Sftp.{Uuids}
use pisshoff.Server.Channels.{Connection, sftp, subsystem_named, signalled, logs, respond}
use pisshoff.Server.Channels.Histories.{Logged, respond_all, respond_all-logs}
use pisshoff.Server.Channels.Logs.{event_of, pushed, respond-logs}

instance abbrev nom_7 : Nom
nom_7 = reference

instance abbrev decimals : Uuids
decimals = record { new_v4 = λ n. n; display = show; from_str = parse_unsigned u64_max }

abbrev connection : Connection
connection = record {
  state = record {
    audit_log = record {
      connection_id = 1;
      ts = 0;
      peer_address = none;
      host = bytes "host";
      environment_variables = [];
      events = [];
      start = λ n. n;
    };
    username = some (bytes "root");
    file_system = none;
    environment = [];
  };
  subsystem = [];
}

abbrev with_sftp : Connection
with_sftp = record {
  state = pushed (event_of (subsystem_named 0 (bytes "sftp"))) connection.state;
  subsystem = (0, sftp (record { open_files = []; pending_data = []; drawn = 0 })) ∷ [];
}

responded :
    respond (subsystem_named 0 (bytes "sftp")) connection []
    ≡ returns (with_sftp, [] ▸ channel_success 0)
unfolding respond
responded = refl

respond-logs_example :
    Grows (pushed (event_of (subsystem_named 0 (bytes "sftp"))) connection.state) with_sftp.state
respond-logs_example =
    respond-logs (subsystem_named 0 (bytes "sftp")) connection with_sftp [] ([] ▸ channel_success 0)
      responded

-- A request for the subsystem, then a signal.
abbrev ended : Connection
ended = logs (signal (record { name = bytes "TERM" })) with_sftp

all_responded :
    respond_all (subsystem_named 0 (bytes "sftp") ∷ signalled 0 (bytes "TERM") ∷ []) connection []
    ≡ returns (ended, [] ▸ channel_success 0)
unfolding respond
all_responded = refl

respond_all-logs_example :
    Logged
      (subsystem_request (record { name = bytes "sftp" })
        ∷ signal (record { name = bytes "TERM" })
        ∷ [])
      connection.state
      ended.state
respond_all-logs_example =
    respond_all-logs (subsystem_named 0 (bytes "sftp") ∷ signalled 0 (bytes "TERM") ∷ []) connection
      ended [] ([] ▸ channel_success 0) all_responded
