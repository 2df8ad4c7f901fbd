-- ===== src/Sftp/Tests.antt =====
-- Runs of the sftp subsystem, and instances of the theorems on it.
use pisshoff.Base.{Bytes, bytes, [], ◌∷◌, ◌++◌, none, some, returns, ok, ◌≡◌, refl, arith}
use pisshoff.Std.Numbers.{show, parse_unsigned, u64_max}
use pisshoff.Nom.{Nom}
use pisshoff.Nom.Reference.{reference, reference-NomLaws}
use pisshoff.Audit.{mkdir}
use pisshoff.Session.{Session, ◌▸◌, data_call, channel_success, flush_pending}
use pisshoff.Connection.{ConnectionState, push}
use pisshoff.Sftp.Packets as Packets
use pisshoff.Sftp.Packets.{
  WirePacket, WritePacket, OpenPacket, u32_bytes, parse, parse_text, to_bytes,
}
use pisshoff.Sftp.Packets.Wires.{parse-to_bytes}
use pisshoff.Sftp.{Sftp, Uuids, remove, loop, data_received, ended, and_again}
use pisshoff.Sftp.Pieces.{AreWhole, ends, reads, handle, data_received-pieces}

instance abbrev nom_7 : Nom
nom_7 = reference

-- Identifiers in order, with their decimals as their texts.
instance abbrev decimals : Uuids
decimals = record { new_v4 = λ n. n; display = show; from_str = parse_unsigned u64_max }

abbrev connection : ConnectionState
connection = record {
  audit_log = record {
    connection_id = 1;
    ts = 0;
    peer_address = none;
    host = bytes "host";
    environment_variables = [];
    events = [];
    start = λ n. n;
  };
  username = some (bytes "root");
  file_system = none;
  environment = [];
}

abbrev fresh : Sftp
fresh = record { open_files = []; pending_data = []; drawn = 0 }

abbrev hello : WirePacket
hello = record { size = 5; typ = Packets.init; request_id = 3; content = [] }

made : Packets.new Packets.init 3 [] ≡ returns hello
unfolding Packets.new
made = refl

parse-to_bytes_example : parse (to_bytes hello ++ bytes "more") ≡ ok (bytes "more", hello)
parse-to_bytes_example =
    parse-to_bytes reference-NomLaws Packets.init 3 [] (bytes "more") hello made (omega arith)

-- The client's version comes back, or 6 where it is larger.
greeted :
    data_received fresh connection 0 (u32_bytes 5 ++ 1 ∷ u32_bytes 9) []
    ≡ returns (
      fresh,
      connection,
      [] ▸ data_call 0 (u32_bytes 5 ++ 2 ∷ u32_bytes 6) ▸ channel_success 0 ▸ flush_pending 0,
    )
unfolding data_received parse to_bytes Packets.new
greeted = refl

abbrev with_mkdir : ConnectionState
with_mkdir = push (mkdir (record { path = bytes "d" })) connection

abbrev mkdir_answer : Session
mkdir_answer =
    []
    ▸ data_call 0 (u32_bytes 13 ++ 101 ∷ u32_bytes 7 ++ u32_bytes 0 ++ u32_bytes 0)
    ▸ channel_success 0
    ▸ flush_pending 0

made_directory :
    data_received fresh connection 0
      (u32_bytes 10 ++ 14 ∷ u32_bytes 7 ++ u32_bytes 1 ++ bytes "d")
      []
    ≡ returns (fresh, with_mkdir, mkdir_answer)
unfolding data_received parse to_bytes Packets.new parse_text pisshoff.Std.Utf8.from_utf8
    pisshoff.Std.Utf8.is_utf8 pisshoff.Sftp.Responses.to_packet
made_directory = refl

abbrev opened : OpenPacket
opened = record { path = bytes "f"; desired_access = 0; flags = 0 }

abbrev write_a : WritePacket
write_a = record { handle_text = bytes "0"; offset = 0; written = bytes "a" }

abbrev open_bytes : Bytes
open_bytes = u32_bytes 1 ++ bytes "f" ++ u32_bytes 0 ++ u32_bytes 0

abbrev write_bytes : Bytes
write_bytes = u32_bytes 1 ++ bytes "0" ++ u32_bytes 0 ++ u32_bytes 0 ++ u32_bytes 1 ++ bytes "a"

-- With the files `f` that the handle 0 stands for, and with no file.
abbrev with_open : Sftp
with_open = record fresh { open_files = (0, bytes "f") ∷ []; drawn = 1 }

abbrev with_closed : Sftp
with_closed = record fresh { drawn = 1 }

-- A greeting, and the beginning of another packet.
abbrev first_part : Bytes
first_part = u32_bytes 5 ++ 1 ∷ u32_bytes 3 ++ u32_bytes 9

first_part-AreWhole : AreWhole first_part
unfolding parse
first_part-AreWhole = reads refl (ends refl)

data_received-pieces_example :
    data_received fresh connection 0 (first_part ++ 11 ∷ u32_bytes 1) []
    ≡ ended 0 (
        and_again
          (λ x c s. handle x c 0 (11 ∷ u32_bytes 1) s)
          (handle fresh connection 0 first_part []))
data_received-pieces_example =
    data_received-pieces reference-NomLaws fresh connection 0 first_part (11 ∷ u32_bytes 1) []
      first_part-AreWhole
