-- ===== src/Sftp.antt =====
-- `Sftp` of pisshoff-server/src/subsystem/sftp.rs: the sftp subsystem of a channel. A handle is what
-- the crate uuid draws, writes and reads, which is a parameter.
pub mod Packets
pub mod Responses
pub mod Branches
pub mod Logs
pub mod Handles
pub mod Termination
pub mod Pieces
pub mod Left
mod Tests
use pisshoff.Base.{
  ℕ, zero, suc, ◌+◌, ◌==◌, List, [], ◌∷◌, ◌++◌, Option, none, some, Bool, true, false, Bytes, bytes,
  Result, ok, err, Outcome, returns, panics, length, min, if◌then◌else◌,
}
use pisshoff.Nom.{Nom, IResult, Err, incomplete, error, failure, eof}
use pisshoff.Audit.{AuditLogAction, mkdir, write_file}
use pisshoff.Session.{ChannelId, Session, ◌▸◌, data_call, channel_success, flush_pending}
use pisshoff.Connection.{ConnectionState, push}
use pisshoff.Sftp.Packets as Packets
use pisshoff.Sftp.Packets.{
  PacketType, WirePacket, WritePacket, OpenPacket, StatPacket, RealPathPacket, to_bytes, parse,
  parse_text, parse_real_path, parse_write, parse_open, parse_stat,
}
use pisshoff.Sftp.Responses.{
  Response, status_response, handle_response, name_response, encoded, ok_, no_such_file, to_packet,
}

-- The crate uuid, at what the program uses of it: the draws for a channel, in order, `Display` and
-- `FromStr`. An identifier is a number.
pub record Uuids : Type 0 where
  pub new_v4 : ℕ → ℕ
  pub display : ℕ → Bytes
  pub from_str : Bytes → Option ℕ

abbrev pub OpenFiles : Type 0
OpenFiles = List (ℕ × Bytes)

-- `HashMap::get` and `HashMap::remove`; an insertion goes in front.
abbrev pub get : ℕ → OpenFiles → Option Bytes
get k [] = none
get k ((j, path) ∷ files) = if j == k then some path else get k files

abbrev pub remove : ℕ → OpenFiles → OpenFiles
remove k [] = []
remove k ((j, path) ∷ files) =
    let rest = remove k files in if j == k then rest else (j, path) ∷ rest

-- The state, with the number of identifiers that have been drawn.
pub record Sftp : Type 0 where
  pub open_files : OpenFiles
  pub pending_data : Bytes
  pub drawn : ℕ

-- What a packet does: it panics, or it changes the files that are open, and the connection, and may
-- have an answer.
abbrev pub Handled : Type 0
Handled = Outcome (Sftp × ConnectionState × Option Response)

-- `.unwrap()` of a parser's result, whose rest is dropped.
abbrev unwrapped : {A B : Type 0} → IResult A → (A → Outcome B) → Outcome B
unwrapped (ok (rest, a)) f = f a
unwrapped (err e) f = panics

abbrev or_panic : {A B : Type 0} → Option A → (A → Outcome B) → Outcome B
or_panic (some a) f = f a
or_panic none f = panics

abbrev pub fine : Response
fine = status_response ok_ []

abbrev missing : Response
missing = status_response no_such_file (bytes "No such file or directory")

-- What goes on after a call that may panic.
abbrev sent : ChannelId → Session → Outcome Bytes → Outcome Session
sent ch s (returns b) = returns (s ▸ data_call ch b)
sent ch s panics = panics

abbrev with_session :
    Sftp → ConnectionState → Outcome Session → Outcome (Sftp × ConnectionState × Session)
with_session x c (returns s) = returns (x, c, s)
with_session x c panics = panics

abbrev and_again :
    (Sftp → ConnectionState → Session → Outcome (Sftp × ConnectionState × Session))
    → Outcome (Sftp × ConnectionState × Session)
    → Outcome (Sftp × ConnectionState × Session)
and_again again (returns (x, c, s)) = again x c s
and_again again panics = panics

-- The end of `data`.
abbrev ended :
    ChannelId
    → Outcome (Sftp × ConnectionState × Session)
    → Outcome (Sftp × ConnectionState × Session)
ended ch (returns (x, c, s)) = returns (x, c, s ▸ channel_success ch ▸ flush_pending ch)
ended ch panics = panics

module _ ⦃nom : Nom⦄ ⦃uuids : Uuids⦄ where
  real_path_answer : RealPathPacket → Response
  real_path_answer p = elim p.control [
    | none ↦ name_response (record { file_name = p.path; long_name = p.path } ∷ [])
    | some n ↦
        if n == 2
        then missing
        else name_response (record { file_name = p.path; long_name = p.path } ∷ [])
  ]

  -- The packets that have an answer of their own; the client's `Init` and the kinds that are not known
  -- are dealt with in `on_packet`.
  pub respond : PacketType → Bytes → Sftp → ConnectionState → Handled
  unfolding real_path_answer
  respond Packets.stat d x c = unwrapped (parse_stat d) (λ p. returns (x, c, some missing))
  respond Packets.lstat d x c = unwrapped (parse_stat d) (λ p. returns (x, c, some missing))
  respond Packets.open_ d x c = unwrapped (parse_open d) (λ p.
      let id = uuids.new_v4 x.drawn in
      returns (
        record x { open_files = (id, p.path) ∷ x.open_files; drawn = suc x.drawn },
        c,
        some (handle_response (uuids.display id)),
      ))
  respond Packets.fset_stat d x c = unwrapped (parse_text d) (λ p. returns (x, c, some fine))
  respond Packets.set_stat d x c = unwrapped (parse_text d) (λ p. returns (x, c, some fine))
  respond Packets.write d x c = unwrapped (parse_write d) (λ p.
      or_panic (uuids.from_str p.handle_text) (λ id. or_panic (get id x.open_files) (λ path.
        returns (x, push (write_file (record { path = path; content = p.written })) c, some fine))))
  respond Packets.close d x c = unwrapped (parse_text d) (λ text.
      or_panic (uuids.from_str text) (λ id.
        or_panic (get id x.open_files)
          (λ path. returns (record x { open_files = remove id x.open_files }, c, some fine))))
  respond Packets.real_path d x c =
      unwrapped (parse_real_path d) (λ p. returns (x, c, some (real_path_answer p)))
  respond Packets.mkdir d x c =
      unwrapped (parse_text d)
        (λ path. returns (x, push (mkdir (record { path = path })) c, some fine))
  respond _ d x c = returns (x, c, none)

  answer : ℕ → ChannelId → Session → Option Response → Outcome Session
  answer request_id ch s none = returns s
  answer request_id ch s (some r) = sent ch s (to_packet request_id r)

  on_handled : ℕ → ChannelId → Session → Handled → Outcome (Sftp × ConnectionState × Session)
  unfolding answer
  on_handled request_id ch s panics = panics
  on_handled request_id ch s (returns (x, c, r)) = with_session x c (answer request_id ch s r)

  -- The body of the loop for a packet: a client's `Init` has its version in the place of the
  -- identifier.
  pub on_type :
      PacketType
      → ℕ
      → Bytes
      → Sftp
      → ConnectionState
      → ChannelId
      → Session
      → Outcome (Sftp × ConnectionState × Session)
  unfolding respond on_handled
  on_type Packets.init request_id d x c ch s =
      with_session x c (sent ch s (encoded (Packets.new Packets.version (min request_id 6) [])))
  on_type t request_id d x c ch s = on_handled request_id ch s (respond t d x c)

  pub on_packet :
      WirePacket
      → Sftp
      → ConnectionState
      → ChannelId
      → Session
      → Outcome (Sftp × ConnectionState × Session)
  unfolding on_type
  on_packet p x c ch s = on_type p.typ p.request_id p.content x c ch s

  -- The loop, on fuel: a packet takes at least nine bytes. Data that may be the beginning of a packet
  -- are kept, and dropped behind one that is bad.
  pub on_parsed :
      (Sftp → ConnectionState → Session → Outcome (Sftp × ConnectionState × Session))
      → IResult WirePacket
      → Sftp
      → ConnectionState
      → ChannelId
      → Session
      → Outcome (Sftp × ConnectionState × Session)
  unfolding on_packet
  on_parsed again (ok (rest, p)) x c ch s =
      and_again again (on_packet p (record x { pending_data = rest }) c ch s)
  on_parsed again (err incomplete) x c ch s = returns (x, c, s)
  on_parsed again (err (error eof)) x c ch s = returns (x, c, s)
  on_parsed again (err _) x c ch s = returns (record x { pending_data = [] }, c, s)

  pub loop :
      ℕ → Sftp → ConnectionState → ChannelId → Session → Outcome (Sftp × ConnectionState × Session)
  unfolding on_parsed
  loop zero x c ch s = returns (x, c, s)
  loop (suc fuel) x c ch s =
      on_parsed (λ x' c' s'. loop fuel x' c' ch s') (parse x.pending_data) x c ch s

  unfoldable pub data_received :
      Sftp
      → ConnectionState
      → ChannelId
      → Bytes
      → Session
      → Outcome (Sftp × ConnectionState × Session)
  unfolding loop
  data_received x c ch input s =
      let x' = record x { pending_data = x.pending_data ++ input } in
      ended ch (loop (suc (length x'.pending_data)) x' c ch s)
