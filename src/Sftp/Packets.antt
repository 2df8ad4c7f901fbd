-- ===== src/Sftp/Packets.antt =====
-- The packets that a client sends: pisshoff-server/src/subsystem/sftp.rs. The header of a packet is
-- its length, its kind and its identifier.
pub mod Wires
pub mod Lengths
pub mod Pieces
use pisshoff.Base.{
  ℕ, ◌+◌, ◌-◌, ◌^◌, ◌%◌, ◌/◌, ◌==◌, ◌≡◌, refl, List, [], ◌∷◌, ◌++◌, Option, none, some, Bytes,
  Result, ok, err, Outcome, returns, panics, length, ltb, if◌then◌else◌,
}
use pisshoff.Std.Utf8.{from_utf8}
use pisshoff.Nom.{Nom, IResult, Parser, failure, ErrorKind, verify, ◌>>=◌}

pub data PacketType : Type 0 where
  init version open_ close read write lstat fstat set_stat fset_stat open_dir read_dir : PacketType
  remove mkdir rmdir real_path stat rename read_link link block unblock status handle : PacketType
  data_ name attrs extended extended_reply : PacketType

-- `self.typ as u8`
abbrev pub as_u8 : PacketType → ℕ
as_u8 init = 1
as_u8 version = 2
as_u8 open_ = 3
as_u8 close = 4
as_u8 read = 5
as_u8 write = 6
as_u8 lstat = 7
as_u8 fstat = 8
as_u8 set_stat = 9
as_u8 fset_stat = 10
as_u8 open_dir = 11
as_u8 read_dir = 12
as_u8 remove = 13
as_u8 mkdir = 14
as_u8 rmdir = 15
as_u8 real_path = 16
as_u8 stat = 17
as_u8 rename = 18
as_u8 read_link = 19
as_u8 link = 21
as_u8 block = 22
as_u8 unblock = 23
as_u8 status = 101
as_u8 handle = 102
as_u8 data_ = 103
as_u8 name = 104
as_u8 attrs = 105
as_u8 extended = 200
as_u8 extended_reply = 201

abbrev packet_types : List PacketType
packet_types =
    init ∷ version ∷ open_ ∷ close ∷ read ∷ write ∷ lstat ∷ fstat ∷ set_stat ∷ fset_stat ∷ open_dir
    ∷ read_dir ∷ remove ∷ mkdir ∷ rmdir ∷ real_path ∷ stat ∷ rename ∷ read_link ∷ link ∷ block
    ∷ unblock ∷ status ∷ handle ∷ data_ ∷ name ∷ attrs ∷ extended ∷ extended_reply ∷ []

-- `PacketType::from_repr`, which the crate strum derives.
abbrev pub among : ℕ → List PacketType → Option PacketType
among n [] = none
among n (t ∷ ts) = if as_u8 t == n then some t else among n ts

abbrev pub from_repr : ℕ → Option PacketType
from_repr n = among n packet_types

-- `u32::to_be_bytes`
abbrev pub u32_bytes : ℕ → Bytes
u32_bytes n = n / 16777216 % 256 ∷ n / 65536 % 256 ∷ n / 256 % 256 ∷ n % 256 ∷ []

pub record WirePacket : Type 0 where
  pub size : ℕ
  pub typ : PacketType
  pub request_id : ℕ
  pub content : Bytes

-- `WirePacket::new`: the length is unwrapped as a `u32`.
unfoldable pub new : PacketType → ℕ → Bytes → Outcome WirePacket
new typ request_id content =
    let size = 5 + length content in
    if ltb size (2 ^ 32)
    then returns (record { size = size; typ = typ; request_id = request_id; content = content })
    else panics

unfoldable pub to_bytes : WirePacket → Bytes
to_bytes p = u32_bytes p.size ++ as_u8 p.typ ∷ u32_bytes p.request_id ++ p.content

pub record WritePacket : Type 0 where
  pub handle_text : Bytes
  pub offset : ℕ
  pub written : Bytes

pub record OpenPacket : Type 0 where
  pub path : Bytes
  pub desired_access : ℕ
  pub flags : ℕ

pub record StatPacket : Type 0 where
  pub path : Bytes
  pub flags : ℕ

pub record RealPathPacket : Type 0 where
  pub path : Bytes
  pub control : Option ℕ

flags_of : Option ℕ → ℕ
flags_of none = 0
flags_of (some n) = n

module _ ⦃nom : Nom⦄ where
  open nom use {take, be_u8, be_u32, be_u64, map_res, opt}

  checked : ℕ → ℕ → Bytes → Bytes → Option PacketType → IResult WirePacket
  checked size request_id content rest none = err (failure verify)
  checked size request_id content rest (some typ) =
      ok (rest, record { size = size; typ = typ; request_id = request_id; content = content })

  -- `WirePacket::parse`. The subtraction is that of `u32`, which wraps around in a release build.
  unfoldable pub parse : Parser WirePacket
  unfolding checked
  parse rest = do
    (rest, size) ← be_u32 rest
    (rest, typ) ← be_u8 rest
    (rest, request_id) ← be_u32 rest
    (rest, content) ← take ((size + 2 ^ 32 - 5) % 2 ^ 32) rest
    checked size request_id content rest (from_repr typ)

  unfoldable pub take_length_delimited_string : Parser Bytes
  take_length_delimited_string rest = do
    (rest, size) ← be_u32 rest
    map_res (take size) from_utf8 rest

  -- `MkdirPacket`, `ClosePacket` and `FSetStatPacket` are one text.
  unfoldable pub parse_text : Parser Bytes
  unfolding take_length_delimited_string
  parse_text rest = do (rest, text) ← take_length_delimited_string rest; ok (rest, text)

  unfoldable pub parse_real_path : Parser RealPathPacket
  unfolding take_length_delimited_string
  parse_real_path rest = do
    (rest, path) ← take_length_delimited_string rest
    (rest, control) ← opt be_u8 rest
    ok (rest, record { path = path; control = control })

  unfoldable pub parse_write : Parser WritePacket
  unfolding take_length_delimited_string
  parse_write rest = do
    (rest, handle_text) ← take_length_delimited_string rest
    (rest, offset) ← be_u64 rest
    (rest, written) ← take_length_delimited_string rest
    ok (rest, record { handle_text = handle_text; offset = offset; written = written })

  unfoldable pub parse_open : Parser OpenPacket
  unfolding take_length_delimited_string
  parse_open rest = do
    (rest, path) ← take_length_delimited_string rest
    (rest, desired_access) ← be_u32 rest
    (rest, flags) ← be_u32 rest
    ok (rest, record { path = path; desired_access = desired_access; flags = flags })

  unfoldable pub parse_stat : Parser StatPacket
  unfolding take_length_delimited_string flags_of
  parse_stat rest = do
    (rest, path) ← take_length_delimited_string rest
    (rest, flags) ← opt be_u32 rest
    ok (rest, record { path = path; flags = flags_of flags })
