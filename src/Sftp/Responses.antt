-- ===== src/Sftp/Responses.antt =====
-- The packets that the server answers with: pisshoff-server/src/subsystem/sftp.rs.
use pisshoff.Base.{ℕ, ◌-◌, ◌^◌, List, [], ◌∷◌, ◌++◌, Bytes, Outcome, returns, panics, length, min}
use pisshoff.Sftp.Packets.{PacketType, status, handle, name, WirePacket, new, to_bytes, u32_bytes}

-- The codes that are sent.
pub data StatusCode : Type 0 where
  ok_ no_such_file : StatusCode

abbrev code_u32 : StatusCode → ℕ
code_u32 ok_ = 0
code_u32 no_such_file = 2

-- `u32::try_from(len).unwrap_or(u32::MAX)`, and the text.
abbrev counted : Bytes → Bytes
counted text = u32_bytes (min (length text) (2 ^ 32 - 1)) ++ text

-- `FileAttrs` with the type `Unknown`.
abbrev unknown_attrs : Bytes
unknown_attrs = u32_bytes 0 ++ 5 ∷ []

pub record NameResponseFile : Type 0 where
  pub file_name : Bytes
  pub long_name : Bytes

abbrev file_bytes : NameResponseFile → Bytes
file_bytes f = counted f.file_name ++ (counted f.long_name ++ unknown_attrs)

abbrev all_bytes : List NameResponseFile → Bytes
all_bytes [] = []
all_bytes (f ∷ fs) = file_bytes f ++ all_bytes fs

-- `HandleResponse` has the text of a `Uuid`, which has 36 characters.
pub data Response : Type 0 where
  status_response : StatusCode → Bytes → Response
  handle_response : Bytes → Response
  name_response : List NameResponseFile → Response

abbrev response_type : Response → PacketType
response_type (status_response code message) = status
response_type (handle_response text) = handle
response_type (name_response files) = name

abbrev response_bytes : Response → Bytes
response_bytes (status_response code message) = u32_bytes (code_u32 code) ++ counted message
response_bytes (handle_response text) = u32_bytes 36 ++ text
response_bytes (name_response files) =
    u32_bytes (min (length files) (2 ^ 32 - 1)) ++ (all_bytes files ++ 1 ∷ [])

abbrev pub encoded : Outcome WirePacket → Outcome Bytes
encoded (returns p) = returns (to_bytes p)
encoded panics = panics

-- `Response::to_packet`
unfoldable pub to_packet : ℕ → Response → Outcome Bytes
unfolding new to_bytes
to_packet request_id r = encoded (new (response_type r) request_id (response_bytes r))
