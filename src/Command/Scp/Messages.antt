-- ===== src/Command/Scp/Messages.antt =====
-- The messages of the scp protocol, and `Receive::parse` of pisshoff-server/src/command/scp.rs.
pub mod Lengths
pub mod Prints
use pisshoff.Base.{ℕ, [], ◌∷◌, Bytes, bytes, ok}
use pisshoff.Std.Utf8.{from_utf8}
use pisshoff.Std.Numbers.{parse_unsigned, u64_max}
use pisshoff.Nom.{Nom, Parser, ◌>>=◌}

pub data Receive : Type 0 where
  file_copy : Bytes → ℕ → Bytes → Receive
  directory_copy : Bytes → ℕ → Bytes → Receive
  end_directory : Receive
  access_time : ℕ → ℕ → ℕ → ℕ → Receive

pub data ReceiveType : Type 0 where
  of_file_copy of_directory_copy of_end_directory of_access_time : ReceiveType

module _ ⦃nom : Nom⦄ where
  open nom use {tag, take, take_until, digit1, u64_text, map_output, map_res, alt}

  pub receive_type : Parser ReceiveType
  receive_type = alt (
      map_output (tag (bytes "C")) (λ _. of_file_copy)
      ∷ map_output (tag (bytes "D")) (λ _. of_directory_copy)
      ∷ map_output (tag (bytes "E")) (λ _. of_end_directory)
      ∷ map_output (tag (bytes "T")) (λ _. of_access_time)
      ∷ [])

  -- `usize` and `u64` have the same range here.
  pub number : Parser ℕ
  number = map_res (map_res digit1 from_utf8) (parse_unsigned u64_max)

  pub parse_file_copy : Parser Receive
  parse_file_copy rest = do
    (rest, mode) ← map_res (take 4) from_utf8 rest
    (rest, _) ← tag (bytes " ") rest
    (rest, size) ← number rest
    (rest, _) ← tag (bytes " ") rest
    (rest, file_name) ← map_res (take_until (bytes "\n")) from_utf8 rest
    (rest, _) ← tag (bytes "\n") rest
    ok (rest, file_copy mode size file_name)

  pub parse_directory_copy : Parser Receive
  parse_directory_copy rest = do
    (rest, mode) ← map_res (take 4) from_utf8 rest
    (rest, _) ← tag (bytes " ") rest
    (rest, size) ← u64_text rest
    (rest, _) ← tag (bytes " ") rest
    (rest, directory_name) ← map_res (take_until (bytes "\n")) from_utf8 rest
    (rest, _) ← tag (bytes "\n") rest
    ok (rest, directory_copy mode size directory_name)

  pub parse_access_time : Parser Receive
  parse_access_time rest = do
    (rest, modified_time) ← number rest
    (rest, _) ← tag (bytes " ") rest
    (rest, modified_time_micros) ← number rest
    (rest, _) ← tag (bytes " ") rest
    (rest, access) ← number rest
    (rest, _) ← tag (bytes " ") rest
    (rest, access_time_micros) ← number rest
    (rest, _) ← tag (bytes "\n") rest
    ok (rest, access_time modified_time modified_time_micros access access_time_micros)

  pub parse_end_directory : Parser Receive
  parse_end_directory rest = do (rest, _) ← tag (bytes "\n") rest; ok (rest, end_directory)

  pub parse_typed : ReceiveType → Parser Receive
  parse_typed of_file_copy = parse_file_copy
  parse_typed of_directory_copy = parse_directory_copy
  parse_typed of_end_directory = parse_end_directory
  parse_typed of_access_time = parse_access_time

  unfoldable pub parse : Parser Receive
  unfolding receive_type number parse_file_copy parse_directory_copy parse_access_time
      parse_end_directory parse_typed
  parse rest = do (rest, typ) ← receive_type rest; parse_typed typ rest
