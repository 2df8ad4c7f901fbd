-- ===== src/Command/Results.antt =====
-- `CommandResult`, and `Arg` with `argparse`, of pisshoff-server/src/command.rs.
use pisshoff.Base.{ℕ, List, [], ◌∷◌, ◌++◌, map, none, some, Bytes, bytes, strip_prefix}
use pisshoff.Std.Chars.{chars}
use pisshoff.Connection.{ConnectionState}

pub data CommandResult {ℓ} (T : Type ℓ) : Type ℓ where
  read_stdin : T → CommandResult T
  exit : ℕ → CommandResult T
  close : ℕ → CommandResult T

module _ {ℓ κ} {T : Type ℓ} {N : Type κ} where
  abbrev pub map_result : (T → N) → CommandResult T → CommandResult N
  map_result f (read_stdin v) = read_stdin (f v)
  map_result f (exit v) = exit v
  map_result f (close v) = close v

-- What a call of a command leaves: its result, the connection and the session.
abbrev pub Ran : Type 0 → Type 0 → Type 0
Ran T S = CommandResult T × ConnectionState × S

pub data Arg : Type 0 where
  operand : Bytes → Arg
  long : Bytes → Arg
  short : Bytes → Arg

-- One word of the command line. A lone `-` is an operand.
parse_single_dash : Bytes → Bytes → List Arg
parse_single_dash word [] = operand word ∷ []
parse_single_dash word (c ∷ s) = map short (chars (c ∷ s))

parse_word : Bytes → List Arg
unfolding parse_single_dash chars
parse_word word = elim (strip_prefix (bytes "--") word) [
  | some rest ↦ long rest ∷ []
  | none ↦ elim (strip_prefix (bytes "-") word) [
    | some rest ↦ parse_single_dash word rest
    | none ↦ operand word ∷ []
  ]
]

unfoldable pub argparse : List Bytes → List Arg
unfolding parse_word
argparse [] = []
argparse (word ∷ words) = parse_word word ++ argparse words
