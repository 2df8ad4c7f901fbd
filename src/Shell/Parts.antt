-- ===== src/Shell/Parts.antt =====
-- `ParsedPart`, `Expansion` and `RedirectionTo` of subsystem/shell/parser.rs. `into_owned` copies
-- borrowed bytes and is the identity here.
use pisshoff.Base.{ℕ, Bytes}

pub data RedirectionTo : Type 0 where
  stdio : ℕ → RedirectionTo
  file : Bytes → RedirectionTo

mutual
  pub data ParsedPart : Type 0 where
    break : ParsedPart
    string : Bytes → ParsedPart
    expansion : Expansion → ParsedPart
    redirection : ℕ → RedirectionTo → ParsedPart

  pub data Expansion : Type 0 where
    variable : Bytes → Expansion
    command : Parts → Expansion

  -- `Vec<ParsedPart>`
  pub data Parts : Type 0 where
    nil : Parts
    cons : ParsedPart → Parts → Parts

abbrev pub append : Parts → Parts → Parts
append nil qs = qs
append (cons p ps) qs = cons p (append ps qs)
