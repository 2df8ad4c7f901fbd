-- ===== src/Command/Scp/Termination.antt =====
-- The loop of scp ends, by the laws of nom.
use pisshoff.Base.{ℕ, ◌+◌, ◌*◌, ◌<◌, length}
use pisshoff.Nom.{Nom}
use pisshoff.Command.Scp.{
  Scp, State, waiting, receiving_file, awaiting_separator, Turn, rejected, going, starved,
}

-- The rounds that a state can take without a byte.
abbrev idle : State → ℕ
idle waiting = 0
idle awaiting_separator = 1
idle (receiving_file size path) = 2

abbrev measure : Scp → ℕ
measure x = 3 * length x.pending_data + idle x.state

abbrev Less : {S : Type 0} → ℕ → Turn S → Type 0
Less n rejected = Unit
Less n (going x c s) = measure x < n
Less n (starved x c s) = Unit
