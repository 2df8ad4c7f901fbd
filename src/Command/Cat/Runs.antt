-- ===== src/Command/Cat/Runs.antt =====
-- What cat prints, and how it stops for input and goes on.
use pisshoff.Base.{ℕ, false, List, [], ◌∷◌, Bytes, bytes, beq, ◌≡◌}
use pisshoff.Session.{ChannelId, Session, data_call, session}
use pisshoff.FileSystem.{FileSystem, read}
use pisshoff.Command.Cat.{Cat, shown}

-- The outputs for a list of files in a file system, each in a call of its own.
abbrev pub outputs : FileSystem → ChannelId → List Bytes → Session
outputs fs ch [] = []
outputs fs ch (p ∷ ps) = data_call ch (shown p 0 (read p fs)).0 ∷ outputs fs ch ps

-- The exit status after them: 1 once a file could not be read.
abbrev pub status_after : FileSystem → ℕ → List Bytes → ℕ
status_after fs status [] = status
status_after fs status (p ∷ ps) = status_after fs (shown p status (read p fs)).1 ps

abbrev IsFile : Bytes → Type 0
IsFile p = beq p (bytes "-") ≡ false
