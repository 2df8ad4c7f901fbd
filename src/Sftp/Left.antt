-- ===== src/Sftp/Left.antt =====
-- What the sftp subsystem keeps of its data.
use pisshoff.Base.{ℕ, ◌≤◌, ok, err, length}
use pisshoff.Nom.{Nom, IResult}
use pisshoff.Session.{Session}
use pisshoff.Connection.{ConnectionState}
use pisshoff.Sftp.Packets.{parse}
use pisshoff.Sftp.{Sftp, Uuids}

abbrev pub IsErr : {A : Type 0} → IResult A → Type 0
IsErr (ok a) = ⊥
IsErr (err e) = Unit

module _ ⦃nom : Nom⦄ ⦃uuids : Uuids⦄ where
  -- At most `n` bytes, with no whole packet in front.
  abbrev pub KeepsAtMost : ℕ → Sftp × ConnectionState × Session → Type 0
  KeepsAtMost n (x, c, s) = IsErr (parse x.pending_data) × (length x.pending_data ≤ n)
