-- ===== src/AuditWriter/Io.antt =====
-- The interface of the crate tokio to files: `OpenOptions` with `create` and `append` at the path of
-- the configuration, and `BufWriter`. What an operation finds on the disk decides whether it fails.
use pisshoff.Base.{[], ◌++◌, Bytes, Result, ok, err, ◌≡◌}

pub record Files : Type 1 where
  pub Disk : Type 0
  pub Writer : Type 0
  pub IoError : Type 0
  -- an error of the kind `Other`
  pub other : IoError
  pub open_append : Disk → Result IoError Writer × Disk
  pub write_all : Bytes → Writer → Disk → Result IoError Writer × Disk
  pub flush : Writer → Disk → Result IoError Writer × Disk
  pub buffer : Writer → Bytes

-- Some of the bytes have arrived, from the first on.
pub record Prefix (s t : Bytes) : Type 0 where
  pub rest : Bytes
  pub whole : s ++ rest ≡ t

-- What an operation leaves: on a success all of `t` has been appended or is in the buffer, on an error
-- a first part of it has been appended.
abbrev pub Passes :
    (files : Files)
    → (files.Disk → Bytes)
    → Bytes
    → Result files.IoError files.Writer × files.Disk
    → Type 0
Passes files arrived t (ok w, d) = arrived d ++ files.buffer w ≡ t
Passes files arrived t (err e, d) = Prefix (arrived d) t

abbrev pub Empties : (files : Files) → Result files.IoError files.Writer × files.Disk → Type 0
Empties files (ok w, d) = files.buffer w ≡ []
Empties files (err e, d) = Unit

-- What tokio documents: bytes arrive in the order in which they are written, and a flush leaves none
-- in the buffer. `arrived` has all bytes that have been appended to the file of that path, also those
-- that were moved away since then with the file.
pub record FilesLaws (files : Files) : Type 0 where
  pub arrived : files.Disk → Bytes
  pub open_append_passes : (d : files.Disk) → Passes files arrived (arrived d) (files.open_append d)
  pub write_all_passes :
      (s : Bytes) (w : files.Writer) (d : files.Disk)
      → Passes files arrived (arrived d ++ files.buffer w ++ s) (files.write_all s w d)
  pub flush_passes :
      (w : files.Writer) (d : files.Disk)
      → Passes files arrived (arrived d ++ files.buffer w) (files.flush w d)
  pub flush_empties : (w : files.Writer) (d : files.Disk) → Empties files (files.flush w d)
  -- nothing that has arrived is taken back
  pub open_append_grows : (d : files.Disk) → Prefix (arrived d) (arrived ((files.open_append d).1))
  pub write_all_grows :
      (s : Bytes) (w : files.Writer) (d : files.Disk)
      → Prefix (arrived d) (arrived ((files.write_all s w d).1))
  pub flush_grows :
      (w : files.Writer) (d : files.Disk) → Prefix (arrived d) (arrived ((files.flush w d).1))
