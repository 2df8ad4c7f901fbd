-- ===== src/AuditWriter/Memory.antt =====
-- A disk in memory, with room for 100 bytes, which meets what is asked of files.
use pisshoff.Base.{
  [], ◌++◌, Bytes, Result, ok, err, ◌≡◌, refl, length, leb, if◌then◌else◌, Bool-cases, inl, inr,
  append_assoc, append-nil,
}
use pisshoff.AuditWriter.Io.{Files, FilesLaws, Passes, Empties, Prefix}

abbrev flushed : Bytes → Bytes → Result (Unit {0}) Bytes × Bytes
flushed w d = if leb (length (d ++ w)) 100 then (ok [], d ++ w) else (err tt, d)

abbrev pub memory : Files
memory = record {
  Disk = Bytes;
  Writer = Bytes;
  IoError = Unit;
  other = tt;
  open_append = λ d. (ok [], d);
  write_all = λ s w d. (ok (w ++ s), d);
  flush = flushed;
  buffer = λ w. w;
}

pub flush-Passes : (w d : Bytes) → Passes memory (λ d. d) (d ++ w) (flushed w d)
flush-Passes w d = elim (Bool-cases (leb (length (d ++ w)) 100)) [
  | inl room ↦ rw room (append-nil (d ++ w))
  | inr full ↦ rw full (record { rest = w; whole = refl })
]

pub flush-Empties : (w d : Bytes) → Empties memory (flushed w d)
flush-Empties w d = elim (Bool-cases (leb (length (d ++ w)) 100)) [
  | inl room ↦ rw room refl
  | inr full ↦ rw full tt
]

pub write-Passes : (s w d : Bytes) → d ++ (w ++ s) ≡ d ++ w ++ s
write-Passes s w d = rw (append_assoc d w s) refl

pub flushed-Prefix : (w d : Bytes) → Prefix d ((flushed w d).1)
flushed-Prefix w d = elim (Bool-cases (leb (length (d ++ w)) 100)) [
  | inl room ↦ rw room (record { rest = w; whole = refl })
  | inr full ↦ rw full (record { rest = []; whole = append-nil d })
]

abbrev pub memory-FilesLaws : FilesLaws memory
memory-FilesLaws = record {
  arrived = λ d. d;
  open_append_passes = λ d. append-nil d;
  write_all_passes = λ s w d. write-Passes s w d;
  flush_passes = λ w d. flush-Passes w d;
  flush_empties = λ w d. flush-Empties w d;
  open_append_grows = λ d. record { rest = []; whole = append-nil d };
  write_all_grows = λ s w d. record { rest = []; whole = append-nil d };
  flush_grows = λ w d. flushed-Prefix w d;
}
