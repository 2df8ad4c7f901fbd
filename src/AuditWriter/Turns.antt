-- ===== src/AuditWriter/Turns.antt =====
-- What one turn of the task does to the audit file and the buffer.
use pisshoff.Base.{
  ◌++◌, Option, some, Bytes, bytes, Result, ok, err, ◌≡◌, sym, ap, ◌∙◌, append_assoc, append-nil,
  subst, Bool-cases, inl, inr, is_empty,
}
use pisshoff.Audit.{AuditLog}
use pisshoff.AuditWriter.Io.{Files, FilesLaws, Prefix, Passes, Empties}
use pisshoff.AuditWriter.{slept, Turn, goes_on, stops, fails, and_then, write_line, reopened, turn}

module _ (files : Files) (laws : FilesLaws files) (to_vec : AuditLog → Option Bytes) where
  open laws use {arrived}

  -- What the audit file and the buffer have after a turn, where `t` is to have been written.
  -- It does not stop.
  abbrev pub After : Bytes → Turn files to_vec → Type 0
  After t (goes_on w d) = arrived d ++ files.buffer w ≡ t
  After t (stops w d) = ⊥
  After t (fails e d) = Prefix (arrived d) t

  pub Prefix-append : (s t u : Bytes) → Prefix s t → Prefix s (t ++ u)
  Prefix-append s t u p = record {
    rest = p.rest ++ u;
    whole = sym (append_assoc s p.rest u) ∙ ap (λ (x : Bytes). x ++ u) p.whole;
  }

  pub last-After :
      (t : Bytes) (r : Result files.IoError files.Writer × files.Disk)
      → Passes files arrived t r
      → After t (and_then files to_vec r goes_on)
  last-After t (ok w, d) h = h
  last-After t (err e, d) h = h

  pub write_line-After :
      (json : Bytes) (w : files.Writer) (d : files.Disk) (t : Bytes)
      → arrived d ++ files.buffer w ≡ t
      → After (t ++ json ++ bytes "\n") (write_line files to_vec (some json) w d)
  unfolding write_line
  write_line-After json w d t h = second (files.write_all json w d) (laws.write_all_passes json w d)
    where
      second :
          (r : Result files.IoError files.Writer × files.Disk)
          → Passes files arrived (arrived d ++ files.buffer w ++ json) r
          → After (t ++ json ++ bytes "\n") (
              and_then files to_vec r
                λ w d. and_then files to_vec (files.write_all (bytes "\n") w d) goes_on)
      second (ok w', d') p =
          last-After (t ++ json ++ bytes "\n") (files.write_all (bytes "\n") w' d') (
            subst
              (λ (x : Bytes).
                Passes files arrived (x ++ bytes "\n") (files.write_all (bytes "\n") w' d'))
              (p ∙ ap (λ (x : Bytes). x ++ json) h) (laws.write_all_passes (bytes "\n") w' d'))
      second (err e, d') p =
          Prefix-append (arrived d') (t ++ json) (bytes "\n")
            (subst (λ (x : Bytes). Prefix (arrived d') (x ++ json)) h p)

  pub flush-Passes :
      (w : files.Writer) (d : files.Disk) (t : Bytes)
      → arrived d ++ files.buffer w ≡ t
      → Passes files arrived t (files.flush w d)
  flush-Passes w d t h =
      subst (λ (x : Bytes). Passes files arrived x (files.flush w d)) h (laws.flush_passes w d)

  -- The file is opened again only when nothing is left in the buffer.
  pub reopened-After :
      (w : files.Writer) (d : files.Disk) (t : Bytes)
      → arrived d ++ files.buffer w ≡ t
      → After t (reopened files to_vec w d)
  unfolding reopened
  reopened-After w d t h = second (files.flush w d) (flush-Passes w d t h) (laws.flush_empties w d)
    where
      second :
          (r : Result files.IoError files.Writer × files.Disk)
          → Passes files arrived t r
          → Empties files r
          → After t
              (and_then files to_vec r λ w d. and_then files to_vec (files.open_append d) goes_on)
      second (ok w', d') p e = last-After t (files.open_append d') (
          subst (λ (x : Bytes). Passes files arrived x (files.open_append d'))
            (sym (append-nil (arrived d')) ∙ ap (λ (x : Bytes). arrived d' ++ x) (sym e) ∙ p)
            (laws.open_append_passes d'))
      second (err e, d') p tt = p

  pub slept-After :
      (w : files.Writer) (d : files.Disk) (t : Bytes)
      → arrived d ++ files.buffer w ≡ t
      → After t (turn files to_vec slept w d)
  unfolding turn
  slept-After w d t h = elim (Bool-cases (is_empty (files.buffer w))) [
    | inl nothing ↦ rw nothing h
    | inr something ↦ rw something (last-After t (files.flush w d) (flush-Passes w d t h))
  ]
