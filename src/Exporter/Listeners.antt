-- ===== src/Exporter/Listeners.antt =====
-- Any number of connections to the exporter, whose tasks run in any order.
use mathlib.Core.List.Permᴰ
use pisshoff.Base.{
  List, [], ◌∷◌, ◌++◌, map, Option, Bytes, Result, ok, err, subst, All, All-Permᴰ, Pairs,
  Pairs-Permᴰ, Permᴰ, append_assoc,
}
use pisshoff.Audit.{AuditLog}
use pisshoff.AuditWriter.Lines.{lines}
use pisshoff.Exporter.Postgres.{Row, Postgres, PostgresLaws}
use pisshoff.Exporter.{Derived, Statement}
use pisshoff.Exporter.Rows.{IsOrder}
use pisshoff.Exporter.Reliable.{IsReliable}
use pisshoff.Exporter.Pipeline.{
  LinesCodec, JsonLaws, IsLineOf, peer_rows, exported_rows, ingest_all, AllHaveContent,
  ingest_all-rows,
}

-- The lines of all connections.
abbrev pub all_lines : {E : Type 0} → List (List Bytes × Result E (Unit {0})) → List Bytes
all_lines [] = []
all_lines ((ls, r) ∷ tasks) = ls ++ all_lines tasks

abbrev pub all_logs : List (List AuditLog) → List AuditLog
all_logs [] = []
all_logs (logs ∷ sent) = logs ++ all_logs sent

-- Nothing is accepted any more, or an error is.
abbrev pub IsEnd : {A F : Type 0} → List (Result F A) → Type 0
IsEnd [] = Unit
IsEnd (err e ∷ rest) = Unit
IsEnd (ok a ∷ rest) = ⊥

module _ (derived : Derived) where
  swap_front : {A : Type 0} (xs ys zs : List A) → Permᴰ (xs ++ (ys ++ zs)) (ys ++ (xs ++ zs))
  swap_front xs ys zs =
      rw (← append_assoc xs ys zs, ← append_assoc ys xs zs)
        (Permᴰ.append_right zs (Permᴰ.append_comm xs ys))

  abbrev rows_of_log : AuditLog → List Row
  rows_of_log log = peer_rows derived log log.peer_address

  exported_rows-Permᴰ :
      {logs logs' : List AuditLog}
      → Permᴰ logs logs'
      → Permᴰ (exported_rows derived logs) (exported_rows derived logs')
  exported_rows-Permᴰ Permᴰ.nil = Permᴰ.nil
  exported_rows-Permᴰ (Permᴰ.cons {a = a} {l₁ = ks} {l₂ = ls} e d) =
      subst
        (λ b.
          Permᴰ (rows_of_log a ++ exported_rows derived ks)
            (rows_of_log b ++ exported_rows derived ls))
        e (Permᴰ.append_left (rows_of_log a) (exported_rows-Permᴰ d))
  exported_rows-Permᴰ (Permᴰ.swap {a = a} {b = b} {a' = a'} {l = ls} e e') =
      let all = exported_rows derived (a ∷ b ∷ ls) in
      let rest = exported_rows derived ls in
      subst (λ y. Permᴰ all (rows_of_log a' ++ (rows_of_log y ++ rest))) e
        (subst (λ x. Permᴰ all (rows_of_log x ++ (rows_of_log a ++ rest))) e'
          (swap_front (rows_of_log a) (rows_of_log b) rest))
  exported_rows-Permᴰ (Permᴰ.trans d d') =
      Permᴰ.trans (exported_rows-Permᴰ d) (exported_rows-Permᴰ d')

module _ (pg : Postgres) (laws : PostgresLaws pg) (reliable : IsReliable pg)
    (to_vec : AuditLog → Option Bytes) (derived : Derived) (json : JsonLaws to_vec derived)
    (codec : LinesCodec) where
  -- Connections that are sent what the writer has written of some logs.
  abbrev pub accepted :
      {F : Type 0} → List (List AuditLog) → List (Result F (List (Result codec.CodecError Bytes)))
  accepted sent = map (λ logs. ok (codec.decode (lines to_vec logs))) sent

  -- The tasks of some lines, in any order.
  pub ingest_all-Permᴰ :
      (order : List Statement → List Statement) (ls ls' : List Bytes) (logs : List AuditLog)
      (d : pg.Db)
      → IsOrder order
      → Pairs (IsLineOf to_vec derived json codec) ls' logs
      → All (AllHaveContent pg laws reliable to_vec derived json codec) logs
      → Permᴰ ls ls'
      → Permᴰ
          (laws.rows (ingest_all pg derived order ls d))
          (laws.rows d ++ exported_rows derived logs)
  ingest_all-Permᴰ order ls ls' logs d o pairs c p =
      let (logs', q, pairs') = Pairs-Permᴰ (IsLineOf to_vec derived json codec) logs p pairs in
      Permᴰ.trans
        (ingest_all-rows pg laws reliable to_vec derived json codec order o ls logs' d pairs'
          (All-Permᴰ _ (Permᴰ.symm q) c))
        (Permᴰ.append_left (laws.rows d) (exported_rows-Permᴰ derived q))
