-- ===== src/Exporter/Reliable.antt =====
-- That a log is ingested where the database does not fail.
use mathlib.Core.List.Permᴰ
use pisshoff.Base.{
  List, [], ◌∷◌, map, Option, none, some, Bytes, Result, ok, err, ◌≡◌, All, All-append, All-Permᴰ,
}
use pisshoff.Audit.{AuditLog, AuditLogEvent, SocketAddr, Uuid}
use pisshoff.Exporter.Postgres.{Row, Postgres}
use pisshoff.Exporter.{
  Derived, Statement, prepared, insert, unprintable, variable_row, insert_event, insert_event_text,
  statements, Error, or_db, ◌>>=◌, run, run_all, ingest, ingest_log,
}
use pisshoff.Exporter.Rows.{IsOrder, IsPrintable, HasContent}

abbrev pub IsOk : {E A : Type 0} → Result E A → Type 0
IsOk (ok a) = Unit
IsOk (err e) = ⊥

-- No operation of the database fails.
pub record IsReliable (pg : Postgres) : Type 0 where
  pub transaction_ok : (db : pg.Db) → IsOk (pg.transaction db)
  pub execute_ok : (r : Row) (tx : pg.Transaction) → IsOk (pg.execute r tx)
  pub prepare_ok : (s : Bytes) (tx : pg.Transaction) → IsOk (pg.prepare s tx)
  pub commit_ok : (tx : pg.Transaction) → IsOk (pg.commit tx)

module _ (pg : Postgres) (reliable : IsReliable pg) (derived : Derived) where
  or_db-IsOk : {A : Type 0} (r : Result pg.DbError A) → IsOk r → IsOk (or_db pg derived r)
  or_db-IsOk (ok a) h = h
  or_db-IsOk (err e) h = h

  bind-IsOk :
      {A B : Type 0} (r : Result (Error pg derived) A) (f : A → Result (Error pg derived) B)
      → IsOk r
      → ((a : A) → IsOk (f a))
      → IsOk (◌>>=◌ pg derived r f)
  bind-IsOk (ok a) f h g = g a
  bind-IsOk (err e) f h g = h

  run-IsOk : (s : Statement) (tx : pg.Transaction) → IsPrintable s → IsOk (run pg derived s tx)
  unfolding run
  run-IsOk (prepared s) tx h = or_db-IsOk (pg.prepare s tx) (reliable.prepare_ok s tx)
  run-IsOk (insert r) tx h = or_db-IsOk (pg.execute r tx) (reliable.execute_ok r tx)
  run-IsOk unprintable tx h = h

  run_all-IsOk :
      (ss : List Statement) (tx : pg.Transaction)
      → All IsPrintable ss
      → IsOk (run_all pg derived ss tx)
  unfolding run_all
  run_all-IsOk [] tx h = tt
  run_all-IsOk (s ∷ ss) tx (h, hs) =
      bind-IsOk (run pg derived s tx) (run_all pg derived ss) (run-IsOk s tx h)
        (λ tx'. run_all-IsOk ss tx' hs)

  variables-IsPrintable :
      (id : Uuid) (vs : List (Bytes × Bytes)) → All IsPrintable (map (variable_row derived id) vs)
  unfolding variable_row
  variables-IsPrintable id [] = tt
  variables-IsPrintable id ((key, v) ∷ vs) = (tt, variables-IsPrintable id vs)

  events-IsPrintable :
      (log : AuditLog) (es : List AuditLogEvent)
      → All (HasContent derived) es
      → All IsPrintable (map (insert_event derived log) es)
  unfolding insert_event
  events-IsPrintable log [] h = tt
  events-IsPrintable log (e ∷ es) ((content, h), hs) = (rw h tt, events-IsPrintable log es hs)

  statements-IsPrintable :
      (log : AuditLog) (peer : SocketAddr)
      → All (HasContent derived) log.events
      → All IsPrintable (statements derived log peer)
  unfolding statements
  statements-IsPrintable log peer h = (
    tt,
    (
      tt,
      All-append IsPrintable
          (map (variable_row derived log.connection_id) log.environment_variables)
          (prepared insert_event_text ∷ map (insert_event derived log) log.events)
          (variables-IsPrintable log.connection_id log.environment_variables)
          (tt, events-IsPrintable log log.events h),
    ),
  )

  ingest-IsOk :
      (order : List Statement → List Statement)
      → IsOrder order
      → (log : AuditLog) (d : pg.Db) (peer : Option SocketAddr)
      → All (HasContent derived) log.events
      → IsOk (ingest pg derived order log d peer)
  unfolding ingest
  ingest-IsOk order o log d none h = tt
  ingest-IsOk order o log d (some peer) h =
      bind-IsOk _ _
        (bind-IsOk (or_db pg derived (pg.transaction d)) _
          (or_db-IsOk (pg.transaction d) (reliable.transaction_ok d))
          (λ tx. run_all-IsOk (order (statements derived log peer)) tx (
            All-Permᴰ IsPrintable (Permᴰ.symm (o (statements derived log peer)))
              (statements-IsPrintable log peer h))))
        (λ tx. or_db-IsOk (pg.commit tx) (reliable.commit_ok tx))

  -- A line that is a log, each of whose events has a content, is ingested without an error where no
  -- operation of the database fails, in whatever order its steps run.
  pub ingest_log-IsOk :
      (order : List Statement → List Statement)
      → IsOrder order
      → (d : pg.Db) (line : Bytes) (log : AuditLog) → derived.from_str line ≡ some log
      → All (HasContent derived) log.events
      → IsOk (ingest_log pg derived order d line)
  unfolding ingest_log
  ingest_log-IsOk order o d line log e h = rw e (ingest-IsOk order o log d log.peer_address h)
