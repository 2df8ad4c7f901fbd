-- ===== src/Exporter/Postgres.antt =====
-- The interface of the crates deadpool_postgres and tokio_postgres: a database, which is asked for
-- transactions, and the rows of the three tables of
-- pisshoff-timescaledb-exporter/migrations/V1__initial.sql. What an operation finds in the database
-- decides whether it fails.
use pisshoff.Base.{List, [], ◌∷◌, ◌++◌, Bytes, Result, ok, err, ◌≡◌}
use pisshoff.Audit.{Uuid, OffsetDateTime}

-- A row of `audit`, of `audit_environment_variables`, or of `audit_events`.
pub data Row : Type 0 where
  audit : OffsetDateTime → Uuid → Bytes → Bytes → Row
  environment_variable : Uuid → Bytes → Bytes → Row
  event : OffsetDateTime → Uuid → Bytes → Bytes → Row

pub record Postgres : Type 1 where
  pub Db : Type 0
  pub Transaction : Type 0
  pub DbError : Type 0
  -- a connection of the pool, and `transaction` on it
  pub transaction : Db → Result DbError Transaction
  pub execute : Row → Transaction → Result DbError Transaction
  pub prepare : Bytes → Transaction → Result DbError Transaction
  pub commit : Transaction → Result DbError Db

abbrev pub OnOk : {E A : Type 0} → (A → Type 0) → Result E A → Type 0
OnOk P (ok a) = P a
OnOk P (err e) = Unit

-- What PostgreSQL documents: a transaction collects rows, and a commit adds all of them to the
-- database. `rows` are those of the database in the order in which they came.
pub record PostgresLaws (pg : Postgres) : Type 0 where
  pub rows : pg.Db → List Row
  pub before : pg.Transaction → List Row
  pub pending : pg.Transaction → List Row
  pub transaction_begins :
      (db : pg.Db) → OnOk (λ tx. (before tx ≡ rows db) × (pending tx ≡ [])) (pg.transaction db)
  pub execute_adds :
      (r : Row) (tx : pg.Transaction)
      → OnOk
          (λ tx'. (before tx' ≡ before tx) × (pending tx' ≡ pending tx ++ r ∷ []))
          (pg.execute r tx)
  pub prepare_keeps :
      (s : Bytes) (tx : pg.Transaction)
      → OnOk (λ tx'. (before tx' ≡ before tx) × (pending tx' ≡ pending tx)) (pg.prepare s tx)
  pub commit_adds :
      (tx : pg.Transaction) → OnOk (λ db. rows db ≡ before tx ++ pending tx) (pg.commit tx)
