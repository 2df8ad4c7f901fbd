-- ===== src/Exporter/Atomic.antt =====
-- What a line does to the database.
use mathlib.Core.List.Permᴰ
use pisshoff.Base.{
  List, [], ◌∷◌, ◌++◌, Option, none, some, Bytes, Result, ok, err, ◌≡◌, refl, sym, ap, ◌∙◌, All,
  All-Permᴰ, append_assoc, append-nil, Permᴰ,
}
use pisshoff.Audit.{AuditLog, SocketAddr}
use pisshoff.Exporter.Postgres.{Row, Postgres, PostgresLaws, OnOk}
use pisshoff.Exporter.{
  Derived, Statement, prepared, insert, unprintable, statements, Error, json, or_db, ◌>>=◌, run,
  run_all, ingest, parsed, ingest_log,
}
use pisshoff.Exporter.Rows.{
  IsOrder, rows_of, IsPrintable, rows_of-append, rows_of-Permᴰ, log_rows, HasContent,
  statements-rows, statements-HasContent,
}

module _ (pg : Postgres) (laws : PostgresLaws pg) (derived : Derived) where
  open laws use {rows, before, pending}

  -- What some steps make of a transaction.
  abbrev Adds : pg.Transaction → List Row → Type 0 → pg.Transaction → Type 0
  Adds tx rs A tx' = (before tx' ≡ before tx) × (pending tx' ≡ pending tx ++ rs) × A

  or_db-OnOk :
      {A : Type 0} (P Q : A → Type 0) (r : Result pg.DbError A)
      → OnOk P r
      → ((a : A) → P a → Q a)
      → OnOk Q (or_db pg derived r)
  or_db-OnOk P Q (ok a) h f = f a h
  or_db-OnOk P Q (err e) h f = tt

  bind-OnOk :
      {A B : Type 0} (P : A → Type 0) (Q : B → Type 0) (r : Result (Error pg derived) A)
      (f : A → Result (Error pg derived) B)
      → OnOk P r
      → ((a : A) → P a → OnOk Q (f a))
      → OnOk Q (◌>>=◌ pg derived r f)
  bind-OnOk P Q (ok a) f h g = g a h
  bind-OnOk P Q (err e) f h g = tt

  run-Adds :
      (s : Statement) (tx : pg.Transaction)
      → OnOk (Adds tx (rows_of (s ∷ [])) (IsPrintable s)) (run pg derived s tx)
  unfolding run
  run-Adds (prepared s) tx =
      or_db-OnOk _ (Adds tx [] Unit) (pg.prepare s tx) (laws.prepare_keeps s tx)
        (λ tx' (b, p). (b, p ∙ sym (append-nil (pending tx)), tt))
  run-Adds (insert r) tx =
      or_db-OnOk _ (Adds tx (r ∷ []) Unit) (pg.execute r tx) (laws.execute_adds r tx)
        (λ tx' (b, p). (b, p, tt))
  run-Adds unprintable tx = tt

  OnOk-map :
      {E A : Type 0} (P Q : A → Type 0) (r : Result E A)
      → OnOk P r
      → ((a : A) → P a → Q a)
      → OnOk Q r
  OnOk-map P Q (ok a) h f = f a h
  OnOk-map P Q (err e) h f = tt

  run_all-Adds :
      (ss : List Statement) (tx : pg.Transaction)
      → OnOk (Adds tx (rows_of ss) (All IsPrintable ss)) (run_all pg derived ss tx)
  unfolding run_all
  run_all-Adds [] tx = (refl, sym (append-nil (pending tx)), tt)
  run_all-Adds (s ∷ ss) tx =
      bind-OnOk (Adds tx (rows_of (s ∷ [])) (IsPrintable s)) _ (run pg derived s tx)
        (run_all pg derived ss) (run-Adds s tx)
        (λ tx' (b, p, a).
          OnOk-map (Adds tx' (rows_of ss) (All IsPrintable ss)) _ (run_all pg derived ss tx')
            (run_all-Adds ss tx')
            (λ tx'' (b', p', as'). (
              b' ∙ b,
              p'
                  ∙ ap (λ (rs : List Row). rs ++ rows_of ss) p
                  ∙ append_assoc (pending tx) (rows_of (s ∷ [])) (rows_of ss)
                  ∙ ap (λ (rs : List Row). pending tx ++ rs) (sym (rows_of-append (s ∷ []) ss)),
              (a, as'),
            )))

  -- What a line comes to.
  abbrev pub Kept : pg.Db → AuditLog → Option SocketAddr → Result (Error pg derived) pg.Db → Type 0
  Kept d log none r = r ≡ ok d
  Kept d log (some peer) r =
      OnOk
        (λ (d' : pg.Db).
          Permᴰ (rows d') (rows d ++ log_rows derived log peer)
          × All (HasContent derived) log.events)
        r

  abbrev pub Ingested : pg.Db → Option AuditLog → Result (Error pg derived) pg.Db → Type 0
  Ingested d none r = r ≡ err json
  Ingested d (some log) r = Kept d log log.peer_address r

  committed :
      (log : AuditLog) (peer : SocketAddr) (ss : List Statement) (d : pg.Db)
      (tx tx' : pg.Transaction) (d' : pg.Db)
      → Permᴰ ss (statements derived log peer)
      → (before tx ≡ rows d) × (pending tx ≡ [])
      → Adds tx (rows_of ss) (All IsPrintable ss) tx'
      → rows d' ≡ before tx' ++ pending tx'
      → Permᴰ (rows d') (rows d ++ log_rows derived log peer) × All (HasContent derived) log.events
  committed log peer ss d tx tx' d' o (b, p) (b', p', h) e = (
    rw (e, b', p', b, p, ← statements-rows derived log peer)
        (Permᴰ.append_left (rows d) (rows_of-Permᴰ o)),
    statements-HasContent derived log peer (All-Permᴰ IsPrintable o h),
  )

  ingest-Kept :
      (order : List Statement → List Statement)
      → IsOrder order
      → (log : AuditLog) (d : pg.Db) (peer : Option SocketAddr)
      → Kept d log peer (ingest pg derived order log d peer)
  unfolding ingest
  ingest-Kept order o log d none = refl
  ingest-Kept order o log d (some peer) =
      let ss = order (statements derived log peer) in
      bind-OnOk
        (λ (tx' : pg.Transaction).
          (tx : pg.Transaction) × ((before tx ≡ rows d) × (pending tx ≡ []))
          × Adds tx (rows_of ss) (All IsPrintable ss) tx')
        _ _ _
        (bind-OnOk (λ (tx : pg.Transaction). (before tx ≡ rows d) × (pending tx ≡ [])) _
          (or_db pg derived (pg.transaction d)) (run_all pg derived ss)
          (or_db-OnOk _ _ (pg.transaction d) (laws.transaction_begins d) (λ tx h. h))
          (λ tx h.
            OnOk-map _ _ (run_all pg derived ss tx) (run_all-Adds ss tx) (λ tx' g. (tx, h, g))))
        (λ tx' (tx, h, g).
          or_db-OnOk _ _ (pg.commit tx') (laws.commit_adds tx')
            (λ d' e. committed log peer ss d tx tx' d' (o (statements derived log peer)) h g e))

  -- In whatever order the steps for a line run: a line that is no log is an error, and a log without a
  -- peer changes nothing. Any other log, where there is no error, has added exactly its rows to the
  -- database, and each of its events has a content.
  pub ingest_log-Ingested :
      (order : List Statement → List Statement)
      → IsOrder order
      → (d : pg.Db) (line : Bytes)
      → Ingested d (derived.from_str line) (ingest_log pg derived order d line)
  unfolding ingest_log
  ingest_log-Ingested order o d line = either (derived.from_str line)
    where
      either : (log : Option AuditLog) → Ingested d log (parsed pg derived order d log)
      either none = refl
      either (some log) = ingest-Kept order o log d log.peer_address
