-- ===== src/Exporter/Pipeline.antt =====
-- The way of a log from the task that writes it, over the codec of lines, into the database. The codec
-- is `LinesCodec` of the crate tokio_util.
use mathlib.Core.List.Permᴰ
use pisshoff.Base.{
  ℕ, ◌==◌, true, false, List, [], ◌∷◌, ◌++◌, Option, none, some, Bytes, Result, ok, err, ◌≡◌, ◌≢◌,
  refl, All, Pairs, Permᴰ, last, append-nil, append_assoc, subst, arith,
}
use pisshoff.Std.Utf8.{is_utf8}
use pisshoff.Audit.{AuditLog, Duration, SocketAddr}
use pisshoff.AuditWriter.Lines.{lines, HasText}
use pisshoff.Exporter.Postgres.{Row, Postgres, PostgresLaws}
use pisshoff.Exporter.{Derived, Statement, Error, ingest_log, handle_connection}
use pisshoff.Exporter.Rows.{IsOrder, log_rows, HasContent}
use pisshoff.Exporter.Atomic.{Ingested, Kept, ingest_log-Ingested}
use pisshoff.Exporter.Reliable.{IsOk, IsReliable, ingest_log-IsOk}

-- What tokio_util documents: a line ends with a newline, which is taken off, as a carriage return in
-- front of it is.
pub record LinesCodec : Type 1 where
  pub CodecError : Type 0
  pub decode : Bytes → List (Result CodecError Bytes)
  pub decode_nil : decode [] ≡ []
  pub decode_line :
      (s rest : Bytes)
      → All (λ (c : ℕ). (c == b'\n') ≡ false) s
      → is_utf8 s ≡ true
      → last s ≢ some 13
      → decode (s ++ b'\n' ∷ rest) ≡ ok s ∷ decode rest

-- What serde_json documents: the text of a log is one line that ends with a brace, and is read back,
-- but for the clock, which is not written and starts anew.
pub record JsonLaws (to_vec : AuditLog → Option Bytes) (derived : Derived) : Type 0 where
  pub now : ℕ → Duration
  pub one_line :
      (log : AuditLog) (s : Bytes) → to_vec log ≡ some s → All (λ (c : ℕ). (c == b'\n') ≡ false) s
  pub valid : (log : AuditLog) (s : Bytes) → to_vec log ≡ some s → is_utf8 s ≡ true
  pub closed : (log : AuditLog) (s : Bytes) → to_vec log ≡ some s → last s ≡ some b'}'
  pub read_back :
      (log : AuditLog) (s : Bytes)
      → to_vec log ≡ some s
      → derived.from_str s ≡ some (record log { start = now })

module _ (to_vec : AuditLog → Option Bytes) (derived : Derived) (json : JsonLaws to_vec derived)
    (codec : LinesCodec) where
  abbrev pub IsLineOf : Bytes → AuditLog → Type 0
  IsLineOf line log = derived.from_str line ≡ some (record log { start = json.now })

  -- The lines of a connection, if it gets the lines of these logs.
  abbrev pub ReadsBack : List AuditLog → List Bytes × Result codec.CodecError (Unit {0}) → Type 0
  ReadsBack logs (ls, r) = Pairs IsLineOf ls logs × (r ≡ ok tt)

  pub handle_connection-lines :
      (logs : List AuditLog)
      → All (HasText to_vec) logs
      → ReadsBack logs (handle_connection (codec.decode (lines to_vec logs)))
  unfolding handle_connection
  handle_connection-lines [] h = rw codec.decode_nil (tt, refl)
  handle_connection-lines (log ∷ logs) ((s, e), hs) =
      let brace : last s ≢ some 13 = λ return. ground (arith, json.closed log s e) in
      let (ls, r) = handle_connection-lines logs hs in
      rw
        (
          e,
          codec.decode_line s (lines to_vec logs) (json.one_line log s e) (json.valid log s e)
              brace,
        )
        ((json.read_back log s e, ls), r)

-- The rows of some logs: a log without a peer has none.
abbrev pub peer_rows : Derived → AuditLog → Option SocketAddr → List Row
peer_rows derived log none = []
peer_rows derived log (some peer) = log_rows derived log peer

abbrev pub exported_rows : Derived → List AuditLog → List Row
exported_rows derived [] = []
exported_rows derived (log ∷ logs) =
    peer_rows derived log log.peer_address ++ exported_rows derived logs

module _ (pg : Postgres) (derived : Derived) where
  -- What the task of a line leaves of the database: its error is only reported.
  abbrev pub settled : pg.Db → Result (Error pg derived) pg.Db → pg.Db
  settled d (ok d') = d'
  settled d (err e) = d

  -- The tasks of the lines, one after the other.
  unfoldable pub ingest_all : (List Statement → List Statement) → List Bytes → pg.Db → pg.Db
  ingest_all order [] d = d
  ingest_all order (line ∷ ls) d =
      ingest_all order ls (settled d (ingest_log pg derived order d line))

module _ (pg : Postgres) (laws : PostgresLaws pg) (reliable : IsReliable pg)
    (to_vec : AuditLog → Option Bytes) (derived : Derived) (json : JsonLaws to_vec derived)
    (codec : LinesCodec) where
  open laws use {rows}

  abbrev pub AllHaveContent : AuditLog → Type 0
  AllHaveContent log = All (HasContent derived) log.events

  kept-rows :
      (d : pg.Db) (log : AuditLog) (peer : Option SocketAddr) (r : Result (Error pg derived) pg.Db)
      → Kept pg laws derived d log peer r
      → IsOk r
      → Permᴰ (rows (settled pg derived d r)) (rows d ++ peer_rows derived log peer)
  kept-rows d log none r k o = rw (k, append-nil (rows d)) (Permᴰ.refl (rows d))
  kept-rows d log (some peer) (ok d') (added, contents) o = added
  kept-rows d log (some peer) (err e) k o = absurd o

  pub ingest_all-rows :
      (order : List Statement → List Statement)
      → IsOrder order
      → (ls : List Bytes) (logs : List AuditLog) (d : pg.Db)
      → Pairs (IsLineOf to_vec derived json codec) ls logs
      → All AllHaveContent logs
      → Permᴰ (rows (ingest_all pg derived order ls d)) (rows d ++ exported_rows derived logs)
  unfolding ingest_all
  ingest_all-rows order o [] [] d p h = rw (append-nil (rows d)) (Permᴰ.refl (rows d))
  ingest_all-rows order o (line ∷ ls) (log ∷ logs) d (p, ps) (h, hs) =
      let r = ingest_log pg derived order d line in
      let reread : AuditLog = record log { start = json.now } in
      let first : Permᴰ (rows (settled pg derived d r))
          (rows d ++ peer_rows derived log log.peer_address) =
        kept-rows d reread log.peer_address r
          (subst (λ (l : Option AuditLog). Ingested pg laws derived d l r) p
            (ingest_log-Ingested pg laws derived order o d line))
          (ingest_log-IsOk pg reliable derived order o d line reread p h) in
      Permᴰ.trans (ingest_all-rows order o ls logs (settled pg derived d r) ps hs) (
        rw
          (← append_assoc (rows d) (peer_rows derived log log.peer_address)
            (exported_rows derived logs))
          (Permᴰ.append_right (exported_rows derived logs) first))
  ingest_all-rows order o [] (log ∷ logs) d p h = absurd p
  ingest_all-rows order o (line ∷ ls) [] d p h = absurd p

  -- Where the database does not fail, what the writer of the audit log has written reaches it as a
  -- whole: of each log with a peer all rows, once, and nothing else.
  exported :
      (order : List Statement → List Statement)
      → IsOrder order
      → (logs : List AuditLog) (d : pg.Db) → All (HasText to_vec) logs
      → All AllHaveContent logs
      → Permᴰ
          (rows (
            ingest_all pg derived order (handle_connection (codec.decode (lines to_vec logs))).0 d))
          (rows d ++ exported_rows derived logs)
  exported order o logs d h k =
      ingest_all-rows order o (handle_connection (codec.decode (lines to_vec logs))).0 logs d
        (handle_connection-lines to_vec derived json codec logs h).0 k
