-- ===== src/Exporter/Samples.antt =====
-- A database in memory, a codec of lines, and a text for some logs, which meet what is asked of them.
use pisshoff.Base.{
  ℕ, zero, suc, ◌==◌, true, false, List, [], ◌∷◌, ◌++◌, Option, none, some, Bytes, bytes, Result,
  ok, ◌≡◌, refl, ap, ◌∙◌, All, last, leb, is_empty, if◌then◌else◌, append-nil, append_assoc, arith,
}
use pisshoff.Std.Utf8.{is_utf8, is_utf8-ascii}
use pisshoff.Audit.{AuditLog, AuditLogEvent, AuditLogAction, SocketAddr, Duration, shell_requested}
use pisshoff.Exporter.{Derived}
use pisshoff.Exporter.Postgres.{Row, Postgres, PostgresLaws}
use pisshoff.Exporter.Reliable.{IsReliable}
use pisshoff.Exporter.Pipeline.{LinesCodec, JsonLaws}

abbrev pub memory : Postgres
memory = record {
  Db = List Row;
  Transaction = List Row × List Row;
  DbError = Unit;
  transaction = λ db. ok (db, []);
  execute = λ r (old, new). ok (old, new ++ r ∷ []);
  prepare = λ s tx. ok tx;
  commit = λ (old, new). ok (old ++ new);
}

abbrev pub memory-PostgresLaws : PostgresLaws memory
memory-PostgresLaws = record {
  rows = λ db. db;
  before = λ (old, new). old;
  pending = λ (old, new). new;
  transaction_begins = λ db. (refl, refl);
  execute_adds = λ r tx. (refl, refl);
  prepare_keeps = λ s tx. (refl, refl);
  commit_adds = λ tx. refl;
}

pub memory-IsReliable : IsReliable memory
memory-IsReliable = record {
  transaction_ok = λ db. tt;
  execute_ok = λ r tx. tt;
  prepare_ok = λ s tx. tt;
  commit_ok = λ tx. tt;
}

abbrev pub split : Bytes → Bytes → List (Result (Unit {0}) Bytes)
split line [] = if is_empty line then [] else ok line ∷ []
split line (c ∷ s) =
    let next = split [] s in
    let same = split (line ++ c ∷ []) s in if c == b'\n' then ok line ∷ next else same

pub split-line :
    (line s rest : Bytes)
    → All (λ (c : ℕ). (c == b'\n') ≡ false) s
    → split line (s ++ b'\n' ∷ rest) ≡ ok (line ++ s) ∷ split [] rest
split-line line [] rest h = rw (append-nil line) refl
split-line line (c ∷ s) rest (h, hs) =
    rw (h, ← append_assoc line (c ∷ []) s) (split-line (line ++ c ∷ []) s rest hs)

abbrev pub unix_lines : LinesCodec
unix_lines = record {
  CodecError = Unit;
  decode = split [];
  decode_nil = refl;
  decode_line = λ s rest one valid r. split-line [] s rest one;
}

-- A log of one event at its beginning: its identifier is the number of letters in the braces.
abbrev pub sample : ℕ → AuditLog
sample id = record {
  connection_id = id;
  ts = 0;
  peer_address = some [];
  host = [];
  environment_variables = [];
  events = record { start_offset = 0; action = shell_requested } ∷ [];
  start = λ n. n;
}

abbrev letters : ℕ → Bytes
letters zero = bytes "}"
letters (suc n) = b'x' ∷ letters n

abbrev event_text : ℕ → AuditLogAction → List AuditLogEvent → ℕ → Option Bytes
event_text zero shell_requested [] id = some (b'{' ∷ letters id)
event_text _ _ _ id = none

abbrev text_of :
    ℕ → Option SocketAddr → Bytes → List (Bytes × Bytes) → List AuditLogEvent → ℕ → Option Bytes
text_of zero (some []) [] [] (e ∷ es) id = event_text e.start_offset e.action es id
text_of _ _ _ _ _ id = none

abbrev pub to_vec : AuditLog → Option Bytes
to_vec log =
    text_of log.ts log.peer_address log.host log.environment_variables log.events log.connection_id

abbrev one_more : Option AuditLog → Option AuditLog
one_more none = none
one_more (some log) = some (record log { connection_id = suc log.connection_id })

abbrev read_letters : Bytes → Option AuditLog
read_letters [] = none
read_letters (c ∷ s) =
    let rest = one_more (read_letters s) in if c == b'}' then some (sample 0) else rest

abbrev from_str : Bytes → Option AuditLog
from_str [] = none
from_str (c ∷ s) = read_letters s

abbrev pub derived : Derived
derived = record {
  from_str = from_str;
  name = λ a. bytes "shell-requested";
  to_value = λ a. some (bytes "{}");
}

read_letters-letters : (id : ℕ) → read_letters (letters id) ≡ some (sample id)
read_letters-letters zero = refl
read_letters-letters (suc id) = ap one_more (read_letters-letters id)

abbrev restarted : AuditLog → (ℕ → Duration) → AuditLog
restarted log start = record log { start = start }

abbrev IsSample :
    ℕ → Option SocketAddr → Bytes → List (Bytes × Bytes) → List AuditLogEvent → ℕ → Bytes → Type 0
IsSample ts peer host env es id s =
    let log = λ (start : ℕ → Duration).
      restarted
        (record {
          connection_id = id;
          ts = ts;
          peer_address = peer;
          host = host;
          environment_variables = env;
          events = es;
          start = start;
        })
        start in
    (s ≡ b'{' ∷ letters id) × ((start : ℕ → Duration) → restarted (sample id) start ≡ log start)

event_text-IsSample :
    (offset : ℕ) (action : AuditLogAction) (es : List AuditLogEvent) (id : ℕ) (s : Bytes)
    → event_text offset action es id ≡ some s
    → IsSample 0 (some []) [] [] (record { start_offset = offset; action = action } ∷ es) id s
event_text-IsSample zero shell_requested [] id s h = (ground arith, λ start. refl)
event_text-IsSample offset action es id s h = cc

text_of-IsSample :
    (ts : ℕ) (peer : Option SocketAddr) (host : Bytes) (env : List (Bytes × Bytes))
    (es : List AuditLogEvent) (id : ℕ) (s : Bytes)
    → text_of ts peer host env es id ≡ some s
    → IsSample ts peer host env es id s
text_of-IsSample zero (some []) [] [] (e ∷ es) id s h =
    event_text-IsSample e.start_offset e.action es id s h
text_of-IsSample ts peer host env es id s h = cc

to_vec-IsSample :
    (log : AuditLog) (s : Bytes)
    → to_vec log ≡ some s
    → IsSample log.ts log.peer_address log.host log.environment_variables log.events
        log.connection_id s
to_vec-IsSample log s h =
    text_of-IsSample log.ts log.peer_address log.host log.environment_variables log.events
      log.connection_id s h

letters-one_line : (n : ℕ) → All (λ (c : ℕ). (c == b'\n') ≡ false) (letters n)
letters-one_line zero = (refl, tt)
letters-one_line (suc n) = (refl, letters-one_line n)

letters-ascii : (n : ℕ) → All (λ (c : ℕ). leb c 0x7f ≡ true) (letters n)
letters-ascii zero = (refl, tt)
letters-ascii (suc n) = (refl, letters-ascii n)

letters-last : (c n : ℕ) → last (c ∷ letters n) ≡ some b'}'
letters-last c zero = refl
letters-last c (suc n) = letters-last b'x' n

to_vec-one_line :
    (log : AuditLog) (s : Bytes) → to_vec log ≡ some s → All (λ (c : ℕ). (c == b'\n') ≡ false) s
to_vec-one_line log s h =
    rw ((to_vec-IsSample log s h).0) (refl, letters-one_line log.connection_id)

to_vec-valid : (log : AuditLog) (s : Bytes) → to_vec log ≡ some s → is_utf8 s ≡ true
to_vec-valid log s h =
    rw ((to_vec-IsSample log s h).0)
      (is_utf8-ascii (b'{' ∷ letters log.connection_id) (refl, letters-ascii log.connection_id))

to_vec-closed : (log : AuditLog) (s : Bytes) → to_vec log ≡ some s → last s ≡ some b'}'
to_vec-closed log s h = rw ((to_vec-IsSample log s h).0) (letters-last b'{' log.connection_id)

to_vec-read_back :
    (log : AuditLog) (s : Bytes)
    → to_vec log ≡ some s
    → from_str s ≡ some (record log { start = λ n. n })
to_vec-read_back log s h =
    let (e, same) = to_vec-IsSample log s h in
    rw e (read_letters-letters log.connection_id ∙ ap some (same (λ n. n)))

pub to_vec-JsonLaws : JsonLaws to_vec derived
to_vec-JsonLaws = record {
  now = λ n. n;
  one_line = to_vec-one_line;
  valid = to_vec-valid;
  closed = to_vec-closed;
  read_back = to_vec-read_back;
}
