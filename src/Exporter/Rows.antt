-- ===== src/Exporter/Rows.antt =====
-- The rows that the steps for a log insert, in whatever order.
use mathlib.Core.List.Permᴰ
use pisshoff.Base.{
  ◌+◌, List, [], ◌∷◌, ◌++◌, map, Option, none, some, Bytes, ◌≡◌, refl, ap, ◌∙◌, All, All-behind,
  subst, Permᴰ, Option-cases, inl, inr,
}
use pisshoff.Audit.{AuditLog, AuditLogEvent, Uuid, SocketAddr}
use pisshoff.Exporter.Postgres.{Row, audit, environment_variable, event}
use pisshoff.Exporter.{
  Derived, insert_event_text, Statement, prepared, insert, unprintable, with_content, insert_event,
  variable_row, statements,
}

-- What runs the steps of the futures in some order.
abbrev pub IsOrder : (List Statement → List Statement) → Type 0
IsOrder order = (ss : List Statement) → Permᴰ (order ss) ss

abbrev pub rows_of : List Statement → List Row
rows_of [] = []
rows_of (insert r ∷ ss) = r ∷ rows_of ss
rows_of (prepared s ∷ ss) = rows_of ss
rows_of (unprintable ∷ ss) = rows_of ss

abbrev pub IsPrintable : Statement → Type 0
IsPrintable (insert r) = Unit
IsPrintable (prepared s) = Unit
IsPrintable unprintable = ⊥

pub rows_of-append : (ss ts : List Statement) → rows_of (ss ++ ts) ≡ rows_of ss ++ rows_of ts
rows_of-append [] ts = refl
rows_of-append (insert r ∷ ss) ts = ap (◌∷◌ r) (rows_of-append ss ts)
rows_of-append (prepared s ∷ ss) ts = rows_of-append ss ts
rows_of-append (unprintable ∷ ss) ts = rows_of-append ss ts

rows_of-cons :
    (s : Statement) (ss ts : List Statement)
    → Permᴰ (rows_of ss) (rows_of ts)
    → Permᴰ (rows_of (s ∷ ss)) (rows_of (s ∷ ts))
rows_of-cons (insert r) ss ts d = Permᴰ.cons refl d
rows_of-cons (prepared q) ss ts d = d
rows_of-cons unprintable ss ts d = d

rows_of-swap :
    (s t : Statement) (ss : List Statement) → Permᴰ (rows_of (s ∷ t ∷ ss)) (rows_of (t ∷ s ∷ ss))
rows_of-swap (insert r) (insert r') ss = Permᴰ.swap refl refl
rows_of-swap (insert r) (prepared q) ss = Permᴰ.refl _
rows_of-swap (insert r) unprintable ss = Permᴰ.refl _
rows_of-swap (prepared q) (insert r') ss = Permᴰ.refl _
rows_of-swap (prepared q) (prepared q') ss = Permᴰ.refl _
rows_of-swap (prepared q) unprintable ss = Permᴰ.refl _
rows_of-swap unprintable (insert r') ss = Permᴰ.refl _
rows_of-swap unprintable (prepared q') ss = Permᴰ.refl _
rows_of-swap unprintable unprintable ss = Permᴰ.refl _

-- The order of the steps does not matter for which rows there are.
pub rows_of-Permᴰ : {ss ts : List Statement} → Permᴰ ss ts → Permᴰ (rows_of ss) (rows_of ts)
rows_of-Permᴰ Permᴰ.nil = Permᴰ.nil
rows_of-Permᴰ (Permᴰ.cons {a} {b} {l₁} {l₂} e d) =
    subst (λ s. Permᴰ (rows_of (a ∷ l₁)) (rows_of (s ∷ l₂))) e
      (rows_of-cons a l₁ l₂ (rows_of-Permᴰ d))
rows_of-Permᴰ (Permᴰ.swap {a} {b} {a'} {b'} {l} e e') =
    subst (λ s. Permᴰ (rows_of (a ∷ b ∷ l)) (rows_of (a' ∷ s ∷ l))) e
      (subst (λ s. Permᴰ (rows_of (a ∷ b ∷ l)) (rows_of (s ∷ a ∷ l))) e' (rows_of-swap a b l))
rows_of-Permᴰ (Permᴰ.trans d d') = Permᴰ.trans (rows_of-Permᴰ d) (rows_of-Permᴰ d')

module _ (derived : Derived) where
  -- The rows of a log: one for the connection, one for each variable and one for each event, which has
  -- the time of the log and its offset together.
  abbrev pub variable_rows : Uuid → List (Bytes × Bytes) → List Row
  variable_rows id [] = []
  variable_rows id ((key, v) ∷ vs) = environment_variable id key v ∷ variable_rows id vs

  abbrev pub with_row : (Bytes → Row) → Option Bytes → List Row → List Row
  with_row row none rs = rs
  with_row row (some content) rs = row content ∷ rs

  abbrev pub event_row : AuditLog → AuditLogEvent → Bytes → Row
  event_row log e content =
      event (log.ts + e.start_offset) log.connection_id (derived.name e.action) content

  abbrev pub event_rows : AuditLog → List AuditLogEvent → List Row
  event_rows log [] = []
  event_rows log (e ∷ es) =
      with_row (event_row log e) (derived.to_value e.action) (event_rows log es)

  abbrev pub log_rows : AuditLog → SocketAddr → List Row
  log_rows log peer =
      audit log.ts log.connection_id peer log.host
      ∷ (variable_rows log.connection_id log.environment_variables ++ event_rows log log.events)

  abbrev pub HasContent : AuditLogEvent → Type 0
  HasContent e = (content : Bytes) × (derived.to_value e.action ≡ some content)

  rows_of-variables :
      (id : Uuid) (vs : List (Bytes × Bytes))
      → rows_of (map (variable_row derived id) vs) ≡ variable_rows id vs
  unfolding variable_row
  rows_of-variables id [] = refl
  rows_of-variables id ((key, v) ∷ vs) =
      ap (◌∷◌ (environment_variable id key v)) (rows_of-variables id vs)

  rows_of-events :
      (log : AuditLog) (es : List AuditLogEvent)
      → rows_of (map (insert_event derived log) es) ≡ event_rows log es
  unfolding insert_event
  rows_of-events log [] = refl
  rows_of-events log (e ∷ es) = elim (Option-cases (derived.to_value e.action)) [
    | inl nothing ↦ rw nothing (rows_of-events log es)
    | inr (content, h) ↦ rw h (ap (◌∷◌ (event_row log e content)) (rows_of-events log es))
  ]

  events-HasContent :
      (log : AuditLog) (es : List AuditLogEvent)
      → All IsPrintable (map (insert_event derived log) es)
      → All HasContent es
  unfolding insert_event
  events-HasContent log [] h = tt
  events-HasContent log (e ∷ es) (h, hs) =
      (printable (derived.to_value e.action) h, events-HasContent log es hs)
    where
      printable :
          (o : Option Bytes)
          → IsPrintable (with_content (event_row log e) o)
          → (content : Bytes) × (o ≡ some content)
      printable none h = absurd h
      printable (some content) h = (content, refl)

  pub statements-rows :
      (log : AuditLog) (peer : SocketAddr)
      → rows_of (statements derived log peer) ≡ log_rows log peer
  unfolding statements
  statements-rows log peer = ap (◌∷◌ (audit log.ts log.connection_id peer log.host)) (
      rows_of-append (map (variable_row derived log.connection_id) log.environment_variables)
        (prepared insert_event_text ∷ map (insert_event derived log) log.events)
      ∙ ap (λ (rs : List Row). rs ++ rows_of (map (insert_event derived log) log.events))
          (rows_of-variables log.connection_id log.environment_variables)
      ∙ ap (λ (rs : List Row). variable_rows log.connection_id log.environment_variables ++ rs)
          (rows_of-events log log.events))

  pub statements-HasContent :
      (log : AuditLog) (peer : SocketAddr)
      → All IsPrintable (statements derived log peer)
      → All HasContent log.events
  unfolding statements
  statements-HasContent log peer (a, (b, h)) =
      events-HasContent log log.events
        (All-behind IsPrintable
          (map (variable_row derived log.connection_id) log.environment_variables)
          (prepared insert_event_text ∷ map (insert_event derived log) log.events) h).1
