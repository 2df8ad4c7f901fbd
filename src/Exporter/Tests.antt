-- ===== src/Exporter/Tests.antt =====
-- Instances of the theorems on the exporter.
use mathlib.Core.List.Permᴰ
use pisshoff.Base.{List, [], ◌∷◌, bytes, refl, All, Permᴰ}
use pisshoff.Audit.{AuditLog}
use pisshoff.Exporter.{Statement, ingest_log}
use pisshoff.Exporter.Rows.{IsOrder, HasContent}
use pisshoff.Exporter.Atomic.{Ingested, ingest_log-Ingested}
use pisshoff.Exporter.Reliable.{IsOk, ingest_log-IsOk}
use pisshoff.Exporter.Samples.{memory, memory-PostgresLaws, memory-IsReliable, sample, derived}

-- The first two steps change places.
abbrev order : List Statement → List Statement
order (a ∷ b ∷ ss) = b ∷ a ∷ ss
order ss = ss

order-IsOrder : IsOrder order
order-IsOrder [] = Permᴰ.nil
order-IsOrder (a ∷ []) = Permᴰ.refl (a ∷ [])
order-IsOrder (a ∷ b ∷ ss) = Permᴰ.swap refl refl

abbrev logs : List AuditLog
logs = sample 2 ∷ sample 3 ∷ []

logs-HasContent : All (λ (log : AuditLog). All (HasContent derived) log.events) logs
logs-HasContent = (((bytes "{}", refl), tt), (((bytes "{}", refl), tt), tt))

ingest_log-Ingested_example :
    Ingested memory memory-PostgresLaws derived []
      (derived.from_str (bytes "{xx}"))
      (ingest_log memory derived order [] (bytes "{xx}"))
ingest_log-Ingested_example =
    ingest_log-Ingested memory memory-PostgresLaws derived order order-IsOrder [] (bytes "{xx}")

ingest_log-IsOk_example : IsOk (ingest_log memory derived order [] (bytes "{xx}"))
ingest_log-IsOk_example =
    ingest_log-IsOk memory memory-IsReliable derived order order-IsOrder [] (bytes "{xx}")
      (sample 2) refl ((bytes "{}", refl), tt)

-- Two connections, whose lines arrive the last first.
abbrev connections : List (List AuditLog)
connections = logs ∷ (sample 4 ∷ []) ∷ []
