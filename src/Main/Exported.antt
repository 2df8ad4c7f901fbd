-- ===== src/Main/Exported.antt =====
-- The way of a log from its connection into the database, through both programs.
use pisshoff.Nom.{Nom}
use pisshoff.Server.{Server}
use pisshoff.Exporter.Postgres.{Postgres}
