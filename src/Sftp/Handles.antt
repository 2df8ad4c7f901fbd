-- ===== src/Sftp/Handles.antt =====
-- The life of a handle.
use pisshoff.Nom.{Nom}
use pisshoff.Sftp.Packets as Packets
use pisshoff.Sftp.{Sftp}
