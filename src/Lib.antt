-- ===== src/Lib.antt =====
-- A model of pisshoff, an ssh honeypot, with the theorems that show what its parts do.
--
-- A client of the server gets a connection with an audit log and, at its first use, a fake file
-- system of its own. Its channels run a shell: a line is tokenized, its expansions are run with
-- their output captured, and then the command itself is run, which may wait for more data from the
-- client. Every command reads and changes the connection and writes to a session.
--
-- How the code is modelled:
-- - Bytes and texts are lists of numbers; a `String` is a list that is valid UTF-8. The machine's
--   integers are natural numbers, and a `usize` has 64 bits.
-- - A method with `&mut self` takes the value and returns the new one; what may panic returns an
--   `Outcome`; `Result` and `Option` are kept.
-- - thrussh's `Session` is the list of the calls that were made of it. A command is generic in the
--   session that it writes to, as in the code: the live one, a capturing one, or either.
-- - `BTreeMap` is a list of entries in order, `HashMap` a list of pairs; a path is its bytes, and
--   its components are computed as `std::path` does on Unix.
-- - The parser combinators of the crate nom are not part of the program. They are the record `Nom`,
--   an argument of every parser; `Nom.Laws` has what nom documents of them, and `Nom.Reference` an
--   instance, on which the tests run.
-- - The clock of an audit log is a function, from the number of a reading to what it shows.
--
-- The files:
-- - Base: shared names, lists and byte strings. Std: `std::path`, UTF-8, characters, decimals.
-- - FileSystem: pisshoff-server/src/file_system.rs; FileSystem.Nodes has the tree and its loops, the
--   other files what is proved of them.
-- - Audit: pisshoff-types/src/audit.rs. Connection and Session: `ConnectionState`, and
--   `ThrusshSession` with its implementations, of pisshoff-server/src/server.rs.
-- - Command: pisshoff-server/src/command.rs and command/*.rs, one module for each command; `new` and
--   `stdin` are the methods of the trait `Command`. Command.Concrete is `ConcreteCommand`, what the
--   macro `define_commands` makes.
-- - Shell: pisshoff-server/src/subsystem/shell.rs and subsystem/shell/parser.rs. Shell.Tokens is the
--   parser of a line, Shell.Iter the iterator over its parts, Shell.Executing is `ExecutingCommand`
--   and Shell.Machine the state machine `Shell`; its method `data` is `data_received` here.
-- - Sftp: pisshoff-server/src/subsystem/sftp.rs. Sftp.Packets has the packets of a client and their
--   parsers, Sftp.Responses those of the server; the method `data` is `data_received` here. The crate
--   uuid is the record `Uuids`, and the subtraction of a header's length wraps around, as it does in
--   the release build that the Dockerfile makes.
-- - Server: pisshoff-server/src/state.rs, and `try_login` and the handlers `auth_*` of
--   pisshoff-server/src/server.rs. Floating-point numbers are a parameter with their order, and a
--   handler takes the number that it draws. Server.Channels has the handlers of the other requests:
--   `respond` takes a request, which is a handler with its arguments. Server.Lives has the beginning
--   of a connection and its end, and a server with any number of connections, to which things happen
--   one after the other.
-- - Main: pisshoff-server/src/main.rs. `run` from its `select!` on, with the connections, the channel
--   of logs, the writer and the signals, as a program that takes one step after the other.
-- - AuditWriter: pisshoff-server/src/audit.rs. The channels to the task are the sequence of the
--   reasons for which it wakes up. Files and buffered writers of the crate tokio are the record `Files`,
--   whose state decides what fails; the text of a log is a function.
-- - Exporter: pisshoff-timescaledb-exporter/src/main.rs. The database is the record `Postgres`, what
--   serde and strum derive the record `Derived`. The futures that are joined are a list of steps, in
--   any order.
--
-- Fuel: the parser of a line calls itself for a nested command, which stands behind a bracket or a
-- backquote, so the length of the line is enough. The loop of `ExecutingCommand::new_inner` has the
-- weight of its iterator, which bounds the commands that it can still yield. The loop of
-- `Shell::data` has two rounds. The loop of scp has three rounds for a byte of pending data and three
-- more, and the loop of sftp one round for a byte and one more. Shell.Tokens.Depth,
-- Shell.Executing.Termination, Shell.Machine.Rounds, Command.Scp.Termination and Sftp.Termination are
-- about this.
--
-- Not modelled: what is left of a connection whose handler panics; the configuration, what `run` does
-- before its `select!`, and the start of the exporter, which are input and output; the futures that
-- drive the handlers; what the programs print of their own log.
pub mod Base
pub mod Std
pub mod FileSystem
pub mod Audit
pub mod AuditWriter
pub mod Exporter
pub mod Nom
pub mod Session
pub mod Connection
pub mod Command
pub mod Shell
pub mod Server
pub mod Main
pub mod Sftp
