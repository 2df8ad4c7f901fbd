-- ===== src/Command.antt =====
-- pisshoff-server/src/command.rs and the files under command/.
pub mod Results
pub mod Echo
pub mod Exit
pub mod Pwd
pub mod Whoami
pub mod Uname
pub mod Ls
pub mod Cat
pub mod Scp
pub mod Concrete
pub mod Sessions
pub mod Logs
mod Tests
