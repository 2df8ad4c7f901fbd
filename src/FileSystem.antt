-- ===== src/FileSystem.antt =====
-- pisshoff-server/src/file_system.rs: the fake file system of a session.
pub mod Nodes
pub mod Entries
mod Walks
mod Mkdirs
pub mod Files
pub mod Directories
pub mod Listings
mod Tests
use pisshoff.Base.{
  List, [], ◌∷◌, Option, none, some, Bytes, bytes, beq, last, if◌then◌else◌, Result, ok, err,
  Outcome, returns, panics,
}
use pisshoff.Std.Paths.{components, join_path, parent}
use pisshoff.FileSystem.Nodes.{
  Tree, directory, file, empty, keys, LsError, not_directory, is_a_directory, walk, mkdirall_in,
  write_in,
}

pub record FileSystem : Type 0 where
  pub pwd : Bytes
  pub home : Bytes
  pub tree : Tree

unfoldable pub mkdirall : Bytes → FileSystem → Result LsError (Unit {0}) × FileSystem
mkdirall path fs = let (r, t) = mkdirall_in (components path) fs.tree in (r, record fs { tree = t })

home_of : Bytes → Bytes
home_of user = if beq user (bytes "root") then bytes "/root" else join_path (bytes "/home") user

unfoldable pub new : Bytes → FileSystem
unfolding home_of
new user =
    let pwd = home_of user in
    (mkdirall pwd (record { pwd = pwd; home = pwd; tree = directory empty })).1

unfoldable pub cd : Option Bytes → FileSystem → FileSystem
cd none fs = record fs { pwd = fs.home }
cd (some v) fs = record fs { pwd = join_path fs.pwd v }

content_of : Tree → Result LsError Bytes
content_of (directory es) = err is_a_directory
content_of (file b) = ok b

reached : Result LsError Tree → Result LsError Bytes
unfolding content_of
reached (ok t) = content_of t
reached (err e) = err e

unfoldable pub read : Bytes → FileSystem → Result LsError Bytes
unfolding reached
read path fs = reached (walk (components (join_path fs.pwd path)) fs.tree)

parents : Option (List Bytes) → List Bytes
parents none = []
parents (some cs) = cs

pub written : FileSystem → Result LsError Tree → Result LsError (Unit {0}) × FileSystem
written fs (ok t) = (ok tt, record fs { tree = t })
written fs (err e) = (err e, fs)

-- The last component is unwrapped only where the walk has reached a directory.
write_at :
    Option Bytes
    → List Bytes
    → Bytes
    → FileSystem
    → Outcome (Result LsError (Unit {0}) × FileSystem)
unfolding written
write_at (some name) cs content fs = returns (written fs (write_in cs name content fs.tree))
write_at none cs content fs = elim (walk cs fs.tree) [
  | err e ↦ returns (err e, fs)
  | ok t ↦ elim t [ directory es ↦ panics | file b ↦ returns (err not_directory, fs) ]
]

unfoldable pub write : Bytes → Bytes → FileSystem → Outcome (Result LsError (Unit {0}) × FileSystem)
unfolding write_at parents
write path content fs =
    let canonical = components (join_path fs.pwd path) in
    write_at (last canonical) (parents (parent canonical)) content fs

-- A directory is listed by its names, a file by the path that was asked for.
listing : Bytes → Result LsError Tree → Result LsError (List Bytes)
listing shown (ok (directory es)) = ok (keys es)
listing shown (ok (file b)) = ok (shown ∷ [])
listing shown (err e) = err e

unfoldable pub ls : Option Bytes → FileSystem → Result LsError (List Bytes)
unfolding listing
ls none fs = listing fs.pwd (walk (components fs.pwd) fs.tree)
ls (some dir) fs = listing dir (walk (components (join_path fs.pwd dir)) fs.tree)
