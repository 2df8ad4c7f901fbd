-- ===== src/FileSystem/Tests.antt =====
-- The file system on small inputs: the tests of ls.rs and cat.rs, and instances of the theorems.
use pisshoff.Base.{
  Bytes, arith, bytes, List, [], ◌∷◌, none, some, ◌≡◌, ◌≢◌, ◌↔◌, refl, ok, err, returns, init, last,
  true,
}
use pisshoff.Std.Paths.{components, join_path, parent}
use pisshoff.FileSystem.Nodes.{
  entry, file, is_a_directory, walk, mkdirall_in, write_in, LsError, file_exists, not_directory,
  directory, empty, no_such_file_or_directory,
}
use pisshoff.FileSystem.Files.{canonical, read-write_self, read-write_ne}
use pisshoff.FileSystem.Directories.{
  Reach, IsValid, Reach-IsValid, mkdirall_refused, read-mkdirall, start, next, writing, making,
}
use pisshoff.FileSystem.Listings.{contains, ls-write}
use pisshoff.FileSystem.{FileSystem, mkdirall, new, read, write, ls}

abbrev root : Bytes
root = bytes "root"

abbrev session : FileSystem
session = new root

abbrev with_dir : FileSystem
with_dir = (mkdirall (bytes "/root/b") session).1

-- The file system after writing `a` in the home directory.
abbrev with_file : FileSystem
with_file =
    let home =
      entry (bytes "a") (file (bytes "hello")) (entry (bytes "b") (directory empty) empty) in
    let top = entry root (directory home) empty in
    record {
      pwd = bytes "/root";
      home = bytes "/root";
      tree = directory (entry (bytes "/") (directory top) empty);
    }

wrote_a : write (bytes "a") (bytes "hello") with_dir ≡ returns (ok tt, with_file)
unfolding write new mkdirall mkdirall_in components join_path parent write_in
wrote_a = refl

reach_file : Reach root with_file
reach_file =
    next (next start (making (bytes "/root/b") session))
      (writing (bytes "a") (bytes "hello") with_dir with_file (ok tt) wrote_a)

-- A file is a directory entry, so `ls` of it shows the path, and `ls` below it is refused.
listings :
    (ls none with_file ≡ ok (bytes "a" ∷ bytes "b" ∷ []))
    × (ls (some (bytes "./a")) with_file ≡ ok (bytes "./a" ∷ []))
    × (ls (some (bytes "c")) with_file ≡ err no_such_file_or_directory)
    × (ls (some (bytes "a/c")) with_file ≡ err not_directory)
unfolding ls components join_path walk
listings = (refl, refl, refl, refl)

reads :
    (read (bytes "a") with_file ≡ ok (bytes "hello"))
    × (read (bytes "b") with_file ≡ err is_a_directory)
    × (write (bytes "b") (bytes "x") with_file ≡ returns (err is_a_directory, with_file))
unfolding read write components join_path walk write_in parent
reads = (refl, refl, refl)

-- `..` is a name like any other here: this path does not lead back to `/root`.
dots : read (bytes "b/../a") with_file ≡ err no_such_file_or_directory
unfolding read components join_path walk
dots = refl

read-write_self_example : read (bytes "a") with_file ≡ ok (bytes "hello")
read-write_self_example = read-write_self (bytes "a") (bytes "hello") with_dir with_file wrote_a

apart : canonical (bytes "c") with_dir ≢ canonical (bytes "a") with_dir
unfolding components join_path new mkdirall
apart e = ground arith

read-write_ne_example : (read (bytes "c") with_dir ≡ ok []) ↔ (read (bytes "c") with_file ≡ ok [])
read-write_ne_example =
    read-write_ne (bytes "a") (bytes "c") (bytes "hello") [] with_dir with_file wrote_a apart

here_is_home : canonical (bytes "") with_dir ≡ init (canonical (bytes "a") with_dir)
unfolding components join_path new mkdirall
here_is_home = refl

ls-write_example :
    (name : Bytes) × (names : List Bytes) × (last (canonical (bytes "a") with_dir) ≡ some name)
    × (ls (some (bytes "")) with_file ≡ ok names)
    × (contains name names ≡ true)
ls-write_example =
    ls-write (bytes "a") (bytes "hello") (bytes "") with_dir with_file wrote_a here_is_home

Reach-IsValid_example : IsValid with_file
Reach-IsValid_example = Reach-IsValid root reach_file

mkdirall_refused_example :
    (((mkdirall (bytes "/root/a/d") with_file).0 ≡ err file_exists)
      ↔ (walk (components (bytes "/root/a/d")) with_file.tree ≡ err not_directory))
    × ((e : LsError)
        → (mkdirall (bytes "/root/a/d") with_file).0 ≡ err e
        → (e ≡ file_exists) × ((mkdirall (bytes "/root/a/d") with_file).1 ≡ with_file))
mkdirall_refused_example = mkdirall_refused root (bytes "/root/a/d") with_file reach_file

read-mkdirall_example :
    (read (bytes "a") with_file ≡ ok (bytes "hello"))
    ↔ (read (bytes "a") (mkdirall (bytes "/root/c") with_file).1 ≡ ok (bytes "hello"))
read-mkdirall_example = read-mkdirall (bytes "/root/c") (bytes "a") (bytes "hello") with_file

-- The path may lead to a file: `mkdirall` then succeeds, and no directory is made.
made_nothing : mkdirall (bytes "/root/a") with_file ≡ (ok tt, with_file)
unfolding mkdirall mkdirall_in components
made_nothing = refl
