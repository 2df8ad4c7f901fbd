-- ===== src/FileSystem/Nodes.antt =====
-- `Tree` of file_system.rs. A directory's `BTreeMap` is its list of entries in the order of names.
use Prim.Native.Nat.{Ordering}
use pisshoff.Base.{
  Bytes, bytes, Option, none, some, beq, lex, if◌then◌else◌, List, [], ◌∷◌, Result, ok, err,
}

pub data LsError : Type 0 where
  not_directory no_such_file_or_directory is_a_directory file_exists : LsError

-- `Display`
abbrev pub message : LsError → Bytes
message no_such_file_or_directory = bytes "No such file or directory"
message not_directory = bytes "Not a directory"
message is_a_directory = bytes "Is a directory"
message file_exists = bytes "File exists"

mutual
  pub data Tree : Type 0 where
    directory : Entries → Tree
    file : Bytes → Tree

  pub data Entries : Type 0 where
    empty : Entries
    entry : Bytes → Tree → Entries → Entries

-- `BTreeMap::get`
abbrev pub get : Bytes → Entries → Option Tree
get k empty = none
get k (entry j t es) = if beq j k then some t else get k es

-- `BTreeMap::insert`
abbrev pub insert : Bytes → Tree → Entries → Entries
insert k t empty = entry k t empty
insert k t (entry j u es) = elim (lex k j) [
  | Ordering.lt ↦ entry k t (entry j u es)
  | Ordering.eq ↦ entry k t es
  | Ordering.gt ↦ entry j u (insert k t es)
]

-- `BTreeMap::keys`
abbrev pub keys : Entries → List Bytes
keys empty = []
keys (entry k t es) = k ∷ keys es

-- The loops of `read`, `write` and `ls` over the components of a path.
unfoldable pub walk : List Bytes → Tree → Result LsError Tree
walk [] t = ok t
walk (c ∷ cs) (directory d) = elim (get c d) [
  | none ↦ err no_such_file_or_directory
  | some t ↦ walk cs t
]
walk (c ∷ cs) (file b) = err not_directory

-- The loop of `mkdirall`. What was inserted before an error stays.
unfoldable pub mkdirall_in : List Bytes → Tree → Result LsError (Unit {0}) × Tree
mkdirall_in [] t = (ok tt, t)
mkdirall_in (c ∷ cs) (directory d) =
    let child : Tree = elim (get c d) [ none ↦ directory empty | some t ↦ t ] in
    let (r, t) = mkdirall_in cs child in (r, directory (insert c t d))
mkdirall_in (c ∷ cs) (file b) = (err file_exists, file b)

-- The entry that `write` sets in the directory that it has reached.
write_entry : Bytes → Bytes → Entries → Result LsError Tree
write_entry name content d = elim (get name d) [
  | none ↦ ok (directory (insert name (file content) d))
  | some (file b) ↦ ok (directory (insert name (file content) d))
  | some (directory es) ↦ err is_a_directory
]

abbrev in_entry : Bytes → Entries → Result LsError Tree → Result LsError Tree
in_entry c d (ok t) = ok (directory (insert c t d))
in_entry c d (err e) = err e

-- `write`, from the components of the parent, the name and the content.
unfoldable pub write_in : List Bytes → Bytes → Bytes → Tree → Result LsError Tree
unfolding write_entry
write_in [] name content (directory d) = write_entry name content d
write_in [] name content (file b) = err not_directory
write_in (c ∷ cs) name content (directory d) = elim (get c d) [
  | none ↦ err no_such_file_or_directory
  | some t ↦ in_entry c d (write_in cs name content t)
]
write_in (c ∷ cs) name content (file b) = err not_directory
