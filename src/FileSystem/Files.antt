-- ===== src/FileSystem/Files.antt =====
-- What `write` does to later calls of `read` and `ls`.
use pisshoff.Base.{
  Bytes, last, init, init-last, List, [], ◌∷◌, ◌++◌, ◌≡◌, ◌≢◌, ◌↔◌, arith, ok, returns, some, inl,
  inr, ◌∙◌, Option-cases,
}
use pisshoff.Std.Paths.{components, join_path, parent}
use pisshoff.FileSystem.Nodes.{file, walk, write_in}
use pisshoff.FileSystem.Walks.{walk-write_in, walk-write_in_ne, walk-write_in_back}
use pisshoff.FileSystem.{FileSystem, read, write, written}

-- The components that an operation on `path` walks.
abbrev pub canonical : Bytes → FileSystem → List Bytes
canonical path fs = components (join_path fs.pwd path)

-- Where the path has a last component, `write` sets it in the directory that the others lead to.
pub write_eq :
    (path content name : Bytes) (fs : FileSystem)
    → last (canonical path fs) ≡ some name
    → write path content fs
      ≡ returns (written fs (write_in (init (canonical path fs)) name content fs.tree))
unfolding write parent
write_eq path content name fs e = ground arith

pub record Wrote (path content : Bytes) (fs fs' : FileSystem) : Type 0 where
  pub name : Bytes
  pub is_last : last (canonical path fs) ≡ some name
  pub splits : init (canonical path fs) ++ name ∷ [] ≡ canonical path fs
  pub tree : write_in (init (canonical path fs)) name content fs.tree ≡ ok fs'.tree
  pub pwd : fs'.pwd ≡ fs.pwd
  pub home : fs'.home ≡ fs.home

pub write-Wrote :
    (path content : Bytes) (fs fs' : FileSystem)
    → write path content fs ≡ returns (ok tt, fs')
    → Wrote path content fs fs'
unfolding write parent
write-Wrote path content fs fs' h = elim (Option-cases (last (canonical path fs))) [
  | inl nothing ↦ absurd (ground arith)
  | inr (name, e) ↦ record {
    name = name;
    is_last = e;
    splits = init-last (canonical path fs) e;
    tree = ground arith;
    pwd = ground arith;
    home = ground arith;
  }
]

-- After a successful `write` of a path, `read` of it returns the content that was written.
pub read-write_self :
    (path content : Bytes) (fs fs' : FileSystem)
    → write path content fs ≡ returns (ok tt, fs')
    → read path fs' ≡ ok content
unfolding read
read-write_self path content fs fs' h =
    let w = write-Wrote path content fs fs' h in
    let there = walk-write_in (init (canonical path fs)) w.name content fs.tree fs'.tree w.tree in
    rw w.pwd (rw (← w.splits) (rw there))

pub walk-read :
    (path b : Bytes) (fs : FileSystem)
    → (read path fs ≡ ok b) ↔ (walk (canonical path fs) fs.tree ≡ ok (file b))
unfolding read
walk-read path b fs = ground arith

-- A successful `write` changes no other file: a path that leads elsewhere reads the same content
-- before and after.
pub read-write_ne :
    (path other content b : Bytes) (fs fs' : FileSystem)
    → write path content fs ≡ returns (ok tt, fs')
    → canonical other fs ≢ canonical path fs
    → (read other fs ≡ ok b) ↔ (read other fs' ≡ ok b)
read-write_ne path other content b fs fs' h ne =
    let w = write-Wrote path content fs fs' h in
    let ne' : canonical other fs ≢ init (canonical path fs) ++ w.name ∷ [] =
      λ e. ne (e ∙ w.splits) in
    let cs = init (canonical path fs) in
    let after : (read other fs' ≡ ok b) ↔ (walk (canonical other fs) fs'.tree ≡ ok (file b)) =
      rw (← w.pwd) (walk-read other b fs') in
    (
      λ r. after.1 (
          walk-write_in_ne cs (canonical other fs) w.name content b fs.tree fs'.tree w.tree ne'
            ((walk-read other b fs).0 r)),
      λ r. (walk-read other b fs).1 (
          walk-write_in_back cs (canonical other fs) w.name content b fs.tree fs'.tree w.tree ne'
            (after.0 r)),
    )
