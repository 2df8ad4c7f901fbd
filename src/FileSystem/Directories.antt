-- ===== src/FileSystem/Directories.antt =====
-- `mkdirall` and `ls`, and what holds of every file system that a session can reach.
use pisshoff.Base.{
  Bytes, bytes, last-ne_nil, true, last, init, ◌≡◌, ◌≢◌, ◌↔◌, ◌⊎◌, refl, ap, arith, Result, ok, err,
  returns, Option, some, none, inl, inr, subst, Option-cases,
}
use pisshoff.Std.Paths.{
  components, join_path, is_absolute, components-absolute, is_absolute-join_path,
}
use pisshoff.FileSystem.Nodes.{
  Tree, directory, empty, walk, write_in, LsError, file_exists, not_directory, mkdirall_in,
}
use pisshoff.FileSystem.Entries.{IsSorted}
use pisshoff.FileSystem.Mkdirs.{
  mkdirall_in-file_exists, mkdirall_in-err, mkdirall_in-err_same, mkdirall_in-IsSorted,
  walk-mkdirall_in, walk-mkdirall_in_back, walk-mkdirall_in_self, mkdirall_in_idem,
}
use pisshoff.FileSystem.Walks.{write_in-IsSorted}
use pisshoff.FileSystem.Files.{canonical, write_eq, walk-read}
use pisshoff.FileSystem.{FileSystem, home_of, mkdirall, new, cd, read, write, written}

pub record IsValid (fs : FileSystem) : Type 0 where
  pub pwd_absolute : is_absolute fs.pwd ≡ true
  pub home_absolute : is_absolute fs.home ≡ true
  pub sorted : IsSorted fs.tree

mkdirall-IsValid : (path : Bytes) (fs : FileSystem) → IsValid fs → IsValid (mkdirall path fs).1
unfolding mkdirall
mkdirall-IsValid path fs v = record {
  pwd_absolute = v.pwd_absolute;
  home_absolute = v.home_absolute;
  sorted = mkdirall_in-IsSorted (components path) fs.tree v.sorted;
}

cd-IsValid : (v : Option Bytes) (fs : FileSystem) → IsValid fs → IsValid (cd v fs)
unfolding cd
cd-IsValid none fs h = ground arith
cd-IsValid (some v) fs h = ground (arith, is_absolute-join_path fs.pwd v)

home_of-absolute : (user : Bytes) → is_absolute (home_of user) ≡ true
unfolding home_of
home_of-absolute user = ground (arith, is_absolute-join_path (bytes "/home") user)

new-IsValid : (user : Bytes) → IsValid (new user)
unfolding new mkdirall
new-IsValid user = record {
  pwd_absolute = home_of-absolute user;
  home_absolute = home_of-absolute user;
  sorted = mkdirall_in-IsSorted (components (home_of user)) (directory empty) tt;
}

written-IsValid :
    (fs : FileSystem) (x : Result LsError Tree)
    → IsValid fs
    → ((t : Tree) → x ≡ ok t → IsSorted t)
    → IsValid (written fs x).1
unfolding written
written-IsValid fs (ok t) v s = record {
  pwd_absolute = v.pwd_absolute;
  home_absolute = v.home_absolute;
  sorted = s t refl;
}
written-IsValid fs (err e) v s = v

-- In a valid file system the unwrapped last component of `write` is there.
last-canonical : (path : Bytes) (fs : FileSystem) → IsValid fs → last (canonical path fs) ≢ none
last-canonical path fs v =
    last-ne_nil (canonical path fs) (
      components-absolute (join_path fs.pwd path)
        (is_absolute-join_path fs.pwd path v.pwd_absolute))

write-IsValid :
    (path content : Bytes) (fs fs' : FileSystem) (r : Result LsError (Unit {0}))
    → IsValid fs
    → write path content fs ≡ returns (r, fs')
    → IsValid fs'
write-IsValid path content fs fs' r v h = elim (Option-cases (last (canonical path fs))) [
  | inl nothing ↦ absurd (last-canonical path fs v nothing)
  | inr (name, e) ↦
      let cs = init (canonical path fs) in
      let x = write_in cs name content fs.tree in
      let same : (written fs x).1 ≡ fs' = ground (arith, write_eq path content name fs e) in
      subst IsValid same
        (written-IsValid fs x v (λ t w. write_in-IsSorted cs name content fs.tree t v.sorted w))
]

-- The calls that change a session's file system.
pub data Step : FileSystem → FileSystem → Type 0 where
  making : (path : Bytes) (fs : FileSystem) → Step fs (mkdirall path fs).1
  going : (v : Option Bytes) (fs : FileSystem) → Step fs (cd v fs)
  writing :
      (path content : Bytes) (fs fs' : FileSystem) (r : Result LsError (Unit {0}))
      → write path content fs ≡ returns (r, fs')
      → Step fs fs'

pub data Reach (user : Bytes) : FileSystem → Type 0 where
  start : Reach user (new user)
  next : {fs fs' : FileSystem} → Reach user fs → Step fs fs' → Reach user fs'

Step-IsValid : {fs fs' : FileSystem} → Step fs fs' → IsValid fs → IsValid fs'
Step-IsValid (making path fs) v = mkdirall-IsValid path fs v
Step-IsValid (going d fs) v = cd-IsValid d fs v
Step-IsValid (writing path content fs fs' r h) v = write-IsValid path content fs fs' r v h

-- Every file system that a user's session can reach is valid: its working directory and its home
-- are absolute paths, and the names of every directory ascend strictly.
pub Reach-IsValid : (user : Bytes) {fs : FileSystem} → Reach user fs → IsValid fs
Reach-IsValid user start = new-IsValid user
Reach-IsValid user (next r s) = Step-IsValid s (Reach-IsValid user r)

-- `mkdirall` is refused exactly where a proper part of the path leads to a file, and then it has
-- changed nothing; it is never refused for another reason.
pub mkdirall_refused :
    (user path : Bytes) (fs : FileSystem)
    → Reach user fs
    → (((mkdirall path fs).0 ≡ err file_exists)
        ↔ (walk (components path) fs.tree ≡ err not_directory))
      × ((e : LsError)
          → (mkdirall path fs).0 ≡ err e
          → (e ≡ file_exists) × ((mkdirall path fs).1 ≡ fs))
unfolding mkdirall
mkdirall_refused user path fs r = (
  mkdirall_in-err (components path) fs.tree,
  λ e h. (
    mkdirall_in-file_exists (components path) fs.tree e h,
    ap (λ (t : Tree). record fs { tree = t })
        (mkdirall_in-err_same (components path) fs.tree e (Reach-IsValid user r).sorted h),
  ),
)

-- `mkdirall` touches no file: a path reads the same content before and after.
pub read-mkdirall :
    (path other b : Bytes) (fs : FileSystem)
    → (read other fs ≡ ok b) ↔ (read other (mkdirall path fs).1 ≡ ok b)
unfolding mkdirall
read-mkdirall path other b fs =
    let cs = components path in
    let ds = canonical other fs in
    (
      λ r.
          (walk-read other b (mkdirall path fs).1).1
            (walk-mkdirall_in cs ds b fs.tree ((walk-read other b fs).0 r)),
      λ r.
          (walk-read other b fs).1
            (walk-mkdirall_in_back cs ds b fs.tree ((walk-read other b (mkdirall path fs).1).0 r)),
    )

-- After a `mkdirall` that is not refused, its path leads to what it led to before, or to an empty
-- directory; a second one succeeds too and changes nothing.
pub mkdirall_twice :
    (path : Bytes) (fs fs' : FileSystem)
    → mkdirall path fs ≡ (ok tt, fs')
    → (u : Tree) × (walk (components path) fs'.tree ≡ ok u)
      × ((walk (components path) fs.tree ≡ ok u) ⊎ (u ≡ directory empty))
      × (mkdirall path fs' ≡ (ok tt, fs'))
unfolding mkdirall
mkdirall_twice path fs fs' h =
    let cs = components path in
    let done : (mkdirall_in cs fs.tree).0 ≡ ok tt = ground arith in
    let same : fs' ≡ (mkdirall path fs).1 = ground arith in
    let (u, w, how) = walk-mkdirall_in_self cs fs.tree done in
    (u, rw same w, how, rw (same, mkdirall_in_idem) (ground arith))
