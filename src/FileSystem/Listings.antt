-- ===== src/FileSystem/Listings.antt =====
-- What `ls` returns: the names of a directory, ascending, with all that was written there.
use Prim.Native.Nat.{Ordering}
use pisshoff.Base.{
  Bytes, Bool, true, false, ◌||◌, beq, lex, last, init, List, [], ◌∷◌, ◌++◌, ◌≡◌, ◌≢◌, ◌↔◌, refl,
  ap, arith, Result, ok, err, returns, some, none, Option, ◌∙◌, subst,
}
use pisshoff.Std.Paths.{components, join_path}
use pisshoff.FileSystem.Nodes.{
  Tree, directory, file, Entries, empty, entry, get, keys, walk, write_in, LsError,
}
use pisshoff.FileSystem.Entries.{IsSorted, IsSortedEntries, get-IsSorted}
use pisshoff.FileSystem.Walks.{walk-cons, walk-write_in}
use pisshoff.FileSystem.Files.{canonical, write-Wrote}
use pisshoff.FileSystem.Directories.{Reach, Reach-IsValid}
use pisshoff.FileSystem.{FileSystem, write, ls, listing}

-- Whether a name is among those that `ls` returns.
abbrev pub contains : Bytes → List Bytes → Bool
contains k [] = false
contains k (j ∷ ks) = beq j k || contains k ks

contains-keys : (k : Bytes) (es : Entries) → (contains k (keys es) ≡ true) ↔ (get k es ≢ none)
contains-keys k empty = ground arith
contains-keys k (entry j t es) = ground (arith, contains-keys k es)

-- What lies at the end of a path is an entry of a directory.
walk-init :
    (cs : List Bytes) (name : Bytes) (t : Tree) {b : Tree}
    → walk (cs ++ name ∷ []) t ≡ ok b
    → (es : Entries) × (walk cs t ≡ ok (directory es)) × (get name es ≢ none)
unfolding walk
walk-init [] name (directory d) h = (d, refl, λ e. cc)
walk-init [] name (file b) h = cc
walk-init (c ∷ cs) name (file b) h = cc
walk-init (c ∷ cs) name (directory d) h =
    let (u, found, w) = walk-cons c (cs ++ name ∷ []) d h in
    let (es, at, there) = walk-init cs name u w in (es, ground arith, there)

-- A successful write leads to a directory with an entry of that name.
write_in-directory :
    (cs : List Bytes) (name content : Bytes) (t t' : Tree)
    → write_in cs name content t ≡ ok t'
    → (es : Entries) × (walk cs t' ≡ ok (directory es)) × (get name es ≢ none)
write_in-directory cs name content t t' h =
    walk-init cs name t' (walk-write_in cs name content t t' h)

ls_at :
    (dir : Bytes) (fs : FileSystem) (es : Entries)
    → walk (canonical dir fs) fs.tree ≡ ok (directory es)
    → ls (some dir) fs ≡ ok (keys es)
unfolding ls
ls_at dir fs es h = rw h

-- After a successful `write`, `ls` of the directory that holds the path returns a list that has the
-- path's last component.
pub ls-write :
    (path content dir : Bytes) (fs fs' : FileSystem)
    → write path content fs ≡ returns (ok tt, fs')
    → canonical dir fs ≡ init (canonical path fs)
    → (name : Bytes) × (names : List Bytes) × (last (canonical path fs) ≡ some name)
      × (ls (some dir) fs' ≡ ok names)
      × (contains name names ≡ true)
ls-write path content dir fs fs' h same =
    let w = write-Wrote path content fs fs' h in
    let cs = init (canonical path fs) in
    let (es, at, there) = write_in-directory cs w.name content fs.tree fs'.tree w.tree in
    let here : canonical dir fs' ≡ cs = ap (λ p. components (join_path p dir)) w.pwd ∙ same in
    (w.name, keys es, w.is_last, ls_at dir fs' es (rw here at), (contains-keys w.name es).1 there)

-- Each name is less than the next, byte by byte.
abbrev pub Ascending : List Bytes → Type 0
Ascending [] = Unit
Ascending (k ∷ []) = Unit
Ascending (k ∷ j ∷ ks) = (lex k j ≡ Ordering.lt) × Ascending (j ∷ ks)

keys-Ascending : (es : Entries) → IsSortedEntries es → Ascending (keys es)
keys-Ascending empty s = tt
keys-Ascending (entry k t empty) s = tt
keys-Ascending (entry k t (entry j u es)) s = (s.1.0, keys-Ascending (entry j u es) s.2)

walk-IsSorted : (cs : List Bytes) (t u : Tree) → IsSorted t → walk cs t ≡ ok u → IsSorted u
unfolding walk
walk-IsSorted [] t u s h = ground arith
walk-IsSorted (c ∷ cs) (file b) u s h = cc
walk-IsSorted (c ∷ cs) (directory d) u s h =
    let (v, found, w) = walk-cons c cs d h in walk-IsSorted cs v u (get-IsSorted c d v s found) w

listing-Ascending :
    (shown : Bytes) (x : Result LsError Tree) (names : List Bytes)
    → ((t : Tree) → x ≡ ok t → IsSorted t)
    → listing shown x ≡ ok names
    → Ascending names
unfolding listing
listing-Ascending shown (ok (directory es)) names s h =
    let same : keys es ≡ names = ground arith in
    subst Ascending same (keys-Ascending es (s (directory es) refl))
listing-Ascending shown (ok (file b)) names s h =
    let same : shown ∷ [] ≡ names = ground arith in subst Ascending same tt
listing-Ascending shown (err e) names s h = cc

-- Whatever a session has done, `ls` of any path returns its names in strictly ascending order.
pub ls-Ascending :
    (user : Bytes) (dir : Option Bytes) (fs : FileSystem) (names : List Bytes)
    → Reach user fs
    → ls dir fs ≡ ok names
    → Ascending names
unfolding ls
ls-Ascending user none fs names r =
    let cs = components fs.pwd in
    listing-Ascending fs.pwd (walk cs fs.tree) names
      (λ t. walk-IsSorted cs fs.tree t (Reach-IsValid user r).sorted)
ls-Ascending user (some dir) fs names r =
    let cs = canonical dir fs in
    listing-Ascending dir (walk cs fs.tree) names
      (λ t. walk-IsSorted cs fs.tree t (Reach-IsValid user r).sorted)
