-- ===== src/FileSystem/Mkdirs.antt =====
-- How the loop of `mkdirall` changes what a path leads to.
use pisshoff.Base.{
  Bytes, beq_iff, some, List, [], ◌∷◌, ◌≡◌, ◌≢◌, refl, arith, ok, err, Option-cases, inl, inr, none,
  ◌↔◌, ◌⊎◌,
}
use pisshoff.FileSystem.Nodes.{
  Tree, directory, file, Entries, empty, get, insert, walk, mkdirall_in, LsError, file_exists,
  not_directory,
}
use pisshoff.FileSystem.Entries.{
  get-insert, insert-insert, insert-get, IsSorted, IsSortedEntries, insert-IsSortedEntries,
  get-IsSorted,
}
use pisshoff.FileSystem.Walks.{walk-cons}

walk-nothing : (ks : List Bytes) → walk ks (directory empty) ≢ err not_directory
unfolding walk
walk-nothing [] = cc
walk-nothing (k ∷ ks) = cc

-- The child that `mkdirall` goes on in.
abbrev pub child : Bytes → Entries → Tree
child c d = elim (get c d) [ none ↦ directory empty | some t ↦ t ]

walk-empty : (ks : List Bytes) (b : Bytes) → walk ks (directory empty) ≢ ok (file b)
unfolding walk
walk-empty [] b = cc
walk-empty (k ∷ ks) b = cc

pub walk-mkdirall_in :
    (cs ds : List Bytes) (b : Bytes) (t : Tree)
    → walk ds t ≡ ok (file b)
    → walk ds (mkdirall_in cs t).1 ≡ ok (file b)
unfolding walk mkdirall_in
walk-mkdirall_in [] ds b t w = w
walk-mkdirall_in (c ∷ cs) ds b (file _) w = w
walk-mkdirall_in (c ∷ cs) [] b (directory d) w = cc
walk-mkdirall_in (c ∷ cs) (k ∷ ks) b (directory d) w =
    let (v, found, w') = walk-cons k ks d w in
    ground (
      arith,
      walk-mkdirall_in cs ks b v w',
      get-insert c k (mkdirall_in cs (child c d)).1 d,
      beq_iff c k,
    )

pub walk-mkdirall_in_back :
    (cs ds : List Bytes) (b : Bytes) (t : Tree)
    → walk ds (mkdirall_in cs t).1 ≡ ok (file b)
    → walk ds t ≡ ok (file b)
unfolding walk mkdirall_in
walk-mkdirall_in_back [] ds b t w = w
walk-mkdirall_in_back (c ∷ cs) ds b (file _) w = w
walk-mkdirall_in_back (c ∷ cs) [] b (directory d) w = cc
walk-mkdirall_in_back (c ∷ cs) (k ∷ ks) b (directory d) w =
    let (v, found, w') = walk-cons k ks (insert c (mkdirall_in cs (child c d)).1 d) w in
    ground (
      arith,
      walk-mkdirall_in_back cs ks b (child c d),
      get-insert c k (mkdirall_in cs (child c d)).1 d,
      beq_iff c k,
      walk-empty ks b,
    )

walk-empty_ok :
    (ks : List Bytes) (u : Tree) → walk ks (directory empty) ≡ ok u → u ≡ directory empty
unfolding walk
walk-empty_ok [] u h = ground arith
walk-empty_ok (k ∷ ks) u h = cc

mkdirall_in-empty : (cs : List Bytes) → (mkdirall_in cs (directory empty)).0 ≡ ok tt
unfolding mkdirall_in
mkdirall_in-empty [] = refl
mkdirall_in-empty (c ∷ cs) = mkdirall_in-empty cs

child-IsSorted : (c : Bytes) (d : Entries) → IsSortedEntries d → IsSorted (child c d)
child-IsSorted c d s = elim (Option-cases (get c d)) [
  | inl nothing ↦ rw (nothing, child) tt
  | inr (u, found) ↦ rw (found, child) (get-IsSorted c d u s found)
]

-- `mkdirall` is refused exactly where a file stands on the way.
pub mkdirall_in-err :
    (cs : List Bytes) (t : Tree)
    → ((mkdirall_in cs t).0 ≡ err file_exists) ↔ (walk cs t ≡ err not_directory)
unfolding walk mkdirall_in
mkdirall_in-err [] t = ground arith
mkdirall_in-err (c ∷ cs) (file b) = ground arith
mkdirall_in-err (c ∷ cs) (directory d) =
    ground (arith, mkdirall_in-err cs (child c d), walk-nothing cs)

-- Where it is not refused, the path leads to a directory, or to what it led to before.
pub walk-mkdirall_in_self :
    (cs : List Bytes) (t : Tree)
    → (mkdirall_in cs t).0 ≡ ok tt
    → (u : Tree) × (walk cs (mkdirall_in cs t).1 ≡ ok u)
      × ((walk cs t ≡ ok u) ⊎ (u ≡ directory empty))
unfolding walk mkdirall_in
walk-mkdirall_in_self [] t h = (t, refl, inl refl)
walk-mkdirall_in_self (c ∷ cs) (file b) h = cc
walk-mkdirall_in_self (c ∷ cs) (directory d) h =
    let (u, w, how) = walk-mkdirall_in_self cs (child c d) h in
    (
      u,
      ground (arith, get-insert c c (mkdirall_in cs (child c d)).1 d, beq_iff c c),
      ground (arith, walk-empty_ok cs u),
    )

-- A second `mkdirall` of the same path changes nothing more.
pub mkdirall_in_idem :
    (cs : List Bytes) (t : Tree) → mkdirall_in cs (mkdirall_in cs t).1 ≡ mkdirall_in cs t
unfolding mkdirall_in
mkdirall_in_idem [] t = refl
mkdirall_in_idem (c ∷ cs) (file b) = refl
mkdirall_in_idem (c ∷ cs) (directory d) = ground (
  arith,
  mkdirall_in_idem cs (child c d),
  get-insert c c (mkdirall_in cs (child c d)).1 d,
  beq_iff c c,
  insert-insert c (mkdirall_in cs (child c d)).1 d,
)

-- Every loop keeps the names of every directory ascending.
pub mkdirall_in-IsSorted : (cs : List Bytes) (t : Tree) → IsSorted t → IsSorted (mkdirall_in cs t).1
unfolding mkdirall_in
mkdirall_in-IsSorted [] t s = s
mkdirall_in-IsSorted (c ∷ cs) (file b) s = s
mkdirall_in-IsSorted (c ∷ cs) (directory d) s =
    insert-IsSortedEntries c (mkdirall_in cs (child c d)).1 d
      (mkdirall_in-IsSorted cs (child c d) (child-IsSorted c d s)) s

-- A refused `mkdirall` has changed nothing.
pub mkdirall_in-err_same :
    (cs : List Bytes) (t : Tree) (e : LsError)
    → IsSorted t
    → (mkdirall_in cs t).0 ≡ err e
    → (mkdirall_in cs t).1 ≡ t
unfolding mkdirall_in
mkdirall_in-err_same [] t e s h = cc
mkdirall_in-err_same (c ∷ cs) (file b) e s h = refl
mkdirall_in-err_same (c ∷ cs) (directory d) e s h = elim (Option-cases (get c d)) [
  | inl nothing ↦ ground (arith, mkdirall_in-empty cs)
  | inr (u, found) ↦
      ground
        (arith, mkdirall_in-err_same cs u e (get-IsSorted c d u s found), insert-get c d u s found)
]

-- It has no other error.
pub mkdirall_in-file_exists :
    (cs : List Bytes) (t : Tree) (e : LsError) → (mkdirall_in cs t).0 ≡ err e → e ≡ file_exists
unfolding mkdirall_in
mkdirall_in-file_exists [] t e h = cc
mkdirall_in-file_exists (c ∷ cs) (file b) e h = cc
mkdirall_in-file_exists (c ∷ cs) (directory d) e h = mkdirall_in-file_exists cs (child c d) e h
