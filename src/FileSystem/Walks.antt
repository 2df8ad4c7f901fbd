-- ===== src/FileSystem/Walks.antt =====
-- How the loops of file_system.rs change what a path leads to.
use pisshoff.Base.{Bytes, beq_iff, some, List, [], ◌∷◌, ◌++◌, ◌≡◌, ◌≢◌, arith, ok}
use pisshoff.FileSystem.Nodes.{Tree, directory, file, Entries, get, insert, walk, write_in}
use pisshoff.FileSystem.Entries.{get-insert, IsSorted, insert-IsSortedEntries, get-IsSorted}

pub walk-cons :
    (c : Bytes) (cs : List Bytes) (d : Entries) {t : Tree}
    → walk (c ∷ cs) (directory d) ≡ ok t
    → (u : Tree) × (get c d ≡ some u) × (walk cs u ≡ ok t)
unfolding walk
walk-cons c cs d h = ground arith

write_in-cons :
    (c : Bytes) (cs : List Bytes) (name content : Bytes) (d : Entries) {t' : Tree}
    → write_in (c ∷ cs) name content (directory d) ≡ ok t'
    → (u : Tree) × (u' : Tree) × (get c d ≡ some u)
      × (write_in cs name content u ≡ ok u')
      × (t' ≡ directory (insert c u' d))
unfolding write_in
write_in-cons c cs name content d h = ground arith

-- The written file is there.
pub walk-write_in :
    (cs : List Bytes) (name content : Bytes) (t t' : Tree)
    → write_in cs name content t ≡ ok t'
    → walk (cs ++ name ∷ []) t' ≡ ok (file content)
unfolding walk write_in
walk-write_in [] name content (directory d) t' h =
    ground (arith, get-insert name name (file content) d, beq_iff name name)
walk-write_in [] name content (file b) t' h = cc
walk-write_in (c ∷ cs) name content (file b) t' h = cc
walk-write_in (c ∷ cs) name content (directory d) t' h =
    let (u, u', found, wrote, e) = write_in-cons c cs name content d h in
    ground (arith, walk-write_in cs name content u u' wrote, get-insert c c u' d, beq_iff c c)

-- Every other file stays.
pub walk-write_in_ne :
    (cs ds : List Bytes) (name content b : Bytes) (t t' : Tree)
    → write_in cs name content t ≡ ok t'
    → ds ≢ cs ++ name ∷ []
    → walk ds t ≡ ok (file b)
    → walk ds t' ≡ ok (file b)
unfolding walk write_in
walk-write_in_ne [] [] name content b (directory d) t' h ne w = cc
walk-write_in_ne [] (k ∷ ks) name content b (directory d) t' h ne w =
    ground (arith, get-insert name k (file content) d, beq_iff name k)
walk-write_in_ne [] ds name content b (file c) t' h ne w = cc
walk-write_in_ne (c ∷ cs) ds name content b (file _) t' h ne w = cc
walk-write_in_ne (c ∷ cs) [] name content b (directory d) t' h ne w = cc
walk-write_in_ne (c ∷ cs) (k ∷ ks) name content b (directory d) t' h ne w =
    let (u, u', found, wrote, e) = write_in-cons c cs name content d h in
    let (v, found', w') = walk-cons k ks d w in
    ground
      (arith, walk-write_in_ne cs ks name content b u u' wrote, get-insert c k u' d, beq_iff c k)

-- Nothing lies below a file, or below what is not there.
walk-file :
    (ks : List Bytes) (b b' : Bytes) → walk ks (file b) ≡ ok (file b') → (ks ≡ []) × (b ≡ b')
unfolding walk
walk-file [] b b' h = ground arith
walk-file (k ∷ ks) b b' h = cc

-- No other file appears.
pub walk-write_in_back :
    (cs ds : List Bytes) (name content b : Bytes) (t t' : Tree)
    → write_in cs name content t ≡ ok t'
    → ds ≢ cs ++ name ∷ []
    → walk ds t' ≡ ok (file b)
    → walk ds t ≡ ok (file b)
unfolding walk write_in
walk-write_in_back [] [] name content b (directory d) t' h ne w = ground arith
walk-write_in_back [] (k ∷ ks) name content b (directory d) t' h ne w =
    ground (arith, get-insert name k (file content) d, beq_iff name k, walk-file ks content b)
walk-write_in_back [] ds name content b (file c) t' h ne w = cc
walk-write_in_back (c ∷ cs) ds name content b (file _) t' h ne w = cc
walk-write_in_back (c ∷ cs) [] name content b (directory d) t' h ne w =
    let (u, u', found, wrote, e) = write_in-cons c cs name content d h in cc
walk-write_in_back (c ∷ cs) (k ∷ ks) name content b (directory d) t' h ne w =
    let (u, u', found, wrote, e) = write_in-cons c cs name content d h in
    let (v, found', w') = walk-cons k ks (insert c u' d) (rw e at w) in
    ground
      (arith, walk-write_in_back cs ks name content b u u' wrote, get-insert c k u' d, beq_iff c k)

-- The names of every directory stay in order.
pub write_in-IsSorted :
    (cs : List Bytes) (name content : Bytes) (t t' : Tree)
    → IsSorted t
    → write_in cs name content t ≡ ok t'
    → IsSorted t'
unfolding write_in
write_in-IsSorted [] name content (directory d) t' s h =
    ground (arith, insert-IsSortedEntries name (file content) d tt s)
write_in-IsSorted [] name content (file b) t' s h = cc
write_in-IsSorted (c ∷ cs) name content (file b) t' s h = cc
write_in-IsSorted (c ∷ cs) name content (directory d) t' s h =
    let (u, u', found, wrote, e) = write_in-cons c cs name content d h in
    rw e (
      insert-IsSortedEntries c u' d
        (write_in-IsSorted cs name content u u' (get-IsSorted c d u s found) wrote) s)
