-- ===== src/FileSystem/Entries.antt =====
-- The laws of a directory's map, and the order of its names.
use Prim.Native.Nat.{Ordering}
use pisshoff.Base.{Bytes, some, beq, beq_iff, lex, if◌then◌else◌, [], ◌∷◌, ◌≡◌, refl, arith}
use pisshoff.FileSystem.Nodes.{Tree, directory, file, Entries, empty, entry, get, insert}

pub lex-eq : (a b : Bytes) → lex a b ≡ Ordering.eq → a ≡ b
lex-eq [] [] h = refl
lex-eq [] (y ∷ b) h = cc
lex-eq (x ∷ a) [] h = cc
lex-eq (x ∷ a) (y ∷ b) h = ground (arith, lex-eq a b)

pub lex_self : (a : Bytes) → lex a a ≡ Ordering.eq
lex_self [] = refl
lex_self (x ∷ a) = ground (arith, lex_self a)

pub lex-flip : (a b : Bytes) → lex a b ≡ Ordering.gt → lex b a ≡ Ordering.lt
lex-flip [] [] h = cc
lex-flip [] (y ∷ b) h = cc
lex-flip (x ∷ a) [] h = refl
lex-flip (x ∷ a) (y ∷ b) h = ground (arith, lex-flip a b)

pub lex_trans :
    (a b c : Bytes) → lex a b ≡ Ordering.lt → lex b c ≡ Ordering.lt → lex a c ≡ Ordering.lt
lex_trans [] [] c h k = cc
lex_trans a (y ∷ b) [] h k = cc
lex_trans [] (y ∷ b) (z ∷ c) h k = refl
lex_trans (x ∷ a) [] c h k = cc
lex_trans (x ∷ a) (y ∷ b) (z ∷ c) h k = ground (arith, lex_trans a b c)

-- A look-up after an insertion.
pub get-insert :
    (k j : Bytes) (t : Tree) (es : Entries)
    → get j (insert k t es) ≡ (if beq k j then some t else get j es)
get-insert k j t empty = refl
get-insert k j t (entry i u es) =
    ground (arith, get-insert k j t es, lex-eq k i, beq_iff k j, beq_iff i j, lex_self k)

-- The names of a directory, ascending.
abbrev pub Above : Bytes → Entries → Type 0
Above k empty = Unit
Above k (entry j t es) = (lex k j ≡ Ordering.lt) × Above k es

abbrev mutual
  pub IsSorted : Tree → Type 0
  IsSorted (directory es) = IsSortedEntries es
  IsSorted (file b) = Unit

  pub IsSortedEntries : Entries → Type 0
  IsSortedEntries empty = Unit
  IsSortedEntries (entry k t es) = IsSorted t × Above k es × IsSortedEntries es

Above-trans : (k j : Bytes) (es : Entries) → lex k j ≡ Ordering.lt → Above j es → Above k es
Above-trans k j empty h a = tt
Above-trans k j (entry i t es) h a = (lex_trans k j i h a.0, Above-trans k j es h a.1)

Above-insert :
    (i k : Bytes) (t : Tree) (es : Entries)
    → lex i k ≡ Ordering.lt
    → Above i es
    → Above i (insert k t es)
Above-insert i k t empty h a = (h, tt)
Above-insert i k t (entry j u es) h a = ground (arith, Above-insert i k t es h a.1)

-- A name that is there stands behind every name below it.
get-Above :
    (k j : Bytes) (es : Entries) (t : Tree) → Above j es → get k es ≡ some t → lex j k ≡ Ordering.lt
get-Above k j empty t a e = cc
get-Above k j (entry i u es) t a e = ground (arith, get-Above k j es t a.1, beq_iff i k)

lex-asym : (a b : Bytes) → lex a b ≡ Ordering.lt → lex b a ≡ Ordering.gt
lex-asym [] [] h = cc
lex-asym [] (y ∷ b) h = refl
lex-asym (x ∷ a) [] h = cc
lex-asym (x ∷ a) (y ∷ b) h = ground (arith, lex-asym a b)

pub insert-IsSortedEntries :
    (k : Bytes) (t : Tree) (es : Entries)
    → IsSorted t
    → IsSortedEntries es
    → IsSortedEntries (insert k t es)
insert-IsSortedEntries k t empty s h = (s, tt, tt)
insert-IsSortedEntries k t (entry j u es) s h = ground (
  arith,
  insert-IsSortedEntries k t es s h.2,
  lex-flip k j,
  lex-eq k j,
  Above-trans k j es,
  Above-insert j k t es,
)

pub get-IsSorted :
    (k : Bytes) (es : Entries) (t : Tree) → IsSortedEntries es → get k es ≡ some t → IsSorted t
get-IsSorted k empty t h e = cc
get-IsSorted k (entry j u es) t h e = ground (arith, get-IsSorted k es t h.2)

-- Writing back what is there changes nothing.
pub insert-get :
    (k : Bytes) (es : Entries) (t : Tree)
    → IsSortedEntries es
    → get k es ≡ some t
    → insert k t es ≡ es
insert-get k empty t h e = cc
insert-get k (entry j u es) t h e = ground (
  arith,
  insert-get k es t h.2,
  get-Above k j es t h.1,
  lex-asym j k,
  lex-eq k j,
  lex_self k,
  beq_iff j k,
)

-- Of two insertions at one name the second stands.
pub insert-insert :
    (k : Bytes) (t : Tree) (es : Entries) → insert k t (insert k t es) ≡ insert k t es
insert-insert k t empty = ground (arith, lex_self k)
insert-insert k t (entry j u es) = ground (arith, insert-insert k t es, lex_self k, lex-eq k j)
