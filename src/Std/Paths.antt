-- ===== src/Std/Paths.antt =====
-- `std::path` on Unix: a path is its bytes, and is read through its components.
use mathlib.Core.List.{reverse}
use pisshoff.Base.{
  refl, drop, join, ℕ, Bool, true, false, ◌≡◌, ◌≢◌, arith, ◌||◌, List, [], ◌∷◌, ◌++◌, Option, none,
  some, Bytes, bytes, beq, is_empty, last, init, last-ne_none, ◌==◌, if◌then◌else◌,
}

-- `slice::split`: the pieces between the separators, at least one.
abbrev pub split : ℕ → Bytes → List Bytes
split sep [] = [] ∷ []
split sep (c ∷ s) =
    let rest = split sep s in
    if c == sep
    then [] ∷ rest
    else elim rest [ [] ↦ (c ∷ []) ∷ [] | piece ∷ pieces ↦ (c ∷ piece) ∷ pieces ]

-- What is neither empty nor `.` is a component of its own.
abbrev pub normal : List Bytes → List Bytes
normal [] = []
normal (p ∷ ps) = let rest = normal ps in if is_empty p || beq p (bytes ".") then rest else p ∷ rest

abbrev pub is_absolute : Bytes → Bool
is_absolute [] = false
is_absolute (c ∷ s) = c == b'/'

-- A relative path keeps a leading `.`.
abbrev relative : List Bytes → List Bytes
relative [] = []
relative (p ∷ ps) = if beq p (bytes ".") then p ∷ normal ps else normal (p ∷ ps)

abbrev first_piece : List Bytes → Bytes
first_piece [] = []
first_piece (p ∷ ps) = p

-- `Path::iter`, where the root is a component `/`.
unfoldable pub components : Bytes → List Bytes
components p =
    let pieces = split b'/' p in
    if is_absolute p then bytes "/" ∷ normal pieces else relative pieces

-- `Path::join` and `PathBuf::push`: an absolute path replaces the whole.
unfoldable pub join_path : Bytes → Bytes → Bytes
join_path p q =
    if is_absolute q
    then q
    else elim (last p) [ none ↦ q | some c ↦ if c == b'/' then p ++ q else p ++ b'/' ∷ q ]

-- The components of `Path::parent`: there is none above the root or an empty path. The root is a
-- component only in front of all others.
unfoldable pub parent : List Bytes → Option (List Bytes)
parent [] = none
parent (c ∷ []) = if beq c (bytes "/") then none else some []
parent (c ∷ d ∷ cs) = some (init (c ∷ d ∷ cs))

-- Pieces that are no component, in front.
drop_null : List Bytes → List Bytes
drop_null [] = []
drop_null (p ∷ ps) =
    let rest = drop_null ps in if is_empty p || beq p (bytes ".") then rest else p ∷ ps

-- The bytes of the parent of a path whose body comes after `front`; a path with no component but
-- its front has the parent `bare`.
parent_in : Bytes → Option Bytes → List Bytes → Option Bytes
unfolding drop_null
parent_in front bare [] = bare
parent_in front bare (c ∷ cs) = some (front ++ join (bytes "/") (reverse (drop_null cs)))

parent_bytes : Bytes → Option Bytes
unfolding parent_in drop_null
parent_bytes p =
    let body = λ (s : Bytes). drop_null (reverse (split b'/' s)) in
    if is_absolute p
    then parent_in (bytes "/") none (body (drop 1 p))
    else if beq (first_piece (split b'/' p)) (bytes ".")
    then parent_in (bytes ".") (some []) (body (drop 1 p))
    else parent_in [] none (body p)

-- `PathBuf::pop`
unfoldable pub pop : Bytes → Bytes
unfolding parent_bytes
pop p = elim (parent_bytes p) [ none ↦ p | some q ↦ q ]

pop_tests :
    (pop (bytes "/a//b/./") ≡ bytes "/a")
    × (pop (bytes "//a") ≡ bytes "/")
    × (pop (bytes "/") ≡ bytes "/")
    × (pop (bytes "a") ≡ bytes "")
    × (pop (bytes "./a") ≡ bytes ".")
    × (pop (bytes ".") ≡ bytes "")
    × (pop (bytes "a/./b") ≡ bytes "a")
    × (pop (bytes "") ≡ bytes "")
unfolding pop
pop_tests = (refl, refl, refl, refl, refl, refl, refl, refl)

pub components-absolute : (p : Bytes) → is_absolute p ≡ true → components p ≢ []
unfolding components
components-absolute p h = ground arith

pub is_absolute-join_path :
    (p q : Bytes) → is_absolute p ≡ true → is_absolute (join_path p q) ≡ true
unfolding join_path
is_absolute-join_path [] q h = cc
is_absolute-join_path (c ∷ p) q h = ground (arith, last-ne_none c p)
