-- ===== src/Shell/Iter/Words.antt =====
-- How the parts of a line become words.
use pisshoff.Base.{
  ℕ, zero, suc, ◌≤◌, List, [], ◌∷◌, ◌++◌, none, some, Bytes, ◌≡◌, ◌≢◌, refl, ap, arith, last, init,
  append_assoc, Option-cases, inl, inr,
}
use pisshoff.Command.Concrete.{PartialCommand}
use pisshoff.Shell.Parts.{RedirectionTo, break, string, redirection, Parts, nil, cons, append}
use pisshoff.Shell.Iter.{Env, Built, fresh, on_break, store, redirect, partial}
use pisshoff.Shell.Iter.Meaning.{meaning, meaning-append}

pub last-concat : {A : Type 0} (xs : List A) (x : A) → last (xs ++ x ∷ []) ≡ some x
last-concat [] x = refl
last-concat (y ∷ []) x = refl
last-concat (y ∷ z ∷ xs) x = last-concat (z ∷ xs) x

pub init-concat : {A : Type 0} (xs : List A) (x : A) → init (xs ++ x ∷ []) ≡ xs
init-concat [] x = refl
init-concat (y ∷ []) x = refl
init-concat (y ∷ z ∷ xs) x = ap (◌∷◌ y) (init-concat (z ∷ xs) x)

on_break-nonempty :
    (b : Built) → last b.params ≢ some [] → (on_break b).params ≡ b.params ++ [] ∷ []
unfolding on_break
on_break-nonempty b h = elim (Option-cases (last b.params)) [
  | inl nothing ↦ rw (nothing, on_break) refl
  | inr (p, e) ↦ nonempty_case p e
]
  where
    nonempty_case : (p : Bytes) → last b.params ≡ some p → (on_break b).params ≡ b.params ++ [] ∷ []
    nonempty_case [] e = absurd (h e)
    nonempty_case (c ∷ p) e = rw (e, on_break) refl

-- A line that ends in a break, as one with its newline does, has an empty parameter at its end,
-- unless the line without the break ends in an empty parameter already.
meaning-trailing_break :
    (env : Env) (answer : PartialCommand → Bytes) (ps : Parts)
    → last (meaning env answer ps fresh).params ≢ some []
    → (meaning env answer (append ps (cons break nil)) fresh).params
      ≡ (meaning env answer ps fresh).params ++ [] ∷ []
meaning-trailing_break env answer ps h =
    rw meaning-append (unfold meaning in on_break-nonempty (meaning env answer ps fresh) h)

store_twice : (s t : Bytes) (b : Built) → b.exec ≢ none → store t (store s b) ≡ store (s ++ t) b
unfolding store
store_twice s t b h = elim (Option-cases b.exec) [
  | inl nothing ↦ absurd (h nothing)
  | inr (name, e) ↦ elim (Option-cases (last b.params)) [
    | inl none_yet ↦
        rw (e, none_yet, store) (ground (arith, last-concat b.params s, init-concat b.params s))
    | inr (p, e') ↦ ground (
      arith,
      last-concat (init b.params) (p ++ s),
      init-concat (init b.params) (p ++ s),
      append_assoc p s t,
    )
  ]
]

-- Once a line has the name of its command, two texts with no break between them are one word of it,
-- however the parts before them came about.
meaning-adjacent :
    (env : Env) (answer : PartialCommand → Bytes) (ps : Parts) (s t : Bytes)
    → (meaning env answer ps fresh).exec ≢ none
    → meaning env answer (append ps (cons (string s) (cons (string t) nil))) fresh
      ≡ meaning env answer (append ps (cons (string (s ++ t)) nil)) fresh
meaning-adjacent env answer ps s t h =
    rw (meaning-append, meaning-append)
      (unfold meaning in store_twice s t (meaning env answer ps fresh) h)

-- In the name of a command they are not: of two texts at the beginning of a line with no break
-- between them, the first is the name and the second begins the first parameter, where what follows
-- goes on.
meaning-split_name :
    (env : Env) (answer : PartialCommand → Bytes) (s t u : Bytes)
    → partial (meaning env answer (cons (string s) (cons (string t) (cons (string u) nil))) fresh)
      ≡ record { exec = some s; params = (t ++ u) ∷ [] }
unfolding meaning store
meaning-split_name env answer s t u = refl

-- A redirection of descriptor 2, which is stderr, or of one above it is dropped: only 0 and 1 have a
-- place, and 0 is taken for stdout.
meaning-redirection :
    (env : Env) (answer : PartialCommand → Bytes) (n : ℕ) (target : RedirectionTo) (ps : Parts)
    → 2 ≤ n
    → meaning env answer (append ps (cons (redirection n target) nil)) fresh
      ≡ meaning env answer ps fresh
meaning-redirection env answer zero target ps h = absurd (omega arith)
meaning-redirection env answer (suc zero) target ps h = absurd (omega arith)
meaning-redirection env answer (suc (suc n)) target ps h =
    rw meaning-append (unfold meaning redirect in refl)
