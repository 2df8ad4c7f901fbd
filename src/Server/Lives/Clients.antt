-- ===== src/Server/Lives/Clients.antt =====
-- The clients that are there: what `at` and `departed` leave.
use pisshoff.Base.{
  ℕ, ◌==◌, ◌<◌, false, List, [], ◌∷◌, Option, none, some, ◌≡◌, refl, sym, ap, arith, All,
  Bool-cases, Option-cases, inl, inr, subst,
}
use pisshoff.Session.{Session}
use pisshoff.Server.Channels.{Connection}
use pisshoff.Server.Lives.{Client, at, replaced, kept, departed}

abbrev pub numbers : List Client → List ℕ
numbers [] = []
numbers (x ∷ xs) = x.number ∷ numbers xs

-- Later connections have larger numbers and stand in front.
abbrev pub Descends : ℕ → List ℕ → Type 0
Descends n [] = Unit
Descends n (k ∷ ks) = (k < n) × Descends k ks

abbrev pub Differs : ℕ → ℕ → Type 0
Differs j k = (k == j) ≡ false

Descends-wider : (n k : ℕ) (ks : List ℕ) → k < n → Descends k ks → Descends n ks
Descends-wider n k [] h g = tt
Descends-wider n k (j ∷ ks) h (g, gs) = (omega arith, gs)

pub Descends-Differs : (n : ℕ) (ks : List ℕ) → Descends n ks → All (Differs n) ks
Descends-Differs n [] h = tt
Descends-Differs n (k ∷ ks) (h, hs) =
    (ground arith, Descends-Differs n ks (Descends-wider n k ks h hs))

abbrev Update : Type 0
Update = Connection → Session → Option (Connection × Session)

-- `f` has been applied to the client `k`.
pub data Updated (k : ℕ) (f : Update) : List Client → List Client → Type 0 where
  here :
      (x : Client) (xs : List Client) (c : Connection) (s : Session)
      → x.number ≡ k
      → f x.connection x.session ≡ some (c, s)
      → Updated k f (x ∷ xs) (record x { connection = c; session = s } ∷ xs)
  there :
      {xs ys : List Client} (x : Client)
      → Differs k x.number
      → Updated k f xs ys
      → Updated k f (x ∷ xs) (x ∷ ys)

abbrev OnSome : {A : Type 0} → (A → Type 0) → Option A → Type 0
OnSome P none = Unit
OnSome P (some a) = P a

module _ (k : ℕ) (f : Update) where
  kept-Updated :
      (x : Client) (xs : List Client) (r : Option (List Client))
      → Differs k x.number
      → OnSome (Updated k f xs) r
      → OnSome (Updated k f (x ∷ xs)) (kept x r)
  kept-Updated x xs none d u = tt
  kept-Updated x xs (some ys) d u = there x d u

  replaced-Updated :
      (x : Client) (xs : List Client) (r : Option (Connection × Session))
      → x.number ≡ k
      → f x.connection x.session ≡ r
      → OnSome (Updated k f (x ∷ xs)) (replaced x xs r)
  replaced-Updated x xs none e h = tt
  replaced-Updated x xs (some (c, s)) e h = here x xs c s e h

  at-OnSome : (xs : List Client) → OnSome (Updated k f xs) (at k f xs)
  at-OnSome [] = tt
  at-OnSome (x ∷ xs) = elim (Bool-cases (x.number == k)) [
    | inl e ↦ rw e (replaced-Updated x xs (f x.connection x.session) (ground arith) refl)
    | inr d ↦ rw d (kept-Updated x xs (at k f xs) d (at-OnSome xs))
  ]

  pub at-Updated : (xs ys : List Client) → at k f xs ≡ some ys → Updated k f xs ys
  at-Updated xs ys h = subst (OnSome (Updated k f xs)) h (at-OnSome xs)

  pub Updated-numbers : {xs ys : List Client} → Updated k f xs ys → numbers ys ≡ numbers xs
  Updated-numbers (here x xs c s e h) = refl
  Updated-numbers (there x d u) = ap (◌∷◌ x.number) (Updated-numbers u)

  pub Updated-Differs :
      (j : ℕ) {xs ys : List Client} → Updated k f xs ys → All (Differs j) (numbers xs) → Differs j k
  Updated-Differs j (here x xs c s e h) (g, gs) = ground arith
  Updated-Differs j (there x d u) (g, gs) = Updated-Differs j u gs

  pub Updated-lt :
      (n : ℕ) {xs ys : List Client} → Updated k f xs ys → Descends n (numbers xs) → k < n
  Updated-lt n (here x xs c s e h) (g, gs) = omega arith
  Updated-lt n (there x d u) (g, gs) = omega (arith, Updated-lt x.number u gs)

  others :
      (P Q : ℕ → Connection → Type 0)
      → ((j : ℕ) (c : Connection) → Differs k j → P j c → Q j c)
      → (xs : List Client) → All (Differs k) (numbers xs)
      → All (λ (x : Client). P x.number x.connection) xs
      → All (λ (x : Client). Q x.number x.connection) xs
  others P Q other [] d p = tt
  others P Q other (x ∷ xs) (d, ds) (p, ps) =
      (other x.number x.connection d p, others P Q other xs ds ps)

  -- What holds of the client changes with it, and what holds of the others with the numbers that are
  -- not its own.
  pub Updated-All :
      (P Q : ℕ → Connection → Type 0)
      → ((c c' : Connection) (s s' : Session) → f c s ≡ some (c', s') → P k c → Q k c')
      → ((j : ℕ) (c : Connection) → Differs k j → P j c → Q j c)
      → (n : ℕ) {xs ys : List Client} → Updated k f xs ys
      → Descends n (numbers xs)
      → All (λ (x : Client). P x.number x.connection) xs
      → All (λ (x : Client). Q x.number x.connection) ys
  Updated-All P Q same other n (here x xs c s e h) (g, gs) (p, ps) = (
    subst (λ i. Q i c) (sym e)
        (same x.connection c x.session s h (subst (λ i. P i x.connection) e p)),
    others P Q other xs
        (subst (λ i. All (Differs i) (numbers xs)) e (Descends-Differs x.number (numbers xs) gs))
        ps,
  )
  Updated-All P Q same other n (there x d u) (g, gs) (p, ps) =
      (other x.number x.connection d p, Updated-All P Q same other x.number u gs ps)

-- The client `k` has left.
pub data Departed (k : ℕ) (x : Client) : List Client → List Client → Type 0 where
  first : (xs : List Client) → x.number ≡ k → Departed k x (x ∷ xs) xs
  later :
      {xs ys : List Client} (y : Client)
      → Differs k y.number
      → Departed k x xs ys
      → Departed k x (y ∷ xs) (y ∷ ys)

OnDeparture : ℕ → List Client → Option (Client × List Client) → Type 0
OnDeparture k xs none = Unit
OnDeparture k xs (some (x, ys)) = Departed k x xs ys

departed-OnDeparture : (k : ℕ) (xs : List Client) → OnDeparture k xs (departed k xs)
unfolding OnDeparture
departed-OnDeparture k [] = tt
departed-OnDeparture k (x ∷ xs) = elim (Bool-cases (x.number == k)) [
  | inl e ↦ rw e (first xs (ground arith))
  | inr d ↦ elim (Option-cases (departed k xs)) [
    | inl nobody ↦ rw (d, nobody) tt
    | inr ((y, ys), e) ↦
        rw (d, e) (later x d (subst (OnDeparture k xs) e (departed-OnDeparture k xs)))
  ]
]

pub departed-Departed :
    (k : ℕ) (x : Client) (xs ys : List Client) → departed k xs ≡ some (x, ys) → Departed k x xs ys
unfolding OnDeparture
departed-Departed k x xs ys h = subst (OnDeparture k xs) h (departed-OnDeparture k xs)

module _ {k : ℕ} {x : Client} where
  pub Departed-number : {xs ys : List Client} → Departed k x xs ys → x.number ≡ k
  Departed-number (first xs e) = e
  Departed-number (later y d g) = Departed-number g

  pub Departed-All :
      (P : Client → Type 0) {xs ys : List Client} → Departed k x xs ys → All P xs → P x × All P ys
  Departed-All P (first xs e) (p, ps) = (p, ps)
  Departed-All P (later y d g) (p, ps) = let (q, qs) = Departed-All P g ps in (q, (p, qs))

  pub Departed-numbers :
      (P : ℕ → Type 0) {xs ys : List Client}
      → Departed k x xs ys
      → All P (numbers xs)
      → P x.number × All P (numbers ys)
  Departed-numbers P (first xs e) (p, ps) = (p, ps)
  Departed-numbers P (later y d g) (p, ps) = let (q, qs) = Departed-numbers P g ps in (q, (p, qs))

  pub Departed-Descends :
      (n : ℕ) {xs ys : List Client}
      → Departed k x xs ys
      → Descends n (numbers xs)
      → (k < n) × Descends n (numbers ys)
  Departed-Descends n (first xs e) (h, hs) =
      (omega arith, Descends-wider n x.number (numbers xs) h hs)
  Departed-Descends n (later y d g) (h, hs) =
      let (less, rest) = Departed-Descends y.number g hs in (omega arith, (h, rest))

  -- Nobody else has the number.
  pub Departed-Differs :
      (n : ℕ) {xs ys : List Client}
      → Departed k x xs ys
      → Descends n (numbers xs)
      → All (Differs k) (numbers ys)
  Departed-Differs n (first xs e) (h, hs) =
      subst (λ i. All (Differs i) (numbers xs)) e (Descends-Differs x.number (numbers xs) hs)
  Departed-Differs n (later y d g) (h, hs) = (d, Departed-Differs y.number g hs)
