-- ===== src/Base/Lists.antt =====
-- Lists measured by native numbers, under the library's names.
use Prim.Native.Nat.{ℕ, zero, suc, ◌+◌}
use mathlib.Core.Path.{◌≡◌, refl, sym, ap, subst}
use mathlib.Core.Logic.{◌≢◌}
use mathlib.Core.Bool.{Bool, true, false}
use mathlib.Core.List.{List, [], ◌∷◌, ◌++◌, Permᴰ}
use mathlib.Core.Option.{Option, none, some}
use native.Mathlib.Omega.{arith}

module _ {ℓ} {A : Type ℓ} where
  abbrev pub length : List A → ℕ
  length [] = 0
  length (x ∷ xs) = suc (length xs)

  abbrev pub is_empty : List A → Bool
  is_empty [] = true
  is_empty (x ∷ xs) = false

  abbrev pub take : ℕ → List A → List A
  take zero xs = []
  take (suc n) [] = []
  take (suc n) (x ∷ xs) = x ∷ take n xs

  abbrev pub drop : ℕ → List A → List A
  drop zero xs = xs
  drop (suc n) [] = []
  drop (suc n) (x ∷ xs) = drop n xs

  abbrev pub first : List A → Option A
  first [] = none
  first (x ∷ xs) = some x

  abbrev pub last : List A → Option A
  last [] = none
  last (x ∷ []) = some x
  last (x ∷ y ∷ xs) = last (y ∷ xs)

  -- All but the last element.
  abbrev pub init : List A → List A
  init [] = []
  init (x ∷ []) = []
  init (x ∷ y ∷ xs) = x ∷ init (y ∷ xs)

  abbrev pub get_elem? : List A → ℕ → Option A
  get_elem? [] i = none
  get_elem? (x ∷ xs) zero = some x
  get_elem? (x ∷ xs) (suc i) = get_elem? xs i

  -- What stands there stays where something is added behind it.
  pub get_elem?-append :
      (xs ys : List A) (i : ℕ) (a : A) → get_elem? xs i ≡ some a → get_elem? (xs ++ ys) i ≡ some a
  get_elem?-append [] ys i a h = cc
  get_elem?-append (x ∷ xs) ys zero a h = h
  get_elem?-append (x ∷ xs) ys (suc i) a h = get_elem?-append xs ys i a h

  pub get_elem?-behind : (xs ys : List A) (a : A) → get_elem? (xs ++ a ∷ ys) (length xs) ≡ some a
  get_elem?-behind [] ys a = refl
  get_elem?-behind (x ∷ xs) ys a = get_elem?-behind xs ys a

  pub length-append : (xs ys : List A) → length (xs ++ ys) ≡ length xs + length ys
  length-append [] ys = omega arith
  length-append (x ∷ xs) ys = omega (arith, length-append xs ys)

  pub take-append-drop : (n : ℕ) (xs : List A) → take n xs ++ drop n xs ≡ xs
  take-append-drop zero xs = refl
  take-append-drop (suc n) [] = refl
  take-append-drop (suc n) (x ∷ xs) = ap (◌∷◌ x) (take-append-drop n xs)

  -- A list with a last element is its initial part and that element.
  pub init-last : (xs : List A) {y : A} → last xs ≡ some y → init xs ++ y ∷ [] ≡ xs
  init-last [] h = cc
  init-last (x ∷ []) h = cc
  init-last (x ∷ z ∷ xs) h = ap (◌∷◌ x) (init-last (z ∷ xs) h)

  pub last-ne_none : (x : A) (xs : List A) → last (x ∷ xs) ≢ none
  last-ne_none x [] h = cc
  last-ne_none x (y ∷ xs) h = last-ne_none y xs h

  pub last-ne_nil : (xs : List A) → xs ≢ [] → last xs ≢ none
  last-ne_nil [] h e = h refl
  last-ne_nil (x ∷ xs) h e = last-ne_none x xs e

-- Every element satisfies `P`.
abbrev pub All {ℓ κ} : {A : Type ℓ} → (A → Type κ) → List A → Type κ
All P [] = Unit
All P (x ∷ xs) = P x × All P xs

pub All-map {ℓ κ} :
    {A : Type ℓ} (P Q : A → Type κ) → ((a : A) → P a → Q a) → (xs : List A) → All P xs → All Q xs
All-map P Q f [] h = tt
All-map P Q f (x ∷ xs) (h, hs) = (f x h, All-map P Q f xs hs)

pub All-append {ℓ κ} :
    {A : Type ℓ} (P : A → Type κ) (xs ys : List A) → All P xs → All P ys → All P (xs ++ ys)
All-append P [] ys h k = k
All-append P (x ∷ xs) ys (h, hs) k = (h, All-append P xs ys hs k)

pub All-behind {ℓ κ} : {A : Type ℓ} (P : A → Type κ) (xs ys : List A) → All P (xs ++ ys) → All P ys
All-behind P [] ys h = h
All-behind P (x ∷ xs) ys (h, hs) = All-behind P xs ys hs

pub All-Permᴰ {ℓ κ} :
    {A : Type ℓ} (P : A → Type κ) {xs ys : List A} → Permᴰ xs ys → All P xs → All P ys
All-Permᴰ P Permᴰ.nil h = h
All-Permᴰ P (Permᴰ.cons e d) (h, hs) = (subst P e h, All-Permᴰ P d hs)
All-Permᴰ P (Permᴰ.swap e e') (h, (k, hs)) = (subst P e' k, (subst P e h, hs))
All-Permᴰ P (Permᴰ.trans d d') h = All-Permᴰ P d' (All-Permᴰ P d h)

-- Two lists of one length whose elements are related, each with the one in its place.
abbrev pub Pairs {ℓ κ} : {A : Type ℓ} {B : Type κ} → (A → B → Type 0) → List A → List B → Type 0
Pairs R [] [] = Unit
Pairs R (x ∷ xs) (y ∷ ys) = R x y × Pairs R xs ys
Pairs R [] (y ∷ ys) = ⊥
Pairs R (x ∷ xs) [] = ⊥

pub Pairs-map {ℓ κ} :
    {A : Type ℓ} {B : Type κ} (P : A → Type 0) (R S : A → B → Type 0)
    → ((a : A) (b : B) → P a → R a b → S a b)
    → (xs : List A) (ys : List B) → All P xs
    → Pairs R xs ys
    → Pairs S xs ys
Pairs-map P R S f [] [] h k = tt
Pairs-map P R S f (x ∷ xs) (y ∷ ys) (h, hs) (k, ks) = (f x y h k, Pairs-map P R S f xs ys hs ks)
Pairs-map P R S f [] (y ∷ ys) h k = k
Pairs-map P R S f (x ∷ xs) [] h k = k

pub Pairs-append {ℓ κ} :
    {A : Type ℓ} {B : Type κ} (R : A → B → Type 0) (xs : List A) (ys : List B) (x : A) (y : B)
    → Pairs R xs ys
    → R x y
    → Pairs R (xs ++ x ∷ []) (ys ++ y ∷ [])
Pairs-append R [] [] x y h k = (k, tt)
Pairs-append R (x' ∷ xs) (y' ∷ ys) x y (h, hs) k = (h, Pairs-append R xs ys x y hs k)
Pairs-append R [] (y' ∷ ys) x y h k = absurd h
Pairs-append R (x' ∷ xs) [] x y h k = absurd h

pub Pairs-concat {ℓ κ} :
    {A : Type ℓ} {B : Type κ} (R : A → B → Type 0) (xs xs' : List A) (ys ys' : List B)
    → Pairs R xs ys
    → Pairs R xs' ys'
    → Pairs R (xs ++ xs') (ys ++ ys')
Pairs-concat R [] xs' [] ys' h k = k
Pairs-concat R (x ∷ xs) xs' (y ∷ ys) ys' (h, hs) k = (h, Pairs-concat R xs xs' ys ys' hs k)
Pairs-concat R [] xs' (y ∷ ys) ys' h k = absurd h
Pairs-concat R (x ∷ xs) xs' [] ys' h k = absurd h

-- Where one list is put into another order, the other can follow.
pub Pairs-Permᴰ {ℓ κ} :
    {A : Type ℓ} {B : Type κ} (R : A → B → Type 0) {xs xs' : List A} (ys : List B)
    → Permᴰ xs xs'
    → Pairs R xs' ys
    → (zs : List B) × Permᴰ zs ys × Pairs R xs zs
Pairs-Permᴰ R [] Permᴰ.nil h = ([], Permᴰ.nil, tt)
Pairs-Permᴰ R (y ∷ ys) Permᴰ.nil h = absurd h
Pairs-Permᴰ R [] (Permᴰ.cons e d) h = absurd h
Pairs-Permᴰ R (y ∷ ys) (Permᴰ.cons e d) (h, hs) =
    let (zs, p, k) = Pairs-Permᴰ R ys d hs in
    (y ∷ zs, Permᴰ.cons refl p, (subst (λ a. R a y) (sym e) h, k))
Pairs-Permᴰ R [] (Permᴰ.swap e e') h = absurd h
Pairs-Permᴰ R (y ∷ []) (Permᴰ.swap e e') (h, k) = absurd k
Pairs-Permᴰ R (y ∷ z ∷ ys) (Permᴰ.swap e e') (h, (k, hs)) = (
  z ∷ y ∷ ys,
  Permᴰ.swap refl refl,
  (subst (λ a. R a z) (sym e) k, (subst (λ a. R a y) (sym e') h, hs)),
)
Pairs-Permᴰ R ys (Permᴰ.trans d d') h =
    let (zs', p', k') = Pairs-Permᴰ R ys d' h in
    let (zs, p, k) = Pairs-Permᴰ R zs' d k' in (zs, Permᴰ.trans p p', k)
