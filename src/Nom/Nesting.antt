-- ===== src/Nom/Nesting.antt =====
-- What nom documents of the combinators with which parsers are nested, and what follows where two
-- parsers agree on short inputs.
use pisshoff.Base.{
  ℕ, suc, ◌≤◌, ◌==◌, List, [], ◌∷◌, Bytes, ok, err, ◌≡◌, refl, sym, ap, ◌∙◌, arith, length, Pairs,
  Bool-cases, inl, inr, if◌then◌else◌,
}
use pisshoff.Nom.{Nom, error, failure, char_error, IResult, Parser, ◌>>=◌}
use pisshoff.Nom.Laws.{NomLaws, or_next}

abbrev pub char_of : ℕ → Parser ℕ
char_of b [] = err (error char_error)
char_of b (c ∷ s) = if b == c then ok (s, c) else err (error char_error)

-- `cut` makes of an error a failure.
abbrev pub cut_of : {A : Type 0} → IResult A → IResult A
cut_of (err (error k)) = err (failure k)
cut_of (err e) = err e
cut_of (ok a) = ok a

-- Two parsers do the same on every input that is at most `n` long.
abbrev pub Agree : {A : Type 0} → ℕ → Parser A → Parser A → Type 0
Agree n p q = (s : Bytes) → length s ≤ n → p s ≡ q s

pub record NestingLaws (nom : Nom) : Type 1 where
  pub char_lem : (b : ℕ) (s : Bytes) → nom.char b s ≡ char_of b s
  pub cut_lem : {A : Type 0} (p : Parser A) (s : Bytes) → nom.cut p s ≡ cut_of (p s)
  -- a context is added to errors of another type than the program's
  pub context_lem : {A : Type 0} (c : Bytes) (p : Parser A) (s : Bytes) → nom.context c p s ≡ p s
  pub delimited_lem :
      {A B C : Type 0} (p : Parser A) (q : Parser B) (r : Parser C) (s : Bytes)
      → nom.delimited p q r s ≡ p s >>= λ (s, a). q s >>= λ (s, b). r s >>= λ (s, c). ok (s, b)
  pub preceded_lem :
      {A B : Type 0} (p : Parser A) (q : Parser B) (s : Bytes)
      → nom.preceded p q s ≡ p s >>= λ (s, a). q s
  -- The parsers are called on the input and on what is left of it, again and again.
  pub many_till_lem :
      {A B : Type 0} (p p' : Parser A) (q : Parser B) (s : Bytes)
      → Agree (length s) p p'
      → nom.many_till p q s ≡ nom.many_till p' q s
  pub fold_many0_lem :
      {A R : Type 0} (p p' : Parser A) (r : R) (g : R → A → R) (s : Bytes)
      → Agree (length s) p p'
      → nom.fold_many0 p r g s ≡ nom.fold_many0 p' r g s

module _ ⦃nom : Nom⦄ (laws : NomLaws nom) (nesting : NestingLaws nom) where
  -- What stands behind a character is shorter.
  behind :
      {B : Type 0} (b n : ℕ) (s : Bytes) (f g : Bytes × ℕ → IResult B)
      → length s ≤ suc n
      → ((rest : Bytes) (c : ℕ) → length rest ≤ n → f (rest, c) ≡ g (rest, c))
      → char_of b s >>= f ≡ char_of b s >>= g
  behind b n [] f g l h = refl
  behind b n (c ∷ s) f g l h = elim (Bool-cases (b == c)) [
    | inl e ↦ rw e (h s c (omega arith))
    | inr d ↦ rw d refl
  ]

  pub preceded-same :
      {B : Type 0} (b n : ℕ) (p q : Parser B)
      → Agree n p q
      → Agree (suc n) (nom.preceded (nom.char b) p) (nom.preceded (nom.char b) q)
  preceded-same b n p q h s l =
      nesting.preceded_lem (nom.char b) p s
      ∙ rw (nesting.char_lem b s)
          (behind b n s (λ (s, a). p s) (λ (s, a). q s) l (λ rest c m. h rest m))
      ∙ sym (nesting.preceded_lem (nom.char b) q s)

  module _ {A B : Type 0} where
    pub map_output-same :
        (p q : Parser A) (f : A → B) (s : Bytes)
        → p s ≡ q s
        → nom.map_output p f s ≡ nom.map_output q f s
    map_output-same p q f s h =
        laws.map_output_lem p f s
        ∙ ap (λ (r : IResult A). r >>= λ (rest, a). ok (rest, f a)) h
        ∙ sym (laws.map_output_lem q f s)

    pub delimited-same :
        (b n : ℕ) (p q : Parser A) (r : Parser B)
        → Agree n p q
        → Agree (suc n) (nom.delimited (nom.char b) p r) (nom.delimited (nom.char b) q r)
    delimited-same b n p q r h s l =
        nesting.delimited_lem (nom.char b) p r s
        ∙ rw (nesting.char_lem b s) (
            behind b n s _ _ l (λ rest c m.
              ap (λ (x : IResult A). x >>= λ (s, b). r s >>= λ (s, c). ok (s, b)) (h rest m)))
        ∙ sym (nesting.delimited_lem (nom.char b) q r s)

  module _ {A : Type 0} where
    pub cut-same : (p q : Parser A) (s : Bytes) → p s ≡ q s → nom.cut p s ≡ nom.cut q s
    cut-same p q s h = nesting.cut_lem p s ∙ ap cut_of h ∙ sym (nesting.cut_lem q s)

    pub context-same :
        (c : Bytes) (p q : Parser A) (s : Bytes) → p s ≡ q s → nom.context c p s ≡ nom.context c q s
    context-same c p q s h = nesting.context_lem c p s ∙ h ∙ sym (nesting.context_lem c q s)

    pub alt-same :
        (p q : Parser A) (ps qs : List (Parser A)) (s : Bytes)
        → p s ≡ q s
        → Pairs (λ (p q : Parser A). p s ≡ q s) ps qs
        → nom.alt (p ∷ ps) s ≡ nom.alt (q ∷ qs) s
    alt-same p q [] [] s h k = laws.alt_one p s ∙ h ∙ sym (laws.alt_one q s)
    alt-same p q (p' ∷ ps) (q' ∷ qs) s h (k, ks) =
        laws.alt_more p p' ps s
        ∙ ap (λ (r : IResult A). or_next r (nom.alt (p' ∷ ps) s)) h
        ∙ ap (or_next (q s)) (alt-same p' q' ps qs s k ks)
        ∙ sym (laws.alt_more q q' qs s)
    alt-same p q [] (q' ∷ qs) s h k = absurd k
    alt-same p q (p' ∷ ps) [] s h k = absurd k
