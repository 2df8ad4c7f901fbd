-- ===== src/Nom/Choices.antt =====
-- By the laws of nom, which alternative of a choice reads.
use pisshoff.Base.{Bytes, List, ◌∷◌, ok, err, ◌≡◌, ap, ◌∙◌}
use pisshoff.Nom.{Nom, Err, ErrorKind, error, IResult, Parser, ◌>>=◌}
use pisshoff.Nom.Laws.{NomLaws, or_next}

module _ ⦃nom : Nom⦄ (laws : NomLaws nom) {A : Type 0} where
  pub alt_skips :
      (p q : Parser A) (ps : List (Parser A)) (s : Bytes) (k : ErrorKind) (r : IResult A)
      → p s ≡ err (error k)
      → nom.alt (q ∷ ps) s ≡ r
      → nom.alt (p ∷ q ∷ ps) s ≡ r
  alt_skips p q ps s k r h e =
      laws.alt_more p q ps s ∙ ap (λ x. or_next x (nom.alt (q ∷ ps) s)) h ∙ e

  pub alt_takes :
      (p q : Parser A) (ps : List (Parser A)) (s : Bytes) (x : Bytes × A)
      → p s ≡ ok x
      → nom.alt (p ∷ q ∷ ps) s ≡ ok x
  alt_takes p q ps s x h = laws.alt_more p q ps s ∙ ap (λ y. or_next y (nom.alt (q ∷ ps) s)) h

  module _ {B : Type 0} (p : Parser A) (f : A → B) (s : Bytes) where
    pub map_output_reads :
        (rest : Bytes) (a : A) → p s ≡ ok (rest, a) → nom.map_output p f s ≡ ok (rest, f a)
    map_output_reads rest a h =
        laws.map_output_lem p f s ∙ ap (λ (x : IResult A). x >>= λ (rest, a). ok (rest, f a)) h

    pub map_output_fails : (e : Err) → p s ≡ err e → nom.map_output p f s ≡ err e
    map_output_fails e h =
        laws.map_output_lem p f s ∙ ap (λ (x : IResult A). x >>= λ (rest, a). ok (rest, f a)) h
