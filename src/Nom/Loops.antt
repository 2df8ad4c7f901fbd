-- ===== src/Nom/Loops.antt =====
-- What nom documents of the parsers that read runs of bytes, and of the loop over a parser.
use pisshoff.Base.{
  ℕ, ◌<◌, Bool, ◌||◌, ◌==◌, Bytes, [], ◌∷◌, Option, ok, err, ◌≡◌, length, if◌then◌else◌,
}
use pisshoff.Nom.{
  IResult, Parser, Nom, ErrorKind, error, map_opt_error, multispace_error, fail_error, ◌>>=◌,
}
use pisshoff.Nom.Laws.{span_digits, or_kind}

-- The longest part in front that satisfies a test, and the rest.
abbrev pub span_while : (ℕ → Bool) → Bytes → Bytes × Bytes
span_while p [] = ([], [])
span_while p (c ∷ s) =
    let (ds, rest) = span_while p s in if p c then (c ∷ ds, rest) else ([], c ∷ s)

abbrev pub at_least_one : ErrorKind → Bytes × Bytes → IResult Bytes
at_least_one k ([], rest) = err (error k)
at_least_one k (d ∷ ds, rest) = ok (rest, d ∷ ds)

abbrev pub multispace : ℕ → Bool
multispace c = c == b' ' || c == b'\t' || c == b'\r' || c == b'\n'

pub record LoopLaws (nom : Nom) : Type 1 where
  pub digit0_lem : (s : Bytes) → nom.digit0 s ≡ ok ((span_digits s).1, (span_digits s).0)
  pub multispace1_lem :
      (s : Bytes) → nom.multispace1 s ≡ at_least_one multispace_error (span_while multispace s)
  pub map_opt_lem :
      {A B : Type 0} (p : Parser A) (f : A → Option B) (s : Bytes)
      → nom.map_opt p f s ≡ p s >>= λ (rest, a). or_kind map_opt_error rest (f a)
  pub fail_lem : {A : Type 0} (s : Bytes) → nom.fail {A = A} s ≡ err (error fail_error)
  -- What the parser reads is folded in, as long as it reads something.
  pub fold_many0_more :
      {A R : Type 0} (p : Parser A) (r : R) (g : R → A → R) (s rest : Bytes) (a : A)
      → p s ≡ ok (rest, a)
      → length rest < length s
      → nom.fold_many0 p r g s ≡ nom.fold_many0 p (g r a) g rest
  -- An error of the parser ends the loop, and is no error of the loop.
  pub fold_many0_end :
      {A R : Type 0} (p : Parser A) (r : R) (g : R → A → R) (s : Bytes) (k : ErrorKind)
      → p s ≡ err (error k)
      → nom.fold_many0 p r g s ≡ ok (s, r)
