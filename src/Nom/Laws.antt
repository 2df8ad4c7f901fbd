-- ===== src/Nom/Laws.antt =====
-- What nom documents of its combinators, for every input.
use pisshoff.Base.{
  ℕ, Bytes, List, [], ◌∷◌, Option, some, none, ok, err, ◌≡◌, length, leb, strip_prefix,
  if◌then◌else◌, is_empty, take, drop,
}
use pisshoff.Std.Numbers.{is_digit, parse_unsigned, u64_max, be_value}
use pisshoff.Nom.{
  ErrorKind, eof, tag_error, take_until_error, digit_error, map_res_error, error, IResult, Parser,
  Nom, ◌>>=◌,
}

abbrev pub tagged : Bytes → Option Bytes → IResult Bytes
tagged t none = err (error tag_error)
tagged t (some rest) = ok (rest, t)

abbrev pub taken : ℕ → Parser Bytes
taken n s = if leb n (length s) then ok (drop n s, take n s) else err (error eof)

-- The input in front of the first occurrence of a pattern, and from there on.
abbrev pub find_first : Bytes → Bytes → Option (Bytes × Bytes)
find_first t [] = if is_empty t then some ([], []) else none
find_first t (c ∷ s) =
    let later = find_first t s in
    elim (strip_prefix t (c ∷ s)) [
      | some rest ↦ some ([], c ∷ s)
      | none ↦ elim later [ none ↦ none | some (before, from) ↦ some (c ∷ before, from) ]
    ]

abbrev pub found : Option (Bytes × Bytes) → IResult Bytes
found none = err (error take_until_error)
found (some (before, from)) = ok (from, before)

-- The digits in front, and the rest.
abbrev pub span_digits : Bytes → Bytes × Bytes
span_digits [] = ([], [])
span_digits (c ∷ s) =
    let (ds, rest) = span_digits s in if is_digit c then (c ∷ ds, rest) else ([], c ∷ s)

abbrev pub digits_of : Bytes × Bytes → IResult Bytes
digits_of ([], rest) = err (error digit_error)
digits_of (d ∷ ds, rest) = ok (rest, d ∷ ds)

abbrev pub or_kind : {A : Type 0} → ErrorKind → Bytes → Option A → IResult A
or_kind k rest none = err (error k)
or_kind k rest (some a) = ok (rest, a)

-- `alt` goes on to the next parser after an `error` alone.
abbrev pub or_next : {A : Type 0} → IResult A → IResult A → IResult A
or_next (ok a) y = ok a
or_next (err (error k)) y = y
or_next (err e) y = err e

abbrev pub optional : {A : Type 0} → Bytes → IResult A → IResult (Option A)
optional s (ok (rest, a)) = ok (rest, some a)
optional s (err (error k)) = ok (s, none)
optional s (err e) = err e

pub record NomLaws (nom : Nom) : Type 1 where
  pub tag_lem : (t s : Bytes) → nom.tag t s ≡ tagged t (strip_prefix t s)
  pub take_lem : (n : ℕ) (s : Bytes) → nom.take n s ≡ taken n s
  pub take_until_lem : (t s : Bytes) → nom.take_until t s ≡ found (find_first t s)
  pub digit1_lem : (s : Bytes) → nom.digit1 s ≡ digits_of (span_digits s)
  pub u64_text_lem :
      (s : Bytes)
      → nom.u64_text s
        ≡ digits_of (span_digits s) >>= λ (rest, ds).
            or_kind digit_error rest (parse_unsigned u64_max ds)
  pub be_u8_lem : (s : Bytes) → nom.be_u8 s ≡ taken 1 s >>= λ (rest, b). ok (rest, be_value 0 b)
  pub be_u32_lem : (s : Bytes) → nom.be_u32 s ≡ taken 4 s >>= λ (rest, b). ok (rest, be_value 0 b)
  pub be_u64_lem : (s : Bytes) → nom.be_u64 s ≡ taken 8 s >>= λ (rest, b). ok (rest, be_value 0 b)
  pub map_output_lem :
      {A B : Type 0} (p : Parser A) (f : A → B) (s : Bytes)
      → nom.map_output p f s ≡ p s >>= λ (rest, a). ok (rest, f a)
  pub map_res_lem :
      {A B : Type 0} (p : Parser A) (f : A → Option B) (s : Bytes)
      → nom.map_res p f s ≡ p s >>= λ (rest, a). or_kind map_res_error rest (f a)
  pub alt_one : {A : Type 0} (p : Parser A) (s : Bytes) → nom.alt (p ∷ []) s ≡ p s
  pub alt_more :
      {A : Type 0} (p q : Parser A) (ps : List (Parser A)) (s : Bytes)
      → nom.alt (p ∷ q ∷ ps) s ≡ or_next (p s) (nom.alt (q ∷ ps) s)
  pub opt_lem : {A : Type 0} (p : Parser A) (s : Bytes) → nom.opt p s ≡ optional s (p s)
