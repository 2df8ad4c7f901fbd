-- ===== src/Nom/Fronts.antt =====
-- By the laws of nom, what a parser reads where it stands in front of something else.
use pisshoff.Base.{
  ℕ, ◌==◌, true, false, Bytes, [], ◌∷◌, ◌++◌, some, ok, ◌≡◌, refl, ap, ◌∙◌, arith, length,
  length-append, All, take, drop, leb, strip_prefix,
}
use pisshoff.Std.Numbers.{is_digit, parse_unsigned, u64_max}
use pisshoff.Nom.{Nom, digit_error, ◌>>=◌}
use pisshoff.Nom.Laws.{find_first, found, span_digits, digits_of, or_kind, NomLaws}

take_all : (xs ys : Bytes) → take (length xs) (xs ++ ys) ≡ xs
take_all [] ys = refl
take_all (x ∷ xs) ys = ap (◌∷◌ x) (take_all xs ys)

drop_all : (xs ys : Bytes) → drop (length xs) (xs ++ ys) ≡ ys
drop_all [] ys = refl
drop_all (x ∷ xs) ys = drop_all xs ys

strip_prefix-front : (t s : Bytes) → strip_prefix t (t ++ s) ≡ some s
strip_prefix-front [] s = refl
strip_prefix-front (c ∷ t) s = ground (arith, strip_prefix-front t s)

abbrev pub IsDigit : ℕ → Type 0
IsDigit c = is_digit c ≡ true

abbrev pub IsNot : ℕ → ℕ → Type 0
IsNot b c = (b == c) ≡ false

span_digits-front :
    (xs : Bytes) (c : ℕ) (s : Bytes)
    → All IsDigit xs
    → is_digit c ≡ false
    → span_digits (xs ++ c ∷ s) ≡ (xs, c ∷ s)
span_digits-front [] c s h k = rw k refl
span_digits-front (x ∷ xs) c s (h, hs) k = rw (span_digits-front xs c s hs k, h) refl

find_first-front :
    (xs : Bytes) (b : ℕ) (s : Bytes)
    → All (IsNot b) xs
    → find_first (b ∷ []) (xs ++ b ∷ s) ≡ some (xs, b ∷ s)
find_first-front [] b s h = ground arith
find_first-front (x ∷ xs) b s (h, hs) =
    let later = find_first-front xs b s hs in ground (arith, later)

module _ ⦃nom : Nom⦄ (laws : NomLaws nom) where
  pub take-front : (n : ℕ) (xs ys : Bytes) → n ≡ length xs → nom.take n (xs ++ ys) ≡ ok (ys, xs)
  take-front n xs ys e =
      let enough : leb (length xs) (length (xs ++ ys)) ≡ true =
        ground (arith, length-append xs ys) in
      rw (e, laws.take_lem (length xs) (xs ++ ys), enough, take_all xs ys, drop_all xs ys) refl

  pub tag-front : (t s : Bytes) → nom.tag t (t ++ s) ≡ ok (s, t)
  tag-front t s = rw (laws.tag_lem t (t ++ s), strip_prefix-front t s) refl

  pub digit1-front :
      (x : ℕ) (xs : Bytes) (c : ℕ) (s : Bytes)
      → All IsDigit (x ∷ xs)
      → is_digit c ≡ false
      → nom.digit1 ((x ∷ xs) ++ c ∷ s) ≡ ok (c ∷ s, x ∷ xs)
  digit1-front x xs c s h k =
      rw (laws.digit1_lem ((x ∷ xs) ++ c ∷ s)) (ap digits_of (span_digits-front (x ∷ xs) c s h k))

  pub take_until-front :
      (xs : Bytes) (b : ℕ) (s : Bytes)
      → All (IsNot b) xs
      → nom.take_until (b ∷ []) (xs ++ b ∷ s) ≡ ok (b ∷ s, xs)
  take_until-front xs b s h =
      rw (laws.take_until_lem (b ∷ []) (xs ++ b ∷ s)) (ap found (find_first-front xs b s h))

  pub u64_text-front :
      (x : ℕ) (xs : Bytes) (c : ℕ) (s : Bytes) (n : ℕ)
      → All IsDigit (x ∷ xs)
      → is_digit c ≡ false
      → parse_unsigned u64_max (x ∷ xs) ≡ some n
      → nom.u64_text ((x ∷ xs) ++ c ∷ s) ≡ ok (c ∷ s, n)
  u64_text-front x xs c s n h k value = rw (laws.u64_text_lem ((x ∷ xs) ++ c ∷ s)) (
      ap
        (λ span.
          digits_of span >>= λ (rest, ds). or_kind digit_error rest (parse_unsigned u64_max ds))
        (span_digits-front (x ∷ xs) c s h k)
      ∙ ap (or_kind digit_error (c ∷ s)) value)
