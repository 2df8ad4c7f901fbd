-- ===== src/Nom/Reference.antt =====
-- Combinators with the documented behaviour: they show that the laws can hold, and run the tests.
pub mod Repeats
use pisshoff.Base.{
  ℕ, zero, suc, Bool, true, false, not, ◌&&◌, ◌||◌, Bytes, List, [], ◌∷◌, ◌++◌, Option, none, ok,
  err, strip_prefix, refl, length, ◌==◌, leb, ltb, if◌then◌else◌, ◌≡◌, ◌∙◌, ap, ◌<◌, arith,
  Bool-cases, inl, inr,
}
use pisshoff.Std.Numbers.{parse_unsigned, u64_max, be_value}
use pisshoff.Nom.{
  IResult, Parser, Nom, error, failure, incomplete, eof, digit_error, map_res_error, map_opt_error,
  take_while1_error, is_not_error, alphanumeric_error, multispace_error, escaped_transform_error,
  fail_error, many_till_error, many0_error, ◌>>=◌,
}
use pisshoff.Nom.Loops.{span_while, at_least_one, multispace, LoopLaws}
use pisshoff.Nom.Nesting.{char_of, cut_of, Agree, NestingLaws}
use pisshoff.Nom.Laws.{
  tagged, taken, found, find_first, digits_of, span_digits, or_kind, or_next, optional, NomLaws,
}

abbrev alt_of : {A : Type 0} → List (Parser A) → Parser A
alt_of [] s = err (error eof)
alt_of (p ∷ []) s = p s
alt_of (p ∷ q ∷ ps) s = or_next (p s) (alt_of (q ∷ ps) s)

abbrev elem : ℕ → Bytes → Bool
elem b [] = false
elem b (c ∷ s) = b == c || elem b s

abbrev alphanum : ℕ → Bool
alphanum c = (leb b'0' c && leb c b'9') || (leb b'a' c && leb c b'z') || (leb b'A' c && leb c b'Z')

-- What follows the control character.
unfoldable pub escaped_transformed :
    (Bool → Bytes → Parser Bytes) → Parser Bytes → Bytes → Parser Bytes
escaped_transformed again t out [] = err (error escaped_transform_error)
escaped_transformed again t out (c ∷ s) = t (c ∷ s) >>= λ (rest, o). again true (out ++ o) rest

-- The loop of `escaped_transform` on fuel; the flag says that it has read something.
unfoldable pub escaped_loop : ℕ → Parser Bytes → ℕ → Parser Bytes → Bool → Bytes → Parser Bytes
escaped_loop zero p c t read out s = err (error escaped_transform_error)
escaped_loop (suc f) p c t read out [] =
    if read then ok ([], out) else err (error escaped_transform_error)
escaped_loop (suc f) p c t read out (b ∷ s) = elim (p (b ∷ s)) [
  | ok r ↦ escaped_loop f p c t true (out ++ r.1) r.0
  | err e ↦ elim e [
    | error k ↦ elim (b == c) [
      | true ↦ escaped_transformed (escaped_loop f p c t) t out s
      | false ↦ if read then ok (b ∷ s, out) else err (error escaped_transform_error)
    ]
    | failure k ↦ err (failure k)
    | incomplete ↦ err incomplete
  ]
]

abbrev pub fold_next :
    {A R : Type 0} → (R → Parser R) → (R → A → R) → R → Bytes → IResult A → IResult R
fold_next again g r s (ok (rest, a)) =
    let more = again (g r a) rest in
    if ltb (length rest) (length s) then more else err (error many0_error)
fold_next again g r s (err (error k)) = ok (s, r)
fold_next again g r s (err e) = err e

unfoldable pub fold_loop : {A R : Type 0} → ℕ → Parser A → (R → A → R) → R → Parser R
fold_loop zero p g r s = err (error many0_error)
fold_loop (suc f) p g r s = fold_next (fold_loop f p g) g r s (p s)

-- What `many_till` does where its end is not there yet.
abbrev pub till_next :
    {A B : Type 0}
    → (List A → Parser (List A × B))
    → List A
    → Bytes
    → IResult A
    → IResult (List A × B)
till_next again as' s (ok (rest, a)) =
    let more = again (as' ++ a ∷ []) rest in
    if ltb (length rest) (length s) then more else err (error many_till_error)
till_next again as' s (err e) = err e

abbrev pub till_end :
    {A B : Type 0} → List A → IResult B → IResult (List A × B) → IResult (List A × B)
till_end as' (ok (rest, b)) r = ok (rest, (as', b))
till_end as' (err (error k)) r = r
till_end as' (err e) r = err e

unfoldable pub till_loop : {A B : Type 0} → ℕ → Parser A → Parser B → List A → Parser (List A × B)
till_loop zero p q as' s = err (error many_till_error)
till_loop (suc f) p q as' s = till_end as' (q s) (till_next (till_loop f p q) as' s (p s))

-- Digits up to the first other byte; `none` for no digit, or past the largest `u8`.
abbrev atoi_digits : Bytes → Option ℕ
atoi_digits [] = none
atoi_digits (d ∷ ds) = parse_unsigned 255 (d ∷ ds)

abbrev pub reference : Nom
reference = record {
  tag = λ t s. tagged t (strip_prefix t s);
  take = taken;
  take_until = λ t s. found (find_first t s);
  digit1 = λ s. digits_of (span_digits s);
  u64_text = λ s. digits_of (span_digits s) >>= λ (rest, ds).
      or_kind digit_error rest (parse_unsigned u64_max ds);
  be_u8 = λ s. taken 1 s >>= λ (rest, b). ok (rest, be_value 0 b);
  be_u32 = λ s. taken 4 s >>= λ (rest, b). ok (rest, be_value 0 b);
  be_u64 = λ s. taken 8 s >>= λ (rest, b). ok (rest, be_value 0 b);
  map_output = λ p f s. p s >>= λ (rest, a). ok (rest, f a);
  map_res = λ p f s. p s >>= λ (rest, a). or_kind map_res_error rest (f a);
  alt = alt_of;
  opt = λ p s. optional s (p s);
  take_while1 = λ p s. at_least_one take_while1_error (span_while p s);
  is_not = λ t s. at_least_one is_not_error (span_while (λ c. not (elem c t)) s);
  digit0 = λ s. ok ((span_digits s).1, (span_digits s).0);
  alphanumeric1 = λ s. at_least_one alphanumeric_error (span_while alphanum s);
  multispace1 = λ s. at_least_one multispace_error (span_while multispace s);
  char = char_of;
  is_alphanum = alphanum;
  escaped_transform = λ p c t s. escaped_loop (suc (length s)) p c t false [] s;
  value = λ b p s. p s >>= λ (rest, a). ok (rest, b);
  map_opt = λ p f s. p s >>= λ (rest, a). or_kind map_opt_error rest (f a);
  peek = λ p s. p s >>= λ (rest, a). ok (s, a);
  cut = λ p s. cut_of (p s);
  fail = λ s. err (error fail_error);
  context = λ c p s. p s;
  delimited = λ p q r s. p s >>= λ (s, a). q s >>= λ (s, b). r s >>= λ (s, c). ok (s, b);
  preceded = λ p q s. p s >>= λ (s, a). q s;
  many_till = λ p q s. till_loop (suc (length s)) p q [] s;
  fold_many0 = λ p r g s. fold_loop (suc (length s)) p g r s;
  atoi_u8 = λ s. atoi_digits (span_digits s).0;
}

pub reference-NomLaws : NomLaws reference
reference-NomLaws = record {
  tag_lem = λ t s. refl;
  take_lem = λ n s. refl;
  take_until_lem = λ t s. refl;
  digit1_lem = λ s. refl;
  u64_text_lem = λ s. refl;
  be_u8_lem = λ s. refl;
  be_u32_lem = λ s. refl;
  be_u64_lem = λ s. refl;
  map_output_lem = λ p f s. refl;
  map_res_lem = λ p f s. refl;
  alt_one = λ p s. refl;
  alt_more = λ p q ps s. refl;
  opt_lem = λ p s. refl;
}
