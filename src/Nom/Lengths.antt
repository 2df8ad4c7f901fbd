-- ===== src/Nom/Lengths.antt =====
-- By the laws of nom, no parser leaves more than it is given.
use pisshoff.Base.{
  ℕ, zero, suc, ◌+◌, ◌≤◌, Bytes, List, [], ◌∷◌, Option, none, some, ok, err, ◌≡◌, arith, length,
  All, drop, leb, strip_prefix, Option-cases, Bool-cases, inl, inr,
}
use pisshoff.Std.Numbers.{parse_unsigned, u64_max}
use pisshoff.Nom.{ErrorKind, Err, IResult, Parser, Nom, ◌>>=◌}
use pisshoff.Nom.Laws.{find_first, digits_of, span_digits, or_kind, or_next, NomLaws}

-- What is left of a success is at most `n` long.
abbrev pub Within : {A : Type 0} → ℕ → IResult A → Type 0
Within n (ok (rest, a)) = length rest ≤ n
Within n (err e) = Unit

module _ {A B : Type 0} where
  pub bind-Within :
      (n m : ℕ) (r : IResult A) (f : Bytes × A → IResult B)
      → Within n r
      → ((rest : Bytes) (a : A) → length rest ≤ n → Within m (f (rest, a)))
      → Within m (r >>= f)
  bind-Within n m (ok (rest, a)) f h k = k rest a h
  bind-Within n m (err e) f h k = tt

module _ {A : Type 0} where
  pub Within_le : (n m : ℕ) (r : IResult A) → n ≤ m → Within n r → Within m r
  Within_le n m (ok (rest, a)) l h = omega arith
  Within_le n m (err e) l h = tt

  or_kind-Within :
      (n : ℕ) (k : ErrorKind) (rest : Bytes) (o : Option A)
      → length rest ≤ n
      → Within n (or_kind k rest o)
  or_kind-Within n k rest none h = tt
  or_kind-Within n k rest (some a) h = h

  pub or_next-Within : (n : ℕ) (r q : IResult A) → Within n r → Within n q → Within n (or_next r q)
  or_next-Within n (ok a) q h k = h
  or_next-Within n (err (Err.error e)) q h k = k
  or_next-Within n (err (Err.failure e)) q h k = tt
  or_next-Within n (err Err.incomplete) q h k = tt

pub strip_prefix-length :
    (p s rest : Bytes) → strip_prefix p s ≡ some rest → length p + length rest ≡ length s
strip_prefix-length [] s rest h = ground arith
strip_prefix-length (a ∷ p) [] rest h = cc
strip_prefix-length (a ∷ p) (c ∷ s) rest h = ground (arith, strip_prefix-length p s rest)

drop-length : (n : ℕ) (s : Bytes) → length (drop n s) ≤ length s
drop-length zero s = omega arith
drop-length (suc n) [] = omega arith
drop-length (suc n) (c ∷ s) = omega (arith, drop-length n s)

drop-shorter : (n : ℕ) (s : Bytes) → n ≤ length s → length (drop n s) + n ≡ length s
drop-shorter zero s h = omega arith
drop-shorter (suc n) [] h = omega arith
drop-shorter (suc n) (c ∷ s) h = omega (arith, drop-shorter n s (omega arith))

find_first-length :
    (t s before from : Bytes) → find_first t s ≡ some (before, from) → length from ≤ length s
find_first-length t [] before from h = ground arith
find_first-length t (c ∷ s) before from h = elim (Option-cases (strip_prefix t (c ∷ s))) [
  | inl differs ↦ elim (Option-cases (find_first t s)) [
    | inl never ↦ ground arith
    | inr ((before', from'), e) ↦ ground (arith, find_first-length t s before' from' e)
  ]
  | inr (rest, e) ↦ ground arith
]

span_digits-length : (s : Bytes) → length (span_digits s).1 ≤ length s
span_digits-length [] = omega arith
span_digits-length (c ∷ s) = ground (arith, span_digits-length s)

module _ ⦃nom : Nom⦄ (laws : NomLaws nom) where
  pub tag-Within : (t s : Bytes) → Within (length s) (nom.tag t s)
  tag-Within t s = rw (laws.tag_lem t s) (elim (Option-cases (strip_prefix t s)) [
    | inl differs ↦ rw differs tt
    | inr (rest, e) ↦ rw e (omega (arith, strip_prefix-length t s rest e))
  ])

  pub take-Within : (n : ℕ) (s : Bytes) → Within (length s) (nom.take n s)
  take-Within n s = rw (laws.take_lem n s) (elim (Bool-cases (leb n (length s))) [
    | inl enough ↦ rw enough (drop-length n s)
    | inr short ↦ rw short tt
  ])

  pub take_until-Within : (t s : Bytes) → Within (length s) (nom.take_until t s)
  take_until-Within t s = rw (laws.take_until_lem t s) (elim (Option-cases (find_first t s)) [
    | inl never ↦ rw never tt
    | inr ((before, from), e) ↦ rw e (find_first-length t s before from e)
  ])

  digits_of-Within : (n : ℕ) (p : Bytes × Bytes) → length p.1 ≤ n → Within n (digits_of p)
  digits_of-Within n ([], rest) h = tt
  digits_of-Within n (d ∷ ds, rest) h = h

  pub digit1-Within : (s : Bytes) → Within (length s) (nom.digit1 s)
  digit1-Within s =
      rw (laws.digit1_lem s) (digits_of-Within (length s) (span_digits s) (span_digits-length s))

  pub u64_text-Within : (s : Bytes) → Within (length s) (nom.u64_text s)
  u64_text-Within s = rw (laws.u64_text_lem s) (
      bind-Within (length s) (length s) (digits_of (span_digits s)) _
        (digits_of-Within (length s) (span_digits s) (span_digits-length s))
        (λ rest ds h. or_kind-Within (length s) _ rest (parse_unsigned u64_max ds) h))

  module _ {A B : Type 0} where
    pub map_res-Within :
        (p : Parser A) (f : A → Option B) (n : ℕ) (s : Bytes)
        → Within n (p s)
        → Within n (nom.map_res p f s)
    map_res-Within p f n s h =
        rw (laws.map_res_lem p f s)
          (bind-Within n n (p s) _ h (λ rest a k. or_kind-Within n _ rest (f a) k))

    pub map_output-Within :
        (p : Parser A) (f : A → B) (n : ℕ) (s : Bytes)
        → Within n (p s)
        → Within n (nom.map_output p f s)
    map_output-Within p f n s h =
        rw (laws.map_output_lem p f s) (bind-Within n n (p s) _ h (λ rest a k. k))

  module _ {A : Type 0} where
    pub alt-Within :
        (p : Parser A) (ps : List (Parser A)) (n : ℕ) (s : Bytes)
        → All (λ (q : Parser A). Within n (q s)) (p ∷ ps)
        → Within n (nom.alt (p ∷ ps) s)
    alt-Within p [] n s (h, _) = rw (laws.alt_one p s) h
    alt-Within p (q ∷ ps) n s (h, hs) =
        rw (laws.alt_more p q ps s) (or_next-Within n (p s) _ h (alt-Within q ps n s hs))

  -- The four bytes of a number are gone after it.
  pub be_u32-Within : (n : ℕ) (s : Bytes) → length s ≤ suc n → Within n (nom.be_u32 s)
  be_u32-Within n s h = rw (laws.be_u32_lem s) (elim (Bool-cases (leb 4 (length s))) [
    | inl enough ↦
        let four : 4 ≤ length s = ground arith in rw enough (omega (arith, drop-shorter 4 s four))
    | inr short ↦ rw short tt
  ])

  pub be_u8-Within : (s : Bytes) → Within (length s) (nom.be_u8 s)
  be_u8-Within s = rw (laws.be_u8_lem s) (elim (Bool-cases (leb 1 (length s))) [
    | inl enough ↦ rw enough (drop-length 1 s)
    | inr short ↦ rw short tt
  ])
