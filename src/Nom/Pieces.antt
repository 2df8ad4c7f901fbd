-- ===== src/Nom/Pieces.antt =====
-- By the laws of nom, what a parser has read does not change where more data follow.
use pisshoff.Base.{
  ℕ, zero, suc, Bytes, List, [], ◌∷◌, ◌++◌, true, ok, err, ◌≡◌, refl, ap, arith, leb, take, drop,
  length, length-append, Bool-cases, inl, inr,
}
use pisshoff.Nom.{Nom, IResult, ◌>>=◌}
use pisshoff.Nom.Laws.{NomLaws, taken}

-- The second result is the first one, with `t` behind what is left.
abbrev pub Followed : {A : Type 0} → Bytes → IResult A → IResult A → Type 0
Followed t (ok (rest, a)) r = r ≡ ok (rest ++ t, a)
Followed t (err e) r = Unit

pub bind-Followed :
    {A B : Type 0} (t : Bytes) (r r' : IResult A) (f : Bytes × A → IResult B)
    → Followed t r r'
    → ((rest : Bytes) (a : A) → Followed t (f (rest, a)) (f (rest ++ t, a)))
    → Followed t (r >>= f) (r' >>= f)
bind-Followed t (ok (rest, a)) r' f h k = rw h (k rest a)
bind-Followed t (err e) r' f h k = tt

take-front :
    {A : Type 0} (n : ℕ) (s t : List A) → leb n (length s) ≡ true → take n (s ++ t) ≡ take n s
take-front zero s t h = refl
take-front (suc n) [] t h = absurd (ground (arith, h))
take-front (suc n) (x ∷ s) t h = ap (◌∷◌ x) (take-front n s t (ground (arith, h)))

drop-front :
    {A : Type 0} (n : ℕ) (s t : List A) → leb n (length s) ≡ true → drop n (s ++ t) ≡ drop n s ++ t
drop-front zero s t h = refl
drop-front (suc n) [] t h = absurd (ground (arith, h))
drop-front (suc n) (x ∷ s) t h = drop-front n s t (ground (arith, h))

taken-Followed : (n : ℕ) (s t : Bytes) → Followed t (taken n s) (taken n (s ++ t))
taken-Followed n s t = elim (Bool-cases (leb n (length s))) [
  | inl enough ↦
      let more : leb n (length (s ++ t)) ≡ true = ground (arith, enough, length-append s t) in
      rw (enough, more, take-front n s t enough, drop-front n s t enough) refl
  | inr short ↦ rw short tt
]

module _ ⦃nom : Nom⦄ (laws : NomLaws nom) (s t : Bytes) where
  pub take-Followed : (n : ℕ) → Followed t (nom.take n s) (nom.take n (s ++ t))
  take-Followed n = rw (laws.take_lem n s, laws.take_lem n (s ++ t)) (taken-Followed n s t)

  pub be_u32-Followed : Followed t (nom.be_u32 s) (nom.be_u32 (s ++ t))
  be_u32-Followed =
      rw (laws.be_u32_lem s, laws.be_u32_lem (s ++ t))
        (bind-Followed t (taken 4 s) (taken 4 (s ++ t)) _ (taken-Followed 4 s t) (λ rest b. refl))

  pub be_u8-Followed : Followed t (nom.be_u8 s) (nom.be_u8 (s ++ t))
  be_u8-Followed =
      rw (laws.be_u8_lem s, laws.be_u8_lem (s ++ t))
        (bind-Followed t (taken 1 s) (taken 1 (s ++ t)) _ (taken-Followed 1 s t) (λ rest b. refl))
