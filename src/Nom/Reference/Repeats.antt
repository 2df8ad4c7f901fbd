-- ===== src/Nom/Reference/Repeats.antt =====
-- The laws of nesting and of loops for the combinators with the documented behaviour.
use pisshoff.Base.{
  ℕ, zero, suc, true, Bytes, List, [], ◌∷◌, ◌++◌, ok, err, refl, length, ltb, ◌≡◌, ◌∙◌, ap, ◌<◌,
  arith, Bool-cases, inl, inr,
}
use pisshoff.Nom.{IResult, Parser, error, failure, incomplete}
use pisshoff.Nom.Loops.{LoopLaws}
use pisshoff.Nom.Nesting.{Agree, NestingLaws}
use pisshoff.Nom.Reference.{fold_next, fold_loop, till_next, till_end, till_loop, reference}

fold_next-same :
    {A R : Type 0} (again again' : R → Parser R) (g : R → A → R) (r : R) (s : Bytes) (a : IResult A)
    → ((r : R) (rest : Bytes) → length rest < length s → again r rest ≡ again' r rest)
    → fold_next again g r s a ≡ fold_next again' g r s a
fold_next-same again again' g r s (ok (rest, a)) h =
    elim (Bool-cases (ltb (length rest) (length s))) [
      | inl shorter ↦ rw shorter (h (g r a) rest (ground arith))
      | inr longer ↦ rw longer refl
    ]
fold_next-same again again' g r s (err (error k)) h = refl
fold_next-same again again' g r s (err (failure k)) h = refl
fold_next-same again again' g r s (err incomplete) h = refl

fold_loop-same :
    {A R : Type 0} (f : ℕ) (p p' : Parser A) (g : R → A → R) (r : R) (s : Bytes)
    → Agree (length s) p p'
    → fold_loop f p g r s ≡ fold_loop f p' g r s
unfolding fold_loop
fold_loop-same zero p p' g r s h = refl
fold_loop-same (suc f) p p' g r s h =
    ap (fold_next (fold_loop f p g) g r s) (h s (omega arith))
    ∙ fold_next-same (fold_loop f p g) (fold_loop f p' g) g r s (p' s)
        (λ r rest l. fold_loop-same f p p' g r rest (λ t m. h t (omega arith)))

till_next-same :
    {A B : Type 0} (again again' : List A → Parser (List A × B)) (as' : List A) (s : Bytes)
    (a : IResult A)
    → ((as' : List A) (rest : Bytes) → length rest < length s → again as' rest ≡ again' as' rest)
    → till_next again as' s a ≡ till_next again' as' s a
till_next-same again again' as' s (ok (rest, a)) h =
    elim (Bool-cases (ltb (length rest) (length s))) [
      | inl shorter ↦ rw shorter (h (as' ++ a ∷ []) rest (ground arith))
      | inr longer ↦ rw longer refl
    ]
till_next-same again again' as' s (err e) h = refl

till_loop-same :
    {A B : Type 0} (f : ℕ) (p p' : Parser A) (q : Parser B) (as' : List A) (s : Bytes)
    → Agree (length s) p p'
    → till_loop f p q as' s ≡ till_loop f p' q as' s
unfolding till_loop
till_loop-same zero p p' q as' s h = refl
till_loop-same (suc f) p p' q as' s h = ap (till_end as' (q s)) (
    ap (till_next (till_loop f p q) as' s) (h s (omega arith))
    ∙ till_next-same (till_loop f p q) (till_loop f p' q) as' s (p' s)
        (λ as' rest l. till_loop-same f p p' q as' rest (λ t m. h t (omega arith))))

pub reference-NestingLaws : NestingLaws reference
reference-NestingLaws = record {
  char_lem = λ b s. refl;
  cut_lem = λ p s. refl;
  context_lem = λ c p s. refl;
  delimited_lem = λ p q r s. refl;
  preceded_lem = λ p q s. refl;
  many_till_lem = λ p p' q s h. till_loop-same (suc (length s)) p p' q [] s h;
  fold_many0_lem = λ p p' r g s h. fold_loop-same (suc (length s)) p p' g r s h;
}

-- With fuel for the input, more fuel changes nothing.
fold_loop-more :
    {A R : Type 0} (f g : ℕ) (p : Parser A) (h : R → A → R) (r : R) (s : Bytes)
    → length s < f
    → length s < g
    → fold_loop f p h r s ≡ fold_loop g p h r s
unfolding fold_loop
fold_loop-more zero g p h r s l m = absurd (omega arith)
fold_loop-more (suc f) zero p h r s l m = absurd (omega arith)
fold_loop-more (suc f) (suc g) p h r s l m =
    fold_next-same (fold_loop f p h) (fold_loop g p h) h r s (p s)
      (λ r rest k. fold_loop-more f g p h r rest (omega arith) (omega arith))

pub reference-LoopLaws : LoopLaws reference
unfolding fold_loop
reference-LoopLaws = record {
  digit0_lem = λ s. refl;
  multispace1_lem = λ s. refl;
  map_opt_lem = λ p f s. refl;
  fail_lem = λ s. refl;
  fold_many0_more = λ p r g s rest a e l.
      let shorter : ltb (length rest) (length s) ≡ true = ground (arith, l) in
      rw (e, shorter)
        (fold_loop-more (length s) (suc (length rest)) p g (g r a) rest l (omega arith));
  fold_many0_end = λ p r g s k e. rw e refl;
}
