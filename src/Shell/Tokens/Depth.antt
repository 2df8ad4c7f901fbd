-- ===== src/Shell/Tokens/Depth.antt =====
-- That the fuel of the parser of a line is enough.
use pisshoff.Base.{
  ℕ, zero, suc, ◌≤◌, ◌<◌, [], ◌∷◌, Bytes, bytes, is_empty, ◌≡◌, refl, arith, length, Bool-cases,
  inl, inr,
}
use pisshoff.Nom.{Nom, Parser}
use pisshoff.Nom.Laws.{NomLaws}
use pisshoff.Nom.Nesting.{
  NestingLaws, Agree, map_output-same, preceded-same, delimited-same, cut-same, context-same,
  alt-same,
}
use pisshoff.Shell.Parts.{Parts, nil, append}
use pisshoff.Shell.Tokens.{
  dollar_expansion, parse_expansion, take_part, parse_double_quoted, parse_string_part, tokenize_in,
  tokenize,
}

module _ ⦃nom : Nom⦄ (laws : NomLaws nom) (nesting : NestingLaws nom) where
  -- Two parsers of nested commands that agree on what is shorter than the input by one.
  module _ (n : ℕ) (p q : Parser Parts) (agree : Agree n p q) where
    dollar_expansion-Agree : Agree n (dollar_expansion p) (dollar_expansion q)
    unfolding dollar_expansion
    dollar_expansion-Agree s l =
        alt-same laws nesting _ _ _ _ s refl
          (map_output-same laws nesting _ _ _ s (in_brackets s l), (refl, (refl, tt)))
      where
        in_brackets :
            (s : Bytes)
            → length s ≤ n
            → nom.delimited
                (nom.char b'(')
                (nom.cut (nom.context (bytes "tokenize") p))
                (nom.cut (nom.context (bytes "end brace") (nom.char b')')))
                s
              ≡ nom.delimited
                  (nom.char b'(')
                  (nom.cut (nom.context (bytes "tokenize") q))
                  (nom.cut (nom.context (bytes "end brace") (nom.char b')')))
                  s
        in_brackets s l =
            delimited-same laws nesting b'(' n _ _ _
              (λ s l. cut-same laws nesting _ _ s (context-same laws nesting _ p q s (agree s l))) s
              (omega arith)

    parse_expansion-Agree : Agree (suc n) (parse_expansion p) (parse_expansion q)
    unfolding parse_expansion
    parse_expansion-Agree s l =
        alt-same laws nesting _ _ _ _ s
          (preceded-same laws nesting b'$' n _ _ dollar_expansion-Agree s l)
          (
            map_output-same laws nesting _ _ _ s (
                delimited-same laws nesting b'`' n _ _ _
                  (λ s l. context-same laws nesting _ p q s (agree s l)) s l),
            tt,
          )

    take_part-Agree : Agree (suc n) (take_part p) (take_part q)
    unfolding take_part
    take_part-Agree s l =
        alt-same laws nesting _ _ _ _ s refl
          (map_output-same laws nesting _ _ _ s (parse_expansion-Agree s l), tt)

    double_quoted-Agree : Agree (suc n) (parse_double_quoted p) (parse_double_quoted q)
    unfolding parse_double_quoted
    double_quoted-Agree s l =
        delimited-same laws nesting b'"' n _ _ _
          (λ s l.
            map_output-same laws nesting _ _ _ s
              (nesting.many_till_lem _ _ _ s (λ t m. take_part-Agree t (omega arith))))
          s l

    string_part-Agree : Agree (suc n) (parse_string_part p) (parse_string_part q)
    unfolding parse_string_part
    string_part-Agree s l = elim (Bool-cases (is_empty s)) [
      | inl nothing ↦ rw nothing refl
      | inr something ↦ rw something (
          alt-same laws nesting _ _ _ _ s (double_quoted-Agree s l) (
            map_output-same laws nesting _ _ _ s (
                alt-same laws nesting _ _ _ _ s refl (
                  refl,
                  (
                    refl,
                    (map_output-same laws nesting _ _ _ s (parse_expansion-Agree s l), (refl, tt)),
                  ),
                )),
            tt,
          ))
    ]

  -- Nested commands are shorter than the input.
  string_part-shorter :
      (n : ℕ) (p q : Parser Parts)
      → ((u : Bytes) → length u < n → p u ≡ q u)
      → Agree n (parse_string_part p) (parse_string_part q)
  unfolding parse_string_part
  string_part-shorter n p q h [] l = refl
  string_part-shorter n p q h (c ∷ t) l =
      string_part-Agree (length t) p q (λ u m. h u (omega arith)) (c ∷ t) (omega arith)

  -- Whatever the fuel, as long as it is more than the length of the input.
  tokenize_in-more :
      (f g : ℕ) (s : Bytes) → length s < f → length s < g → tokenize_in f s ≡ tokenize_in g s
  unfolding tokenize_in
  tokenize_in-more zero g s h k = absurd (omega arith)
  tokenize_in-more (suc f) zero s h k = absurd (omega arith)
  tokenize_in-more (suc f) (suc g) s h k = nesting.fold_many0_lem _ _ nil append s (
      string_part-shorter (length s) (tokenize_in f) (tokenize_in g)
        (λ u l. tokenize_in-more f g u (omega arith) (omega arith)))

  -- By the laws of nom, the fuel of the parser of a line is enough for any line: it does what the
  -- code's recursion says, whose nested commands are parsed by the parser of lines itself.
  pub tokenize-unfolds :
      (s : Bytes) → tokenize s ≡ nom.fold_many0 (parse_string_part tokenize) nil append s
  unfolding tokenize
  tokenize-unfolds s = nesting.fold_many0_lem _ _ nil append s (
      string_part-shorter (length s) (tokenize_in (length s)) tokenize
        (λ u l. tokenize_in-more (length s) (suc (length u)) u l (omega arith)))
