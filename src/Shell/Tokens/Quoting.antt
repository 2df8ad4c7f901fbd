-- ===== src/Shell/Tokens/Quoting.antt =====
-- Lines of words in single quotes, and what the parser of lines makes of them.
use pisshoff.Base.{
  ℕ, ◌==◌, Bytes, List, [], ◌∷◌, ◌++◌, ok, err, ◌≡◌, refl, sym, ap, ◌∙◌, arith, length-append, All,
  false,
}
use pisshoff.Std.Numbers.{is_digit}
use pisshoff.Nom.{Nom, Parser, error, char_error, fail_error}
use pisshoff.Nom.Laws.{NomLaws}
use pisshoff.Nom.Fronts.{IsNot, take_until-front}
use pisshoff.Nom.Nesting.{NestingLaws}
use pisshoff.Nom.Loops.{LoopLaws}
use pisshoff.Nom.Choices.{alt_skips, alt_takes, map_output_reads, map_output_fails}
use pisshoff.Shell.Parts.{break, string, Parts, nil, cons, append}
use pisshoff.Shell.Tokens.{
  one, atoi, parse_redirection, parse_single_quoted, parse_double_quoted, parse_string_part,
  tokenize, tokenize_in,
}

-- A word in single quotes, and what stands behind it.
abbrev pub quoted : Bytes → Bytes → Bytes
quoted w rest = b'\'' ∷ w ++ b'\'' ∷ rest

-- The words behind the first, each behind a space.
abbrev pub print_more : List Bytes → Bytes
print_more [] = []
print_more (w ∷ ws) = b' ' ∷ quoted w (print_more ws)

abbrev pub print : Bytes → List Bytes → Bytes
print w ws = quoted w (print_more ws)

abbrev pub more_parts : List Bytes → Parts
more_parts [] = nil
more_parts (w ∷ ws) = cons break (cons (string w) (more_parts ws))

-- A single quote cannot stand in single quotes.
abbrev pub IsQuotable : Bytes → Type 0
IsQuotable w = All (IsNot b'\'') w

module _ ⦃nom : Nom⦄ (laws : NomLaws nom) (nesting : NestingLaws nom) (loops : LoopLaws nom) where
  double_quoted_not :
      (p : Parser Parts) (c : ℕ) (s : Bytes)
      → (b'"' == c) ≡ false
      → parse_double_quoted p (c ∷ s) ≡ err (error char_error)
  unfolding parse_double_quoted
  double_quoted_not p c s h =
      rw (nesting.delimited_lem _ _ _ (c ∷ s), nesting.char_lem b'"' (c ∷ s), h) refl

  redirection_not :
      (c : ℕ) (s : Bytes)
      → is_digit c ≡ false
      → (b'>' == c) ≡ false
      → parse_redirection (c ∷ s) ≡ err (error char_error)
  unfolding parse_redirection atoi
  redirection_not c s h k =
      rw (loops.map_opt_lem nom.digit0 atoi (c ∷ s), loops.digit0_lem (c ∷ s), h)
        (rw (nesting.char_lem b'>' (c ∷ s), k) refl)

  single_quoted_read :
      (w rest : Bytes)
      → IsQuotable w
      → parse_single_quoted (b'\'' ∷ w ++ b'\'' ∷ rest) ≡ ok (rest, w)
  unfolding parse_single_quoted
  single_quoted_read w rest h =
      nesting.delimited_lem _ _ _ (b'\'' ∷ w ++ b'\'' ∷ rest)
      ∙ rw (nesting.char_lem b'\'' (b'\'' ∷ w ++ b'\'' ∷ rest)) (
          rw (take_until-front laws w b'\'' rest h)
            (rw (nesting.char_lem b'\'' (b'\'' ∷ rest)) refl))

  reads_string :
      (p : Parser Parts) (w rest : Bytes)
      → IsQuotable w
      → parse_string_part p (b'\'' ∷ w ++ b'\'' ∷ rest) ≡ ok (rest, one (string w))
  unfolding parse_string_part
  reads_string p w rest h =
      let s = b'\'' ∷ w ++ b'\'' ∷ rest in
      alt_skips laws _ _ _ s _ _ (double_quoted_not p b'\'' (w ++ b'\'' ∷ rest) refl) (
        laws.alt_one _ s
        ∙ map_output_reads laws _ one s rest (string w) (
            alt_skips laws _ _ _ s _ _ (redirection_not b'\'' _ (unfold is_digit in refl) refl) (
              alt_skips laws _ _ _ s _ _ (map_output_fails laws _ _ s _ (loops.multispace1_lem s)) (
                alt_takes laws _ _ _ s _
                  (map_output_reads laws _ string s rest w (single_quoted_read w rest h))))))

  reads_break :
      (p : Parser Parts) (rest : Bytes)
      → parse_string_part p (b' ' ∷ b'\'' ∷ rest) ≡ ok (b'\'' ∷ rest, one break)
  unfolding parse_string_part
  reads_break p rest =
      let s = b' ' ∷ b'\'' ∷ rest in
      alt_skips laws _ _ _ s _ _ (double_quoted_not p b' ' (b'\'' ∷ rest) refl) (
        laws.alt_one _ s
        ∙ map_output_reads laws _ one s (b'\'' ∷ rest) break (
            alt_skips laws _ _ _ s _ _ (redirection_not b' ' _ (unfold is_digit in refl) refl) (
              alt_takes laws _ _ _ s _ (
                map_output_reads laws _ (λ _. break) s (b'\'' ∷ rest) _
                  (loops.multispace1_lem s)))))

  reads_nothing : (p : Parser Parts) → parse_string_part p [] ≡ err (error fail_error)
  unfolding parse_string_part
  reads_nothing p = rw (nesting.context_lem _ _ []) (loops.fail_lem [])

  append-nil : (ps : Parts) → append ps nil ≡ ps
  append-nil nil = refl
  append-nil (cons p ps) = ap (cons p) (append-nil ps)

  append_regroup : (ps qs rs : Parts) → append (append ps qs) rs ≡ append ps (append qs rs)
  append_regroup nil qs rs = refl
  append_regroup (cons p ps) qs rs = ap (cons p) (append_regroup ps qs rs)

  module _ (p : Parser Parts) where
    word_read :
        (w rest : Bytes) (ps : Parts)
        → IsQuotable w
        → nom.fold_many0 (parse_string_part p) ps append (quoted w rest)
          ≡ nom.fold_many0 (parse_string_part p) (append ps (one (string w))) append rest
    word_read w rest ps h =
        loops.fold_many0_more _ ps append (quoted w rest) rest _ (reads_string p w rest h)
          (omega (arith, length-append w (b'\'' ∷ rest)))

    -- The loop over the words that are left, with the parts so far.
    reads_more :
        (ws : List Bytes) (ps : Parts)
        → All IsQuotable ws
        → nom.fold_many0 (parse_string_part p) ps append (print_more ws)
          ≡ ok ([], append ps (more_parts ws))
    reads_more [] ps h =
        loops.fold_many0_end _ ps append [] _ (reads_nothing p)
        ∙ ap (λ qs. ok ([], qs)) (sym (append-nil ps))
    reads_more (w ∷ ws) ps (h, hs) =
        let behind = quoted w (print_more ws) in
        loops.fold_many0_more _ ps append (b' ' ∷ behind) behind _ (reads_break p _) (omega arith)
        ∙ word_read w (print_more ws) (append ps (one break)) h
        ∙ reads_more ws (append (append ps (one break)) (one (string w))) hs
        ∙ ap (λ qs. ok ([], qs))
            (append_regroup (append ps (one break)) (one (string w)) (more_parts ws)
              ∙ append_regroup ps (one break) (cons (string w) (more_parts ws)))

  -- The parser of lines reads the words back.
  pub tokenize-print :
      (w : Bytes) (ws : List Bytes)
      → All IsQuotable (w ∷ ws)
      → tokenize (print w ws) ≡ ok ([], cons (string w) (more_parts ws))
  unfolding tokenize tokenize_in
  tokenize-print w ws (h, hs) =
      word_read _ w (print_more ws) nil h ∙ reads_more _ ws (one (string w)) hs
