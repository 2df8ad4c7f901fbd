-- ===== src/Shell/Tests.antt =====
-- The tests of subsystem/shell/parser.rs, and instances of the theorems on the shell.
use pisshoff.Base.{List, All, suc, Bytes, bytes, [], ◌∷◌, none, some, ok, ◌≡◌, refl, arith}
use pisshoff.Nom.{Nom, IResult, ◌>>=◌}
use pisshoff.Nom.Reference.{reference, reference-NomLaws}
use pisshoff.Nom.Reference.Repeats.{reference-NestingLaws, reference-LoopLaws}
use pisshoff.Session.{session, stdout_capture, either}
use pisshoff.Command.Concrete.{PartialCommand}
use pisshoff.Shell.Parts.{
  stdio, break, string, expansion, redirection, variable, command, Parts, nil, cons, append,
}
use pisshoff.Shell.Tokens.{parse_string_part, tokenize}
use pisshoff.Shell.Tokens.Depth.{tokenize-unfolds}
use pisshoff.Shell.Weights.{weight}
use pisshoff.Shell.Iter as Iter
use pisshoff.Shell.Iter.{Iter, Built, iter, not_expanding, fresh, expand, ready, partial, step, run}
use pisshoff.Shell.Iter.Meaning.{meaning, drive, drive-new}
use pisshoff.Shell.Iter.Quotes.{kept, meaning-print}
use pisshoff.Shell.Tokens.Quoting.{print, IsQuotable}

instance abbrev nom_7 : Nom
nom_7 = reference

abbrev word : Bytes → Parts → Parts
word s ps = cons (string s) ps

abbrev gap : Bytes → Parts → Parts
gap s ps = cons break (cons (string s) ps)

-- The test `messed_up`.
messed_up :
    tokenize (
      bytes
        "echo    ${HI}'this' \"is a \\t${TEST}\"using'$(complex string)>|' $(echo parsing) for the hell of it;fin")
    ≡ ok (
      bytes ";fin",
      word (bytes "echo") (
          cons break (
            cons (expansion (variable (bytes "HI"))) (
              word (bytes "this") (
                gap (bytes "is a \t") (
                  cons (expansion (variable (bytes "TEST"))) (
                    word (bytes "using") (
                      word (bytes "$(complex string)>|") (
                        cons break (
                          cons
                            (expansion (command (word (bytes "echo") (gap (bytes "parsing") nil))))
                            (gap (bytes "for") (
                              gap (bytes "the") (
                                gap
                                  (bytes "hell")
                                  (gap (bytes "of") (gap (bytes "it") nil)))))))))))))),
    )
unfolding tokenize pisshoff.Nom.Reference.fold_loop pisshoff.Std.Numbers.is_digit
    pisshoff.Nom.Reference.escaped_loop pisshoff.Nom.Reference.till_loop
    pisshoff.Nom.Reference.escaped_transformed
messed_up = refl

-- The tests `parses_named_redirects` and `parses_unnamed_redirects`.
redirects :
    (tokenize (bytes "hello test 2>&1")
      ≡ ok (
        [],
        word (bytes "hello") (gap (bytes "test") (cons break (cons (redirection 2 (stdio 1)) nil))),
      ))
    × (tokenize (bytes "hello test >&1")
        ≡ ok (
          [],
          word
              (bytes "hello")
              (gap (bytes "test") (cons break (cons (redirection 0 (stdio 1)) nil))),
        ))
unfolding tokenize pisshoff.Nom.Reference.fold_loop pisshoff.Std.Numbers.is_digit
    pisshoff.Nom.Reference.escaped_loop pisshoff.Std.Numbers.parse_unsigned
redirects = (refl, refl)

-- The line of the test `single_nested`.
abbrev nested_line : Parts
nested_line = word (bytes "echo") (
    cons break (
      cons (expansion (command (word (bytes "echo") (gap (bytes "hello") nil))))
        (gap (bytes "world!") nil)))

nested_parses : tokenize (bytes "echo $(echo hello) world!") ≡ ok ([], nested_line)
unfolding tokenize pisshoff.Nom.Reference.fold_loop pisshoff.Std.Numbers.is_digit
    pisshoff.Nom.Reference.escaped_loop
nested_parses = refl

abbrev hello : PartialCommand → Bytes
hello cmd = bytes "hello"

abbrev hello_world : PartialCommand
hello_world = record { exec = some (bytes "echo"); params = bytes "hello" ∷ bytes "world!" ∷ [] }

drive-new_example :
    drive [] hello (suc (weight nested_line)) none (Iter.new nested_line)
    ≡ some (partial (meaning [] hello nested_line fresh))
drive-new_example = drive-new [] hello nested_line

nested_meaning : partial (meaning [] hello nested_line fresh) ≡ hello_world
unfolding meaning Iter.on_break Iter.store
nested_meaning = refl

abbrev nested_text : Bytes
nested_text = bytes "echo \"$(echo `uname`)\""

tokenize-unfolds_example :
    tokenize nested_text ≡ nom_7.fold_many0 (parse_string_part tokenize) nil append nested_text
tokenize-unfolds_example = tokenize-unfolds reference-NomLaws reference-NestingLaws nested_text

-- echo 'a "b"' '' '$(x)' ''
abbrev quoted_words : List Bytes
quoted_words = bytes "a \"b\"" ∷ [] ∷ bytes "$(x)" ∷ [] ∷ []

the_empty_word_is_lost : kept quoted_words ≡ bytes "a \"b\"" ∷ bytes "$(x)" ∷ [] ∷ []
unfolding kept
the_empty_word_is_lost = refl

quotable : All IsQuotable (bytes "echo" ∷ quoted_words)
quotable = ground arith

meaning-print_example :
    tokenize (print (bytes "echo") quoted_words)
      >>= (λ (rest, ps). ok (rest, partial (meaning [] hello ps fresh)))
    ≡ ok ([], record { exec = some (bytes "echo"); params = kept quoted_words })
meaning-print_example =
    meaning-print reference-NomLaws reference-NestingLaws reference-LoopLaws [] hello (bytes "echo")
      quoted_words quotable
