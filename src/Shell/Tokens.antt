-- ===== src/Shell/Tokens.antt =====
-- The parser of subsystem/shell/parser.rs: from the bytes of a command line to its parts. The
-- functions call one another, so each takes the parser of nested commands as an argument; `tokenize`
-- closes the circle on fuel. A nested command stands behind a bracket or a backquote, so the length
-- of the input is a bound on the depth.
pub mod Depth
pub mod Quoting
use pisshoff.Base.{
  ℕ, zero, suc, ◌||◌, List, [], ◌∷◌, Bytes, bytes, is_empty, Option, some, ok, err, length, ◌==◌,
  if◌then◌else◌,
}
use pisshoff.Nom.{Nom, Parser, incomplete, ◌>>=◌}
use pisshoff.Shell.Parts.{
  stdio, file, ParsedPart, break, string, expansion, redirection, Expansion, variable, command,
  Parts, nil, cons, append,
}

abbrev pub one : ParsedPart → Parts
one p = cons p nil

abbrev pub of_list : List ParsedPart → Parts
of_list [] = nil
of_list (p ∷ ps) = cons p (of_list ps)

module _ ⦃nom : Nom⦄ where
  open nom use {
    tag, take, take_until, digit1, map_output, alt, take_while1, is_not, digit0, alphanumeric1,
    multispace1, char, is_alphanum, escaped_transform, value, map_opt, peek, cut, fail, context,
    delimited, preceded, many_till, fold_many0, atoi_u8,
  }

  pub atoi : Bytes → Option ℕ
  atoi v = if is_empty v then some 0 else atoi_u8 v

  pub parse_redirection : Parser ParsedPart
  unfolding atoi
  parse_redirection s = do
    (s, from) ← map_opt digit0 atoi s
    (s, _) ← char b'>' s
    (s, to) ←
        alt
          (map_output (preceded (char b'&') (map_opt digit1 atoi)) stdio
            ∷ map_output alphanumeric1 file
            ∷ [])
          s
    ok (s, redirection from to)

  pub parse_unquoted : Parser Bytes
  parse_unquoted =
      escaped_transform (is_not (bytes "\\\n \"'$`|>&();")) b'\\'
        (alt (value [] (char b'\n') ∷ take 1 ∷ []))

  pub parse_single_quoted : Parser Bytes
  parse_single_quoted = delimited (char b'\'') (take_until (bytes "'")) (char b'\'')

  module _ (tokenize : Parser Parts) where
    pub dollar_expansion : Parser Expansion
    dollar_expansion = alt (
        map_output (tag (bytes "$")) variable
        ∷ map_output
            (delimited (char b'(') (cut (context (bytes "tokenize") tokenize))
              (cut (context (bytes "end brace") (char b')'))))
            command
        ∷ map_output (take_while1 (λ c. is_alphanum c || c == b'_')) variable
        ∷ map_output
            (delimited (char b'{') (take_until (bytes "}"))
              (cut (context (bytes "end brace") (char b'}'))))
            variable
        ∷ [])

    pub parse_expansion : Parser Expansion
    unfolding dollar_expansion
    parse_expansion = alt (
        preceded (char b'$') dollar_expansion
        ∷ map_output (delimited (char b'`') (context (bytes "tokenize") tokenize) (char b'`'))
            command
        ∷ [])

    pub escaped : Parser Bytes
    escaped = escaped_transform (is_not (bytes "\\\"$`")) b'\\' (
        alt (
          value (bytes "\"") (char b'"')
          ∷ value (bytes "\n") (char b'n')
          ∷ value (bytes "\t") (char b't')
          ∷ value (bytes "$") (char b'$')
          ∷ value (bytes "`") (char b'`')
          ∷ value (bytes "\\") (char b'\\')
          ∷ []))

    pub take_part : Parser ParsedPart
    unfolding escaped parse_expansion
    take_part = alt (map_output escaped string ∷ map_output parse_expansion expansion ∷ [])

    pub parse_double_quoted : Parser Parts
    unfolding take_part
    parse_double_quoted =
        delimited (char b'"')
          (map_output (many_till take_part (peek (char b'"'))) (λ (ps, _). of_list ps)) (char b'"')

    pub parse_string_part : Parser Parts
    unfolding parse_double_quoted parse_redirection parse_single_quoted parse_expansion
        parse_unquoted
    parse_string_part s =
        if is_empty s
        then context (bytes "empty input") fail s
        else alt
            (parse_double_quoted
              ∷ map_output
                  (alt (
                    parse_redirection
                    ∷ map_output multispace1 (λ _. break)
                    ∷ map_output parse_single_quoted string
                    ∷ map_output parse_expansion expansion
                    ∷ map_output parse_unquoted string
                    ∷ []))
                  one
              ∷ [])
            s

  -- At the end of the fuel there is no answer.
  pub tokenize_in : ℕ → Parser Parts
  unfolding parse_string_part
  tokenize_in zero s = err incomplete
  tokenize_in (suc fuel) s = fold_many0 (parse_string_part (tokenize_in fuel)) nil append s

  unfoldable pub tokenize : Parser Parts
  unfolding tokenize_in
  tokenize s = tokenize_in (suc (length s)) s
