-- ===== src/Command/Scp/Messages/Prints.antt =====
-- The text of a message of the scp protocol, as its senders write it, and that the parser of
-- pisshoff-server/src/command/scp.rs reads it.
use pisshoff.Base.{
  ℕ, ◌==◌, ◌≤◌, true, false, Bytes, bytes, List, [], ◌∷◌, ◌++◌, Option, none, some, ok, err, ◌≡◌,
  refl, ap, ◌∙◌, arith, length, All, leb, strip_prefix, subst,
}
use pisshoff.Std.Utf8.{is_utf8, from_utf8, is_utf8-ascii, from_utf8-is_utf8}
use pisshoff.Std.Numbers.{is_digit, parse_unsigned, u64_max, show}
use pisshoff.Std.Numbers.Decimals.{parse_unsigned-show, show-digits}
use pisshoff.Nom.{Nom, IResult, Parser, ◌>>=◌, error, tag_error}
use pisshoff.Nom.Laws.{NomLaws}
use pisshoff.Nom.Fronts.{
  IsDigit, IsNot, take-front, tag-front, digit1-front, take_until-front, u64_text-front,
}
use pisshoff.Command.Scp.Messages.{
  Receive, file_copy, directory_copy, end_directory, access_time, ReceiveType, of_file_copy,
  of_directory_copy, of_end_directory, of_access_time, receive_type, number, parse_file_copy,
  parse_directory_copy, parse_access_time, parse_end_directory, parse_typed, parse,
}

-- The line of a message, in front of what follows it.
unfoldable pub print_onto : Receive → Bytes → Bytes
print_onto (file_copy mode size name) s =
    b'C' ∷ (mode ++ (b' ' ∷ (show size ++ (b' ' ∷ (name ++ (b'\n' ∷ s))))))
print_onto (directory_copy mode size name) s =
    b'D' ∷ (mode ++ (b' ' ∷ (show size ++ (b' ' ∷ (name ++ (b'\n' ∷ s))))))
print_onto end_directory s = b'E' ∷ b'\n' ∷ s
print_onto (access_time modified modified_micros access access_micros) s =
    b'T'
    ∷ (show modified
        ++ (b' '
            ∷ (show modified_micros
                ++ (b' ' ∷ (show access ++ (b' ' ∷ (show access_micros ++ (b'\n' ∷ s))))))))

-- A mode has four bytes and a name is one line, both characters; a number is a `u64`.
unfoldable pub IsEntry : Bytes → ℕ → Bytes → Type 0
IsEntry mode size name =
    (4 ≡ length mode)
    × (is_utf8 mode ≡ true)
    × (size ≤ u64_max)
    × (is_utf8 name ≡ true)
    × All (IsNot b'\n') name

unfoldable pub IsPrintable : Receive → Type 0
unfolding IsEntry
IsPrintable (file_copy mode size name) = IsEntry mode size name
IsPrintable (directory_copy mode size name) = IsEntry mode size name
IsPrintable end_directory = Unit
IsPrintable (access_time modified modified_micros access access_micros) =
    (modified ≤ u64_max)
    × (modified_micros ≤ u64_max)
    × (access ≤ u64_max)
    × (access_micros ≤ u64_max)

digit_ascii : (c : ℕ) → is_digit c ≡ true → leb c 0x7f ≡ true
unfolding is_digit
digit_ascii c h = ground arith

digits_ascii : (s : Bytes) → All IsDigit s → All (λ (b : ℕ). leb b 0x7f ≡ true) s
digits_ascii [] h = tt
digits_ascii (c ∷ s) (h, hs) = (digit_ascii c h, digits_ascii s hs)

module _ ⦃nom : Nom⦄ (laws : NomLaws nom) where
  map_res-reads :
      {A B : Type 0} (p : Parser A) (f : A → Option B) (s rest : Bytes) (a : A) (b : B)
      → p s ≡ ok (rest, a)
      → f a ≡ some b
      → nom.map_res p f s ≡ ok (rest, b)
  map_res-reads p f s rest a b h k = rw (laws.map_res_lem p f s, h, k) refl

  number-front :
      (n c : ℕ) (s : Bytes)
      → n ≤ u64_max
      → is_digit c ≡ false
      → number (show n ++ c ∷ s) ≡ ok (c ∷ s, n)
  unfolding number
  number-front n c s fits ends =
      let (x, xs, e, digits) = show-digits n in
      map_res-reads _ (parse_unsigned u64_max) _ (c ∷ s) (show n) n
        (map_res-reads nom.digit1 from_utf8 _ (c ∷ s) (show n) (show n)
          (rw e (digit1-front laws x xs c s digits ends))
          (from_utf8-is_utf8 (show n)
            (rw e (is_utf8-ascii (x ∷ xs) (digits_ascii (x ∷ xs) digits)))))
        (parse_unsigned-show u64_max n fits)

  size-front :
      (n c : ℕ) (s : Bytes)
      → n ≤ u64_max
      → is_digit c ≡ false
      → nom.u64_text (show n ++ c ∷ s) ≡ ok (c ∷ s, n)
  size-front n c s fits ends =
      let (x, xs, e, digits) = show-digits n in
      let value : parse_unsigned u64_max (x ∷ xs) ≡ some n =
        subst (λ ds. parse_unsigned u64_max ds ≡ some n) e (parse_unsigned-show u64_max n fits) in
      rw e (u64_text-front laws x xs c s n digits ends value)

  letter-front :
      (l : ℕ) (t : ReceiveType) (s : Bytes)
      → nom.map_output (nom.tag (l ∷ [])) (λ _. t) (l ∷ s) ≡ ok (s, t)
  letter-front l t s =
      rw (laws.map_output_lem (nom.tag (l ∷ [])) (λ _. t) (l ∷ s), tag-front laws (l ∷ []) s) refl

  letter-other :
      (l k : ℕ) (t : ReceiveType) (s : Bytes)
      → (l == k) ≡ false
      → nom.map_output (nom.tag (l ∷ [])) (λ _. t) (k ∷ s) ≡ err (error tag_error)
  letter-other l k t s h =
      let differs : strip_prefix (l ∷ []) (k ∷ s) ≡ none = ground arith in
      rw
        (
          laws.map_output_lem (nom.tag (l ∷ [])) (λ _. t) (k ∷ s),
          laws.tag_lem (l ∷ []) (k ∷ s),
          differs,
        )
        refl

  first :
      (p q : Parser ReceiveType) (ps : List (Parser ReceiveType)) (s : Bytes)
      (a : Bytes × ReceiveType)
      → p s ≡ ok a
      → nom.alt (p ∷ q ∷ ps) s ≡ ok a
  first p q ps s a h = rw (laws.alt_more p q ps s, h) refl

  later :
      (p q : Parser ReceiveType) (ps : List (Parser ReceiveType)) (s : Bytes)
      (a : Bytes × ReceiveType)
      → p s ≡ err (error tag_error)
      → nom.alt (q ∷ ps) s ≡ ok a
      → nom.alt (p ∷ q ∷ ps) s ≡ ok a
  later p q ps s a h k = rw (laws.alt_more p q ps s, h) k

  letter_of : ReceiveType → ℕ
  letter_of of_file_copy = b'C'
  letter_of of_directory_copy = b'D'
  letter_of of_end_directory = b'E'
  letter_of of_access_time = b'T'

  receive_type-front : (t : ReceiveType) (s : Bytes) → receive_type (letter_of t ∷ s) ≡ ok (s, t)
  unfolding receive_type letter_of
  receive_type-front of_file_copy s = first _ _ _ _ _ (letter-front _ _ s)
  receive_type-front of_directory_copy s =
      later _ _ _ _ _ (letter-other _ _ _ s refl) (first _ _ _ _ _ (letter-front _ _ s))
  receive_type-front of_end_directory s =
      later _ _ _ _ _ (letter-other _ _ _ s refl)
        (later _ _ _ _ _ (letter-other _ _ _ s refl) (first _ _ _ _ _ (letter-front _ _ s)))
  receive_type-front of_access_time s = later _ _ _ _ _ (letter-other _ _ _ s refl) (
      later _ _ _ _ _ (letter-other _ _ _ s refl)
        (later _ _ _ _ _ (letter-other _ _ _ s refl) (laws.alt_one _ _ ∙ letter-front _ _ s)))

  name-front :
      (name s : Bytes)
      → is_utf8 name ≡ true
      → All (IsNot b'\n') name
      → nom.map_res (nom.take_until (bytes "\n")) from_utf8 (name ++ b'\n' ∷ s)
        ≡ ok (b'\n' ∷ s, name)
  name-front name s valid one_line =
      map_res-reads _ from_utf8 _ _ name name (take_until-front laws name b'\n' s one_line)
        (from_utf8-is_utf8 name valid)

  mode-front :
      (mode s : Bytes)
      → 4 ≡ length mode
      → is_utf8 mode ≡ true
      → nom.map_res (nom.take 4) from_utf8 (mode ++ s) ≡ ok (s, mode)
  mode-front mode s four valid =
      map_res-reads _ from_utf8 _ _ mode mode (take-front laws 4 mode s four)
        (from_utf8-is_utf8 mode valid)

  -- One field and the next.
  reads :
      {A B : Type 0} (p : IResult A) (f : Bytes × A → IResult B) (a : Bytes × A) (r : IResult B)
      → p ≡ ok a
      → f a ≡ r
      → p >>= f ≡ r
  reads p f a r h k = ap (λ x. x >>= f) h ∙ k

  file_copy-front :
      (mode : Bytes) (size : ℕ) (name s : Bytes)
      → IsEntry mode size name
      → parse_file_copy (mode ++ (b' ' ∷ (show size ++ (b' ' ∷ (name ++ (b'\n' ∷ s))))))
        ≡ ok (s, file_copy mode size name)
  unfolding parse_file_copy is_digit IsEntry
  file_copy-front mode size name s (four, mode_valid, fits, name_valid, one_line) =
      reads _ _ _ _ (mode-front mode _ four mode_valid) (
        reads _ _ _ _ (tag-front laws (bytes " ") _) (
          reads _ _ _ _ (number-front size b' ' _ fits refl) (
            reads _ _ _ _ (tag-front laws (bytes " ") _) (
              reads _ _ _ _ (name-front name s name_valid one_line)
                (reads _ _ _ _ (tag-front laws (bytes "\n") s) refl)))))

  directory_copy-front :
      (mode : Bytes) (size : ℕ) (name s : Bytes)
      → IsEntry mode size name
      → parse_directory_copy (mode ++ (b' ' ∷ (show size ++ (b' ' ∷ (name ++ (b'\n' ∷ s))))))
        ≡ ok (s, directory_copy mode size name)
  unfolding parse_directory_copy is_digit IsEntry
  directory_copy-front mode size name s (four, mode_valid, fits, name_valid, one_line) =
      reads _ _ _ _ (mode-front mode _ four mode_valid) (
        reads _ _ _ _ (tag-front laws (bytes " ") _) (
          reads _ _ _ _ (size-front size b' ' _ fits refl) (
            reads _ _ _ _ (tag-front laws (bytes " ") _) (
              reads _ _ _ _ (name-front name s name_valid one_line)
                (reads _ _ _ _ (tag-front laws (bytes "\n") s) refl)))))

  -- A message is read back from its line, and what follows the line stays.
  pub parse-print_onto :
      (m : Receive) (s : Bytes) → IsPrintable m → parse (print_onto m s) ≡ ok (s, m)
  unfolding print_onto IsPrintable parse parse_typed parse_end_directory parse_access_time letter_of
      is_digit
  parse-print_onto (file_copy mode size name) s h =
      reads _ _ _ _ (receive_type-front of_file_copy _) (file_copy-front mode size name s h)
  parse-print_onto (directory_copy mode size name) s h =
      reads _ _ _ _ (receive_type-front of_directory_copy _)
        (directory_copy-front mode size name s h)
  parse-print_onto end_directory s h =
      reads _ _ _ _ (receive_type-front of_end_directory _)
        (reads _ _ _ _ (tag-front laws (bytes "\n") s) refl)
  parse-print_onto (access_time m mm a am) s (m_fits, mm_fits, a_fits, am_fits) =
      reads _ _ _ _ (receive_type-front of_access_time _) (
        reads _ _ _ _ (number-front m b' ' _ m_fits refl) (
          reads _ _ _ _ (tag-front laws (bytes " ") _) (
            reads _ _ _ _ (number-front mm b' ' _ mm_fits refl) (
              reads _ _ _ _ (tag-front laws (bytes " ") _) (
                reads _ _ _ _ (number-front a b' ' _ a_fits refl) (
                  reads _ _ _ _ (tag-front laws (bytes " ") _) (
                    reads _ _ _ _ (number-front am b'\n' _ am_fits refl)
                      (reads _ _ _ _ (tag-front laws (bytes "\n") s) refl))))))))
