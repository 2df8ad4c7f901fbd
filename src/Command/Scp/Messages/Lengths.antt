-- ===== src/Command/Scp/Messages/Lengths.antt =====
-- By the laws of nom, a message that is parsed takes at least one byte.
use pisshoff.Base.{
  ℕ, suc, ◌≤◌, Bytes, bytes, [], ◌∷◌, arith, length, strip_prefix, Option-cases, inl, inr,
}
use pisshoff.Std.Utf8.{from_utf8}
use pisshoff.Std.Numbers.{parse_unsigned, u64_max}
use pisshoff.Nom.{Nom, IResult, Parser, ◌>>=◌}
use pisshoff.Nom.Laws.{NomLaws}
use pisshoff.Nom.Lengths.{
  Within, Within_le, bind-Within, tag-Within, take-Within, take_until-Within, digit1-Within,
  u64_text-Within, map_res-Within, map_output-Within, alt-Within, strip_prefix-length,
}
use pisshoff.Command.Scp.Messages.{
  ReceiveType, of_file_copy, of_directory_copy, of_end_directory, of_access_time, receive_type,
  number, parse_file_copy, parse_directory_copy, parse_access_time, parse_end_directory,
  parse_typed, parse,
}

module _ ⦃nom : Nom⦄ (laws : NomLaws nom) where
  -- One field of a message, and the fields that follow it.
  field :
      {A B : Type 0} (n : ℕ) (p : Parser A) (f : Bytes × A → IResult B) (s : Bytes)
      → ((s : Bytes) → Within (length s) (p s))
      → ((rest : Bytes) (a : A) → length rest ≤ n → Within n (f (rest, a)))
      → length s ≤ n
      → Within n (p s >>= f)
  field n p f s h k l = bind-Within n n (p s) f (Within_le (length s) n (p s) l (h s)) k

  blank : (s : Bytes) → Within (length s) (nom.tag (bytes " ") s)
  blank s = tag-Within laws (bytes " ") s

  newline : (s : Bytes) → Within (length s) (nom.tag (bytes "\n") s)
  newline s = tag-Within laws (bytes "\n") s

  mode : (s : Bytes) → Within (length s) (nom.map_res (nom.take 4) from_utf8 s)
  mode s = map_res-Within laws (nom.take 4) from_utf8 (length s) s (take-Within laws 4 s)

  name : (s : Bytes) → Within (length s) (nom.map_res (nom.take_until (bytes "\n")) from_utf8 s)
  name s =
      map_res-Within laws (nom.take_until (bytes "\n")) from_utf8 (length s) s
        (take_until-Within laws (bytes "\n") s)

  number-Within : (s : Bytes) → Within (length s) (number s)
  unfolding number
  number-Within s =
      map_res-Within laws (nom.map_res nom.digit1 from_utf8) (parse_unsigned u64_max) (length s) s
        (map_res-Within laws nom.digit1 from_utf8 (length s) s (digit1-Within laws s))

  file_copy-Within : (n : ℕ) (s : Bytes) → length s ≤ n → Within n (parse_file_copy s)
  unfolding parse_file_copy
  file_copy-Within n s = field n _ _ s mode (λ s m. field n _ _ s blank (λ s _.
      field n _ _ s number-Within (λ s size.
        field n _ _ s blank
          (λ s _. field n _ _ s name (λ s file. field n _ _ s newline (λ s _ l. l))))))

  directory_copy-Within : (n : ℕ) (s : Bytes) → length s ≤ n → Within n (parse_directory_copy s)
  unfolding parse_directory_copy
  directory_copy-Within n s = field n _ _ s mode (λ s m. field n _ _ s blank (λ s _.
      field n _ _ s (u64_text-Within laws) (λ s size.
        field n _ _ s blank
          (λ s _. field n _ _ s name (λ s file. field n _ _ s newline (λ s _ l. l))))))

  access_time-Within : (n : ℕ) (s : Bytes) → length s ≤ n → Within n (parse_access_time s)
  unfolding parse_access_time
  access_time-Within n s = field n _ _ s number-Within (λ s m. field n _ _ s blank (λ s _.
      field n _ _ s number-Within (λ s mm. field n _ _ s blank (λ s _.
        field n _ _ s number-Within (λ s a.
          field n _ _ s blank
            (λ s _. field n _ _ s number-Within (λ s am. field n _ _ s newline (λ s _ l. l))))))))

  typed-Within : (n : ℕ) (t : ReceiveType) (s : Bytes) → length s ≤ n → Within n (parse_typed t s)
  unfolding parse_typed parse_end_directory
  typed-Within n of_file_copy s = file_copy-Within n s
  typed-Within n of_directory_copy s = directory_copy-Within n s
  typed-Within n of_end_directory s = field n _ _ s newline (λ s _ l. l)
  typed-Within n of_access_time s = access_time-Within n s

  abbrev letter : ℕ → ReceiveType → Parser ReceiveType
  letter l t = nom.map_output (nom.tag (l ∷ [])) (λ _. t)

  -- The letter of a message is one byte.
  letter-Within :
      (l : ℕ) (t : ReceiveType) (n : ℕ) (s : Bytes) → length s ≤ suc n → Within n (letter l t s)
  letter-Within l t n s h =
      map_output-Within laws (nom.tag (l ∷ [])) (λ _. t) n s
        (rw (laws.tag_lem (l ∷ []) s) (elim (Option-cases (strip_prefix (l ∷ []) s)) [
          | inl differs ↦ rw differs tt
          | inr (rest, e) ↦ rw e (omega (arith, strip_prefix-length (l ∷ []) s rest e))
        ]))

  -- A message that is parsed leaves fewer bytes than there were.
  pub parse-Within : (n : ℕ) (s : Bytes) → length s ≤ suc n → Within n (parse s)
  unfolding parse receive_type
  parse-Within n s h =
      bind-Within n n (receive_type s) _
        (alt-Within laws (letter b'C' of_file_copy)
          (letter b'D' of_directory_copy
            ∷ letter b'E' of_end_directory
            ∷ letter b'T' of_access_time
            ∷ [])
          n s
          (
            letter-Within b'C' of_file_copy n s h,
            (
              letter-Within b'D' of_directory_copy n s h,
              (
                letter-Within b'E' of_end_directory n s h,
                (letter-Within b'T' of_access_time n s h, tt),
              ),
            ),
          ))
        (λ rest t l. typed-Within n t rest l)
