-- ===== src/Std/Chars.antt =====
-- `str::chars` and `str::trim` of valid texts. A `char` is its UTF-8 form.
use mathlib.Core.List.{flatten, reverse}
use pisshoff.Base.{ℕ, Bool, true, false, ◌&&◌, ◌||◌, List, [], ◌∷◌, Bytes, ◌==◌, leb, if◌then◌else◌}

is_continuation : ℕ → Bool
is_continuation b = leb 0x80 b && leb b 0xbf

-- The bytes in front of the first character, and the characters.
split_chars : Bytes → Bytes × List Bytes
unfolding is_continuation
split_chars [] = ([], [])
split_chars (b ∷ s) =
    let (more, cs) = split_chars s in
    if is_continuation b then (b ∷ more, cs) else ([], (b ∷ more) ∷ cs)

-- `str::chars`, of a valid text.
unfoldable pub chars : Bytes → List Bytes
unfolding split_chars
chars s = (split_chars s).1

-- `char::is_whitespace`
unfoldable pub is_whitespace : Bytes → Bool
is_whitespace (b ∷ []) = b == 0x20 || (leb 0x09 b && leb b 0x0d)
is_whitespace (a ∷ b ∷ []) = a == 0xc2 && (b == 0x85 || b == 0xa0)
is_whitespace (a ∷ b ∷ c ∷ []) =
    (a == 0xe1 && b == 0x9a && c == 0x80)
    || (a == 0xe2
        && b == 0x80
        && ((leb 0x80 c && leb c 0x8a) || c == 0xa8 || c == 0xa9 || c == 0xaf))
    || (a == 0xe2 && b == 0x81 && c == 0x9f)
    || (a == 0xe3 && b == 0x80 && c == 0x80)
is_whitespace _ = false

drop_white : List Bytes → List Bytes
unfolding is_whitespace
drop_white [] = []
drop_white (c ∷ cs) = elim (is_whitespace c) [ true ↦ drop_white cs | false ↦ c ∷ cs ]

-- `str::trim`, of a valid text.
unfoldable pub trim : Bytes → Bytes
unfolding drop_white chars
trim s = flatten (reverse (drop_white (reverse (drop_white (chars s)))))
