-- ===== src/Std/Numbers.antt =====
-- `FromStr` and `Display` of the unsigned integers, in decimal.
pub mod Decimals
use pisshoff.Base.{
  ℕ, suc, zero, ◌+◌, ◌*◌, ◌-◌, ◌^◌, ◌/◌, ◌%◌, Bool, ◌&&◌, [], ◌∷◌, Option, none, some, Bytes, ◌==◌,
  leb, ltb, if◌then◌else◌,
}

unfoldable pub is_digit : ℕ → Bool
is_digit c = leb b'0' c && leb c b'9'

-- The digits, with a check of every step against the largest value.
digits_value : ℕ → ℕ → Bytes → Option ℕ
unfolding is_digit
digits_value limit n [] = some n
digits_value limit n (c ∷ s) =
    let m = n * 10 + (c - b'0') in
    let rest = digits_value limit m s in if is_digit c && leb m limit then rest else none

-- `from_str` of an unsigned type whose largest value is `limit`: a `+` may stand in front.
unfoldable pub parse_unsigned : ℕ → Bytes → Option ℕ
unfolding digits_value
parse_unsigned limit [] = none
parse_unsigned limit (c ∷ []) = digits_value limit 0 (c ∷ [])
parse_unsigned limit (c ∷ d ∷ s) =
    if c == b'+' then digits_value limit 0 (d ∷ s) else digits_value limit 0 (c ∷ d ∷ s)

abbrev pub u32_max : ℕ
u32_max = 2 ^ 32 - 1

abbrev pub u64_max : ℕ
u64_max = 2 ^ 64 - 1

-- Big-endian: the value of a byte string, and the bytes of a number.
abbrev pub be_value : ℕ → Bytes → ℕ
be_value n [] = n
be_value n (b ∷ s) = be_value (n * 256 + b) s

-- The decimal digits of a number, by a count of digits that is large enough.
show_onto : ℕ → ℕ → Bytes → Bytes
show_onto zero n s = s
show_onto (suc k) n s =
    let more = show_onto k (n / 10) ((b'0' + n % 10) ∷ s) in
    if ltb n 10 then (b'0' + n) ∷ s else more

unfoldable pub show : ℕ → Bytes
unfolding show_onto
show n = show_onto (suc n) n []
