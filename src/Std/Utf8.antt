-- ===== src/Std/Utf8.antt =====
-- `std::str::from_utf8`, `String::from_utf8_lossy` and `str::chars`. A `char` is its UTF-8 form.
use pisshoff.Base.{
  All, ℕ, ◌-◌, Bool, true, false, ◌&&◌, [], ◌∷◌, ◌++◌, Option, none, some, Bytes, ◌==◌, leb,
  if◌then◌else◌, ◌≡◌, refl, arith, append_assoc, Option-cases, inl, inr, append-nil,
}

-- Between characters, or inside one: the bytes read, the range of the next byte, and how many
-- bytes are to come.
pub data Decoder : Type 0 where
  between : Decoder
  within : Bytes → ℕ → ℕ → ℕ → Decoder

abbrev in_range : ℕ → ℕ → ℕ → Bool
in_range lo hi b = leb lo b && leb b hi

-- After the first byte of a character; `none` for a byte that starts none.
start : ℕ → Option Decoder
start b =
    if leb b 0x7f
    then some between
    else if in_range 0xc2 0xdf b
    then some (within (b ∷ []) 0x80 0xbf 1)
    else if b == 0xe0
    then some (within (b ∷ []) 0xa0 0xbf 2)
    else if b == 0xed
    then some (within (b ∷ []) 0x80 0x9f 2)
    else if in_range 0xe1 0xef b
    then some (within (b ∷ []) 0x80 0xbf 2)
    else if b == 0xf0
    then some (within (b ∷ []) 0x90 0xbf 3)
    else if in_range 0xf1 0xf3 b
    then some (within (b ∷ []) 0x80 0xbf 3)
    else if b == 0xf4
    then some (within (b ∷ []) 0x80 0x8f 3)
    else none

-- After one more byte; `none` where the bytes so far are no prefix of a character.
advance : Decoder → ℕ → Option Decoder
advance between b = start b
advance (within read lo hi n) b =
    if in_range lo hi b
    then (if n == 1 then some between else some (within (read ++ b ∷ []) 0x80 0xbf (n - 1)))
    else none

accepts : Decoder → Bytes → Bool
accepts between [] = true
accepts (within read lo hi n) [] = false
accepts d (b ∷ s) = elim (advance d b) [ none ↦ false | some d' ↦ accepts d' s ]

unfoldable pub is_utf8 : Bytes → Bool
unfolding accepts advance start
is_utf8 s = accepts between s

unfoldable pub from_utf8 : Bytes → Option Bytes
from_utf8 s = if is_utf8 s then some s else none

-- The bytes of the character that is being read.
abbrev read_of : Decoder → Bytes
read_of between = []
read_of (within read lo hi n) = read

abbrev replacement : Bytes
replacement = 0xef ∷ 0xbf ∷ 0xbd ∷ []

-- A character goes out when its last byte has been read.
entered : Bytes → ℕ → Decoder → Bytes × Decoder
entered read b between = (read ++ b ∷ [], between)
entered read b (within r lo hi n) = ([], within r lo hi n)

consume_between : ℕ → Bytes × Decoder
consume_between b = elim (start b) [ none ↦ (replacement, between) | some d ↦ entered [] b d ]

-- The bytes of a character that breaks off are replaced as one.
consume : Decoder → ℕ → Bytes × Decoder
consume between b = consume_between b
consume (within read lo hi n) b = elim (advance (within read lo hi n) b) [
  | none ↦ let (out, d) = consume_between b in (replacement ++ out, d)
  | some d ↦ entered read b d
]

lossy : Decoder → Bytes → Bytes
lossy between [] = []
lossy (within read lo hi n) [] = replacement
lossy d (b ∷ s) = let (out, d') = consume d b in out ++ lossy d' s

unfoldable pub from_utf8_lossy : Bytes → Bytes
unfolding lossy consume consume_between entered advance start
from_utf8_lossy s = lossy between s

-- What has gone out and what is being read are together all that was read.
start_reads : (b : ℕ) (d : Decoder) → start b ≡ some d → (entered [] b d).0 ++ read_of d ≡ b ∷ []
unfolding start entered
start_reads b between h = refl
start_reads b (within read lo hi n) h = ground arith

entered_next : (read : Bytes) (b : ℕ) (d : Decoder) → (entered read b d).1 ≡ d
unfolding entered
entered_next read b between = refl
entered_next read b (within r lo hi n) = refl

entered_reads :
    (read : Bytes) (lo hi n b : ℕ) (d : Decoder)
    → advance (within read lo hi n) b ≡ some d
    → (entered read b d).0 ++ read_of d ≡ read ++ b ∷ []
unfolding entered advance
entered_reads read lo hi n b between h = append-nil _
entered_reads read lo hi n b (within r lo' hi' n') h = ground arith

consume_reads :
    (d : Decoder) (b : ℕ) (d' : Decoder)
    → advance d b ≡ some d'
    → ((consume d b).0 ++ read_of d' ≡ read_of d ++ b ∷ []) × ((consume d b).1 ≡ d')
unfolding consume consume_between
consume_reads between b d' h =
    let h' : start b ≡ some d' = (unfold advance in h) in
    ground (arith, start_reads b d' h', entered_next [] b d')
consume_reads (within read lo hi n) b d' h =
    ground (arith, entered_next read b d', entered_reads read lo hi n b d' h)

lossy-accepts : (d : Decoder) (s : Bytes) → accepts d s ≡ true → lossy d s ≡ read_of d ++ s
unfolding accepts lossy
lossy-accepts between [] h = refl
lossy-accepts (within read lo hi n) [] h = cc
lossy-accepts d (b ∷ s) h = elim (Option-cases (advance d b)) [
  | inl bad ↦ absurd (ground arith)
  | inr (d', e) ↦
      let (out, next) = consume_reads d b d' e in
      let rest : lossy d' s ≡ read_of d' ++ s = lossy-accepts d' s (ground arith) in
      rw (next, rest, ← append_assoc, out, append_assoc) refl
]

-- What is valid stays as it is.
pub from_utf8_lossy-is_utf8 : (s : Bytes) → is_utf8 s ≡ true → from_utf8_lossy s ≡ s
unfolding from_utf8_lossy is_utf8
from_utf8_lossy-is_utf8 s h = lossy-accepts between s h

start-ascii : (b : ℕ) → leb b 0x7f ≡ true → start b ≡ some between
unfolding start
start-ascii b h = rw h refl

accepts-ascii : (s : Bytes) → All (λ (b : ℕ). leb b 0x7f ≡ true) s → accepts between s ≡ true
unfolding accepts advance
accepts-ascii [] h = refl
accepts-ascii (b ∷ s) (h, hs) =
    let first = start-ascii b h in let later = accepts-ascii s hs in ground arith

-- Bytes below 128 are characters.
pub is_utf8-ascii : (s : Bytes) → All (λ (b : ℕ). leb b 0x7f ≡ true) s → is_utf8 s ≡ true
unfolding is_utf8
is_utf8-ascii s h = accepts-ascii s h

pub from_utf8-is_utf8 : (s : Bytes) → is_utf8 s ≡ true → from_utf8 s ≡ some s
unfolding from_utf8
from_utf8-is_utf8 s h = rw h refl
