-- ===== src/Std/Numbers/Decimals.antt =====
-- Decimal numbers are read as they are written.
use pisshoff.Base.{
  All, subst, ℕ, suc, zero, ◌+◌, ◌*◌, ◌-◌, ◌<◌, ◌≤◌, ◌/◌, ◌%◌, true, false, [], ◌∷◌, some, Bytes,
  ◌==◌, leb, ltb, ◌≡◌, refl, ap, sym, ◌∙◌, arith, Bool-cases, inl, inr,
}
use pisshoff.Std.Numbers.{is_digit, digits_value, parse_unsigned, show_onto, show}

is_digit-digit : (d : ℕ) → d < 10 → is_digit (48 + d) ≡ true
unfolding is_digit
is_digit-digit d h = ground arith

digits_value-digit :
    (limit n d : ℕ) (s : Bytes)
    → d < 10
    → n * 10 + d ≤ limit
    → digits_value limit n ((48 + d) ∷ s) ≡ digits_value limit (n * 10 + d) s
unfolding digits_value
digits_value-digit limit n d s h l =
    let digit : is_digit (48 + d) ≡ true = is_digit-digit d h in
    let same : n * 10 + (48 + d - 48) ≡ n * 10 + d = omega arith in
    let fits : leb (n * 10 + d) limit ≡ true = ground arith in rw (same, digit, fits) refl

-- Reading what `show_onto` writes in front of `s`, and then `s`.
digits_value-show_onto :
    (limit k n : ℕ) (s : Bytes)
    → n < k
    → n ≤ limit
    → digits_value limit 0 (show_onto k n s) ≡ digits_value limit n s
unfolding digits_value show_onto
digits_value-show_onto limit zero n s h l = absurd (omega arith)
digits_value-show_onto limit (suc k) n s h l = elim (Bool-cases (ltb n 10)) [
  | inl small ↦
      let less : n < 10 = ground arith in
      let same : 0 * 10 + n ≡ n = omega arith in
      rw (small, digits_value-digit limit 0 n s less (omega (arith, same)), same) refl
  | inr big ↦
      let more : 10 ≤ n = ground arith in
      let same : n / 10 * 10 + n % 10 ≡ n = omega arith in
      rw big (
        digits_value-show_onto limit k (n / 10) ((48 + n % 10) ∷ s) (omega arith) (omega arith)
        ∙ digits_value-digit limit (n / 10) (n % 10) s (omega arith) (omega (arith, same))
        ∙ ap (λ (m : ℕ). digits_value limit m s) same)
]

show_onto-head :
    (k n : ℕ) (s : Bytes)
    → n < k
    → (d : ℕ) × (rest : Bytes) × (d < 10) × (show_onto k n s ≡ (48 + d) ∷ rest)
unfolding show_onto
show_onto-head zero n s h = absurd (omega arith)
show_onto-head (suc k) n s h = elim (Bool-cases (ltb n 10)) [
  | inl small ↦ let less : n < 10 = ground arith in (n, s, less, rw small refl)
  | inr big ↦
      let more : 10 ≤ n = ground arith in
      rw big (show_onto-head k (n / 10) ((48 + n % 10) ∷ s) (omega arith))
]

parse_unsigned-head :
    (limit d : ℕ) (s : Bytes)
    → d < 10
    → parse_unsigned limit ((48 + d) ∷ s) ≡ digits_value limit 0 ((48 + d) ∷ s)
unfolding parse_unsigned
parse_unsigned-head limit d [] h = refl
parse_unsigned-head limit d (c ∷ s) h =
    let no_sign : ((48 + d) == 43) ≡ false = ground arith in rw no_sign refl

digits_value-nil : (limit n : ℕ) → digits_value limit n [] ≡ some n
unfolding digits_value
digits_value-nil limit n = refl

-- A number that fits is read back from its decimal form.
pub parse_unsigned-show : (limit n : ℕ) → n ≤ limit → parse_unsigned limit (show n) ≡ some n
unfolding show
parse_unsigned-show limit n h =
    let (d, rest, small, e) = show_onto-head (suc n) n [] (omega arith) in
    ap (parse_unsigned limit) e
    ∙ parse_unsigned-head limit d rest small
    ∙ ap (digits_value limit 0) (sym e)
    ∙ digits_value-show_onto limit (suc n) n [] (omega arith) h
    ∙ digits_value-nil limit n

show_onto-digits :
    (k n : ℕ) (s : Bytes)
    → n < k
    → All (λ (c : ℕ). is_digit c ≡ true) s
    → All (λ (c : ℕ). is_digit c ≡ true) (show_onto k n s)
unfolding show_onto
show_onto-digits zero n s h hs = absurd (omega arith)
show_onto-digits (suc k) n s h hs = elim (Bool-cases (ltb n 10)) [
  | inl small ↦ let less : n < 10 = ground arith in rw small (is_digit-digit n less, hs)
  | inr big ↦
      let more : 10 ≤ n = ground arith in
      rw big (
        show_onto-digits k (n / 10) ((48 + n % 10) ∷ s) (omega arith)
          (is_digit-digit (n % 10) (omega arith), hs))
]

-- A decimal form is digits, at least one.
pub show-digits :
    (n : ℕ)
    → (d : ℕ) × (rest : Bytes) × (show n ≡ d ∷ rest) × All (λ (c : ℕ). is_digit c ≡ true) (d ∷ rest)
unfolding show
show-digits n =
    let (d, rest, small, e) = show_onto-head (suc n) n [] (omega arith) in
    (
      48 + d,
      rest,
      e,
      subst (All (λ (c : ℕ). is_digit c ≡ true)) e (show_onto-digits (suc n) n [] (omega arith) tt),
    )
