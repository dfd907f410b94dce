-- ===== src/Base/Numbers.antt =====
-- Numbers in texts: `str::parse` of the unsigned integer types.
use veyra.Base.{
  ℕ, zero, suc, ◌+◌, ◌-◌, ◌*◌, ◌/◌, ◌%◌, ◌≤◌, ◌<◌, ◌≡◌, refl, ap, ◌∙◌, [], ◌∷◌, Option, none, some,
  true, Bool-cases, inl, inr, arith, leb, ltb, nat_beq, in_range, if◌then◌else◌,
}
use veyra.Base.Text.{Text, decimal, decimal_from}

-- The digits, after the number that those before them make; `none` for another character or a number
-- above the largest one.
unfoldable pub digits_from : ℕ → ℕ → Text → Option ℕ
digits_from most n [] = some n
digits_from most n (c ∷ cs) =
    let rest = digits_from most (n * 10 + (c - b'0')) cs in
    if in_range b'0' b'9' c then if leb (n * 10 + (c - b'0')) most then rest else none else none

-- `value.parse()` into a type whose largest number is `most`: digits, after a sign `+` that may be
-- missing.
unfoldable pub parse_unsigned : ℕ → Text → Option ℕ
unfolding digits_from
parse_unsigned most [] = none
parse_unsigned most (c ∷ []) = digits_from most 0 (c ∷ [])
parse_unsigned most (c ∷ d ∷ cs) =
    if nat_beq c b'+' then digits_from most 0 (d ∷ cs) else digits_from most 0 (c ∷ d ∷ cs)

digit :
    (most m d : ℕ) (rest : Text)
    → d < 10
    → m * 10 + d ≤ most
    → digits_from most m ((b'0' + d) ∷ rest) ≡ digits_from most (m * 10 + d) rest
unfolding digits_from
digit most m d rest h k = let e : b'0' + d - b'0' ≡ d = omega arith in rw e (ground arith)

digits-decimal_from :
    (fuel most n : ℕ) (rest : Text)
    → n < fuel
    → n ≤ most
    → digits_from most 0 (decimal_from fuel n rest) ≡ digits_from most n rest
unfolding decimal_from
digits-decimal_from zero most n rest h k = elim h [ ]
digits-decimal_from (suc fuel) most n rest h k = elim (Bool-cases (ltb n 10)) [
  | inl e ↦ rw e (
      digit most 0 n rest (ground arith) (ground arith)
      ∙ ap (λ m. digits_from most m rest) (omega arith))
  | inr e ↦ rw e (
      digits-decimal_from fuel most (n / 10) ((b'0' + n % 10) ∷ rest) (ground arith) (ground arith)
      ∙ digit most (n / 10) (n % 10) rest (ground arith) (ground arith)
      ∙ ap (λ m. digits_from most m rest) (omega arith))
]

abbrev StartsWithDigit : Text → Type 0
StartsWithDigit [] = ⊥
StartsWithDigit (c ∷ cs) = in_range b'0' b'9' c ≡ true

decimal_from-digit :
    (fuel n : ℕ) (rest : Text) → StartsWithDigit rest → StartsWithDigit (decimal_from fuel n rest)
unfolding decimal_from
decimal_from-digit zero n rest h = h
decimal_from-digit (suc fuel) n rest h = elim (Bool-cases (ltb n 10)) [
  | inl e ↦ rw e (ground arith)
  | inr e ↦ rw e (decimal_from-digit fuel (n / 10) ((b'0' + n % 10) ∷ rest) (ground arith))
]

decimal-digit : (n : ℕ) → StartsWithDigit (decimal n)
unfolding decimal decimal_from
decimal-digit n = elim (Bool-cases (ltb n 10)) [
  | inl e ↦ rw e (ground arith)
  | inr e ↦ rw e (decimal_from-digit n (n / 10) ((b'0' + n % 10) ∷ []) (ground arith))
]

unsigned : (most : ℕ) (s : Text) → StartsWithDigit s → parse_unsigned most s ≡ digits_from most 0 s
unfolding parse_unsigned
unsigned most [] h = absurd h
unsigned most (c ∷ []) h = refl
unsigned most (c ∷ d ∷ cs) h = ground arith

-- A number that is printed in digits is read back.
pub parse_unsigned-decimal : (most n : ℕ) → n ≤ most → parse_unsigned most (decimal n) ≡ some n
unfolding digits_from
parse_unsigned-decimal most n h =
    unsigned most (decimal n) (decimal-digit n)
    ∙ unfold decimal in digits-decimal_from (suc n) most n [] (omega arith) h
