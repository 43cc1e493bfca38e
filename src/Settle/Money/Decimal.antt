-- ===== src/Settle/Money/Decimal.antt =====
-- The part of Python's `decimal` that infra/settle/money.py computes with: rounding half to even,
-- to a number of places and to a number of significant digits.
use cyberware.Prelude.{
  ℕ, zero, suc, ◌+◌, ◌-◌, ◌*◌, ◌/◌, ◌%◌, ◌^◌, Bool, true, false, ℤ, pos, negsuc, pos_part, neg_part,
  negate, ltb, leb, ◌==◌, if◌then◌else◌,
}

-- The number `coeff / 10 ^ places`.
pub record Scaled : Type 0 where
  pub coeff : ℤ
  pub places : ℕ

-- `n / d` rounded to the nearest integer, a tie to the even one.
unfoldable pub round_half_even : ℕ → ℕ → ℕ
round_half_even n d =
    if ltb (2 * (n % d)) d
    then n / d
    else if ltb d (2 * (n % d))
    then n / d + 1
    else if (n / d % 2) == 0
    then n / d
    else n / d + 1

-- The same for a signed numerator: the magnitude is rounded.
unfoldable pub round_signed : ℤ → ℕ → ℤ
unfolding round_half_even
round_signed (pos n) d = pos (round_half_even n d)
round_signed (negsuc n) d = negate (pos (round_half_even (suc n) d))

abbrev pub context_prec : ℕ
context_prec = 34

abbrev pub default_prec : ℕ
default_prec = 28

unfoldable pub has_digits : ℕ → ℤ → Bool
has_digits prec u = ltb (pos_part u + neg_part u) (10 ^ prec)

-- How many digits `n` has beyond `prec`; the first argument bounds the search.
unfoldable pub excess : ℕ → ℕ → ℕ → ℕ
excess zero prec n = 0
excess (suc fuel) prec n = elim (ltb n (10 ^ prec)) [
  | true ↦ 0
  | false ↦ suc (excess fuel prec (n / 10))
]

unfoldable pub times : ℤ → ℕ → ℤ
times (pos n) p = pos (n * p)
times (negsuc n) p = negate (pos (suc n * p))

-- A coefficient rounded half to even to `prec` significant digits.
unfoldable pub significant : ℕ → ℤ → ℤ
unfolding excess round_signed times
significant prec u =
    let k = excess (pos_part u + neg_part u) prec (pos_part u + neg_part u) in
    let r = round_signed u (10 ^ k) in if k == 0 then u else times r (10 ^ k)

-- Unary minus, in the default context.
unfoldable pub unary_minus : ℤ → ℤ
unfolding significant
unary_minus u = significant default_prec (negate u)

-- The number of units of 0.0001, as `quantize` to scale 4 rounds it.
unfoldable pub to_units : Scaled → ℤ
unfolding round_signed times
to_units d =
    if leb d.places 4
    then times d.coeff (10 ^ (4 - d.places))
    else round_signed d.coeff (10 ^ (d.places - 4))
