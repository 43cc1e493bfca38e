-- ===== src/Settle/Money/Exact.antt =====
-- Where the arithmetic of `Money` is exact, and where unary minus is not.
use cyberware.Prelude.{
  ℕ, zero, suc, ◌+◌, ◌^◌, ◌≡◌, refl, true, ℤ, pos, negsuc, ◌+ℤ◌, negate, arith, same_text_iff, ok,
  ltb,
}
use cyberware.Settle.Money.Decimal.{
  context_prec, default_prec, has_digits, excess, significant, times, to_units, unary_minus,
}
use cyberware.Settle.Money.{Money, at_scale, add, neg}

pub excess_small : (fuel prec n : ℕ) → ltb n (10 ^ prec) ≡ true → excess fuel prec n ≡ 0
unfolding excess
excess_small zero prec n h = refl
excess_small (suc fuel) prec n h = ground arith

pub significant_small : (prec : ℕ) (u : ℤ) → has_digits prec u ≡ true → significant prec u ≡ u
unfolding significant has_digits
significant_small prec (pos n) h = ground (arith, excess_small (n + 0) prec (n + 0))
significant_small prec (negsuc n) h = ground (arith, excess_small (0 + suc n) prec (0 + suc n))

to_units-at_scale : (u : ℤ) → to_units (at_scale u) ≡ u
unfolding to_units times negate
to_units-at_scale (pos n) = ground arith
to_units-at_scale (negsuc n) = ground arith

-- Two amounts of one currency whose sum has at most 34 digits add exactly.
pub add_exact :
    (a b : Money)
    → b.currency ≡ a.currency
    → has_digits context_prec (a.amount +ℤ b.amount) ≡ true
    → add a b ≡ ok (record { amount = a.amount +ℤ b.amount; currency = a.currency })
unfolding add
add_exact a b same fits = ground (
  arith,
  same_text_iff b.currency a.currency,
  significant_small context_prec (a.amount +ℤ b.amount),
  to_units-at_scale (a.amount +ℤ b.amount),
)

negate-has_digits :
    (prec : ℕ) (u : ℤ) → has_digits prec u ≡ true → has_digits prec (negate u) ≡ true
unfolding has_digits negate
negate-has_digits prec (pos zero) h = ground arith
negate-has_digits prec (pos (suc n)) h = ground arith
negate-has_digits prec (negsuc n) h = ground arith

-- An amount of at most 28 digits is negated exactly.
pub unary_minus_exact : (u : ℤ) → has_digits default_prec u ≡ true → unary_minus u ≡ negate u
unfolding unary_minus has_digits
unary_minus_exact u h =
    significant_small default_prec (negate u) (negate-has_digits default_prec u h)

pub neg_exact :
    (a : Money)
    → has_digits default_prec a.amount ≡ true
    → has_digits context_prec (negate a.amount) ≡ true
    → neg a ≡ ok (record { amount = negate a.amount; currency = a.currency })
unfolding neg
neg_exact a fits wide =
    ground (arith, unary_minus_exact a.amount fits, to_units-at_scale (negate a.amount))
