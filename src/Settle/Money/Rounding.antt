-- ===== src/Settle/Money/Rounding.antt =====
-- Rounding half to even: the result is nearest, and a tie goes to the even neighbour.
use native.Mathlib.Nat.{div-add-mod}
use cyberware.Prelude.{ℕ, ◌+◌, ◌*◌, ◌%◌, ◌≤◌, ◌<◌, ◌≡◌, arith}
use cyberware.Settle.Money.Decimal.{round_half_even}

-- The rounded quotient is within half a unit of the exact one, on both sides.
pub round_half_even-nearest :
    (n d : ℕ)
    → 0 < d
    → (2 * n ≤ 2 * (d * round_half_even n d) + d) × (2 * (d * round_half_even n d) ≤ 2 * n + d)
unfolding round_half_even
round_half_even-nearest n d h = grind (arith, div-add-mod n d)

-- A quotient that lies half-way between two integers is rounded to the even one.
pub round_half_even-tie : (n d : ℕ) → 0 < d → 2 * (n % d) ≡ d → round_half_even n d % 2 ≡ 0
unfolding round_half_even
round_half_even-tie n d h tie = ground arith
