-- ===== src/Tests/Money.antt =====
-- Tests of the amounts.
use cyberware.Prelude.{
  ℕ, ◌≡◌, refl, List, [], ◌∷◌, length, ℤ, pos, ◌+ℤ◌, sum, codes, ok, arith, text_eq,
}
use cyberware.Settle.Money.{Money}
use cyberware.Settle.Money.Split.{split}
use cyberware.Settle.Money.Split.Conserved.{amounts, InCurrency, split-conserves}

abbrev usd : ℕ → Money
usd n = record { amount = pos n; currency = codes "USD" }

-- A fraction of each share: the remainder of `units * w` by the total weight.
abbrev fraction : ℤ → ℤ → ℤ → ℕ
fraction units w total = 0

abbrev weights : List ℤ
weights = pos 1 ∷ pos 1 ∷ pos 1 ∷ []

split-conserves_example :
    (parts : List Money) × (split fraction (usd 100) weights ≡ ok parts)
    × (sum (amounts parts) ≡ pos 100)
    × (length parts ≡ 3)
    × InCurrency (codes "USD") parts
unfolding ◌+ℤ◌
split-conserves_example =
    split-conserves fraction (usd 100) weights refl (omega arith) (refl, omega arith)
