-- ===== src/Settle/Budget/Gate.antt =====
-- The decision of the budget gate.
use cyberware.Prelude.{
  ◌≡◌, ◌↔◌, refl, Bool, true, false, Option, none, some, some_injective, ℤ, ◌≤ℤ◌, ltb_ℤ, text_self,
  same_text_iff, ok, arith,
}
use cyberware.Settle.Money.{Money, less}
use cyberware.Settle.Budget.{budget_ok}

-- The gate lets a run pass exactly when the actor is configured, its balance could be read, is in the
-- currency of the price, and covers it.
pub budget_ok_iff :
    (price : Money) (bal : Option Money) (configured : Bool)
    → (budget_ok price bal configured ≡ ok none) ↔ (
        (configured ≡ true)
        × (b : Money) × (bal ≡ some b)
        × (price.currency ≡ b.currency)
        × (price.amount ≤ℤ b.amount))
unfolding budget_ok less
budget_ok_iff price bal false = ground arith
budget_ok_iff price none true = ground arith
budget_ok_iff price (some b) true = (
  λ h. (refl, b, refl, ground (arith, same_text_iff price.currency b.currency), ground arith),
  λ (c, b', same, cur, covered). covers b b' (some_injective same) cur covered,
)
  where
    not_short : (x p : ℤ) → p ≤ℤ x → ltb_ℤ x p ≡ false
    not_short x p h = ground arith

    covers :
        (b b' : Money)
        → b ≡ b'
        → price.currency ≡ b'.currency
        → price.amount ≤ℤ b'.amount
        → budget_ok price (some b) true ≡ ok none
    covers b b' same cur covered =
        rw (same, cur, text_self b'.currency, not_short b'.amount price.amount covered) refl
