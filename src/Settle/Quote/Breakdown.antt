-- ===== src/Settle/Quote/Breakdown.antt =====
-- A computed quote is split exactly over its accounts.
use cyberware.Prelude.{
  ℕ, ◌<◌, ◌≡◌, refl, sym, ◌∙◌, true, false, List, [], ◌∷◌, ℤ, pos, pos_part, ◌+ℤ◌, eqb_ℤ, Text,
  length, sum, any, ok, arith, int_laws,
}
use cyberware.Settle.Money.{Money}
use cyberware.Settle.Money.Split.{is_negative}
use cyberware.Settle.Money.Split.Conserved.{InRange, split-conserves, amounts}
use cyberware.Settle.Quote.{Quote, breakdown_of, breakdown_total, breakdown_balances, compute_quote}

breakdown_total-of :
    (as' : List Text) (ps : List Money) (t : ℤ)
    → length as' ≡ length ps
    → breakdown_total t (breakdown_of as' ps) ≡ t +ℤ sum (amounts ps)
unfolding breakdown_total breakdown_of
breakdown_total-of [] [] t h = omega int_laws
breakdown_total-of [] (p ∷ ps) t h = absurd (omega arith)
breakdown_total-of (a ∷ as') [] t h = absurd (omega arith)
breakdown_total-of (a ∷ as') (p ∷ ps) t h =
    breakdown_total-of as' ps (t +ℤ p.amount) (omega arith) ∙ omega int_laws

eqb_self : (a b : ℤ) → a ≡ b → eqb_ℤ a b ≡ true
eqb_self a b h = ground arith

-- With one account for each weight, no negative weight, a positive total weight and an amount in range, a quote is
-- computed, for the given plan and amount, and its breakdown adds up to the amount.
pub compute_quote-balances :
    (fraction : ℤ → ℤ → ℤ → ℕ) (plan_sha : Text) (amount : Money) (accounts : List Text)
    (weights : List ℤ) (fmv : Text)
    → length accounts ≡ length weights
    → any is_negative weights ≡ false
    → 0 < pos_part (sum weights)
    → InRange amount.amount weights
    → (q : Quote) × (compute_quote fraction plan_sha amount accounts weights fmv ≡ ok q)
      × (breakdown_balances q ≡ true)
      × (q.plan_sha ≡ plan_sha)
      × (q.amount ≡ amount.amount)
unfolding compute_quote breakdown_balances
compute_quote-balances fraction plan_sha amount accounts weights fmv size allowed positive range =
    let (parts, done, whole, width, same) =
      split-conserves fraction amount weights allowed positive range in
    (
      record {
        plan_sha = plan_sha;
        amount = amount.amount;
        currency = amount.currency;
        fmv = fmv;
        accounts = accounts;
        weights = weights;
        breakdown = breakdown_of accounts parts;
      },
      rw done,
      eqb_self _ amount.amount (
          breakdown_total-of accounts parts (pos 0) (size ∙ sym width)
          ∙ zero_left (sum (amounts parts))
          ∙ whole),
      refl,
      refl,
    )
  where
    zero_left : (x : ℤ) → pos 0 +ℤ x ≡ x
    zero_left x = omega int_laws
