-- ===== src/Tests/Settle/Budget.antt =====
-- Tests of the credits on the reward ledger.
use cyberware.Prelude.{
  ◌≡◌, ◌↔◌, refl, Bool, true, false, Option, none, some, List, [], ◌∷◌, ◌++◌, ℤ, pos, ◌≤ℤ◌, ltb_ℤ,
  Text, codes, Result, ok, err, ℕ,
}
use cyberware.Settle.Money.{Money}
use cyberware.Settle.Money.Decimal.{has_digits, default_prec}
use cyberware.Settle.RewardLedger.{Ledger, LedgerError, posting, minus, balance_of}
use cyberware.Settle.RewardLedger.Reached.{Reached, fresh, posted}
use cyberware.Settle.Budget.{
  account_of, credits, is_posted, BudgetStatus, seeded, debited, duplicate, insufficient_credits,
  seed, debit, budget_ok,
}
use cyberware.Settle.Budget.Debits.{Charged, debit-Charged, debit-once}
use cyberware.Settle.Budget.Gate.{budget_ok_iff}
use cyberware.Tests.Settle.{digests, start}

abbrev credit : ℕ → Money
credit n = record { amount = pos n; currency = codes "CREDITS" }

abbrev ledger_of : Result LedgerError (BudgetStatus × Ledger) → Ledger
ledger_of (ok r) = r.1
ledger_of (err e) = []

abbrev granted_hundred : Ledger
granted_hundred = ledger_of (seed digests start (codes "alice") (credit 100) (codes "alice"))

granted_hundred-Reached : Reached digests (codes "run") (codes "plan") granted_hundred
unfolding seed debit is_posted account_of cyberware.Settle.Budget.spent_account
    cyberware.Settle.Budget.balance cyberware.Settle.Money.less cyberware.Prelude.same_text
    cyberware.Prelude.add cyberware.Prelude.collect cyberware.Prelude.get cyberware.Prelude.negate
    cyberware.Settle.Money.Decimal.unary_minus cyberware.Prelude.◌+ℤ◌
    cyberware.Settle.RewardLedger.is_balanced cyberware.Settle.RewardLedger.has_memo
    cyberware.Settle.RewardLedger.post cyberware.Settle.RewardLedger.balances
    cyberware.Settle.RewardLedger.balances_from cyberware.Settle.RewardLedger.postings_of balance_of
    cyberware.Cwp.Chain.append cyberware.Cwp.Chain.is_text cyberware.Cwp.Chain.link_after
    cyberware.Cwp.Chain.link_digest
granted_hundred-Reached =
    posted
      (posting (account_of (codes "alice")) (credit 100)
        ∷ posting (codes "budget:grant") (minus (credit 100))
        ∷ [])
      (codes "bud-seed:alice") fresh refl

not_posted : is_posted granted_hundred (codes "bud-usage:") (codes "r1") ≡ false
unfolding seed debit is_posted account_of cyberware.Settle.Budget.spent_account
    cyberware.Settle.Budget.balance cyberware.Settle.Money.less cyberware.Prelude.same_text
    cyberware.Prelude.add cyberware.Prelude.collect cyberware.Prelude.get cyberware.Prelude.negate
    cyberware.Settle.Money.Decimal.unary_minus cyberware.Prelude.◌+ℤ◌
    cyberware.Settle.RewardLedger.is_balanced cyberware.Settle.RewardLedger.has_memo
    cyberware.Settle.RewardLedger.post cyberware.Settle.RewardLedger.balances
    cyberware.Settle.RewardLedger.balances_from cyberware.Settle.RewardLedger.postings_of balance_of
    cyberware.Cwp.Chain.append cyberware.Cwp.Chain.is_text cyberware.Cwp.Chain.link_after
    cyberware.Cwp.Chain.link_digest
not_posted = refl

abbrev after_first : Ledger
after_first = ledger_of (debit digests granted_hundred (codes "alice") (credit 70) (codes "r1"))

first_debit :
    debit digests granted_hundred (codes "alice") (credit 70) (codes "r1")
    ≡ ok (debited, after_first)
unfolding seed debit is_posted account_of cyberware.Settle.Budget.spent_account
    cyberware.Settle.Budget.balance cyberware.Settle.Money.less cyberware.Prelude.same_text
    cyberware.Prelude.add cyberware.Prelude.collect cyberware.Prelude.get cyberware.Prelude.negate
    cyberware.Settle.Money.Decimal.unary_minus cyberware.Prelude.◌+ℤ◌
    cyberware.Settle.RewardLedger.is_balanced cyberware.Settle.RewardLedger.has_memo
    cyberware.Settle.RewardLedger.post cyberware.Settle.RewardLedger.balances
    cyberware.Settle.RewardLedger.balances_from cyberware.Settle.RewardLedger.postings_of balance_of
    cyberware.Cwp.Chain.append cyberware.Cwp.Chain.is_text cyberware.Cwp.Chain.link_after
    cyberware.Cwp.Chain.link_digest
first_debit = refl

debit-Charged_example :
    ((ltb_ℤ (balance_of (account_of (codes "alice")) credits granted_hundred) (pos 70) ≡ true)
      → debit digests granted_hundred (codes "alice") (credit 70) (codes "r1")
        ≡ ok (insufficient_credits, granted_hundred))
    × ((ltb_ℤ (balance_of (account_of (codes "alice")) credits granted_hundred) (pos 70) ≡ false)
        → (after : Ledger) × Charged digests
            (codes "run")
            (codes "plan")
            granted_hundred-Reached
            (codes "alice")
            (codes "r1")
            (credit 70)
            after)
unfolding has_digits
debit-Charged_example =
    debit-Charged digests (codes "run") (codes "plan") granted_hundred-Reached (codes "alice")
      (codes "r1") (credit 70) not_posted refl short
  where
    short : has_digits default_prec (pos 70) ≡ true
    short = refl

debit-once_example :
    debit digests (after_first ++ []) (codes "bob") (credit 5) (codes "r1")
    ≡ ok (duplicate, after_first ++ [])
debit-once_example =
    debit-once digests granted_hundred [] (codes "alice") (codes "bob") (codes "r1") (credit 70)
      (credit 5) after_first first_debit

budget_ok_iff_example : (budget_ok (credit 5) (some (credit 9)) true ≡ ok none) ↔ (
    (true ≡ true)
    × (b : Money) × (some (credit 9) ≡ some b)
    × (codes "CREDITS" ≡ b.currency)
    × (pos 5 ≤ℤ b.amount))
budget_ok_iff_example = budget_ok_iff (credit 5) (some (credit 9)) true
