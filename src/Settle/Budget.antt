-- ===== src/Settle/Budget.antt =====
-- infra/settle/budget.py: the credits of an actor on the reward ledger, and the decision of the gate.
-- `ref` is the argument with its default applied; the amounts in the answers are not kept.
pub mod Debits
pub mod Gate
use cyberware.Prelude.{
  Bool, true, false, Option, none, some, List, [], ◌∷◌, ◌++◌, Text, codes, any, Result, ok, err,
  ◌>>=◌, if◌then◌else◌,
}
use cyberware.Cwp.Chain.{Digests}
use cyberware.Settle.Money.{Money, MoneyError, less}
use cyberware.Settle.RewardLedger.{
  PostingSet, Ledger, LedgerError, money, posting, minus, post, has_memo, balance_of,
}

abbrev pub credits : Text
credits = codes "CREDITS"

unfoldable pub account_of : Text → Text
account_of actor = codes "budget:" ++ actor

unfoldable pub spent_account : Text → Text
spent_account actor = codes "budget:spent:" ++ actor

unfoldable pub balance : Ledger → Text → Money
unfolding account_of
balance entries actor = record {
  amount = balance_of (account_of actor) credits entries;
  currency = credits;
}

unfoldable pub is_posted : Ledger → Text → Text → Bool
is_posted entries prefix idem = any (has_memo (prefix ++ idem)) entries

pub data BudgetStatus : Type 0 where
  seeded credited debited duplicate insufficient_credits ref_required : BudgetStatus

unfoldable pub seed :
    Digests PostingSet → Ledger → Text → Money → Text → Result LedgerError (BudgetStatus × Ledger)
unfolding is_posted account_of
seed d entries actor allowance ref =
    if is_posted entries (codes "bud-seed:") ref then ok (duplicate, entries) else (do
      after ←
          post d entries
            (posting (account_of actor) allowance
              ∷ posting (codes "budget:grant") (minus allowance)
              ∷ [])
            (codes "bud-seed:" ++ ref)
      ok (seeded, after))

unfoldable pub topup :
    Digests PostingSet
    → Ledger
    → Text
    → Money
    → Text
    → Text
    → Result LedgerError (BudgetStatus × Ledger)
unfolding is_posted account_of
topup d entries actor amount source [] = ok (ref_required, entries)
topup d entries actor amount source (c ∷ ref) =
    if is_posted entries (codes "bud-topup:") (c ∷ ref) then ok (duplicate, entries) else (do
      after ←
          post d entries
            (posting (account_of actor) amount
              ∷ posting (codes "budget:topup:" ++ source) (minus amount)
              ∷ [])
            (codes "bud-topup:" ++ c ∷ ref)
      ok (credited, after))

compared : Result MoneyError Bool → Result LedgerError Bool
compared (ok b) = ok b
compared (err e) = err (money e)

unfoldable pub debit :
    Digests PostingSet → Ledger → Text → Money → Text → Result LedgerError (BudgetStatus × Ledger)
unfolding is_posted balance spent_account compared less
debit d entries actor price idem =
    if is_posted entries (codes "bud-usage:") idem then ok (duplicate, entries) else (do
      short ← compared (less (balance entries actor) price)
      if short then ok (insufficient_credits, entries) else (do
        after ←
            post d entries
              (posting (account_of actor) (minus price) ∷ posting (spent_account actor) price ∷ [])
              (codes "bud-usage:" ++ idem)
        ok (debited, after)))

pub data BudgetProblem : Type 0 where
  budget_unmetered budget_unavailable short_of_credits : BudgetProblem

-- `none` is the answer `(True, None)`.
unfoldable pub budget_ok : Money → Option Money → Bool → Result MoneyError (Option BudgetProblem)
unfolding less
budget_ok price bal false = ok (some budget_unmetered)
budget_ok price none true = ok (some budget_unavailable)
budget_ok price (some bal) true = do
  short ← less bal price
  ok (if short then some short_of_credits else none)
