-- ===== src/Store/BudgetTable.antt =====
-- The `budget_ledger` table of infra/store/backend.py (the SQLite form), with its atomic
-- transactions, and the per-actor accounting of `rollup` in infra/settle/budget.py. Rows stand in the
-- order of their ids; `ts` is not kept. Amounts are integers of units of 0.0001; `-price`
-- rounds to 28 digits.
pub mod Solvent
pub mod Once
pub mod Report
use cyberware.Prelude.{
  ℕ, suc, ◌+◌, Bool, true, false, not, ◌&&◌, Option, none, some, List, [], ◌∷◌, ◌++◌, map, ℤ, pos,
  negate, ◌+ℤ◌, ◌-ℤ◌, ltb_ℤ, Text, codes, same_text, starts_with, any, if◌then◌else◌,
}
use cyberware.Settle.Money.Decimal.{unary_minus}

pub record BudgetRow : Type 0 where
  pub actor : Text
  pub delta : ℤ
  pub memo : Text
  pub idem : Text

abbrev pub Table : Type 0
Table = List BudgetRow

-- `SELECT … WHERE actor=? ORDER BY id`
unfoldable pub rows_of : Text → Table → Table
rows_of actor [] = []
rows_of actor (r ∷ t) =
    let rest = rows_of actor t in if same_text r.actor actor then r ∷ rest else rest

-- `_budget_sum`
unfoldable pub budget_sum : ℤ → Table → ℤ
budget_sum bal [] = bal
budget_sum bal (r ∷ t) = budget_sum (bal +ℤ r.delta) t

unfoldable pub budget_balance : Text → Table → ℤ
unfolding rows_of budget_sum
budget_balance actor t = budget_sum (pos 0) (rows_of actor t)

abbrev pub is_row : Text → Text → BudgetRow → Bool
is_row actor idem r = same_text r.actor actor && same_text r.idem idem

-- `SELECT 1 … WHERE actor=? AND idem=?`
unfoldable pub is_duplicate : Text → Text → Table → Bool
is_duplicate actor idem t = any (is_row actor idem) t

pub record Posted : Type 0 where
  pub duplicate : Bool
  pub balance : ℤ

unfoldable pub budget_post : Table → Text → ℤ → Text → Text → Posted × Table
unfolding is_duplicate budget_balance
budget_post t actor delta memo idem =
    if is_duplicate actor idem t
    then (record { duplicate = true; balance = budget_balance actor t }, t)
    else (let t' = t ++ record { actor = actor; delta = delta; memo = memo; idem = idem } ∷ [] in
        (record { duplicate = false; balance = budget_balance actor t' }, t'))

pub record Debited : Type 0 where
  pub accepted : Bool
  pub duplicate : Bool
  pub balance : ℤ

abbrev pub debit_row : Text → ℤ → Text → BudgetRow
debit_row actor price idem = record {
  actor = actor;
  delta = unary_minus price;
  memo = codes "usage:" ++ idem;
  idem = idem;
}

unfoldable pub budget_debit_atomic : Table → Text → ℤ → Text → Debited × Table
unfolding is_duplicate budget_balance
budget_debit_atomic t actor price idem =
    if is_duplicate actor idem t
    then (record { accepted = true; duplicate = true; balance = budget_balance actor t }, t)
    else if ltb_ℤ (budget_balance actor t) price
    then (record { accepted = false; duplicate = false; balance = budget_balance actor t }, t)
    else (
      record { accepted = true; duplicate = false; balance = budget_balance actor t -ℤ price },
      t ++ debit_row actor price idem ∷ [],
    )

-- One call on the table, as the transactions are serialized.
pub data Call : Type 0 where
  post_call : Text → ℤ → Text → Text → Call
  debit_call : Text → ℤ → Text → Call

unfoldable pub perform : Call → Table → Table
unfolding budget_post budget_debit_atomic
perform (post_call actor delta memo idem) t = (budget_post t actor delta memo idem).1
perform (debit_call actor price idem) t = (budget_debit_atomic t actor price idem).1

unfoldable pub perform_all : List Call → Table → Table
unfolding perform
perform_all [] t = t
perform_all (c ∷ cs) t = perform_all cs (perform c t)

-- infra/settle/budget.py, `rollup`: the accounting of one actor.
pub record Account : Type 0 where
  pub actor : Text
  pub credited : ℤ
  pub debited : ℤ
  pub balance : ℤ
  pub runs : ℕ

abbrev pub is_usage : BudgetRow → Bool
is_usage r = starts_with r.memo (codes "usage:")

unfoldable pub account_loop : ℤ → ℤ → ℕ → Text → Table → Account
account_loop credited debited runs a [] = record {
  actor = a;
  credited = credited;
  debited = debited;
  balance = credited -ℤ debited;
  runs = runs;
}
account_loop credited debited runs a (r ∷ t) =
    account_loop (if is_usage r then credited else credited +ℤ r.delta)
      (if is_usage r then debited -ℤ r.delta else debited) (if is_usage r then suc runs else runs) a
      t

unfoldable pub account_report : Table → Text → Account
unfolding rows_of account_loop
account_report t a = account_loop (pos 0) (pos 0) 0 a (rows_of a t)

pub record Fleet : Type 0 where
  pub allowance : ℤ
  pub spent : ℤ
  pub balance : ℤ

unfoldable pub fleet_loop : Fleet → List Account → Fleet
fleet_loop f [] = f
fleet_loop f (a ∷ as') =
    fleet_loop
      (record {
        allowance = f.allowance +ℤ a.credited;
        spent = f.spent +ℤ a.debited;
        balance = f.balance +ℤ a.balance;
      })
      as'

-- `rollup`, without the sort of the accounts by actor.
unfoldable pub rollup : Table → List Text → List Account × Fleet
unfolding account_report fleet_loop
rollup t actors = (
  map (account_report t) actors,
  fleet_loop (record { allowance = pos 0; spent = pos 0; balance = pos 0 })
      (map (account_report t) actors),
)
