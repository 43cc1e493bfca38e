-- ===== src/Tests/Store.antt =====
-- Tests of the lease table and of the budget table.
use cyberware.Prelude.{
  ℕ, ◌<◌, ◌≡◌, ◌≢◌, ◌↔◌, refl, Bool, true, false, not, ◌⊎◌, inl, inr, Option, none, some, List, [],
  ◌∷◌, ◌++◌, map, ℤ, pos, negsuc, neg_part, ◌-ℤ◌, sum, Text, codes, same_text, Result,
  if◌then◌else◌, arith, ltb_ℤ,
}
use cyberware.Settle.Money.Decimal.{has_digits, default_prec}
use cyberware.Store.Lease.{
  Leases, Manager, Call, acquire_call, renew_call, release_call, try_acquire, renew, release, held,
  perform, perform_all, lease_holder, put, try_acquire_pg,
}
use cyberware.Store.Lease.Exclusive.{held-exclusive}
use cyberware.Store.Lease.Failover.{takeover}
use cyberware.Store.Lease.Backends.{try_acquire_pg-eq-try_acquire}
use cyberware.Store.BudgetTable.Report.{rollup-agrees}
use cyberware.Store.BudgetTable
use cyberware.Store.BudgetTable.{
  Table, budget_balance, budget_post, budget_debit_atomic, is_duplicate, rollup,
}
use cyberware.Store.BudgetTable.Solvent.{perform_all-Solvent}
use cyberware.Store.BudgetTable.Once.{budget_debit_atomic-once}

abbrev primary : Manager
primary = record { lease_id = codes "writer"; holder_id = codes "a"; ttl = 10 }

abbrev standby : Manager
standby = record { lease_id = codes "writer"; holder_id = codes "b"; ttl = 10 }

abbrev no_leases : Leases
no_leases = λ id. none

abbrev contention : List (Manager × Call)
contention = (standby, acquire_call 7) ∷ (standby, renew_call 8) ∷ (standby, release_call) ∷ []

apart : standby.holder_id ≢ primary.holder_id
apart h = ground arith

held-exclusive_example :
    let t' = perform_all contention (perform primary (acquire_call 5) no_leases) in
    (held primary t' 12 ≡ true) × (held standby t' 12 ≡ false)
unfolding try_acquire
held-exclusive_example =
    held-exclusive no_leases primary standby 5 12 contention refl
      (apart, omega arith, (apart, tt, (apart, tt, tt))) (omega arith) refl apart

abbrev lapsed_table : Leases
lapsed_table = perform primary (acquire_call 5) no_leases

takeover_example :
    let t' = perform standby (acquire_call 15) lapsed_table in
    (held standby t' 20 ≡ true)
    × (held primary t' 20 ≡ false)
    × ((at : ℕ)
        → renew t' primary.lease_id primary.holder_id primary.ttl at
          ≡ (record { renewed = false; holder = some standby.holder_id }, t'))
    × (release t' primary.lease_id primary.holder_id ≡ (false, t'))
unfolding lease_holder perform put same_text
takeover_example =
    takeover lapsed_table primary standby 15 20 refl (λ h. ground arith) refl (omega arith)

abbrev alice : Text
alice = codes "alice"

abbrev bob : Text
bob = codes "bob"

abbrev seeded : Table
seeded = record { actor = alice; delta = pos 100; memo = codes "seed"; idem = codes "s1" } ∷ []

abbrev calls : List BudgetTable.Call
calls =
    BudgetTable.debit_call alice (pos 70) (codes "r1")
    ∷ BudgetTable.debit_call alice (pos 70) (codes "r2")
    ∷ BudgetTable.post_call alice (pos 5) (codes "topup") (codes "t1")
    ∷ []

-- The second debit is refused.
calls_run : budget_balance alice (BudgetTable.perform_all calls seeded) ≡ pos 35
unfolding budget_balance BudgetTable.perform_all same_text cyberware.Prelude.◌+ℤ◌
    cyberware.Prelude.negate cyberware.Settle.Money.Decimal.unary_minus
calls_run = refl

perform_all-Solvent_example :
    neg_part (budget_balance alice (BudgetTable.perform_all calls seeded)) ≡ 0
unfolding budget_balance same_text cyberware.Prelude.◌+ℤ◌ has_digits
perform_all-Solvent_example =
    perform_all-Solvent calls seeded alice ((refl, short), ((refl, short), (refl, tt))) refl
  where
    short : has_digits default_prec (pos 70) ≡ true
    short = refl

not_bob : alice ≢ bob
not_bob h = ground arith

budget_debit_atomic-once_example :
    let t' =
      BudgetTable.perform_all calls
        (BudgetTable.perform (BudgetTable.debit_call alice (pos 60) (codes "r0")) seeded) in
    budget_debit_atomic t' alice (pos 90) (codes "r0")
    ≡ (record { accepted = true; duplicate = true; balance = budget_balance alice t' }, t')
unfolding budget_debit_atomic same_text cyberware.Prelude.◌+ℤ◌
budget_debit_atomic-once_example =
    budget_debit_atomic-once seeded alice (codes "r0") (pos 60) (pos 90) calls refl

rollup-agrees_example :
    let (accounts, fleet) = rollup (BudgetTable.perform_all calls seeded) (alice ∷ bob ∷ []) in
    (map (λ r. r.balance) accounts
      ≡ map (λ a. budget_balance a (BudgetTable.perform_all calls seeded)) (alice ∷ bob ∷ []))
    × (fleet.balance
        ≡ sum
            (map (λ a. budget_balance a (BudgetTable.perform_all calls seeded)) (alice ∷ bob ∷ [])))
    × (fleet.balance ≡ fleet.allowance -ℤ fleet.spent)
rollup-agrees_example = rollup-agrees (BudgetTable.perform_all calls seeded) (alice ∷ bob ∷ [])

try_acquire_pg_example :
    try_acquire_pg (perform_all contention (λ j. none)) (codes "writer") (codes "c") 10 9
    ≡ try_acquire (perform_all contention (λ j. none)) (codes "writer") (codes "c") 10 9
try_acquire_pg_example = try_acquire_pg-eq-try_acquire contention (codes "writer") (codes "c") 10 9
