-- ===== src/Store/BudgetTable/Report.antt =====
-- The accounting that `rollup` reports agrees with the balances that the gate reads.
use cyberware.Prelude.{
  ℕ, ◌≡◌, refl, ◌∙◌, Bool, true, false, List, [], ◌∷◌, map, ℤ, pos, ◌+ℤ◌, ◌-ℤ◌, Text, if◌then◌else◌,
  int_laws, pos_part, neg_part, sum, ap,
}
use cyberware.Store.BudgetTable.{
  Table, rows_of, budget_sum, budget_balance, Account, is_usage, account_loop, account_report,
  Fleet, fleet_loop, rollup,
}

sum-shift : (b x : ℤ) (t : Table) → budget_sum (b +ℤ x) t ≡ budget_sum b t +ℤ x
unfolding budget_sum
sum-shift b x [] = refl
sum-shift b x (r ∷ t) = rw (swap r.delta) (sum-shift (b +ℤ r.delta) x t)
  where
    swap : (δ : ℤ) → b +ℤ x +ℤ δ ≡ b +ℤ δ +ℤ x
    swap δ = omega int_laws

loop-balance :
    (t : Table) (a : Text) (c d : ℤ) (n : ℕ)
    → (account_loop c d n a t).balance ≡ budget_sum (c -ℤ d) t
unfolding account_loop budget_sum
loop-balance [] a c d n = refl
loop-balance (r ∷ t) a c d n =
    loop-balance t a _ _ _ ∙ ap (λ b. budget_sum b t) (net (is_usage r) r.delta)
  where
    net : (u : Bool) (δ : ℤ) → (if u then c else c +ℤ δ) -ℤ (if u then d -ℤ δ else d) ≡ c -ℤ d +ℤ δ
    net true δ = omega int_laws
    net false δ = omega int_laws

pub account_report-balance :
    (t : Table) (a : Text) → (account_report t a).balance ≡ budget_balance a t
unfolding account_report budget_balance ◌-ℤ◌
account_report-balance t a = loop-balance (rows_of a t) a (pos 0) (pos 0) 0

balances-map :
    (t : Table) (actors : List Text)
    → map (λ r. r.balance) (map (account_report t) actors) ≡ map (λ a. budget_balance a t) actors
balances-map t [] = refl
balances-map t (a ∷ as') = rw (account_report-balance t a, balances-map t as') refl

fleet-balance :
    (rs : List Account) (f : Fleet)
    → (fleet_loop f rs).balance ≡ f.balance +ℤ sum (map (λ r. r.balance) rs)
unfolding fleet_loop
fleet-balance [] f = omega int_laws
fleet-balance (r ∷ rs) f = fleet-balance rs _ ∙ assoc f.balance r.balance _
  where
    assoc : (x y z : ℤ) → x +ℤ y +ℤ z ≡ x +ℤ (y +ℤ z)
    assoc x y z = omega int_laws

loop-net :
    (t : Table) (a : Text) (c d : ℤ) (n : ℕ)
    → let r = account_loop c d n a t in r.balance ≡ r.credited -ℤ r.debited
unfolding account_loop
loop-net [] a c d n = refl
loop-net (r ∷ t) a c d n = loop-net t a _ _ _

account_report-net :
    (t : Table) (a : Text)
    → (account_report t a).balance ≡ (account_report t a).credited -ℤ (account_report t a).debited
unfolding account_report
account_report-net t a = loop-net (rows_of a t) a (pos 0) (pos 0) 0

fleet-net :
    (actors : List Text) (t : Table) (f : Fleet)
    → f.balance ≡ f.allowance -ℤ f.spent
    → let g = fleet_loop f (map (account_report t) actors) in g.balance ≡ g.allowance -ℤ g.spent
unfolding fleet_loop
fleet-net [] t f h = h
fleet-net (a ∷ as') t f h = fleet-net as' t _ (
    regroup f.balance f.allowance f.spent (account_report t a).balance _ _ h
      (account_report-net t a))
  where
    regroup : (x p q y c d : ℤ) → x ≡ p -ℤ q → y ≡ c -ℤ d → x +ℤ y ≡ p +ℤ c -ℤ (q +ℤ d)
    regroup x p q y c d h k =
        omega (int_laws, ap pos_part h, ap neg_part h, ap pos_part k, ap neg_part k)

-- In a report, the balance of each actor is the balance that the gate reads from the table, the
-- fleet's balance is the sum of these, and it is what the fleet was allowed less what it spent.
pub rollup-agrees :
    (t : Table) (actors : List Text)
    → let (accounts, fleet) = rollup t actors in
      (map (λ r. r.balance) accounts ≡ map (λ a. budget_balance a t) actors)
      × (fleet.balance ≡ sum (map (λ a. budget_balance a t) actors))
      × (fleet.balance ≡ fleet.allowance -ℤ fleet.spent)
unfolding rollup
rollup-agrees t actors = (
  balances-map t actors,
  fleet-balance (map (account_report t) actors)
        (record { allowance = pos 0; spent = pos 0; balance = pos 0 })
      ∙ rw (balances-map t actors) (zero_left (sum (map (λ a. budget_balance a t) actors))),
  fleet-net actors t (record { allowance = pos 0; spent = pos 0; balance = pos 0 })
      (omega int_laws),
)
  where
    zero_left : (x : ℤ) → pos 0 +ℤ x ≡ x
    zero_left x = omega int_laws
