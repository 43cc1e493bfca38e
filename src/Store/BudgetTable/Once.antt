-- ===== src/Store/BudgetTable/Once.antt =====
-- A charge is taken once for each idempotency key.
use cyberware.Prelude.{
  ◌≡◌, refl, Bool, true, false, ◌||◌, inl, inr, List, [], ◌∷◌, ◌++◌, ℤ, negate, ◌+ℤ◌, ◌-ℤ◌, ltb_ℤ,
  Text, text_self, any, any-append, Bool-cases, if◌then◌else◌, int_laws, arith,
}
use cyberware.Settle.Money.Decimal.{default_prec, has_digits}
use cyberware.Settle.Money.Exact.{unary_minus_exact}
use cyberware.Store.BudgetTable.{
  BudgetRow, Table, budget_balance, is_row, is_duplicate, debit_row, budget_debit_atomic, Call,
  debit_call, perform, perform_all,
}
use cyberware.Store.BudgetTable.Solvent.{budget_balance-snoc, perform-cases}

is_duplicate-snoc :
    (a i : Text) (t : Table) (r : BudgetRow)
    → is_duplicate a i t ≡ true
    → is_duplicate a i (t ++ r ∷ []) ≡ true
unfolding is_duplicate
is_duplicate-snoc a i t r h = ground (arith, any-append (is_row a i) t (r ∷ []))

perform-keeps_key :
    (c : Call) (a i : Text) (t : Table)
    → is_duplicate a i t ≡ true
    → is_duplicate a i (perform c t) ≡ true
perform-keeps_key c a i t h = elim (perform-cases c t) [
  | inl same ↦ rw same h
  | inr (r, grown, own, covered) ↦ rw grown (is_duplicate-snoc a i t r h)
]

perform_all-keeps_key :
    (cs : List Call) (a i : Text) (t : Table)
    → is_duplicate a i t ≡ true
    → is_duplicate a i (perform_all cs t) ≡ true
unfolding perform_all
perform_all-keeps_key [] a i t h = h
perform_all-keeps_key (c ∷ cs) a i t h =
    perform_all-keeps_key cs a i (perform c t) (perform-keeps_key c a i t h)

debit_new-is_duplicate :
    (t : Table) (a i : Text) (price : ℤ) → is_duplicate a i (t ++ debit_row a price i ∷ []) ≡ true
unfolding is_duplicate
debit_new-is_duplicate t a i price =
    rw (any-append (is_row a i) t (debit_row a price i ∷ []), text_self a, text_self i)
      (or_true (any (is_row a i) t))
  where
    or_true : (b : Bool) → (b || true) ≡ true
    or_true true = refl
    or_true false = refl

-- A debit of at most 28 digits whose key is new takes the price exactly when the balance covers it, and otherwise changes
-- nothing; the balance it answers is the balance of the table that it leaves.
pub budget_debit_atomic-new :
    (t : Table) (a i : Text) (price : ℤ)
    → is_duplicate a i t ≡ false
    → has_digits default_prec price ≡ true
    → let (answer, t') = budget_debit_atomic t a price i in
      (answer.accepted ≡ (if ltb_ℤ (budget_balance a t) price then false else true))
      × (answer.balance ≡ budget_balance a t')
      × (budget_balance a t'
          ≡ (if answer.accepted then budget_balance a t -ℤ price else budget_balance a t))
unfolding budget_debit_atomic
budget_debit_atomic-new t a i price new short =
    elim (Bool-cases (ltb_ℤ (budget_balance a t) price)) [
      | inl short ↦ rw (new, short) (refl, refl, refl)
      | inr covered ↦
          rw
            (
              new,
              covered,
              budget_balance-snoc a t (debit_row a price i),
              text_self a,
              unary_minus_exact price short,
            )
            (refl, minus_is (budget_balance a t) price, plus_is (budget_balance a t) price)
    ]
  where
    minus_is : (b p : ℤ) → b -ℤ p ≡ b +ℤ negate p
    minus_is b p = omega int_laws

    plus_is : (b p : ℤ) → b +ℤ negate p ≡ b -ℤ p
    plus_is b p = omega int_laws

debited-is_duplicate :
    (t : Table) (a i : Text) (price : ℤ)
    → (budget_debit_atomic t a price i).0.accepted ≡ true
    → is_duplicate a i (perform (debit_call a price i) t) ≡ true
unfolding perform budget_debit_atomic
debited-is_duplicate t a i price taken = elim (Bool-cases (is_duplicate a i t)) [
  | inl dup ↦ rw (perform, budget_debit_atomic, dup) dup
  | inr new ↦ elim (Bool-cases (ltb_ℤ (budget_balance a t) price)) [
    | inl short ↦ absurd (ground arith)
    | inr covered ↦
        rw (perform, budget_debit_atomic, new, covered) (debit_new-is_duplicate t a i price)
  ]
]

-- After an accepted debit, and whatever calls follow it, a debit with the same key, of any price, is
-- answered as an accepted duplicate and leaves the table as it is.
pub budget_debit_atomic-once :
    (t : Table) (a i : Text) (price again : ℤ) (cs : List Call)
    → (budget_debit_atomic t a price i).0.accepted ≡ true
    → let t' = perform_all cs (perform (debit_call a price i) t) in
      budget_debit_atomic t' a again i
      ≡ (record { accepted = true; duplicate = true; balance = budget_balance a t' }, t')
unfolding budget_debit_atomic
budget_debit_atomic-once t a i price again cs taken =
    rw
      (perform_all-keeps_key cs a i (perform (debit_call a price i) t)
        (debited-is_duplicate t a i price taken))
      refl
