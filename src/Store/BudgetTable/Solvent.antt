-- ===== src/Store/BudgetTable/Solvent.antt =====
-- The credit budget cannot be overdrawn, and the callers' accounts do not touch one another.
use cyberware.Prelude.{
  ◌≡◌, ◌≢◌, refl, sym, ◌∙◌, inl, inr, ◌⊎◌, All, ap, List, [], ◌∷◌, ◌++◌, ℤ, pos, neg_part, ◌+ℤ◌,
  true, ltb_ℤ, Text, same_text, same_text_iff, text_ne, Bool-cases, if◌then◌else◌, add_nonneg,
  taken_nonneg,
}
use cyberware.Settle.Money.Decimal.{default_prec, has_digits}
use cyberware.Settle.Money.Exact.{unary_minus_exact}
use cyberware.Store.BudgetTable.{
  BudgetRow, Table, rows_of, budget_sum, budget_balance, is_duplicate, budget_post, debit_row,
  budget_debit_atomic, Call, post_call, debit_call, perform, perform_all,
}

sum-snoc :
    (b : ℤ) (t : Table) (r : BudgetRow) → budget_sum b (t ++ r ∷ []) ≡ budget_sum b t +ℤ r.delta
unfolding budget_sum
sum-snoc b [] r = refl
sum-snoc b (x ∷ t) r = sum-snoc (b +ℤ x.delta) t r

rows_of-snoc :
    (a : Text) (t : Table) (r : BudgetRow)
    → rows_of a (t ++ r ∷ []) ≡ (if same_text r.actor a then rows_of a t ++ r ∷ [] else rows_of a t)
unfolding rows_of
rows_of-snoc a [] r = refl
rows_of-snoc a (x ∷ t) r = elim (Bool-cases (same_text x.actor a)) [
  | inl mine ↦ elim (Bool-cases (same_text r.actor a)) [
    | inl h ↦ rw (mine, rows_of-snoc a t r, h) refl
    | inr h ↦ rw (mine, rows_of-snoc a t r, h) refl
  ]
  | inr other ↦ rw (other, rows_of-snoc a t r) refl
]

-- A new row adds its amount to its actor's balance, and to no other.
pub budget_balance-snoc :
    (a : Text) (t : Table) (r : BudgetRow)
    → budget_balance a (t ++ r ∷ [])
      ≡ (if same_text r.actor a then budget_balance a t +ℤ r.delta else budget_balance a t)
unfolding budget_balance
budget_balance-snoc a t r = elim (Bool-cases (same_text r.actor a)) [
  | inl mine ↦ rw (rows_of-snoc a t r, mine) (sum-snoc (pos 0) (rows_of a t) r)
  | inr other ↦ rw (rows_of-snoc a t r, other) refl
]

-- Posts credit, and prices are not negative and have at most 28 digits.
abbrev pub NonNegative : Call → Type 0
NonNegative (post_call actor delta memo idem) = neg_part delta ≡ 0
NonNegative (debit_call actor price idem) =
    (neg_part price ≡ 0) × (has_digits default_prec price ≡ true)

abbrev pub AllNonNegative : List Call → Type 0
AllNonNegative [] = Unit
AllNonNegative (c ∷ cs) = NonNegative c × AllNonNegative cs

abbrev pub actor_of : Call → Text
actor_of (post_call actor delta memo idem) = actor
actor_of (debit_call actor price idem) = actor

-- A call leaves the table, or adds one row of its own actor; a debit's row is covered.
pub perform-cases :
    (c : Call) (t : Table)
    → (perform c t ≡ t)
      ⊎ ((r : BudgetRow) × (perform c t ≡ t ++ r ∷ [])
          × (r.actor ≡ actor_of c)
          × (NonNegative c
              → neg_part (budget_balance (actor_of c) t) ≡ 0
              → neg_part (budget_balance (actor_of c) t +ℤ r.delta) ≡ 0))
unfolding perform budget_post budget_debit_atomic
perform-cases (post_call actor delta memo idem) t = elim (Bool-cases (is_duplicate actor idem t)) [
  | inl dup ↦ inl (rw (perform, budget_post, dup) refl)
  | inr new ↦ inr (
    record { actor = actor; delta = delta; memo = memo; idem = idem },
    rw (perform, budget_post, new) refl,
    refl,
    λ n h. (add_nonneg (budget_balance actor t) delta h n).0,
  )
]
perform-cases (debit_call actor price idem) t = elim (Bool-cases (is_duplicate actor idem t)) [
  | inl dup ↦ inl (rw (perform, budget_debit_atomic, dup) refl)
  | inr new ↦ elim (Bool-cases (ltb_ℤ (budget_balance actor t) price)) [
    | inl short ↦ inl (rw (perform, budget_debit_atomic, new, short) refl)
    | inr covered ↦ inr (
      debit_row actor price idem,
      rw (perform, budget_debit_atomic, new, covered) refl,
      refl,
      λ n h.
          ap (λ x. neg_part (budget_balance actor t +ℤ x)) (unary_minus_exact price n.1)
          ∙ taken_nonneg (budget_balance actor t) price covered,
    )
  ]
]

perform-Solvent :
    (c : Call) (t : Table) (a : Text)
    → NonNegative c
    → neg_part (budget_balance a t) ≡ 0
    → neg_part (budget_balance a (perform c t)) ≡ 0
perform-Solvent c t a n h = elim (perform-cases c t) [
  | inl same ↦ rw same h
  | inr (r, grown, own, covered) ↦
      rw (grown, budget_balance-snoc a t r)
        (elim (Bool-cases (same_text r.actor a)) [
          | inl mine ↦
              rw mine (at_actor (sym own ∙ (same_text_iff r.actor a).0 mine) r.delta (covered n))
          | inr other ↦ rw other h
        ])
]
  where
    at_actor :
        actor_of c ≡ a
        → (δ : ℤ)
        → (neg_part (budget_balance (actor_of c) t) ≡ 0
            → neg_part (budget_balance (actor_of c) t +ℤ δ) ≡ 0)
        → neg_part (budget_balance a t +ℤ δ) ≡ 0
    at_actor e δ f = rw (sym e) (f (rw e h))

-- Whatever sequence of posts of credit and of debits is run on the table, with prices of at most 28
-- digits, no actor's balance becomes negative.
pub perform_all-Solvent :
    (cs : List Call) (t : Table) (a : Text)
    → AllNonNegative cs
    → neg_part (budget_balance a t) ≡ 0
    → neg_part (budget_balance a (perform_all cs t)) ≡ 0
unfolding perform_all
perform_all-Solvent [] t a n h = h
perform_all-Solvent (c ∷ cs) t a n h =
    perform_all-Solvent cs (perform c t) a n.1 (perform-Solvent c t a n.0 h)

-- Calls on other actors' budgets leave the balance of an actor, whatever they post.
pub perform_all-isolated :
    (cs : List Call) (t : Table) (a : Text)
    → All (λ c. actor_of c ≢ a) cs
    → budget_balance a (perform_all cs t) ≡ budget_balance a t
unfolding perform_all
perform_all-isolated [] t a apart = refl
perform_all-isolated (c ∷ cs) t a apart =
    perform_all-isolated cs (perform c t) a apart.1 ∙ once (perform-cases c t)
  where
    once :
        (perform c t ≡ t)
          ⊎ ((r : BudgetRow) × (perform c t ≡ t ++ r ∷ [])
              × (r.actor ≡ actor_of c)
              × (NonNegative c
                  → neg_part (budget_balance (actor_of c) t) ≡ 0
                  → neg_part (budget_balance (actor_of c) t +ℤ r.delta) ≡ 0))
        → budget_balance a (perform c t) ≡ budget_balance a t
    once (inl same) = ap (budget_balance a) same
    once (inr (r, grown, own, covered)) =
        rw (grown, budget_balance-snoc a t r, own, text_ne (actor_of c) a apart.0) refl
