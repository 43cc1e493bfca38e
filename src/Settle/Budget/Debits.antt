-- ===== src/Settle/Budget/Debits.antt =====
-- A debit takes its price once, and only if the balance covers it.
use cyberware.Prelude.{
  ◌⊎◌, ◌≡◌, ◌≢◌, refl, ◌∙◌, ap, Bool, true, false, ◌||◌, inl, inr, List, [], ◌∷◌, ◌++◌, map,
  pos_part, neg_part, negate, ◌+ℤ◌, ltb_ℤ, taken_nonneg, Text, codes, length, any, any-append,
  text_self, text_ne, Result, ok, err, ok_injective, paid, Bool-cases, arith, int_laws, text_eq,
  pair_eq,
}
use cyberware.Cwp.Chain.{Digests}
use cyberware.Settle.Money.{Money, less}
use cyberware.Settle.Money.Decimal.{default_prec, has_digits, unary_minus}
use cyberware.Settle.Money.Exact.{unary_minus_exact}
use cyberware.Settle.RewardLedger.{
  PostingSet, Posting, Ledger, LedgerError, posting, minus, post, has_memo, balance_of, by_account,
}
use cyberware.Settle.RewardLedger.Balances.{balance_of-post, post-Grown}
use cyberware.Settle.RewardLedger.Conserve.{is_balanced_of_sum}
use cyberware.Settle.RewardLedger.Reached.{Reached, post-Reached}
use cyberware.Settle.Engine.Guards.{Result-cases}
use cyberware.Settle.Budget.{
  credits, account_of, spent_account, balance, is_posted, BudgetStatus, debited, duplicate,
  insufficient_credits, debit, compared,
}

spent-ne-account : (actor : Text) → spent_account actor ≢ account_of actor
unfolding spent_account account_of
spent-ne-account actor h = absurd (omega (arith, ap length h))

-- A posting set that has been posted is found by its memo.
pub post-marks :
    (d : Digests PostingSet) (entries : Ledger) (ps : List Posting) (memo : Text) (after : Ledger)
    → post d entries ps memo ≡ ok after
    → any (has_memo memo) after ≡ true
post-marks d entries ps memo after h =
    let g = post-Grown d entries ps memo after h in
    ap (any (has_memo memo)) g.grown
    ∙ any-append (has_memo memo) entries (g.entry ∷ [])
    ∙ last_marks (any (has_memo memo) entries) _ (g.named memo ∙ text_self memo)
  where
    last_marks : (a b : Bool) → b ≡ true → (a || (b || false)) ≡ true
    last_marks a b h = ground arith

abbrev charge_of : Text → Money → List Posting
charge_of actor price =
    posting (account_of actor) (minus price) ∷ posting (spent_account actor) price ∷ []

module _ (d : Digests PostingSet) (run_id plan_sha : Text) {entries : Ledger}
    (r : Reached d run_id plan_sha entries) (actor idem : Text) (price : Money) where
  less_is :
      (b : Bool)
      → price.currency ≡ credits
      → ltb_ℤ (balance_of (account_of actor) credits entries) price.amount ≡ b
      → less (balance entries actor) price ≡ ok b
  unfolding less balance
  less_is b same e = rw (same, text_self credits, e) refl

  debit_short :
      is_posted entries (codes "bud-usage:") idem ≡ false
      → less (balance entries actor) price ≡ ok true
      → debit d entries actor price idem ≡ ok (insufficient_credits, entries)
  unfolding debit
  debit_short new short = rw (debit, new, short, compared) refl

  debit_covered :
      (after : Ledger)
      → is_posted entries (codes "bud-usage:") idem ≡ false
      → less (balance entries actor) price ≡ ok false
      → post d entries (charge_of actor price) (codes "bud-usage:" ++ idem) ≡ ok after
      → debit d entries actor price idem ≡ ok (debited, after)
  unfolding debit
  debit_covered after new covered posted = rw (debit, new, covered, compared, posted) refl

  -- What a debit that is covered leaves.
  pub record Charged (after : Ledger) : Type 0 where
    pub done : debit d entries actor price idem ≡ ok (debited, after)
    pub reached : Reached d run_id plan_sha after
    pub taken :
        balance_of (account_of actor) credits after
        ≡ balance_of (account_of actor) credits entries +ℤ negate price.amount
    pub solvent : neg_part (balance_of (account_of actor) credits after) ≡ 0
    pub marked : is_posted after (codes "bud-usage:") idem ≡ true

  -- On a reached ledger, a debit in credits of at most 28 digits whose key is new takes exactly its price if the balance
  -- covers it, which leaves a balance that is not negative and the key marked; if the balance is less
  -- than the price, it is refused and nothing is written.
  pub debit-Charged :
      is_posted entries (codes "bud-usage:") idem ≡ false
      → price.currency ≡ credits
      → has_digits default_prec price.amount ≡ true
      → ((ltb_ℤ (balance_of (account_of actor) credits entries) price.amount ≡ true)
          → debit d entries actor price idem ≡ ok (insufficient_credits, entries))
        × ((ltb_ℤ (balance_of (account_of actor) credits entries) price.amount ≡ false)
            → (after : Ledger) × Charged after)
  unfolding is_posted paid
  debit-Charged new same fits = (
    λ short. debit_short new (less_is true same short),
    λ covered.
        let (after, posted, reached) =
          post-Reached d run_id plan_sha (charge_of actor price) (codes "bud-usage:" ++ idem) r (
            is_balanced_of_sum price.currency (charge_of actor price) (refl, (refl, tt))
              (omega (int_laws, ap pos_part exact, ap neg_part exact))) in
        let lower =
          balance_of-post d entries (charge_of actor price) (codes "bud-usage:" ++ idem) after
            (account_of actor) credits posted
          ∙ ap (λ x. balance_of (account_of actor) credits entries +ℤ x) (charged same) in
        (
          after,
          record {
            done = debit_covered after new (less_is false same covered) posted;
            reached = reached;
            taken = lower;
            solvent =
                ap neg_part lower
                ∙ taken_nonneg (balance_of (account_of actor) credits entries) price.amount covered;
            marked =
                post-marks d entries (charge_of actor price) (codes "bud-usage:" ++ idem) after
                  posted;
          },
        ),
  )
    where
      exact : unary_minus price.amount ≡ negate price.amount
      exact = unary_minus_exact price.amount fits

      charged :
          price.currency ≡ credits
          → paid (account_of actor, credits) (map by_account (charge_of actor price))
            ≡ negate price.amount
      charged same =
          rw
            (
              same,
              text_self (account_of actor),
              text_self credits,
              text_ne (spent_account actor) (account_of actor) (spent-ne-account actor),
            )
            (omega (int_laws, ap pos_part exact, ap neg_part exact))

no_error :
    (e : LedgerError) (result : BudgetStatus × Ledger)
    → ◌≡◌ {A = Result LedgerError (BudgetStatus × Ledger)} (err e) (ok result)
    → ⊥
no_error e result h = cc

not_debited :
    (a b : BudgetStatus × Ledger)
    → ◌≡◌ {A = Result LedgerError (BudgetStatus × Ledger)} (ok a) (ok b)
    → b.0 ≡ debited
    → (a.0 ≡ duplicate) ⊎ (a.0 ≡ insufficient_credits)
    → ⊥
not_debited a b h e f = ground arith

-- A debit that was made has been posted.
debited-post :
    (d : Digests PostingSet) (entries : Ledger) (actor idem : Text) (price : Money) (after : Ledger)
    → debit d entries actor price idem ≡ ok (debited, after)
    → post d entries (charge_of actor price) (codes "bud-usage:" ++ idem) ≡ ok after
unfolding debit
debited-post d entries actor idem price after h =
    elim (Bool-cases (is_posted entries (codes "bud-usage:") idem)) [
      | inl spent ↦ absurd (not_debited _ _ (rw (debit, spent) at h) refl (inl refl))
      | inr new ↦ elim (Result-cases (less (balance entries actor) price)) [
        | inr (e, raised) ↦ absurd (no_error _ _ (rw (debit, new, raised, compared) at h))
        | inl (true, short) ↦
            absurd (not_debited _ _ (rw (debit, new, short, compared) at h) refl (inr refl))
        | inl (false, covered) ↦
            elim (Result-cases
              (post d entries (charge_of actor price) (codes "bud-usage:" ++ idem))) [
                | inr (e, raised) ↦
                    absurd (no_error _ _ (rw (debit, new, covered, compared, raised) at h))
                | inl (es, posted) ↦
                    posted
                    ∙ ap ok (
                        ap (λ (p : BudgetStatus × Ledger). p.1)
                          (ok_injective (rw (debit, new, covered, compared, posted) at h)))
              ]
      ]
    ]

-- After a debit was made, and whatever was posted since, a debit with the same key, by any actor and
-- at any price, is answered as a duplicate and writes nothing.
pub debit-once :
    (d : Digests PostingSet) (entries more : Ledger) (actor other idem : Text) (price again : Money)
    (after : Ledger)
    → debit d entries actor price idem ≡ ok (debited, after)
    → debit d (after ++ more) other again idem ≡ ok (duplicate, after ++ more)
unfolding debit is_posted
debit-once d entries more actor other idem price again after h =
    rw (any-append (has_memo (codes "bud-usage:" ++ idem)) after more, marked) refl
  where
    marked : any (has_memo (codes "bud-usage:" ++ idem)) after ≡ true
    marked =
        post-marks d entries (charge_of actor price) (codes "bud-usage:" ++ idem) after
          (debited-post d entries actor idem price after h)
