-- ===== src/Settle/RewardLedger/Release.antt =====
-- Funding and release through an escrow account.
use cyberware.Prelude.{
  ℕ, ◌<◌, ◌≡◌, ◌≢◌, refl, true, ◌∙◌, ap, false, List, [], ◌∷◌, ℤ, pos_part, neg_part, negate, ◌+ℤ◌,
  Text, text_self, text_ne, ok, paid, sum, any, length, int_laws, arith, text_eq, pair_eq,
}
use cyberware.Cwp.Chain.{Digests}
use cyberware.Settle.Money.{Money}
use cyberware.Settle.Money.Split.{split, is_negative}
use cyberware.Settle.Money.Split.Conserved.{InRange, split-conserves, amounts, InCurrency}
use cyberware.Settle.Money.Decimal.{default_prec, has_digits}
use cyberware.Settle.Money.Exact.{unary_minus_exact}
use cyberware.Settle.RewardLedger.{
  PostingSet, Ledger, posting, minus, fund_escrow, split_two, of_split, release, balance_of,
}
use cyberware.Settle.RewardLedger.Balances.{balance_of-post}
use cyberware.Settle.RewardLedger.Conserve.{is_balanced_of_sum}
use cyberware.Settle.RewardLedger.Reached.{Reached, post-Reached}

-- Two accepted weights split a total into two parts of its currency that add up to it.
pub split_two-conserves :
    (fraction : ℤ → ℤ → ℤ → ℕ) (total : Money) (v w : ℤ)
    → any is_negative (v ∷ w ∷ []) ≡ false
    → 0 < pos_part (sum (v ∷ w ∷ []))
    → InRange total.amount (v ∷ w ∷ [])
    → (parts : Money × Money) × (split_two fraction total v w ≡ ok parts)
      × (parts.0.amount +ℤ parts.1.amount ≡ total.amount)
      × (parts.0.currency ≡ total.currency)
      × (parts.1.currency ≡ total.currency)
unfolding split_two
split_two-conserves fraction total v w h p range =
    let (parts, done, whole, size, same) = split-conserves fraction total (v ∷ w ∷ []) h p range in
    two parts done whole size same
  where
    two :
        (parts : List Money)
        → split fraction total (v ∷ w ∷ []) ≡ ok parts
        → sum (amounts parts) ≡ total.amount
        → length parts ≡ 2
        → InCurrency total.currency parts
        → (ab : Money × Money) × (split_two fraction total v w ≡ ok ab)
          × (ab.0.amount +ℤ ab.1.amount ≡ total.amount)
          × (ab.0.currency ≡ total.currency)
          × (ab.1.currency ≡ total.currency)
    two [] done whole size same = absurd (omega arith)
    two (a ∷ []) done whole size same = absurd (omega arith)
    two (a ∷ b ∷ []) done whole size same = (
      (a, b),
      rw (done, split_two, of_split),
      omega (int_laws, ap pos_part whole, ap neg_part whole),
      same.0,
      same.1.0,
    )
    two (a ∷ b ∷ c ∷ rest) done whole size same = absurd (omega arith)

module _ (d : Digests PostingSet) (run_id plan_sha : Text) where
  pub fund_escrow-Reached :
      {es : Ledger} (funder escrow_acct : Text) (amount : Money) (memo : Text)
      → Reached d run_id plan_sha es
      → has_digits default_prec amount.amount ≡ true
      → (after : Ledger) × (fund_escrow d es funder amount escrow_acct memo ≡ ok after)
        × Reached d run_id plan_sha after
  unfolding fund_escrow
  fund_escrow-Reached funder escrow_acct amount memo r short =
      let e = unary_minus_exact amount.amount short in
      post-Reached d run_id plan_sha
        (posting funder (minus amount) ∷ posting escrow_acct amount ∷ []) memo r
        (is_balanced_of_sum amount.currency
          (posting funder (minus amount) ∷ posting escrow_acct amount ∷ []) (refl, (refl, tt))
          (omega (int_laws, ap pos_part e, ap neg_part e)))

  -- On any reached ledger an escrow is released to a fee account and a payee, by two weights of which
  -- none is negative and whose sum is positive, if neither account is the escrow account. The ledger
  -- stays a reached one, and the escrow account falls by exactly the amount, which has at most 28 digits.
  pub release-Reached :
      {es : Ledger} (fraction : ℤ → ℤ → ℤ → ℕ) (payee fee_account escrow_acct : Text)
      (amount : Money) (fee_weight payee_weight : ℤ) (memo : Text)
      → Reached d run_id plan_sha es
      → any is_negative (fee_weight ∷ payee_weight ∷ []) ≡ false
      → 0 < pos_part (sum (fee_weight ∷ payee_weight ∷ []))
      → InRange amount.amount (fee_weight ∷ payee_weight ∷ [])
      → has_digits default_prec amount.amount ≡ true
      → fee_account ≢ escrow_acct
      → payee ≢ escrow_acct
      → (after : Ledger) × (release d fraction es payee fee_account amount fee_weight payee_weight
            memo escrow_acct
          ≡ ok after)
        × Reached d run_id plan_sha after
        × (balance_of escrow_acct amount.currency after
            ≡ balance_of escrow_acct amount.currency es +ℤ negate amount.amount)
  unfolding release paid
  release-Reached {es} fraction payee fee_account escrow_acct amount fee_weight payee_weight memo r
        allowed positive range short fee_apart payee_apart =
      let e = unary_minus_exact amount.amount short in
      let (parts, done, whole, c0, c1) =
        split_two-conserves fraction amount fee_weight payee_weight allowed positive range in
      let ps =
        posting escrow_acct (minus amount)
        ∷ posting fee_account parts.0
        ∷ posting payee parts.1
        ∷ [] in
      let (after, posted, reached) = post-Reached d run_id plan_sha ps memo r (
        is_balanced_of_sum amount.currency ps (refl, (c0, (c1, tt)))
          (omega (int_laws, ap pos_part whole, ap neg_part whole, ap pos_part e, ap neg_part e))) in
      (
        after,
        rw (done, posted),
        reached,
        balance_of-post d es ps memo after escrow_acct amount.currency posted
            ∙ rw
                (
                  text_self escrow_acct,
                  text_self amount.currency,
                  text_ne fee_account escrow_acct fee_apart,
                  text_ne payee escrow_acct payee_apart,
                )
                (omega (int_laws, ap pos_part e, ap neg_part e)),
      )
