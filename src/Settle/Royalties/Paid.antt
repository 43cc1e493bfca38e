-- ===== src/Settle/Royalties/Paid.antt =====
-- infra/settle/royalties.py: what a publish does to the reward ledger.
use cyberware.Prelude.{
  ℕ, ◌<◌, ◌≡◌, ◌≢◌, refl, true, ◌∙◌, ap, false, [], ◌∷◌, ◌++◌, ℤ, pos_part, neg_part, ◌+ℤ◌, Text,
  codes, text_self, text_ne, ok, paid, sum, any, int_laws, arith, text_eq, pair_eq,
}
use cyberware.Cwp.Chain.{Digests}
use cyberware.Cwp.Alchemy.{
  PublishGate, citrinitas_clean, conservation_defect, unnamed_shape, cfg_mismatch,
}
use cyberware.Settle.Money.{Money}
use cyberware.Settle.Money.Split.{is_negative}
use cyberware.Settle.Money.Decimal.{default_prec, has_digits}
use cyberware.Settle.Money.Split.Conserved.{InRange}
use cyberware.Settle.Money.Exact.{unary_minus_exact}
use cyberware.Settle.RewardLedger.{PostingSet, Ledger, posting, minus}
use cyberware.Settle.RewardLedger.Balances.{balance_of-post}
use cyberware.Settle.RewardLedger.Conserve.{is_balanced_of_sum}
use cyberware.Settle.RewardLedger.Reached.{Reached, post-Reached}
use cyberware.Settle.RewardLedger.Release.{split_two-conserves}
use cyberware.Settle.Royalties.{
  alchemy_lineage, publish_revenue, blocked, published, pay_royalty, publish_with_royalty,
  lineage_total,
}

module _ (d : Digests PostingSet) (run_id plan_sha : Text) {es : Ledger}
    (r : Reached d run_id plan_sha es) (fraction : ℤ → ℤ → ℤ → ℕ) (publisher : Text)
    (revenue : Money) (royalty_weight keep_weight : ℤ) where
  -- On any reached ledger, an admitted publish is paid, by two weights of which none is negative and whose
  -- sum is positive, to a publisher that is not the lineage, within the digits
  -- that a split keeps: the two parts add up to the revenue, the ledger
  -- stays a reached one, and the total of the lineage grows by exactly the royalty.
  pub publish_with_royalty-Reached :
      any is_negative (royalty_weight ∷ keep_weight ∷ []) ≡ false
      → 0 < pos_part (sum (royalty_weight ∷ keep_weight ∷ []))
      → InRange revenue.amount (royalty_weight ∷ keep_weight ∷ [])
      → has_digits default_prec revenue.amount ≡ true
      → publisher ≢ alchemy_lineage
      → (royalty : Money) × (kept : Money) × (after : Ledger) × (publish_with_royalty d fraction es
            publisher citrinitas_clean revenue royalty_weight keep_weight
          ≡ ok (published royalty kept, after))
        × (royalty.amount +ℤ kept.amount ≡ revenue.amount)
        × Reached d run_id plan_sha after
        × (lineage_total after revenue.currency
            ≡ lineage_total es revenue.currency +ℤ royalty.amount)
  unfolding publish_with_royalty pay_royalty lineage_total paid
  publish_with_royalty-Reached allowed positive range short apart =
      let e = unary_minus_exact revenue.amount short in
      let (parts, done, whole, c0, c1) =
        split_two-conserves fraction revenue royalty_weight keep_weight allowed positive range in
      let memo = codes "lineage-royalty:" ++ publisher in
      let ps =
        posting publish_revenue (minus revenue)
        ∷ posting alchemy_lineage parts.0
        ∷ posting publisher parts.1
        ∷ [] in
      let (after, posted, reached) = post-Reached d run_id plan_sha ps memo r (
        is_balanced_of_sum revenue.currency ps (refl, (c0, (c1, tt)))
          (omega (int_laws, ap pos_part whole, ap neg_part whole, ap pos_part e, ap neg_part e))) in
      (
        parts.0,
        parts.1,
        after,
        rw (done, posted) refl,
        whole,
        reached,
        balance_of-post d es ps memo after alchemy_lineage revenue.currency posted
            ∙ rw
                (
                  text_ne publish_revenue alchemy_lineage revenue_apart,
                  text_self alchemy_lineage,
                  c0,
                  text_self revenue.currency,
                  text_ne publisher alchemy_lineage apart,
                )
                (omega int_laws),
      )
    where
      revenue_apart : publish_revenue ≢ alchemy_lineage
      revenue_apart h = ground arith

  -- Whatever the reason of a block, nothing is posted.
  pub blocked-Unpaid :
      (reason : PublishGate)
      → reason ≢ citrinitas_clean
      → publish_with_royalty d fraction es publisher reason revenue royalty_weight keep_weight
        ≡ ok (blocked reason, es)
  unfolding publish_with_royalty
  blocked-Unpaid citrinitas_clean h = absurd (h refl)
  blocked-Unpaid conservation_defect h = refl
  blocked-Unpaid unnamed_shape h = refl
  blocked-Unpaid cfg_mismatch h = refl
