-- ===== src/Settle/Engine/Drain.antt =====
-- A receipt that passes every check is settled, and its money goes where it should.
use cyberware.Prelude.{
  ℕ, ◌<◌, ◌≡◌, ◌≢◌, refl, ◌∙◌, ap, true, false, some, [], ◌∷◌, ℤ, pos, pos_part, neg_part, negate,
  ◌+ℤ◌, Text, codes, text_self, text_ne, sum, any, ok, paid, text_eq, pair_eq, arith, int_laws,
}
use cyberware.Cwp.Chain.{Digests}
use cyberware.Cwp.Envelope.{Envelope, verify_receipt}
use cyberware.Settle.Money.Split.{is_negative}
use cyberware.Settle.Money.Decimal.{default_prec, has_digits, unary_minus}
use cyberware.Settle.Money.Split.Conserved.{InRange}
use cyberware.Settle.Money.Exact.{unary_minus_exact}
use cyberware.Settle.RewardLedger.{PostingSet, Ledger, escrow_for, balance_of}
use cyberware.Settle.RewardLedger.Balances.{balance_of-post}
use cyberware.Settle.RewardLedger.Conserve.{is_balanced_of_sum}
use cyberware.Settle.RewardLedger.Reached.{Reached, post-Reached}
use cyberware.Settle.RewardLedger.Release.{split_two-conserves}
use cyberware.Settle.Quote.{Quote, Services, verify_quote, is_funded}
use cyberware.Settle.Engine.{
  Outcome, paid_out, is, already_settled, predicate_of, part_of, hold_account, in_currency_of,
  settle_tag, pay, settle_quote, settle,
}
use cyberware.Settle.Engine.Once.{paid_postings}

-- The accounts of a payment are four different ones.
pub fee-ne-escrow : (sha : Text) → codes "fee" ≢ escrow_for sha
unfolding escrow_for
fee-ne-escrow sha h = ground arith

pub payee-ne-escrow : (sha : Text) → codes "payee" ≢ escrow_for sha
unfolding escrow_for
payee-ne-escrow sha h = ground arith

pub hold-ne-escrow : (sha : Text) → hold_account sha ≢ escrow_for sha
unfolding escrow_for hold_account
hold-ne-escrow sha h = ground arith

escrow-ne-hold : (sha : Text) → escrow_for sha ≢ hold_account sha
unfolding escrow_for hold_account
escrow-ne-hold sha h = ground arith

fee-ne-hold : (sha : Text) → codes "fee" ≢ hold_account sha
unfolding hold_account
fee-ne-hold sha h = ground arith

payee-ne-hold : (sha : Text) → codes "payee" ≢ hold_account sha
unfolding hold_account
payee-ne-hold sha h = ground arith

module _ (fraction : ℤ → ℤ → ℤ → ℕ) (x : Services) (d : Digests PostingSet) (run_id plan_sha : Text)
    {entries : Ledger} (r : Reached d run_id plan_sha entries) (q : Quote)
    (hold_weight keep_weight : ℤ)
    (allowed : any is_negative (hold_weight ∷ keep_weight ∷ []) ≡ false)
    (positive : 0 < pos_part (sum (hold_weight ∷ keep_weight ∷ [])))
    (covered : part_of (codes "fee") (pos 0) q.breakdown
        +ℤ part_of (codes "payee") (pos 0) q.breakdown
      ≡ q.amount)
    (range : InRange (part_of (codes "payee") (pos 0) q.breakdown) (hold_weight ∷ keep_weight ∷ []))
    (short : has_digits default_prec q.amount ≡ true) where
  abbrev sha : Text
  sha = x.quote_sha q

  -- What a payment achieves: a reached ledger, an escrow account that is lower by the amount, and a
  -- hold account that is higher by the holdback.
  pub record Settled (result : Outcome × Ledger) : Type 0 where
    pub settled : result.0.settled ≡ true
    pub reached : Reached d run_id plan_sha result.1
    pub drained :
        balance_of (escrow_for sha) q.currency result.1
        ≡ balance_of (escrow_for sha) q.currency entries +ℤ negate q.amount
    pub held :
        balance_of (hold_account sha) q.currency result.1
        ≡ balance_of (hold_account sha) q.currency entries +ℤ result.0.holdback

  pub pay-Settled :
      (result : Outcome × Ledger) × (pay fraction x d entries q hold_weight keep_weight ≡ ok result)
      × Settled result
  unfolding pay paid
  pay-Settled =
      let exact = unary_minus_exact q.amount short in
      let payee_part = in_currency_of q (part_of (codes "payee") (pos 0) q.breakdown) in
      let fee_part = part_of (codes "fee") (pos 0) q.breakdown in
      let (parts, shared, whole, c0, c1) =
        split_two-conserves fraction payee_part hold_weight keep_weight allowed positive range in
      let ps = paid_postings fraction x d entries q hold_weight keep_weight parts in
      let (after, posted, reached) = post-Reached d run_id plan_sha ps (settle_tag sha) r (
        is_balanced_of_sum q.currency ps (refl, (refl, (c1, (c0, tt))))
          (whole_sum q.amount fee_part payee_part.amount parts.0.amount parts.1.amount whole covered
            exact)) in
      (
        (
          record {
            settled = true;
            reason = paid_out;
            amount = q.amount;
            holdback = parts.0.amount;
          },
          after,
        ),
        rw (shared, posted),
        record {
          settled = refl;
          reached = reached;
          drained =
              balance_of-post d entries ps (settle_tag sha) after (escrow_for sha) q.currency posted
              ∙ rw
                  (
                    text_self (escrow_for sha),
                    text_self q.currency,
                    text_ne (codes "fee") (escrow_for sha) (fee-ne-escrow sha),
                    text_ne (codes "payee") (escrow_for sha) (payee-ne-escrow sha),
                    text_ne (hold_account sha) (escrow_for sha) (hold-ne-escrow sha),
                  )
                  (omega (int_laws, ap pos_part exact, ap neg_part exact));
          held =
              balance_of-post d entries ps (settle_tag sha) after (hold_account sha) q.currency
                posted
              ∙ rw
                  (
                    text_ne (escrow_for sha) (hold_account sha) (escrow-ne-hold sha),
                    text_ne (codes "fee") (hold_account sha) (fee-ne-hold sha),
                    text_ne (codes "payee") (hold_account sha) (payee-ne-hold sha),
                    text_self (hold_account sha),
                    c0,
                    text_self q.currency,
                  )
                  (omega int_laws);
        },
      )
    where
      whole_sum :
          (amount fee payee a b : ℤ)
          → a +ℤ b ≡ payee
          → fee +ℤ payee ≡ amount
          → unary_minus amount ≡ negate amount
          → unary_minus amount +ℤ (fee +ℤ (b +ℤ (a +ℤ pos 0))) ≡ pos 0
      whole_sum amount fee payee a b h k e = omega (
        int_laws,
        ap pos_part h,
        ap neg_part h,
        ap pos_part k,
        ap neg_part k,
        ap pos_part e,
        ap neg_part e,
      )

  -- On a reached ledger a receipt is settled if it is dual-signed, says "pass" and names the quote, and
  -- the quote verifies, has not been settled, is funded, and its fee and payee parts make up its amount
  -- (and the two holdback weights can be split by). The amount has at most 28 digits; the payee part is not
  -- negative, and the part in units, plus one, times the sum of the weights has at most 27 digits. The ledger stays a reached one, the quote's escrow
  -- account falls by exactly the amount, and the hold account rises by the holdback that is returned.
  pub settle-Settled :
      (receipt quote_env : Envelope) (exec_pub approver_pub govd_pub : Text)
      → (verify_receipt x.ph_verify x.parse_receipt receipt exec_pub approver_pub).dual_signed
        ≡ true
      → is (predicate_of x receipt).validation (codes "pass") ≡ true
      → verify_quote x quote_env govd_pub ≡ (true, some q)
      → is (predicate_of x receipt).quote_sha sha ≡ true
      → already_settled entries sha ≡ false
      → is_funded x entries quote_env ≡ ok true
      → (result : Outcome × Ledger) × (settle fraction x d entries receipt quote_env exec_pub
            approver_pub govd_pub hold_weight keep_weight
          ≡ ok result)
        × Settled result
  unfolding settle
  settle-Settled receipt quote_env exec_pub approver_pub govd_pub dual passing verified bound
        unspent funded =
      let (result, done, s) = pay-Settled in
      (result, rw (dual, passing, verified, settle_quote, bound, unspent, funded) done, s)
