-- ===== src/Settle/Engine/Checked.antt =====
-- infra/settle/engine.py: what a settlement shows of its receipt, its quote and the ledger, told without
-- the calls that check it.
use cyberware.Prelude.{
  ℕ, ◌≡◌, sym, ◌∙◌, ap, true, false, Option, none, some, ◌++◌, ℤ, pos, ◌+ℤ◌, ◌≤ℤ◌, Text, codes,
  same_text_iff, text_self, text_ne, any, ok, ok_injective, inl, inr, ◌⊎◌, Option-cases, arith,
  int_laws, paid, text_eq, pair_eq,
}
use cyberware.Cwp.Chain.{Digests}
use cyberware.Cwp.Envelope.{Envelope, Statement, in_toto_type, verify_ph, verify_receipt}
use cyberware.Settle.Money.Decimal.{unary_minus}
use cyberware.Settle.RewardLedger.{PostingSet, Ledger, escrow_for, has_memo, balance_of}
use cyberware.Settle.RewardLedger.Balances.{balance_of-post}
use cyberware.Settle.Quote.{
  Quote, Services, quote_type, breakdown_total, breakdown_balances, holds_amount,
}
use cyberware.Settle.Quote.Funding.{verify_only_if, funded_of}
use cyberware.Settle.Engine.{
  Outcome, is, already_settled, settle_tag, predicate_of, hold_account, settle,
}
use cyberware.Settle.Engine.Guards.{settle-Decided}
use cyberware.Settle.Engine.Once.{paid_postings, pay-post}
use cyberware.Settle.Engine.Drain.{fee-ne-escrow, payee-ne-escrow, hold-ne-escrow}

module _ (fraction : ℤ → ℤ → ℤ → ℕ) (x : Services) (d : Digests PostingSet) (entries : Ledger)
    (receipt quote_env : Envelope) (exec_pub approver_pub govd_pub : Text)
    (hold_weight keep_weight : ℤ) where
  -- A signature of the envelope that verifies under the key, over its type and payload.
  abbrev pub SignedBy : Envelope → Text → Type 0
  SignedBy e key = any (λ s. x.ph_verify e.payload_type e.payload s.sig key) e.signatures ≡ true

  pub record Checked (q : Quote) (result : Outcome × Ledger) : Type 0 where
    pub receipt_typed : receipt.payload_type ≡ in_toto_type
    pub executor : SignedBy receipt exec_pub
    pub approver : SignedBy receipt approver_pub
    pub statement : Statement
    pub stated : x.parse_receipt receipt.payload ≡ some statement
    pub passing : statement.predicate.validation ≡ some (codes "pass")
    pub bound : statement.predicate.quote_sha ≡ some (x.quote_sha q)
    pub quote_typed : quote_env.payload_type ≡ quote_type
    pub quoted : SignedBy quote_env govd_pub
    pub carried : x.parse_quote quote_env.payload ≡ some q
    pub exact : breakdown_total (pos 0) q.breakdown ≡ q.amount
    pub unspent : any (has_memo (codes "settle:quote:" ++ x.quote_sha q)) entries ≡ false
    pub funded : q.amount ≤ℤ balance_of (escrow_for (x.quote_sha q)) q.currency entries
    pub settled : result.0.settled ≡ true
    pub drained :
        balance_of (escrow_for (x.quote_sha q)) q.currency result.1
        ≡ balance_of (escrow_for (x.quote_sha q)) q.currency entries +ℤ unary_minus q.amount

  receipt_signed :
      (verify_receipt x.ph_verify x.parse_receipt receipt exec_pub approver_pub).dual_signed ≡ true
      → (receipt.payload_type ≡ in_toto_type)
        × SignedBy receipt exec_pub
        × SignedBy receipt approver_pub
  unfolding verify_receipt verify_ph
  receipt_signed h = ground (arith, same_text_iff receipt.payload_type in_toto_type)

  is_some : (o : Option Text) (t : Text) → is o t ≡ true → o ≡ some t
  is_some none t h = absurd (ground arith)
  is_some (some s) t h = ap some ((same_text_iff s t).0 h)

  stated_of :
      (sha : Text)
      → is (predicate_of x receipt).validation (codes "pass") ≡ true
      → is (predicate_of x receipt).quote_sha sha ≡ true
      → (st : Statement) × (x.parse_receipt receipt.payload ≡ some st)
        × (st.predicate.validation ≡ some (codes "pass"))
        × (st.predicate.quote_sha ≡ some sha)
  unfolding predicate_of
  stated_of sha h k = elim (Option-cases (x.parse_receipt receipt.payload)) [
    | inl unread ↦ absurd (ground arith)
    | inr (st, read) ↦ (
      st,
      read,
      is_some st.predicate.validation (codes "pass") (rw read at h),
      is_some st.predicate.quote_sha sha (rw read at k),
    )
  ]

  quote_total :
      (q : Quote) → breakdown_balances q ≡ true → breakdown_total (pos 0) q.breakdown ≡ q.amount
  unfolding breakdown_balances
  quote_total q h = ground arith

  quote_covered :
      (q : Quote)
      → holds_amount x entries q ≡ true
      → q.amount ≤ℤ balance_of (escrow_for (x.quote_sha q)) q.currency entries
  unfolding holds_amount
  quote_covered q h = ground arith

  -- A call of `settle` that returns has either settled nothing and left the ledger as it was, or it has
  -- paid for a quote of which all this holds: the receipt is signed under the executor's key and under the
  -- approver's and states "pass" and the quote's digest, the quote is signed under govd's key and adds up to
  -- its amount, no record of the ledger settles it, its escrow account held the amount, and now holds less
  -- by the amount, as unary minus rounds it.
  pub settle-Checked :
      (result : Outcome × Ledger)
      → settle fraction x d entries receipt quote_env exec_pub approver_pub govd_pub hold_weight
          keep_weight
        ≡ ok result
      → ((result.0.settled ≡ false) × (result.1 ≡ entries)) ⊎ ((q : Quote) × Checked q result)
  unfolding already_settled settle_tag verify_ph paid
  settle-Checked result h =
      elim (settle-Decided fraction x d entries receipt quote_env exec_pub approver_pub govd_pub
        hold_weight keep_weight result h) [
          | inl untouched ↦ inl untouched
          | inr (q, p) ↦
              let sha = x.quote_sha q in
              let (typed, executor, approver) = receipt_signed p.dual in
              let (statement, stated, passing, bound) = stated_of sha p.passing p.bound in
              let (quote_typed, quoted, carried, exact) =
                verify_only_if x quote_env entries sha govd_pub q p.verified in
              let (parts, posted, done) =
                pay-post fraction x d entries q hold_weight keep_weight result p.paid in
              inr (
                q,
                record {
                  receipt_typed = typed;
                  executor = executor;
                  approver = approver;
                  statement = statement;
                  stated = stated;
                  passing = passing;
                  bound = bound;
                  quote_typed = quote_typed;
                  quoted = quoted;
                  carried = carried;
                  exact = quote_total q exact;
                  unspent = p.unspent;
                  funded = quote_covered q (
                      ok_injective
                        (sym (funded_of x quote_env entries sha govd_pub q carried) ∙ p.funded));
                  settled = done;
                  drained =
                      balance_of-post d entries
                        (paid_postings fraction x d entries q hold_weight keep_weight parts)
                        (settle_tag sha) result.1 (escrow_for sha) q.currency posted
                      ∙ rw
                          (
                            text_self (escrow_for sha),
                            text_self q.currency,
                            text_ne (codes "fee") (escrow_for sha) (fee-ne-escrow sha),
                            text_ne (codes "payee") (escrow_for sha) (payee-ne-escrow sha),
                            text_ne (hold_account sha) (escrow_for sha) (hold-ne-escrow sha),
                          )
                          (omega int_laws);
                },
              )
        ]
