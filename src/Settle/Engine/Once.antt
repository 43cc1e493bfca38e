-- ===== src/Settle/Engine/Once.antt =====
-- A quote pays out at most once, whatever is posted in between and whatever receipt is presented.
use cyberware.Prelude.{
  ℕ, ◌≡◌, ◌≢◌, sym, ◌∙◌, ap, Bool, true, false, ◌||◌, some, List, [], ◌∷◌, ◌++◌, ℤ, pos, Text,
  codes, text_self, any, any-append, ok, ok_injective, inl, inr, arith,
}
use cyberware.Cwp.Chain.{Digests}
use cyberware.Cwp.Envelope.{Envelope}
use cyberware.Settle.Money.{Money}
use cyberware.Settle.RewardLedger.{PostingSet, Posting, Ledger, post, split_two, has_memo}
use cyberware.Settle.RewardLedger.Balances.{post-Grown}
use cyberware.Settle.Quote.{Quote, Services, verify_quote}
use cyberware.Settle.Engine.{
  Outcome, settle_tag, already_settled, part_of, payout, in_currency_of, pay, settle,
}
use cyberware.Settle.Engine.Guards.{Result-cases, settle-Decided}

module _ (fraction : ℤ → ℤ → ℤ → ℕ) (x : Services) (d : Digests PostingSet) (entries : Ledger)
    (q : Quote) (hold_weight keep_weight : ℤ) where
  -- What a payment posts, for the two shares of the payee.
  abbrev pub paid_postings : Money × Money → List Posting
  paid_postings parts =
      payout (x.quote_sha q) (in_currency_of q q.amount)
        (in_currency_of q (part_of (codes "fee") (pos 0) q.breakdown)) parts.1 parts.0

  pub pay-post :
      (result : Outcome × Ledger)
      → pay fraction x d entries q hold_weight keep_weight ≡ ok result
      → (parts : Money × Money) × (post d entries (paid_postings parts) (settle_tag (x.quote_sha q))
          ≡ ok result.1)
        × (result.0.settled ≡ true)
  unfolding pay
  pay-post result h =
      elim (Result-cases (
        split_two fraction (in_currency_of q (part_of (codes "payee") (pos 0) q.breakdown))
          hold_weight keep_weight)) [
            | inr (e, raised) ↦ absurd (ground arith)
            | inl (parts, shared) ↦
                elim (Result-cases
                  (post d entries (paid_postings parts) (settle_tag (x.quote_sha q)))) [
                    | inr (e, raised) ↦ absurd (ground arith)
                    | inl (after, posted) ↦
                        let same = ok_injective (rw (shared, posted) at h) in
                        (
                          parts,
                          posted ∙ ap (λ (p : Outcome × Ledger). ok p.1) same,
                          ap (λ (p : Outcome × Ledger). p.0.settled) (sym same),
                        )
                  ]
          ]

  -- A payment leaves its mark, which no later record takes away.
  pub already_settled-pay :
      (result : Outcome × Ledger) (more : Ledger)
      → pay fraction x d entries q hold_weight keep_weight ≡ ok result
      → already_settled (result.1 ++ more) (x.quote_sha q) ≡ true
  unfolding already_settled
  already_settled-pay result more h =
      let (parts, posted, done) = pay-post result h in
      let tag = settle_tag (x.quote_sha q) in
      let g = post-Grown d entries (paid_postings parts) tag result.1 posted in
      let marked : any (has_memo tag) result.1 ≡ true =
        ap (any (has_memo tag)) g.grown
        ∙ any-append (has_memo tag) entries (g.entry ∷ [])
        ∙ last_marks (any (has_memo tag) entries) _ (g.named tag ∙ text_self tag) in
      any-append (has_memo tag) result.1 more ∙ first_marks _ _ marked
    where
      last_marks : (a b : Bool) → b ≡ true → (a || (b || false)) ≡ true
      last_marks a b h = ground arith

      first_marks : (a b : Bool) → a ≡ true → (a || b) ≡ true
      first_marks a b h = ground arith

-- After a settlement has paid, no settlement on that ledger or on one that extends it pays for the
-- same quote: whatever receipt, envelope, keys and weights are presented, a second settlement that
-- pays is of a quote with another digest.
pub settle-once :
    (fraction : ℤ → ℤ → ℤ → ℕ) (x : Services) (d : Digests PostingSet) (entries more : Ledger)
    (receipt quote_env receipt' quote_env' : Envelope)
    (exec_pub approver_pub govd_pub exec_pub' approver_pub' govd_pub' : Text)
    (hold_weight keep_weight hold_weight' keep_weight' : ℤ) (first second : Outcome × Ledger)
    → settle fraction x d entries receipt quote_env exec_pub approver_pub govd_pub hold_weight
        keep_weight
      ≡ ok first
    → first.0.settled ≡ true
    → settle fraction x d
        (first.1 ++ more)
        receipt'
        quote_env'
        exec_pub'
        approver_pub'
        govd_pub'
        hold_weight'
        keep_weight'
      ≡ ok second
    → second.0.settled ≡ true
    → (q q' : Quote) × (verify_quote x quote_env govd_pub ≡ (true, some q))
      × (verify_quote x quote_env' govd_pub' ≡ (true, some q'))
      × (x.quote_sha q ≢ x.quote_sha q')
settle-once fraction x d entries more receipt quote_env receipt' quote_env' exec_pub approver_pub
      govd_pub exec_pub' approver_pub' govd_pub' hold_weight keep_weight hold_weight' keep_weight'
      first second h settled h' settled' =
    elim (settle-Decided fraction x d entries receipt quote_env exec_pub approver_pub govd_pub
      hold_weight keep_weight first h) [
        | inl (refused, same) ↦ absurd (ground arith)
        | inr (q, passed) ↦
            elim (settle-Decided fraction x d (first.1 ++ more) receipt' quote_env' exec_pub'
              approver_pub' govd_pub' hold_weight' keep_weight' second h') [
                | inl (refused, same) ↦ absurd (ground arith)
                | inr (q', passed') ↦ (
                  q,
                  q',
                  passed.verified,
                  passed'.verified,
                  λ same.
                      clash
                        (already_settled-pay fraction x d entries q hold_weight keep_weight first
                          more passed.paid)
                        (ap (already_settled (first.1 ++ more)) same ∙ passed'.unspent),
                )
              ]
      ]
  where
    clash : {b : Bool} → b ≡ true → b ≡ false → ⊥
    clash p r = cc
