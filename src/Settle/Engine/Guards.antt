-- ===== src/Settle/Engine/Guards.antt =====
-- What a settlement has passed, and that a refusal writes nothing.
use cyberware.Prelude.{
  ℕ, ◌≡◌, refl, Bool, true, false, Option, none, some, ℤ, Text, codes, Result, ok, err,
  ok_injective, Bool-cases, inl, inr, ◌⊎◌, arith, sym, ap,
}
use cyberware.Cwp.Chain.{Digests}
use cyberware.Cwp.Envelope.{Envelope, verify_receipt}
use cyberware.Settle.RewardLedger.{PostingSet, Ledger, LedgerError}
use cyberware.Settle.Quote.{Quote, Services, verify_quote, is_funded}
use cyberware.Settle.Engine.{
  Outcome, Reason, quote_invalid, quote_unbound, quote_already_settled, quote_unfunded,
  not_dual_signed, validation_not_pass, refusal, is, already_settled, predicate_of, pay,
  settle_quote, settle,
}

pub Result-cases :
    {E A : Type 0} (r : Result E A) → ((a : A) × (r ≡ ok a)) ⊎ ((e : E) × (r ≡ err e))
Result-cases (ok a) = inl (a, refl)
Result-cases (err e) = inr (e, refl)

module _ (fraction : ℤ → ℤ → ℤ → ℕ) (x : Services) (d : Digests PostingSet) (entries : Ledger)
    (receipt quote_env : Envelope) (exec_pub approver_pub govd_pub : Text)
    (hold_weight keep_weight : ℤ) where
  abbrev pub settlement : Result LedgerError (Outcome × Ledger)
  settlement =
      settle fraction x d entries receipt quote_env exec_pub approver_pub govd_pub hold_weight
        keep_weight

  -- What was checked of a receipt and a quote, and that the rest is the payment.
  pub record Passed (q : Quote) (result : Outcome × Ledger) : Type 0 where
    pub dual :
        (verify_receipt x.ph_verify x.parse_receipt receipt exec_pub approver_pub).dual_signed
        ≡ true
    pub passing : is (predicate_of x receipt).validation (codes "pass") ≡ true
    pub verified : verify_quote x quote_env govd_pub ≡ (true, some q)
    pub bound : is (predicate_of x receipt).quote_sha (x.quote_sha q) ≡ true
    pub unspent : already_settled entries (x.quote_sha q) ≡ false
    pub funded : is_funded x entries quote_env ≡ ok true
    pub paid : pay fraction x d entries q hold_weight keep_weight ≡ ok result

  -- Either nothing is written, or every check was passed.
  abbrev pub Decided : Outcome × Ledger → Type 0
  Decided result =
      ((result.0.settled ≡ false) × (result.1 ≡ entries)) ⊎ ((q : Quote) × Passed q result)

  refused :
      (r : Reason) (result : Outcome × Ledger)
      → ◌≡◌ {A = Result LedgerError (Outcome × Ledger)} (ok (refusal r, entries)) (ok result)
      → Decided result
  refused r result h =
      let same = ok_injective h in
      inl (
        ap (λ (p : Outcome × Ledger). p.0.settled) (sym same),
        ap (λ (p : Outcome × Ledger). p.1) (sym same),
      )

  quote-Decided :
      (r : Bool × Option Quote) (result : Outcome × Ledger)
      → (verify_receipt x.ph_verify x.parse_receipt receipt exec_pub approver_pub).dual_signed
        ≡ true
      → is (predicate_of x receipt).validation (codes "pass") ≡ true
      → verify_quote x quote_env govd_pub ≡ r
      → settle_quote fraction x d entries
          (predicate_of x receipt)
          quote_env
          hold_weight
          keep_weight
          r
        ≡ ok result
      → Decided result
  unfolding settle_quote
  quote-Decided (false, q) result dual passing verified h = refused quote_invalid result h
  quote-Decided (true, none) result dual passing verified h = refused quote_invalid result h
  quote-Decided (true, some q) result dual passing verified h =
      elim (Bool-cases (is (predicate_of x receipt).quote_sha (x.quote_sha q))) [
        | inr loose ↦ refused quote_unbound result (rw loose at h)
        | inl bound ↦ elim (Bool-cases (already_settled entries (x.quote_sha q))) [
          | inl spent ↦ refused quote_already_settled result (rw (bound, spent) at h)
          | inr unspent ↦ elim (Result-cases (is_funded x entries quote_env)) [
            | inr (e, raised) ↦ absurd (ground arith)
            | inl (true, funded) ↦ inr (
              q,
              record {
                dual = dual;
                passing = passing;
                verified = verified;
                bound = bound;
                unspent = unspent;
                funded = funded;
                paid = rw (bound, unspent, funded) at h;
              },
            )
            | inl (false, short) ↦ refused quote_unfunded result (rw (bound, unspent, short) at h)
          ]
        ]
      ]

  -- A call of `settle` that returns has either settled nothing and left the ledger as it was, or it has
  -- found both signatures of the receipt, its verdict "pass", the quote verified under govd's key and
  -- named by the receipt, no earlier settlement of that quote and the quote funded, and then paid.
  pub settle-Decided : (result : Outcome × Ledger) → settlement ≡ ok result → Decided result
  unfolding settle
  settle-Decided result h =
      elim (Bool-cases
        (verify_receipt x.ph_verify x.parse_receipt receipt exec_pub approver_pub).dual_signed) [
          | inr unsigned ↦ refused not_dual_signed result (rw unsigned at h)
          | inl dual ↦ elim (Bool-cases (is (predicate_of x receipt).validation (codes "pass"))) [
            | inr failing ↦ refused validation_not_pass result (rw (dual, failing) at h)
            | inl passing ↦
                quote-Decided (verify_quote x quote_env govd_pub) result dual passing refl
                  (rw (dual, passing) at h)
          ]
        ]
