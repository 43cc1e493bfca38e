-- ===== src/Tests/Settle/Payouts.antt =====
-- Tests of the settlement engine on the ledgers of the module above.
use cyberware.Prelude.{
  ◌⊎◌, ℕ, suc, ◌+◌, ◌<◌, ◌≤◌, ◌≡◌, ◌≢◌, ◌↔◌, refl, Bool, true, false, Option, none, some, List, [],
  ◌∷◌, ◌++◌, map, length, any, ℤ, pos, negsuc, negate, ◌+ℤ◌, ◌-ℤ◌, ◌≤ℤ◌, sum, pos_part, Text, codes,
  same_text, Result, ok, err, arith, text_eq, pair_eq, paid,
}
use cyberware.Cwp.Chain.{
  text, Link, object, Digests, is_text, zero_root, truthy, current_major, verify_chain,
}
use cyberware.Cwp.Envelope.{Signature, Envelope, Predicate, Statement, verify_receipt, in_toto_type}
use cyberware.Settle.Money.{Money}
use cyberware.Settle.RewardLedger.{
  Posting, PostingSet, Ledger, LedgerError, posting, minus, by_currency, by_account, escrow_for,
  open_ledger, is_balanced, post, fund_escrow, release, global_zero, balance_of,
}
use cyberware.Settle.Quote.{
  Quote, Services, quote_type, compute_quote, breakdown_balances, verify_quote, fund_quote,
  is_funded, holds_amount, grant_admits,
}
use cyberware.Settle.Engine
use cyberware.Settle.Engine.{Outcome, refusal, settle, already_settled}
use cyberware.Settle.Money.Split.Conserved.{InRange}
use cyberware.Settle.Engine.Checked.{Checked, settle-Checked}
use cyberware.Settle.Engine.Once.{settle-once}
use cyberware.Settle.Engine.Drain.{Settled, settle-Settled}
use cyberware.Tests.Settle.{
  short_100, fraction, digests, quote_of, services, quote_env, receipt, funded_two,
  funded_two-Reached, ninety_and_ten,
}

abbrev or_refused : Result LedgerError (Outcome × Ledger) → Outcome × Ledger
or_refused (ok r) = r
or_refused (err e) = (refusal Engine.Reason.quote_unfunded, [])

abbrev settlement_of : Ledger → Text → Result LedgerError (Outcome × Ledger)
settlement_of es sha =
    settle fraction services digests es (receipt sha) (quote_env sha) (codes "E") (codes "A")
      (codes "G") (pos 10) (pos 90)

abbrev first : Outcome × Ledger
first = or_refused (settlement_of funded_two (codes "q1"))

abbrev second : Outcome × Ledger
second = or_refused (settlement_of (first.1 ++ []) (codes "q2"))

-- The receipt of the first quote settles, and then that of the second.
first_pays : (settlement_of funded_two (codes "q1") ≡ ok first) × (first.0.settled ≡ true)
unfolding settle same_text breakdown_balances ◌+ℤ◌ fund_quote fund_escrow post
    cyberware.Prelude.collect cyberware.Prelude.add negate
    cyberware.Settle.Money.Decimal.unary_minus cyberware.Settle.RewardLedger.has_memo balance_of
    cyberware.Prelude.get escrow_for cyberware.Settle.RewardLedger.split_two
    cyberware.Settle.Money.Split.split ◌-ℤ◌ cyberware.Cwp.Chain.append is_text
    cyberware.Cwp.Chain.link_after cyberware.Cwp.Chain.link_digest cyberware.Cwp.Envelope.distinct
    cyberware.Cwp.Envelope.verify_ph verify_receipt cyberware.Prelude.◌*ℤ◌
    cyberware.Prelude.starts_with already_settled Engine.hold_account Engine.part_of Engine.pay
    Engine.predicate_of Engine.settle_quote Engine.settle_tag cyberware.Settle.Money.Split.allocate
    cyberware.Settle.Money.Split.bump cyberware.Settle.Money.Split.bump_at
    cyberware.Settle.Money.Split.floor_div cyberware.Settle.Money.Split.rounded_sum
    cyberware.Settle.Money.Decimal.significant cyberware.Settle.Money.Split.floors
    cyberware.Settle.Money.Split.insert_key cyberware.Settle.Money.Split.keys
    cyberware.Settle.Money.Split.precedes cyberware.Settle.Money.Split.sort_keys
    cyberware.Settle.Money.Split.spread cyberware.Settle.Quote.breakdown_total holds_amount
    is_funded cyberware.Settle.Quote.quote_in verify_quote cyberware.Settle.RewardLedger.balances
    cyberware.Settle.RewardLedger.balances_from is_balanced
    cyberware.Settle.RewardLedger.postings_of
first_pays = (refl, refl)

second_pays : (settlement_of (first.1 ++ []) (codes "q2") ≡ ok second) × (second.0.settled ≡ true)
unfolding settle same_text breakdown_balances ◌+ℤ◌ fund_quote fund_escrow post
    cyberware.Prelude.collect cyberware.Prelude.add negate
    cyberware.Settle.Money.Decimal.unary_minus cyberware.Settle.RewardLedger.has_memo balance_of
    cyberware.Prelude.get escrow_for cyberware.Settle.RewardLedger.split_two
    cyberware.Settle.Money.Split.split ◌-ℤ◌ cyberware.Cwp.Chain.append is_text
    cyberware.Cwp.Chain.link_after cyberware.Cwp.Chain.link_digest cyberware.Cwp.Envelope.distinct
    cyberware.Cwp.Envelope.verify_ph verify_receipt cyberware.Prelude.◌*ℤ◌
    cyberware.Prelude.starts_with already_settled Engine.hold_account Engine.part_of Engine.pay
    Engine.predicate_of Engine.settle_quote Engine.settle_tag cyberware.Settle.Money.Split.allocate
    cyberware.Settle.Money.Split.bump cyberware.Settle.Money.Split.bump_at
    cyberware.Settle.Money.Split.floor_div cyberware.Settle.Money.Split.rounded_sum
    cyberware.Settle.Money.Decimal.significant cyberware.Settle.Money.Split.floors
    cyberware.Settle.Money.Split.insert_key cyberware.Settle.Money.Split.keys
    cyberware.Settle.Money.Split.precedes cyberware.Settle.Money.Split.sort_keys
    cyberware.Settle.Money.Split.spread cyberware.Settle.Quote.breakdown_total holds_amount
    is_funded cyberware.Settle.Quote.quote_in verify_quote cyberware.Settle.RewardLedger.balances
    cyberware.Settle.RewardLedger.balances_from is_balanced
    cyberware.Settle.RewardLedger.postings_of
second_pays = (refl, refl)

settle-once_example :
    (q q' : Quote) × (verify_quote services (quote_env (codes "q1")) (codes "G") ≡ (true, some q))
    × (verify_quote services (quote_env (codes "q2")) (codes "G") ≡ (true, some q'))
    × (services.quote_sha q ≢ services.quote_sha q')
settle-once_example =
    settle-once fraction services digests funded_two [] (receipt (codes "q1"))
      (quote_env (codes "q1")) (receipt (codes "q2")) (quote_env (codes "q2")) (codes "E")
      (codes "A") (codes "G") (codes "E") (codes "A") (codes "G") (pos 10) (pos 90) (pos 10)
      (pos 90) first second first_pays.0 first_pays.1 second_pays.0 second_pays.1

settle-Checked_example :
    ((first.0.settled ≡ false) × (first.1 ≡ funded_two))
    ⊎ ((q : Quote) × Checked fraction services digests funded_two
          (receipt (codes "q1"))
          (quote_env (codes "q1"))
          (codes "E")
          (codes "A")
          (codes "G")
          (pos 10)
          (pos 90)
          q
          first)
settle-Checked_example =
    settle-Checked fraction services digests funded_two (receipt (codes "q1"))
      (quote_env (codes "q1")) (codes "E") (codes "A") (codes "G") (pos 10) (pos 90) first
      first_pays.0

covers :
    Engine.part_of (codes "fee") (pos 0) (quote_of (codes "q1")).breakdown
      +ℤ Engine.part_of (codes "payee") (pos 0) (quote_of (codes "q1")).breakdown
    ≡ pos 100
unfolding settle same_text breakdown_balances ◌+ℤ◌ fund_quote fund_escrow post
    cyberware.Prelude.collect cyberware.Prelude.add negate
    cyberware.Settle.Money.Decimal.unary_minus cyberware.Settle.RewardLedger.has_memo balance_of
    cyberware.Prelude.get escrow_for cyberware.Settle.RewardLedger.split_two
    cyberware.Settle.Money.Split.split ◌-ℤ◌ cyberware.Cwp.Chain.append is_text
    cyberware.Cwp.Chain.link_after cyberware.Cwp.Chain.link_digest cyberware.Cwp.Envelope.distinct
    cyberware.Cwp.Envelope.verify_ph verify_receipt cyberware.Prelude.◌*ℤ◌
    cyberware.Prelude.starts_with already_settled Engine.hold_account Engine.part_of Engine.pay
    Engine.predicate_of Engine.settle_quote Engine.settle_tag cyberware.Settle.Money.Split.allocate
    cyberware.Settle.Money.Split.bump cyberware.Settle.Money.Split.bump_at
    cyberware.Settle.Money.Split.floor_div cyberware.Settle.Money.Split.rounded_sum
    cyberware.Settle.Money.Decimal.significant cyberware.Settle.Money.Split.floors
    cyberware.Settle.Money.Split.insert_key cyberware.Settle.Money.Split.keys
    cyberware.Settle.Money.Split.precedes cyberware.Settle.Money.Split.sort_keys
    cyberware.Settle.Money.Split.spread cyberware.Settle.Quote.breakdown_total holds_amount
    is_funded cyberware.Settle.Quote.quote_in verify_quote cyberware.Settle.RewardLedger.balances
    cyberware.Settle.RewardLedger.balances_from is_balanced
    cyberware.Settle.RewardLedger.postings_of
covers = refl

checks :
    ((verify_receipt services.ph_verify services.parse_receipt
        (receipt (codes "q1"))
        (codes "E")
        (codes "A")).dual_signed
      ≡ true)
    × (Engine.is (Engine.predicate_of services (receipt (codes "q1"))).validation (codes "pass")
        ≡ true)
    × (verify_quote services (quote_env (codes "q1")) (codes "G")
        ≡ (true, some (quote_of (codes "q1"))))
    × (Engine.is (Engine.predicate_of services (receipt (codes "q1"))).quote_sha (codes "q1")
        ≡ true)
    × (already_settled funded_two (codes "q1") ≡ false)
    × (is_funded services funded_two (quote_env (codes "q1")) ≡ ok true)
unfolding settle same_text breakdown_balances ◌+ℤ◌ fund_quote fund_escrow post
    cyberware.Prelude.collect cyberware.Prelude.add negate
    cyberware.Settle.Money.Decimal.unary_minus cyberware.Settle.RewardLedger.has_memo balance_of
    cyberware.Prelude.get escrow_for cyberware.Settle.RewardLedger.split_two
    cyberware.Settle.Money.Split.split ◌-ℤ◌ cyberware.Cwp.Chain.append is_text
    cyberware.Cwp.Chain.link_after cyberware.Cwp.Chain.link_digest cyberware.Cwp.Envelope.distinct
    cyberware.Cwp.Envelope.verify_ph verify_receipt cyberware.Prelude.◌*ℤ◌
    cyberware.Prelude.starts_with already_settled Engine.hold_account Engine.part_of Engine.pay
    Engine.predicate_of Engine.settle_quote Engine.settle_tag cyberware.Settle.Money.Split.allocate
    cyberware.Settle.Money.Split.bump cyberware.Settle.Money.Split.bump_at
    cyberware.Settle.Money.Split.floor_div cyberware.Settle.Money.Split.rounded_sum
    cyberware.Settle.Money.Decimal.significant cyberware.Settle.Money.Split.floors
    cyberware.Settle.Money.Split.insert_key cyberware.Settle.Money.Split.keys
    cyberware.Settle.Money.Split.precedes cyberware.Settle.Money.Split.sort_keys
    cyberware.Settle.Money.Split.spread cyberware.Settle.Quote.breakdown_total holds_amount
    is_funded cyberware.Settle.Quote.quote_in verify_quote cyberware.Settle.RewardLedger.balances
    cyberware.Settle.RewardLedger.balances_from is_balanced
    cyberware.Settle.RewardLedger.postings_of
checks = (refl, refl, refl, refl, refl, refl)

in_range :
    InRange
      (Engine.part_of (codes "payee") (pos 0) (quote_of (codes "q1")).breakdown)
      (pos 10 ∷ pos 90 ∷ [])
unfolding Engine.part_of same_text ◌+ℤ◌
in_range = (refl, omega arith)

settle-Settled_example :
    (result : Outcome × Ledger) × (settlement_of funded_two (codes "q1") ≡ ok result)
    × Settled fraction services digests
        (codes "run")
        (codes "plan")
        funded_two-Reached
        (quote_of (codes "q1"))
        (pos 10)
        (pos 90)
        refl
        ninety_and_ten
        covers
        in_range
        short_100
        result
settle-Settled_example =
    settle-Settled fraction services digests (codes "run") (codes "plan") funded_two-Reached
      (quote_of (codes "q1")) (pos 10) (pos 90) refl ninety_and_ten covers in_range short_100
      (receipt (codes "q1")) (quote_env (codes "q1")) (codes "E") (codes "A") (codes "G") checks.0
      checks.1 checks.2 checks.3 checks.4 checks.5
