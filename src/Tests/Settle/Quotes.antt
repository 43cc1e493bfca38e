-- ===== src/Tests/Settle/Quotes.antt =====
-- Tests of the reward ledger and of the quotes, on the ledgers of the module above.
use cyberware.Prelude.{
  ◌<◌, ◌≡◌, ◌≢◌, ◌↔◌, refl, Bool, true, false, Option, none, some, List, [], ◌∷◌, map, any, length,
  ℤ, pos, negate, ◌+ℤ◌, ◌≤ℤ◌, sum, pos_part, Text, codes, Result, ok, paid, arith, text_eq, pair_eq,
  same_text,
}
use cyberware.Cwp.Chain.{object, is_text, zero_root, truthy, text, current_major, verify_chain}
use cyberware.Cwp.Chain.Append.{NeverZero}
use cyberware.Settle.RewardLedger.{
  Posting, PostingSet, Ledger, posting, minus, by_currency, by_account, escrow_for, is_balanced,
  post, release, global_zero, balance_of,
}
use cyberware.Settle.RewardLedger.Reached.{Reached, global_zero-Reached, verify_chain-Reached}
use cyberware.Settle.Quote.{
  Quote, compute_quote, breakdown_balances, fund_quote, is_funded, holds_amount, grant_admits,
}
use cyberware.Settle.Quote.Funding.{
  Admits, granted, grant_admits-Admits, fund_quote-Moves, moved_by,
}
use cyberware.Tests.Settle.{
  short_100, digests, usd, quote_of, services, quote_env, funded_one, funded_two,
  funded_one-Reached, funded_two-Reached, funding_of,
}

posted_two :
    post digests funded_one (funding_of (codes "q2") (usd 100)) (codes "fund-quote:q2")
    ≡ ok funded_two
unfolding cyberware.Settle.Engine.settle same_text breakdown_balances ◌+ℤ◌ fund_quote
    cyberware.Settle.RewardLedger.fund_escrow post cyberware.Prelude.collect cyberware.Prelude.add
    negate cyberware.Settle.Money.Decimal.unary_minus cyberware.Settle.RewardLedger.has_memo
    balance_of cyberware.Prelude.get escrow_for cyberware.Settle.RewardLedger.split_two
    cyberware.Settle.Money.Split.split cyberware.Prelude.◌-ℤ◌ cyberware.Cwp.Chain.append is_text
    cyberware.Cwp.Chain.link_after cyberware.Cwp.Chain.link_digest cyberware.Cwp.Envelope.distinct
    cyberware.Cwp.Envelope.verify_ph cyberware.Cwp.Envelope.verify_receipt cyberware.Prelude.◌*ℤ◌
    cyberware.Prelude.starts_with cyberware.Settle.Engine.already_settled
    cyberware.Settle.Engine.hold_account cyberware.Settle.Engine.part_of cyberware.Settle.Engine.pay
    cyberware.Settle.Engine.predicate_of cyberware.Settle.Engine.settle_quote
    cyberware.Settle.Engine.settle_tag cyberware.Settle.Money.Split.allocate
    cyberware.Settle.Money.Split.bump cyberware.Settle.Money.Split.bump_at
    cyberware.Settle.Money.Split.floor_div cyberware.Settle.Money.Split.floors
    cyberware.Settle.Money.Split.insert_key cyberware.Settle.Money.Split.keys
    cyberware.Settle.Money.Split.precedes cyberware.Settle.Money.Split.sort_keys
    cyberware.Settle.Money.Split.spread cyberware.Settle.Quote.breakdown_total holds_amount
    is_funded cyberware.Settle.Quote.quote_in cyberware.Settle.Quote.verify_quote
    cyberware.Settle.RewardLedger.balances cyberware.Settle.RewardLedger.balances_from is_balanced
    cyberware.Settle.RewardLedger.postings_of funding_of
posted_two = refl

not_overdrawn : pos 0 ≤ℤ balance_of (escrow_for (codes "q2")) (codes "USD") funded_one
unfolding cyberware.Settle.Engine.settle same_text breakdown_balances ◌+ℤ◌ fund_quote
    cyberware.Settle.RewardLedger.fund_escrow post cyberware.Prelude.collect cyberware.Prelude.add
    negate cyberware.Settle.Money.Decimal.unary_minus cyberware.Settle.RewardLedger.has_memo
    balance_of cyberware.Prelude.get escrow_for cyberware.Settle.RewardLedger.split_two
    cyberware.Settle.Money.Split.split cyberware.Prelude.◌-ℤ◌ cyberware.Cwp.Chain.append is_text
    cyberware.Cwp.Chain.link_after cyberware.Cwp.Chain.link_digest cyberware.Cwp.Envelope.distinct
    cyberware.Cwp.Envelope.verify_ph cyberware.Cwp.Envelope.verify_receipt cyberware.Prelude.◌*ℤ◌
    cyberware.Prelude.starts_with cyberware.Settle.Engine.already_settled
    cyberware.Settle.Engine.hold_account cyberware.Settle.Engine.part_of cyberware.Settle.Engine.pay
    cyberware.Settle.Engine.predicate_of cyberware.Settle.Engine.settle_quote
    cyberware.Settle.Engine.settle_tag cyberware.Settle.Money.Split.allocate
    cyberware.Settle.Money.Split.bump cyberware.Settle.Money.Split.bump_at
    cyberware.Settle.Money.Split.floor_div cyberware.Settle.Money.Split.floors
    cyberware.Settle.Money.Split.insert_key cyberware.Settle.Money.Split.keys
    cyberware.Settle.Money.Split.precedes cyberware.Settle.Money.Split.sort_keys
    cyberware.Settle.Money.Split.spread cyberware.Settle.Quote.breakdown_total holds_amount
    is_funded cyberware.Settle.Quote.quote_in cyberware.Settle.Quote.verify_quote
    cyberware.Settle.RewardLedger.balances cyberware.Settle.RewardLedger.balances_from is_balanced
    cyberware.Settle.RewardLedger.postings_of
not_overdrawn = omega arith

apart : (sha : Text) → codes "funder" ≢ escrow_for sha
unfolding escrow_for
apart sha h = ground arith

fee_apart : (sha : Text) → codes "fee" ≢ escrow_for sha
unfolding escrow_for
fee_apart sha h = ground arith

payee_apart : (sha : Text) → codes "payee" ≢ escrow_for sha
unfolding escrow_for
payee_apart sha h = ground arith

own_escrows : escrow_for (codes "q2") ≢ escrow_for (codes "q1")
unfolding escrow_for
own_escrows h = ground arith

global_zero-Reached_example : global_zero funded_two ≡ true
global_zero-Reached_example =
    global_zero-Reached digests (codes "run") (codes "plan") funded_two-Reached

never_zero : NeverZero digests
unfolding is_text same_text
never_zero l = refl

verify_chain-Reached_example :
    verify_chain digests
      (map object funded_two)
      current_major
      (some (codes "run"))
      (some (codes "plan"))
    ≡ some []
unfolding truthy
verify_chain-Reached_example =
    verify_chain-Reached digests (codes "run") (codes "plan") never_zero refl refl
      funded_two-Reached

abbrev two_currencies : List Posting
two_currencies =
    posting (codes "a") (minus (usd 3))
    ∷ posting (codes "b") (usd 3)
    ∷ posting (codes "c") (record { amount = pos 1; currency = codes "EUR" })
    ∷ []

fund_quote-Moves_example :
    (after : Ledger) × (fund_quote services digests funded_one
        (codes "funder")
        (quote_env (codes "q2"))
      ≡ ok after)
    × Reached digests (codes "run") (codes "plan") after
    × ((a c : Text)
        → balance_of a c after
          ≡ balance_of a c funded_one
            +ℤ moved_by services digests
                (codes "run")
                (codes "plan")
                (codes "funder")
                (quote_of (codes "q2"))
                a
                c)
fund_quote-Moves_example =
    fund_quote-Moves services digests (codes "run") (codes "plan") (codes "funder")
      (quote_env (codes "q2")) (quote_of (codes "q2")) funded_one-Reached refl short_100

grant_admits-Admits_example :
    (grant_admits services (some (quote_env (codes "q1"))) funded_two (codes "q1") true (codes "G")
      ≡ granted services (quote_env (codes "q1")) funded_two (codes "q1") (codes "G"))
    ↔ ((q : Quote) × Admits services (quote_env (codes "q1")) funded_two (codes "q1") (codes "G") q)
grant_admits-Admits_example =
    grant_admits-Admits services (quote_env (codes "q1")) funded_two (codes "q1") (codes "G")
