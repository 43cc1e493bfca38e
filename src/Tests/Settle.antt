-- ===== src/Tests/Settle.antt =====
-- Tests of the reward ledger, the quotes and the engine: a quote of 100 units, 10 for the fee and 90
-- for the payee, is funded and settled.
mod Dust
mod Publish
mod Budget
mod Disputes
mod Quotes
mod Payouts
use cyberware.Prelude.{
  ℕ, ◌≡◌, ◌+◌, ◌<◌, refl, true, some, List, [], ◌∷◌, ℤ, pos, negate, ◌+ℤ◌, ◌-ℤ◌, sum, pos_part,
  Text, codes, same_text, Result, ok, err, arith,
}
use cyberware.Cwp.Chain.{Digests, is_text}
use cyberware.Cwp.Envelope.{Envelope, Statement, verify_receipt, in_toto_type}
use cyberware.Settle.Money.{Money}
use cyberware.Settle.Money.Decimal.{has_digits, default_prec}
use cyberware.Settle.RewardLedger.{
  Posting, PostingSet, Ledger, LedgerError, posting, minus, escrow_for, open_ledger, is_balanced,
  post, fund_escrow, balance_of,
}
use cyberware.Settle.RewardLedger.Reached.{Reached, fresh, posted}
use cyberware.Settle.Quote.{
  Quote, Services, quote_type, breakdown_balances, verify_quote, fund_quote, is_funded,
  holds_amount,
}
use cyberware.Settle.Engine
use cyberware.Settle.Engine.{settle, already_settled}

abbrev fraction : ℤ → ℤ → ℤ → ℕ
fraction units w total = 0

abbrev digests : Digests PostingSet
digests = record { v1 = λ l. codes "h"; v2 = λ l. codes "h" }

abbrev usd : ℕ → Money
usd n = record { amount = pos n; currency = codes "USD" }

short_100 : has_digits default_prec (pos 100) ≡ true
unfolding has_digits
short_100 = refl

abbrev quote_of : Text → Quote
quote_of plan = record {
  plan_sha = plan;
  amount = pos 100;
  currency = codes "USD";
  fmv = codes "fmv";
  accounts = codes "fee" ∷ codes "payee" ∷ [];
  weights = pos 10 ∷ pos 90 ∷ [];
  breakdown = (codes "fee", pos 10) ∷ (codes "payee", pos 90) ∷ [];
}

-- The payload of a quote is its plan, the payload of a receipt is the digest of the quote, and a
-- signature is the key.
abbrev services : Services
services = record {
  ph_verify = λ kind payload sig key. same_text sig key;
  parse_quote = λ payload. some (quote_of payload);
  parse_receipt = λ payload. some (record {
    statement_type = codes "https://in-toto.io/Statement/v1";
    has_subject = true;
    has_predicate_type = true;
    predicate = record {
      run_id = some (codes "run");
      quote_sha = some payload;
      validation = some (codes "pass");
    };
  });
  quote_sha = λ q. q.plan_sha;
}

abbrev quote_env : Text → Envelope
quote_env plan = record {
  payload_type = quote_type;
  payload = plan;
  signatures = record { keyid = codes "govd"; sig = codes "G" } ∷ [];
}

abbrev receipt : Text → Envelope
receipt sha = record {
  payload_type = in_toto_type;
  payload = sha;
  signatures =
      record { keyid = codes "exec"; sig = codes "E" }
      ∷ record { keyid = codes "approver"; sig = codes "A" }
      ∷ [];
}

abbrev start : Ledger
start = open_ledger (codes "run") (codes "plan")

abbrev or_empty : Result LedgerError Ledger → Ledger
or_empty (ok es) = es
or_empty (err e) = []

abbrev funded_one : Ledger
funded_one = or_empty (fund_quote services digests start (codes "funder") (quote_env (codes "q1")))

abbrev funded_two : Ledger
funded_two =
    or_empty (fund_quote services digests funded_one (codes "funder") (quote_env (codes "q2")))

funding_of : Text → Money → List Posting
funding_of sha m = posting (codes "funder") (minus m) ∷ posting (escrow_for sha) m ∷ []

funded_one-Reached : Reached digests (codes "run") (codes "plan") funded_one
unfolding settle same_text breakdown_balances ◌+ℤ◌ fund_quote fund_escrow post
    cyberware.Prelude.collect cyberware.Prelude.add negate
    cyberware.Settle.Money.Decimal.unary_minus cyberware.Settle.RewardLedger.has_memo balance_of
    cyberware.Prelude.get escrow_for cyberware.Settle.RewardLedger.split_two
    cyberware.Settle.Money.Split.split ◌-ℤ◌ cyberware.Cwp.Chain.append is_text
    cyberware.Cwp.Chain.link_after cyberware.Cwp.Chain.link_digest cyberware.Cwp.Envelope.distinct
    cyberware.Cwp.Envelope.verify_ph verify_receipt cyberware.Prelude.◌*ℤ◌
    cyberware.Prelude.starts_with already_settled Engine.hold_account Engine.part_of Engine.pay
    Engine.predicate_of Engine.settle_quote Engine.settle_tag cyberware.Settle.Money.Split.allocate
    cyberware.Settle.Money.Split.bump cyberware.Settle.Money.Split.bump_at
    cyberware.Settle.Money.Split.floor_div cyberware.Settle.Money.Split.floors
    cyberware.Settle.Money.Split.insert_key cyberware.Settle.Money.Split.keys
    cyberware.Settle.Money.Split.precedes cyberware.Settle.Money.Split.sort_keys
    cyberware.Settle.Money.Split.spread cyberware.Settle.Quote.breakdown_total holds_amount
    is_funded cyberware.Settle.Quote.quote_in verify_quote cyberware.Settle.RewardLedger.balances
    cyberware.Settle.RewardLedger.balances_from is_balanced
    cyberware.Settle.RewardLedger.postings_of funding_of
funded_one-Reached = posted (funding_of (codes "q1") (usd 100)) (codes "fund-quote:q1") fresh refl

funded_two-Reached : Reached digests (codes "run") (codes "plan") funded_two
unfolding settle same_text breakdown_balances ◌+ℤ◌ fund_quote fund_escrow post
    cyberware.Prelude.collect cyberware.Prelude.add negate
    cyberware.Settle.Money.Decimal.unary_minus cyberware.Settle.RewardLedger.has_memo balance_of
    cyberware.Prelude.get escrow_for cyberware.Settle.RewardLedger.split_two
    cyberware.Settle.Money.Split.split ◌-ℤ◌ cyberware.Cwp.Chain.append is_text
    cyberware.Cwp.Chain.link_after cyberware.Cwp.Chain.link_digest cyberware.Cwp.Envelope.distinct
    cyberware.Cwp.Envelope.verify_ph verify_receipt cyberware.Prelude.◌*ℤ◌
    cyberware.Prelude.starts_with already_settled Engine.hold_account Engine.part_of Engine.pay
    Engine.predicate_of Engine.settle_quote Engine.settle_tag cyberware.Settle.Money.Split.allocate
    cyberware.Settle.Money.Split.bump cyberware.Settle.Money.Split.bump_at
    cyberware.Settle.Money.Split.floor_div cyberware.Settle.Money.Split.floors
    cyberware.Settle.Money.Split.insert_key cyberware.Settle.Money.Split.keys
    cyberware.Settle.Money.Split.precedes cyberware.Settle.Money.Split.sort_keys
    cyberware.Settle.Money.Split.spread cyberware.Settle.Quote.breakdown_total holds_amount
    is_funded cyberware.Settle.Quote.quote_in verify_quote cyberware.Settle.RewardLedger.balances
    cyberware.Settle.RewardLedger.balances_from is_balanced
    cyberware.Settle.RewardLedger.postings_of funding_of
funded_two-Reached =
    posted (funding_of (codes "q2") (usd 100)) (codes "fund-quote:q2") funded_one-Reached refl

ninety_and_ten : 0 < pos_part (sum (pos 10 ∷ pos 90 ∷ []))
unfolding ◌+ℤ◌
ninety_and_ten = omega arith
