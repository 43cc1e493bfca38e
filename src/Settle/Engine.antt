-- ===== src/Settle/Engine.antt =====
-- infra/settle/engine.py: the settlement of a dual-signed receipt against a funded quote.
pub mod Guards
pub mod Once
pub mod Drain
pub mod Checked
use cyberware.Prelude.{
  ℕ, Bool, true, false, not, Option, none, some, List, [], ◌∷◌, ◌++◌, ℤ, pos, Text, codes, take,
  any, same_text, Result, ok, err, ◌>>=◌, if◌then◌else◌,
}
use cyberware.Cwp.Chain.{Digests}
use cyberware.Cwp.Envelope.{Envelope, Predicate, Statement, verify_receipt}
use cyberware.Settle.Money.{Money}
use cyberware.Settle.RewardLedger.{
  PostingSet, Posting, Ledger, LedgerError, posting, minus, escrow_for, split_two, post, has_memo,
  balance_of,
}
use cyberware.Settle.Quote.{Quote, Services, verify_quote, is_funded}

pub data Reason : Type 0 where
  not_dual_signed validation_not_pass quote_invalid quote_unbound quote_already_settled
        quote_unfunded paid_out :
      Reason

-- What `settle` returns, beside the ledger.
pub record Outcome : Type 0 where
  pub settled : Bool
  pub reason : Reason
  pub amount : ℤ
  pub holdback : ℤ

abbrev pub refusal : Reason → Outcome
refusal r = record { settled = false; reason = r; amount = pos 0; holdback = pos 0 }

unfoldable pub settle_tag : Text → Text
settle_tag sha = codes "settle:quote:" ++ sha

unfoldable pub already_settled : Ledger → Text → Bool
unfolding settle_tag
already_settled entries sha = any (has_memo (settle_tag sha)) entries

abbrev no_predicate : Predicate
no_predicate = record { run_id = none; quote_sha = none; validation = none }

abbrev predicate_in : Option Statement → Predicate
predicate_in none = no_predicate
predicate_in (some s) = s.predicate

-- `_predicate`
unfoldable pub predicate_of : Services → Envelope → Predicate
predicate_of x receipt = predicate_in (x.parse_receipt receipt.payload)

abbrev pub is : Option Text → Text → Bool
is none t = false
is (some s) t = same_text s t

-- `{b["account"]: … for b in breakdown}.get(account, zero)`: the last amount for the account.
unfoldable pub part_of : Text → ℤ → List (Text × ℤ) → ℤ
part_of account found [] = found
part_of account found ((a, x) ∷ bs) = part_of account (if same_text a account then x else found) bs

unfoldable pub hold_account : Text → Text
hold_account sha = codes "hold:" ++ take 16 sha

abbrev pub payout : Text → Money → Money → Money → Money → List Posting
payout sha amount fee kept held =
    posting (escrow_for sha) (minus amount)
    ∷ posting (codes "fee") fee
    ∷ posting (codes "payee") kept
    ∷ posting (hold_account sha) held
    ∷ []

abbrev pub in_currency_of : Quote → ℤ → Money
in_currency_of q u = record { amount = u; currency = q.currency }

-- The part of `settle` behind its guards.
unfoldable pub pay :
    (ℤ → ℤ → ℤ → ℕ)
    → Services
    → Digests PostingSet
    → Ledger
    → Quote
    → ℤ
    → ℤ
    → Result LedgerError (Outcome × Ledger)
unfolding part_of hold_account settle_tag
pay fraction x d entries q hold_weight keep_weight = do
  parts ←
      split_two fraction (in_currency_of q (part_of (codes "payee") (pos 0) q.breakdown))
        hold_weight keep_weight
  after ←
      post d entries
        (payout (x.quote_sha q) (in_currency_of q q.amount)
          (in_currency_of q (part_of (codes "fee") (pos 0) q.breakdown)) parts.1 parts.0)
        (settle_tag (x.quote_sha q))
  ok (
    record { settled = true; reason = paid_out; amount = q.amount; holdback = parts.0.amount },
    after,
  )

-- The guards on a quote that has been verified.
unfoldable pub settle_quote :
    (ℤ → ℤ → ℤ → ℕ)
    → Services
    → Digests PostingSet
    → Ledger
    → Predicate
    → Envelope
    → ℤ
    → ℤ
    → Bool × Option Quote
    → Result LedgerError (Outcome × Ledger)
unfolding pay already_settled is_funded
settle_quote fraction x d entries pred quote_env hold_weight keep_weight (false, q) =
    ok (refusal quote_invalid, entries)
settle_quote fraction x d entries pred quote_env hold_weight keep_weight (true, none) =
    ok (refusal quote_invalid, entries)
settle_quote fraction x d entries pred quote_env hold_weight keep_weight (true, some q) =
    if not (is pred.quote_sha (x.quote_sha q))
    then ok (refusal quote_unbound, entries)
    else if already_settled entries (x.quote_sha q)
    then ok (refusal quote_already_settled, entries)
    else is_funded x entries quote_env >>= λ funded.
        if funded
        then pay fraction x d entries q hold_weight keep_weight
        else ok (refusal quote_unfunded, entries)

unfoldable pub settle :
    (ℤ → ℤ → ℤ → ℕ)
    → Services
    → Digests PostingSet
    → Ledger
    → Envelope
    → Envelope
    → Text
    → Text
    → Text
    → ℤ
    → ℤ
    → Result LedgerError (Outcome × Ledger)
unfolding settle_quote predicate_of verify_receipt verify_quote
settle fraction x d entries receipt quote_env exec_pub approver_pub govd_pub hold_weight
      keep_weight =
    if not (verify_receipt x.ph_verify x.parse_receipt receipt exec_pub approver_pub).dual_signed
    then ok (refusal not_dual_signed, entries)
    else if not (is (predicate_of x receipt).validation (codes "pass"))
    then ok (refusal validation_not_pass, entries)
    else settle_quote fraction x d entries (predicate_of x receipt) quote_env hold_weight
        keep_weight (verify_quote x quote_env govd_pub)

-- `release_holdback`: the amount released, and the ledger.
unfoldable pub release_holdback :
    Digests PostingSet → Ledger → Text → Text → Result LedgerError (ℤ × Ledger)
unfolding hold_account
release_holdback d entries sha currency = do
  let held = balance_of (hold_account sha) currency entries
  let m : Money = record { amount = held; currency = currency }
  after ←
      post d entries (posting (hold_account sha) (minus m) ∷ posting (codes "payee") m ∷ [])
        (codes "release-hold:" ++ take 16 sha)
  ok (held, after)
