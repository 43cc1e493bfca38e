-- ===== src/Settle/RewardLedger.antt =====
-- infra/settle/reward_ledger.py: a chain of infra/cwp/ledger.py whose records are balanced posting
-- sets. Amounts are integers of units of 0.0001. `-amount` rounds to the 28 digits of the default
-- context; the sums of `CTX` are taken as exact up to its 34 digits, where `_q` raises, and
-- `str(amount)` and `Money(str)` as inverse.
pub mod Balances
pub mod Conserve
pub mod Reached
pub mod Release
use cyberware.Prelude.{
  ℕ, Bool, Option, none, some, List, [], ◌∷◌, ◌++◌, map, ℤ, pos, negate, Text, codes, take, all,
  Result, ok, err, ◌>>=◌, Tally, get, collect, zero_entry, text_eq, pair_eq, if◌then◌else◌, ◌&&◌,
  same_text,
}
use cyberware.Cwp.Chain
use cyberware.Cwp.Chain.{
  Value, missing, text, Link, Entry, Digests, is_text, append, genesis, current_major,
}
use cyberware.Settle.Money.{Money, MoneyError}
use cyberware.Settle.Money.Decimal.{unary_minus}
use cyberware.Settle.Money.Split.{split}

pub record Posting : Type 0 where
  pub account : Text
  pub amount : ℤ
  pub currency : Text

pub record PostingSet : Type 0 where
  pub postings : List Posting
  pub memo : Text

abbrev pub Ledger : Type 0
Ledger = List (Entry PostingSet)

abbrev pub Account : Type 0
Account = Text × Text

-- How a call on the ledger may raise: in `Money`, or in `post`.
pub data LedgerError : Type 0 where
  money : MoneyError → LedgerError
  unbalanced no_ledger bad_payload : LedgerError

abbrev pub posting_set_type : Text
posting_set_type = codes "posting_set"

abbrev pub escrow : Text
escrow = codes "escrow"

unfoldable pub escrow_for : Text → Text
escrow_for quote_sha = codes "escrow:" ++ take 32 quote_sha

-- `_posting`
abbrev pub posting : Text → Money → Posting
posting account m = record { account = account; amount = m.amount; currency = m.currency }

-- `-m`
abbrev pub minus : Money → Money
minus m = record { amount = unary_minus m.amount; currency = m.currency }

abbrev pub by_currency : Posting → Text × ℤ
by_currency p = (p.currency, p.amount)

abbrev pub by_account : Posting → Account × ℤ
by_account p = ((p.account, p.currency), p.amount)

unfoldable pub is_balanced : List Posting → Bool
is_balanced ps = all zero_entry (collect (map by_currency ps) [])

abbrev pub open_ledger : Text → Text → Ledger
open_ledger run_id plan_sha = genesis run_id plan_sha ∷ []

-- The record `{"type": "posting_set", "postings": …, "memo": …}`; `append` sets its `seq`.
abbrev pub posting_record : List Posting → Text → Link PostingSet
posting_record ps memo = record {
  kind = text posting_set_type;
  seq = missing;
  run_id = missing;
  plan_sha = missing;
  supersedes_head = missing;
  supersedes = missing;
  payload = some (record { postings = ps; memo = memo });
}

appended : Option Ledger → Result LedgerError Ledger
appended none = err no_ledger
appended (some entries) = ok entries

unfoldable pub post : Digests PostingSet → Ledger → List Posting → Text → Result LedgerError Ledger
unfolding is_balanced append appended
post d entries ps memo =
    if is_balanced ps
    then appended (append d entries (posting_record ps memo) current_major)
    else err unbalanced

unfoldable pub fund_escrow :
    Digests PostingSet → Ledger → Text → Money → Text → Text → Result LedgerError Ledger
fund_escrow d entries funder amount escrow_acct memo =
    post d entries (posting funder (minus amount) ∷ posting escrow_acct amount ∷ []) memo

of_split : Result MoneyError (List Money) → Result LedgerError (List Money)
of_split (ok parts) = ok parts
of_split (err e) = err (money e)

-- `a, b = split(total, [v, w])`
unfoldable pub split_two : (ℤ → ℤ → ℤ → ℕ) → Money → ℤ → ℤ → Result LedgerError (Money × Money)
unfolding of_split
split_two fraction total v w = elim (of_split (split fraction total (v ∷ w ∷ []))) [
  | ok (a ∷ b ∷ []) ↦ ok (a, b)
  | ok _ ↦ err (money MoneyError.bad_weights)
  | err e ↦ err e
]

unfoldable pub release :
    Digests PostingSet
    → (ℤ → ℤ → ℤ → ℕ)
    → Ledger
    → Text
    → Text
    → Money
    → ℤ
    → ℤ
    → Text
    → Text
    → Result LedgerError Ledger
unfolding split_two
release d fraction entries payee fee_account amount fee_weight payee_weight memo escrow_acct = do
  parts ← split_two fraction amount fee_weight payee_weight
  post d entries
      (posting escrow_acct (minus amount)
        ∷ posting fee_account parts.0
        ∷ posting payee parts.1
        ∷ [])
      memo

abbrev postings_in : Option PostingSet → List Posting
postings_in none = []
postings_in (some s) = s.postings

-- `e["postings"]`, of a posting set only; every posting set that `post` writes has the key.
unfoldable pub postings_of : Entry PostingSet → List Posting
unfolding is_text
postings_of e = if is_text e.link.kind posting_set_type then postings_in e.link.payload else []

unfoldable pub balances_from : Tally Account → Ledger → Tally Account
unfolding postings_of
balances_from bal [] = bal
balances_from bal (e ∷ es) = balances_from (collect (map by_account (postings_of e)) bal) es

unfoldable pub balances : Ledger → Tally Account
unfolding balances_from
balances = balances_from []

abbrev pub currency_of : Account × ℤ → Text × ℤ
currency_of ((a, c), m) = (c, m)

unfoldable pub global_zero : Ledger → Bool
unfolding balances
global_zero entries = all zero_entry (collect (map currency_of (balances entries)) [])

-- `balances(entries).get((account, currency), Money.zero(currency))`
unfoldable pub balance_of : Text → Text → Ledger → ℤ
unfolding balances
balance_of account currency entries = get (account, currency) (balances entries)

abbrev memo_in : Option PostingSet → Text
memo_in none = []
memo_in (some s) = s.memo

-- `e.get("type") == "posting_set" and e.get("memo") == tag`, the test of every replay guard.
unfoldable pub has_memo : Text → Entry PostingSet → Bool
unfolding is_text
has_memo tag e = is_text e.link.kind posting_set_type && same_text (memo_in e.link.payload) tag
