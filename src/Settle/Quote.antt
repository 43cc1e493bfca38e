-- ===== src/Settle/Quote.antt =====
-- infra/settle/quote.py: the signed quote of a priced run, its funding, and the gate of a grant. The
-- reading of a payload as a quote and the SHA-256 of a quote's canonical bytes are parameters.
pub mod Funding
pub mod Breakdown
use cyberware.Prelude.{
  ℕ, Bool, true, false, not, ◌&&◌, ◌||◌, Option, none, some, List, [], ◌∷◌, ◌++◌, ℤ, pos, ◌+ℤ◌,
  eqb_ℤ, ltb_ℤ, Text, codes, take, same_text, Result, ok, err, ◌>>=◌, if◌then◌else◌,
}
use cyberware.Cwp.Chain.{Digests}
use cyberware.Cwp.Envelope.{Signature, Envelope, PhVerify, Statement, verify_ph}
use cyberware.Settle.Money.{Money, MoneyError}
use cyberware.Settle.Money.Split.{split}
use cyberware.Settle.RewardLedger.{
  PostingSet, Ledger, LedgerError, bad_payload, money, escrow_for, fund_escrow, balance_of,
}

pub record Quote : Type 0 where
  pub plan_sha : Text
  pub amount : ℤ
  pub currency : Text
  pub fmv : Text
  pub accounts : List Text
  pub weights : List ℤ
  pub breakdown : List (Text × ℤ)

-- What the quotes and the engine take from elsewhere: signature checks, JSON, and a digest.
pub record Services : Type 0 where
  pub ph_verify : PhVerify
  pub parse_quote : Text → Option Quote
  pub parse_receipt : Text → Option Statement
  pub quote_sha : Quote → Text

abbrev pub quote_type : Text
quote_type = codes "application/vnd.cyberware.quote+json"

-- `zip(accounts, parts)`, with the amount of each part.
unfoldable pub breakdown_of : List Text → List Money → List (Text × ℤ)
breakdown_of [] ps = []
breakdown_of (a ∷ as') [] = []
breakdown_of (a ∷ as') (p ∷ ps) = (a, p.amount) ∷ breakdown_of as' ps

unfoldable pub compute_quote :
    (ℤ → ℤ → ℤ → ℕ) → Text → Money → List Text → List ℤ → Text → Result MoneyError Quote
unfolding breakdown_of
compute_quote fraction plan_sha amount accounts weights fmv = do
  parts ← split fraction amount weights
  ok (record {
    plan_sha = plan_sha;
    amount = amount.amount;
    currency = amount.currency;
    fmv = fmv;
    accounts = accounts;
    weights = weights;
    breakdown = breakdown_of accounts parts;
  })

unfoldable pub breakdown_total : ℤ → List (Text × ℤ) → ℤ
breakdown_total total [] = total
breakdown_total total ((a, x) ∷ bs) = breakdown_total (total +ℤ x) bs

unfoldable pub breakdown_balances : Quote → Bool
unfolding breakdown_total
breakdown_balances q = eqb_ℤ (breakdown_total (pos 0) q.breakdown) q.amount

abbrev pub is_empty {ℓ} : {A : Type ℓ} → List A → Bool
is_empty [] = true
is_empty (x ∷ xs) = false

abbrev pub checked : Option Quote → Bool × Option Quote
checked none = (false, none)
checked (some q) = (breakdown_balances q, some q)

-- `verify_quote`: whether the envelope holds, and the quote in it.
unfoldable pub verify_quote : Services → Envelope → Text → Bool × Option Quote
verify_quote x e key =
    if same_text e.payload_type quote_type
    then if not (is_empty e.signatures) && verify_ph x.ph_verify e key
      then checked (x.parse_quote e.payload)
      else (false, none)
    else (false, none)

-- `json.loads` of the payload.
unfoldable pub quote_in : Services → Envelope → Result LedgerError Quote
quote_in x e = elim (x.parse_quote e.payload) [ none ↦ err bad_payload | some q ↦ ok q ]

unfoldable pub fund_quote :
    Services → Digests PostingSet → Ledger → Text → Envelope → Result LedgerError Ledger
unfolding quote_in
fund_quote x d entries funder e = do
  q ← quote_in x e
  fund_escrow d entries funder (record { amount = q.amount; currency = q.currency })
      (escrow_for (x.quote_sha q)) (codes "fund-quote:" ++ take 16 (x.quote_sha q))

-- Whether the escrow of this very quote holds its amount.
unfoldable pub holds_amount : Services → Ledger → Quote → Bool
holds_amount x entries q =
    not (ltb_ℤ (balance_of (escrow_for (x.quote_sha q)) q.currency entries) q.amount)

unfoldable pub is_funded : Services → Ledger → Envelope → Result LedgerError Bool
unfolding quote_in holds_amount
is_funded x entries e = do q ← quote_in x e; ok (holds_amount x entries q)

pub data GrantReason : Type 0 where
  free_perk quote_missing quote_invalid plan_mismatch quote_unfunded funded_quote : GrantReason

pub record Grant : Type 0 where
  pub allow : Bool
  pub reason : GrantReason

abbrev pub refuse : GrantReason → Result LedgerError Grant
refuse r = ok (record { allow = false; reason = r })

abbrev pub of_funding : Bool → Grant
of_funding true = record { allow = true; reason = funded_quote }
of_funding false = record { allow = false; reason = quote_unfunded }

-- The gate, once the envelope has been verified.
unfoldable pub grant_for :
    Services → Ledger → Text → Envelope → Bool × Option Quote → Result LedgerError Grant
unfolding is_funded
grant_for x entries plan_sha e (false, q) = refuse quote_invalid
grant_for x entries plan_sha e (true, none) = refuse quote_invalid
grant_for x entries plan_sha e (true, some q) =
    if same_text q.plan_sha plan_sha
    then (do funded ← is_funded x entries e; ok (of_funding funded))
    else refuse plan_mismatch

-- `none` is a missing envelope.
unfoldable pub grant_admits :
    Services → Option Envelope → Ledger → Text → Bool → Text → Result LedgerError Grant
unfolding grant_for verify_quote
grant_admits x e entries plan_sha false key = ok (record { allow = true; reason = free_perk })
grant_admits x none entries plan_sha true key = refuse quote_missing
grant_admits x (some e) entries plan_sha true key =
    grant_for x entries plan_sha e (verify_quote x e key)
