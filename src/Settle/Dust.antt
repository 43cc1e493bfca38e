-- ===== src/Settle/Dust.antt =====
-- infra/settle/dust.py: an amount crosses the boundary of an adapter in whole cents, and what is less
-- than a cent goes to the adapter's dust account. The signature of a sweep is not modelled.
pub mod Boundary
use cyberware.Prelude.{
  ℕ, ◌*◌, Bool, true, false, List, [], ◌∷◌, ◌++◌, ℤ, pos, negsuc, negate, ◌-ℤ◌, ◌*ℤ◌, is_zero, Text,
  codes, Result, ok, err, ◌>>=◌, if◌then◌else◌,
}
use cyberware.Cwp.Chain.{Digests}
use cyberware.Settle.Money.{Money, MoneyError, invalid_operation}
use cyberware.Settle.Money.Decimal.{round_signed, has_digits, default_prec}
use cyberware.Settle.RewardLedger.{
  PostingSet, Posting, Ledger, LedgerError, money, posting, minus, post, balance_of,
}

unfoldable pub dust_account : Text → Text
dust_account adapter_id = codes "dust:adapter:" ++ adapter_id

-- `amount.quantize(CENT, rounding=ROUND_HALF_EVEN)`, as a number of cents: a cent is 100 units. The
-- default context refuses a result of more than 28 digits.
unfoldable pub cents_of : ℤ → Result MoneyError ℤ
unfolding round_signed has_digits
cents_of units =
    if has_digits default_prec (round_signed units 100)
    then ok (round_signed units 100)
    else err invalid_operation

-- The cents and the dust, in units, of an amount that is `n` cents.
abbrev pub parts_of : Money → ℤ → Money × Money
parts_of m n = (
  record { amount = n *ℤ pos 100; currency = m.currency },
  record { amount = m.amount -ℤ n *ℤ pos 100; currency = m.currency },
)

unfoldable pub split_cents : Money → Result MoneyError (Money × Money)
unfolding cents_of
split_cents m = do n ← cents_of m.amount; ok (parts_of m n)

-- `to_minor`: the cents of `split_cents`, as an integer.
unfoldable pub to_minor : Money → Result MoneyError ℤ
unfolding cents_of
to_minor m = cents_of m.amount

abbrev pub cents_postings : Text → Text → Money → Text → Money × Money → List Posting
cents_postings payer dest amount adapter_id (cents, dust) =
    posting payer (minus amount)
    ∷ posting dest cents
    ∷ (if is_zero dust.amount then [] else posting (dust_account adapter_id) dust ∷ [])

unfoldable pub boundary_posting : Text → Text → Money → Text → Result MoneyError (List Posting)
unfolding split_cents dust_account
boundary_posting payer dest amount adapter_id = do
  parts ← split_cents amount
  ok (cents_postings payer dest amount adapter_id parts)

-- A posting set that may not have been made.
unfoldable pub post_made :
    Digests PostingSet
    → Ledger
    → Text
    → Result MoneyError (List Posting)
    → Result LedgerError Ledger
post_made d entries memo (err e) = err (money e)
post_made d entries memo (ok ps) = post d entries ps memo

-- The memo is the argument with its default applied.
unfoldable pub settle_at_boundary :
    Digests PostingSet → Ledger → Text → Text → Money → Text → Text → Result LedgerError Ledger
unfolding boundary_posting post_made
settle_at_boundary d entries payer dest amount adapter_id memo =
    post_made d entries memo (boundary_posting payer dest amount adapter_id)

-- `sweep_dust`: the amount swept, and the ledger.
unfoldable pub sweep_dust :
    Digests PostingSet → Ledger → Text → Text → Text → Text → Result LedgerError (ℤ × Ledger)
unfolding dust_account
sweep_dust d entries adapter_id treasury currency period =
    let bal = balance_of (dust_account adapter_id) currency entries in
    let m : Money = record { amount = bal; currency = currency } in
    if is_zero bal then ok (pos 0, entries) else (do
      after ←
          post d entries (posting (dust_account adapter_id) (minus m) ∷ posting treasury m ∷ [])
            (codes "dust-sweep:" ++ adapter_id ++ codes ":" ++ period)
      ok (bal, after))
