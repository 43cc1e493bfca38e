-- ===== src/Settle/Royalties.antt =====
-- infra/settle/royalties.py: a publish that passes the gate pays a royalty to the lineage of alchemy.
pub mod Paid
use cyberware.Prelude.{
  ℕ, List, [], ◌∷◌, ◌++◌, ℤ, Text, codes, Result, ok, err, ◌>>=◌, if◌then◌else◌,
}
use cyberware.Cwp.Chain.{Digests}
use cyberware.Cwp.Alchemy.{
  PublishGate, citrinitas_clean, conservation_defect, unnamed_shape, cfg_mismatch,
}
use cyberware.Settle.Money.{Money}
use cyberware.Settle.RewardLedger.{
  PostingSet, Ledger, LedgerError, posting, minus, split_two, post, balance_of,
}

abbrev pub alchemy_lineage : Text
alchemy_lineage = codes "alchemy:lineage"

abbrev pub publish_revenue : Text
publish_revenue = codes "publish-revenue"

-- What a publish comes to: blocked with the reason of the gate, or paid with the two parts.
pub data Publish : Type 0 where
  blocked : PublishGate → Publish
  published : Money → Money → Publish

-- The split of the revenue and its posting.
unfoldable pub pay_royalty :
    Digests PostingSet
    → (ℤ → ℤ → ℤ → ℕ)
    → Ledger
    → Text
    → Money
    → ℤ
    → ℤ
    → Result LedgerError (Publish × Ledger)
unfolding split_two post
pay_royalty d fraction entries publisher revenue royalty_weight keep_weight = do
  parts ← split_two fraction revenue royalty_weight keep_weight
  after ←
      post d entries
        (posting publish_revenue (minus revenue)
          ∷ posting alchemy_lineage parts.0
          ∷ posting publisher parts.1
          ∷ [])
        (codes "lineage-royalty:" ++ publisher)
  ok (published parts.0 parts.1, after)

-- `publish_with_royalty`, of a subject that `publish_gate` has looked at.
unfoldable pub publish_with_royalty :
    Digests PostingSet
    → (ℤ → ℤ → ℤ → ℕ)
    → Ledger
    → Text
    → PublishGate
    → Money
    → ℤ
    → ℤ
    → Result LedgerError (Publish × Ledger)
unfolding pay_royalty
publish_with_royalty d fraction entries publisher citrinitas_clean revenue royalty_weight
      keep_weight =
    pay_royalty d fraction entries publisher revenue royalty_weight keep_weight
publish_with_royalty d fraction entries publisher reason revenue royalty_weight keep_weight =
    ok (blocked reason, entries)

-- `lineage_total`
unfoldable pub lineage_total : Ledger → Text → ℤ
unfolding balance_of
lineage_total entries currency = balance_of alchemy_lineage currency entries
