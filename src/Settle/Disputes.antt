-- ===== src/Settle/Disputes.antt =====
-- infra/settle/disputes.py: a bonded dispute, resolved by m of n registered arbiters. The roster of
-- arbiters is an association list; reputations are a tally. Where `post` raises, the reputation that
-- has been changed before is lost with the exception.
pub mod Quorum
pub mod Resolved
use cyberware.Prelude.{
  ℕ, Bool, true, false, not, ◌||◌, Option, none, some, List, [], ◌∷◌, ◌++◌, ℤ, pos, negsuc, Text,
  codes, take, length, any, same_text, ltb, Result, ok, err, ◌>>=◌, Tally, add, text_eq,
  if◌then◌else◌,
}
use cyberware.Cwp.Chain.{Digests}
use cyberware.Cwp.Webauthn.{Assertion, Crypto, Verdict, accepted, verify_assertion}
use cyberware.Settle.Money.{Money}
use cyberware.Settle.RewardLedger.{
  PostingSet, Posting, Ledger, LedgerError, posting, minus, post, balance_of,
}

abbrev pub origin : Text
origin = codes "https://arbitrate.cyberware"

abbrev pub rp_id : Text
rp_id = codes "cyberware"

unfoldable pub bond_account : Text → Text
bond_account quote_sha = codes "dispute-bond:" ++ take 16 quote_sha

unfoldable pub held_account : Text → Text
held_account quote_sha = codes "hold:" ++ take 16 quote_sha

unfoldable pub open_dispute :
    Digests PostingSet → Ledger → Text → Text → Money → Result LedgerError Ledger
unfolding bond_account
open_dispute d entries disputer quote_sha bond =
    post d entries (posting disputer (minus bond) ∷ posting (bond_account quote_sha) bond ∷ [])
      (codes "dispute-open:" ++ take 16 quote_sha)

abbrev pub Roster : Type 0
Roster = List (Text × Text)

-- `arbiters[arb_id]`, where the roster has it.
unfoldable pub key_of : Text → Roster → Option Text
key_of id [] = none
key_of id ((i, k) ∷ rs) = if same_text i id then some k else key_of id rs

-- `seen_ids` and `seen_keys`
pub record Seen : Type 0 where
  pub ids : List Text
  pub keys : List Text

abbrev pub after_verdict : Seen → Text → Text → Option Verdict → Option Seen
after_verdict s id key none = none
after_verdict s id key (some accepted) = some (record { ids = id ∷ s.ids; keys = key ∷ s.keys })
after_verdict s id key (some _) = some s

unfoldable pub with_key : Crypto → Text → Seen → Text → Option Assertion → Option Text → Option Seen
with_key c doc s id a none = some s
with_key c doc s id a (some key) =
    if any (same_text key) s.keys
    then some s
    else after_verdict s id key (verify_assertion c doc a origin rp_id key true)

-- The body of the loop; `none` is an exception of `verify_assertion`.
unfoldable pub consider : Crypto → Text → Roster → Seen → Text × Option Assertion → Option Seen
unfolding key_of with_key
consider c doc arbiters s (id, a) =
    if any (same_text id) s.ids then some s else with_key c doc s id a (key_of id arbiters)

unfoldable pub count_loop :
    Crypto → Text → Roster → Seen → List (Text × Option Assertion) → Option Seen
unfolding consider
count_loop c doc arbiters s [] = some s
count_loop c doc arbiters s (x ∷ xs) = elim (consider c doc arbiters s x) [
  | none ↦ none
  | some s' ↦ count_loop c doc arbiters s' xs
]

abbrev count_of : Option Seen → Option ℕ
count_of none = none
count_of (some s) = some (length s.ids)

unfoldable pub count_approvals : Crypto → Text → List (Text × Option Assertion) → Roster → Option ℕ
unfolding count_loop
count_approvals c doc approvals arbiters =
    count_of (count_loop c doc arbiters (record { ids = []; keys = [] }) approvals)

-- The resolution document: its canonical bytes and the fields that are read.
pub record Resolution : Type 0 where
  pub canonical : Text
  pub currency : Option Text
  pub outcome : Option Text

pub data DisputeError : Type 0 where
  ledger : LedgerError → DisputeError
  index_error : DisputeError

pub data DisputeReason : Type 0 where
  quorum_too_small insufficient_approvals invalid_outcome done : DisputeReason

pub record Answer : Type 0 where
  pub resolved : Bool
  pub reason : DisputeReason
  pub approvals : Option ℕ

abbrev pub unresolved : DisputeReason → Option ℕ → Answer
unresolved r n = record { resolved = false; reason = r; approvals = n }

abbrev pub currency_or : Option Text → Text
currency_or none = codes "USD"
currency_or (some c) = c

abbrev pub is_outcome : Option Text → Text → Bool
is_outcome none t = false
is_outcome (some s) t = same_text s t

abbrev pub upheld_postings : Text → Text → Text → Money → Money → List Posting
upheld_postings hold_acct bond_acct disputer held bond =
    posting hold_acct (minus held)
    ∷ posting disputer held
    ∷ posting bond_acct (minus bond)
    ∷ posting disputer bond
    ∷ []

abbrev pub rejected_postings : Text → Text → Money → List Posting
rejected_postings bond_acct payee bond = posting bond_acct (minus bond) ∷ posting payee bond ∷ []

posted : Result LedgerError Ledger → Result DisputeError Ledger
posted (ok es) = ok es
posted (err e) = err (ledger e)

abbrev pub State : Type 0
State = Ledger × Tally Text

-- The movements of a resolution that has its quorum.
unfoldable pub move :
    Digests PostingSet
    → Ledger
    → Text
    → Bool
    → Text
    → Text
    → Text
    → Text
    → Tally Text
    → ℕ
    → Result DisputeError (Answer × State)
unfolding posted bond_account held_account
move d entries cur upheld outcome payee disputer quote_sha reputation n = do
  let bond : Money = record {
    amount = balance_of (bond_account quote_sha) cur entries;
    currency = cur;
  }
  let held : Money = record {
    amount = balance_of (held_account quote_sha) cur entries;
    currency = cur;
  }
  after ← posted (
      post d entries
        (if upheld
          then upheld_postings (held_account quote_sha) (bond_account quote_sha) disputer held bond
          else rejected_postings (bond_account quote_sha) payee bond)
        (codes "dispute-resolve:" ++ outcome ++ codes ":" ++ take 16 quote_sha))
  ok (
    record { resolved = true; reason = done; approvals = some n },
    (after, add (if upheld then payee else disputer) (negsuc 0) reputation),
  )

-- `resolve`, once the approvals have been counted.
unfoldable pub resolve_counted :
    Digests PostingSet
    → Ledger
    → Resolution
    → ℕ
    → Text
    → Text
    → Text
    → Tally Text
    → Option ℕ
    → Result DisputeError (Answer × State)
unfolding move
resolve_counted d entries doc m payee disputer quote_sha reputation none = err index_error
resolve_counted d entries doc m payee disputer quote_sha reputation (some n) =
    if ltb n m
    then ok (unresolved insufficient_approvals (some n), (entries, reputation))
    else if is_outcome doc.outcome (codes "upheld")
    then move d entries (currency_or doc.currency) true (codes "upheld") payee disputer quote_sha
        reputation n
    else if is_outcome doc.outcome (codes "rejected")
    then move d entries (currency_or doc.currency) false (codes "rejected") payee disputer quote_sha
        reputation n
    else ok (unresolved invalid_outcome (some n), (entries, reputation))

unfoldable pub resolve :
    Digests PostingSet
    → Crypto
    → Ledger
    → Resolution
    → List (Text × Option Assertion)
    → ℕ
    → Text
    → Text
    → Text
    → Tally Text
    → Roster
    → Result DisputeError (Answer × State)
unfolding resolve_counted count_approvals
resolve d c entries doc approvals m payee disputer quote_sha reputation arbiters =
    if ltb m 2
    then ok (unresolved quorum_too_small none, (entries, reputation))
    else resolve_counted d entries doc m payee disputer quote_sha reputation
        (count_approvals c doc.canonical approvals arbiters)
