-- ===== src/Settle/RewardLedger/Balances.antt =====
-- What `post` does to the ledger and to the balances.
use cyberware.Prelude.{
  ◌≡◌, refl, sym, ◌∙◌, ap, true, some, List, [], ◌∷◌, ◌++◌, map, ℤ, pos, ◌+ℤ◌, Text, same_text,
  same_text_iff, Result, ok, get, collect, paid, get-collect, Bool-cases, Option-cases,
  ok_injective, inl, inr, arith, int_laws, text_eq, pair_eq,
}
use cyberware.Cwp.Chain.{text, Entry, Digests, is_text, append, current_major, linked}
use cyberware.Cwp.Chain.Append.{append-shape}
use cyberware.Settle.RewardLedger.{
  Posting, PostingSet, Ledger, Account, LedgerError, posting_set_type, posting_record, is_balanced,
  post, postings_of, has_memo, by_account, balances_from, balance_of,
}

-- Everything that the ledger has posted to one account.
unfoldable pub flow : Account → Ledger → ℤ
flow k [] = pos 0
flow k (e ∷ es) = paid k (map by_account (postings_of e)) +ℤ flow k es

get-balances_from :
    (k : Account) (es : Ledger) (bal : List (Account × ℤ))
    → get k (balances_from bal es) ≡ get k bal +ℤ flow k es
unfolding balances_from flow
get-balances_from k [] bal = omega int_laws
get-balances_from k (e ∷ es) bal =
    get-balances_from k es (collect (map by_account (postings_of e)) bal)
    ∙ rw (get-collect k (map by_account (postings_of e)) bal) (omega int_laws)

-- The balance of an account is the sum of all that was posted to it.
pub balance_of-eq-flow : (a c : Text) (es : Ledger) → balance_of a c es ≡ flow (a, c) es
unfolding balance_of get
balance_of-eq-flow a c es = get-balances_from (a, c) es [] ∙ zero_left (flow (a, c) es)
  where
    zero_left : (x : ℤ) → pos 0 +ℤ x ≡ x
    zero_left x = omega int_laws

pub flow-append : (k : Account) (es fs : Ledger) → flow k (es ++ fs) ≡ flow k es +ℤ flow k fs
unfolding flow
flow-append k [] fs = omega int_laws
flow-append k (e ∷ es) fs = rw (flow-append k es fs) (omega int_laws)

-- A ledger that grew by one posting set.
pub record Grown (entries : Ledger) (ps : List Posting) (memo : Text) (after : Ledger)
    : Type 0 where
  pub entry : Entry PostingSet
  pub grown : after ≡ entries ++ entry ∷ []
  pub holds : postings_of entry ≡ ps
  pub kind : is_text entry.link.kind posting_set_type ≡ true
  pub named : (tag : Text) → has_memo tag entry ≡ same_text memo tag
  pub fits : is_balanced ps ≡ true

module _ (d : Digests PostingSet) (entries : Ledger) (ps : List Posting) (memo : Text) where
  kind_is_set : is_text (text posting_set_type) posting_set_type ≡ true
  unfolding is_text
  kind_is_set = (same_text_iff posting_set_type posting_set_type).1 refl

  linked-postings : (n : ℤ) (h : Text) → postings_of (linked (posting_record ps memo) n h) ≡ ps
  unfolding postings_of
  linked-postings n h = rw kind_is_set

  linked-memo :
      (n : ℤ) (h : Text) (tag : Text)
      → has_memo tag (linked (posting_record ps memo) n h) ≡ same_text memo tag
  unfolding has_memo
  linked-memo n h tag = rw kind_is_set

  append-Grown :
      (after : Ledger)
      → is_balanced ps ≡ true
      → append d entries (posting_record ps memo) current_major ≡ some after
      → Grown entries ps memo after
  append-Grown after fits done =
      let (n, h, shape) =
        append-shape d entries (posting_record ps memo) current_major after done in
      record {
        entry = linked (posting_record ps memo) n h;
        grown = shape;
        holds = linked-postings n h;
        kind = kind_is_set;
        named = linked-memo n h;
        fits = fits;
      }

  -- A `post` that succeeds had a balanced set to append.
  pub post-append :
      (after : Ledger)
      → post d entries ps memo ≡ ok after
      → (is_balanced ps ≡ true)
        × (append d entries (posting_record ps memo) current_major ≡ some after)
  unfolding post
  post-append after done = elim (Bool-cases (is_balanced ps)) [
    | inl fits ↦ elim (Option-cases (append d entries (posting_record ps memo) current_major)) [
      | inl raised ↦ absurd (ground arith)
      | inr (es, grew) ↦
          let same : ◌≡◌ {A = Result LedgerError Ledger} (ok es) (ok after) = ground arith in
          (fits, rw grew (ap some (ok_injective same)))
    ]
    | inr refused ↦ absurd (ground arith)
  ]

  -- A `post` that succeeds adds one record to the ledger, which holds the postings and the memo.
  pub post-Grown :
      (after : Ledger) → post d entries ps memo ≡ ok after → Grown entries ps memo after
  post-Grown after done = let (fits, grew) = post-append after done in append-Grown after fits grew

  -- After a `post` every balance has moved by what the postings hold for that account.
  pub balance_of-post :
      (after : Ledger) (a c : Text)
      → post d entries ps memo ≡ ok after
      → balance_of a c after ≡ balance_of a c entries +ℤ paid (a, c) (map by_account ps)
  unfolding flow
  balance_of-post after a c done =
      let g = post-Grown after done in
      ap (balance_of a c) g.grown
      ∙ balance_of-eq-flow a c (entries ++ g.entry ∷ [])
      ∙ flow-append (a, c) entries (g.entry ∷ [])
      ∙ last_step (a, c) g.entry g.holds
      ∙ ap (λ x. x +ℤ paid (a, c) (map by_account ps)) (sym (balance_of-eq-flow a c entries))
    where
      last_step :
          (k : Account) (e : Entry PostingSet)
          → postings_of e ≡ ps
          → flow k entries +ℤ flow k (e ∷ []) ≡ flow k entries +ℤ paid k (map by_account ps)
      last_step k e holds = rw holds (omega int_laws)
