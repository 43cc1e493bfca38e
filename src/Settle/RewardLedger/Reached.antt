-- ===== src/Settle/RewardLedger/Reached.antt =====
-- The ledgers that are reached from a fresh one by `post`: they are zero in every currency, they
-- verify, and a balanced posting set can always be added.
use cyberware.Prelude.{
  ◌≡◌, refl, sym, ◌∙◌, ap, true, false, some, List, [], ◌∷◌, ◌++◌, map, ℤ, pos, Text, same_text,
  last, last-snoc, ok, some_injective, collect,
}
use cyberware.Cwp.Chain.{
  int, text, link_digest, Entry, object, Digests, is_text, truthy, append, linked, genesis,
  genesis_type, zero_root, current_major, verify_chain,
}
use cyberware.Cwp.Chain.Spec.{IsChain, verify_chain-IsChain}
use cyberware.Cwp.Chain.Append.{NeverZero, append-IsChain, append-shape, append_tip, is_text_self}
use cyberware.Settle.RewardLedger.{
  Posting, PostingSet, Ledger, posting_set_type, is_balanced, post, open_ledger, posting_record,
  postings_of, global_zero,
}
use cyberware.Settle.RewardLedger.Balances.{post-append}
use cyberware.Settle.RewardLedger.Conserve.{AllBalanced, global_zero-AllBalanced, post-AllBalanced}

digest_current :
    (d : Digests PostingSet) (e : Entry PostingSet)
    → link_digest d current_major e.link ≡ some (d.v2 e.link)
unfolding link_digest
digest_current d e = refl

not_genesis : is_text (text posting_set_type) genesis_type ≡ false
unfolding is_text same_text
not_genesis = refl

module _ (d : Digests PostingSet) (run_id plan_sha : Text) where
  -- What a program can make of the ledger of a run.
  pub data Reached : Ledger → Type 0 where
    fresh : Reached (open_ledger run_id plan_sha)
    posted :
        {es after : Ledger} (ps : List Posting) (memo : Text)
        → Reached es
        → post d es ps memo ≡ ok after
        → Reached after

  Reached-AllBalanced : {es : Ledger} → Reached es → AllBalanced es
  unfolding is_balanced postings_of is_text collect same_text
  Reached-AllBalanced fresh = (refl, tt)
  Reached-AllBalanced (posted {es} {after} ps memo r done) =
      post-AllBalanced d es after ps memo (Reached-AllBalanced r) done

  -- Whatever is posted, the balances of a ledger that grew from a fresh one sum to zero in every
  -- currency, as `global_zero` finds.
  pub global_zero-Reached : {es : Ledger} → Reached es → global_zero es ≡ true
  global_zero-Reached {es} r = global_zero-AllBalanced es (Reached-AllBalanced r)

  -- The last record has a number for its sequence, so `append` can go on from it.
  pub HasTip : Ledger → Type 0
  HasTip es = (tip : Entry PostingSet) × (last es ≡ some tip) × (n : ℤ) × (tip.link.seq ≡ int n)

  Reached-HasTip : {es : Ledger} → Reached es → HasTip es
  unfolding HasTip
  Reached-HasTip fresh = (genesis run_id plan_sha, refl, pos 0, refl)
  Reached-HasTip (posted {es} {after} ps memo r done) =
      let (fits, grew) = post-append d es ps memo after done in
      let (n, h, shape) = append-shape d es (posting_record ps memo) current_major after grew in
      (linked (posting_record ps memo) n h, ap last shape ∙ last-snoc es _, _, refl)

  -- A balanced posting set is never refused.
  pub post-Reached :
      {es : Ledger} (ps : List Posting) (memo : Text)
      → Reached es
      → is_balanced ps ≡ true
      → (after : Ledger) × (post d es ps memo ≡ ok after) × Reached after
  unfolding HasTip post
  post-Reached {es} ps memo r fits =
      let (tip, found, n, number) = Reached-HasTip r in
      let grew = append_tip d es (posting_record ps memo) tip n found number in
      let after = es ++ linked (posting_record ps memo) n (d.v2 tip.link) ∷ [] in
      let done : post d es ps memo ≡ ok after = rw (fits, grew) in
      (after, done, posted ps memo r done)

  is_chain :
      {es : Ledger}
      → NeverZero d
      → truthy (text run_id) ≡ true
      → truthy (text plan_sha) ≡ true
      → Reached es
      → (rest : Ledger) × (es ≡ genesis run_id plan_sha ∷ rest)
        × IsChain d current_major (some run_id) (some plan_sha) (genesis run_id plan_sha) rest
  is_chain nonzero bound planned fresh = (
    [],
    refl,
    (
      (
        is_text_self genesis_type,
        is_text_self zero_root,
        rw (bound, planned),
        rw (is_text_self run_id),
        rw (is_text_self plan_sha),
      ),
      d.v2 (genesis run_id plan_sha).link,
      digest_current d (genesis run_id plan_sha),
      tt,
    ),
  )
  is_chain nonzero bound planned (posted {es} {after} ps memo r done) =
      let (rest, same, chain) = is_chain nonzero bound planned r in
      let (e, grew, longer) =
        append-IsChain d (some run_id) (some plan_sha) (genesis run_id plan_sha) rest
          (posting_record ps memo) (pos 0) nonzero refl chain not_genesis in
      let made = (post-append d es ps memo after done).1 in
      (
        rest ++ e ∷ [],
        some_injective
            (sym made ∙ ap (λ x. append d x (posting_record ps memo) current_major) same ∙ grew),
        longer,
      )

  -- A ledger that grew from a fresh one is accepted by `verify_chain`, also for the run and the plan
  -- that it was opened with, if both are not empty and no digest is all zeros.
  pub verify_chain-Reached :
      {es : Ledger}
      → NeverZero d
      → truthy (text run_id) ≡ true
      → truthy (text plan_sha) ≡ true
      → Reached es
      → verify_chain d (map object es) current_major (some run_id) (some plan_sha) ≡ some []
  verify_chain-Reached nonzero bound planned r =
      let (rest, same, chain) = is_chain nonzero bound planned r in
      rw same (
        (verify_chain-IsChain d current_major (some run_id) (some plan_sha)
            (genesis run_id plan_sha) rest).1
          chain)
