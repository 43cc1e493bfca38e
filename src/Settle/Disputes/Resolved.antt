-- ===== src/Settle/Disputes/Resolved.antt =====
-- What `resolve` does when it returns.
use cyberware.Prelude.{
  ℕ, ◌≤◌, ◌≡◌, ◌≢◌, refl, sym, ◌∙◌, ap, subst, Bool, true, false, inl, inr, ◌⊎◌, Option, none, some,
  List, ◌++◌, map, ℤ, pos, negate, ◌+ℤ◌, Text, codes, take, length, ltb, text_self, text_ne, Result,
  ok, err, ok_injective, Tally, paid, Bool-cases, Option-cases, if◌then◌else◌, arith, int_laws,
  text_eq, pair_eq,
}
use cyberware.Cwp.Chain.{Digests}
use cyberware.Cwp.Webauthn.{Assertion, Crypto}
use cyberware.Settle.Money.{Money}
use cyberware.Settle.Money.Decimal.{default_prec, has_digits, unary_minus}
use cyberware.Settle.Money.Exact.{unary_minus_exact}
use cyberware.Settle.RewardLedger.{
  PostingSet, Posting, Ledger, LedgerError, post, balance_of, by_account,
}
use cyberware.Settle.RewardLedger.Balances.{balance_of-post}
use cyberware.Settle.RewardLedger.Reached.{Reached, posted}
use cyberware.Settle.Engine.Guards.{Result-cases}
use cyberware.Settle.Disputes.{
  Roster, Resolution, DisputeError, ledger, index_error, insufficient_approvals, quorum_too_small,
  invalid_outcome, DisputeReason, Answer, State, unresolved, bond_account, held_account,
  currency_or, is_outcome, upheld_postings, rejected_postings, move, resolve_counted, resolve,
  count_approvals,
}
use cyberware.Settle.Disputes.Quorum.{Quorum, count_approvals-Quorum}

held-ne-bond : (sha : Text) → held_account sha ≢ bond_account sha
unfolding held_account bond_account
held-ne-bond sha h = ground arith

module _ (d : Digests PostingSet) (run_id plan_sha : Text) {entries : Ledger}
    (r : Reached d run_id plan_sha entries) (cur payee disputer sha : Text)
    (payee_apart : payee ≢ bond_account sha) (disputer_apart : disputer ≢ bond_account sha)
    (short : has_digits default_prec (balance_of (bond_account sha) cur entries) ≡ true) where
  abbrev bond_of : Money
  bond_of = record { amount = balance_of (bond_account sha) cur entries; currency = cur }

  abbrev held_of : Money
  held_of = record { amount = balance_of (held_account sha) cur entries; currency = cur }

  abbrev moved_postings : Bool → List Posting
  moved_postings upheld =
      if upheld
      then upheld_postings (held_account sha) (bond_account sha) disputer held_of bond_of
      else rejected_postings (bond_account sha) payee bond_of

  paid-bond :
      (upheld : Bool)
      → paid (bond_account sha, cur) (map by_account (moved_postings upheld))
        ≡ unary_minus (balance_of (bond_account sha) cur entries)
  unfolding paid
  paid-bond true =
      rw
        (
          text_ne (held_account sha) (bond_account sha) (held-ne-bond sha),
          text_ne disputer (bond_account sha) disputer_apart,
          text_self (bond_account sha),
          text_self cur,
        )
        (omega int_laws)
  paid-bond false =
      rw (text_ne payee (bond_account sha) payee_apart, text_self (bond_account sha), text_self cur)
        (omega int_laws)

  -- The movements leave a reached ledger whose bond account is empty.
  pub record Emptied (result : Answer × State) : Type 0 where
    pub resolved : result.0.resolved ≡ true
    pub reached : Reached d run_id plan_sha result.1.0
    pub empty : balance_of (bond_account sha) cur result.1.0 ≡ pos 0

  pub move-Emptied :
      (upheld : Bool) (outcome : Text) (reputation : Tally Text) (n : ℕ) (result : Answer × State)
      → move d entries cur upheld outcome payee disputer sha reputation n ≡ ok result
      → Emptied result
  unfolding move
  move-Emptied upheld outcome reputation n result h =
      let ps = moved_postings upheld in
      let memo = codes "dispute-resolve:" ++ outcome ++ codes ":" ++ take 16 sha in
      elim (Result-cases (post d entries ps memo)) [
        | inr (e, raised) ↦ absurd (no_result e result (rw (move, raised) at h))
        | inl (after, done) ↦ subst Emptied (ok_injective (rw (move, done) at h)) (record {
          resolved = refl;
          reached = posted ps memo r done;
          empty =
              balance_of-post d entries ps memo after (bond_account sha) cur done
              ∙ rw
                  (
                    paid-bond upheld,
                    unary_minus_exact (balance_of (bond_account sha) cur entries) short,
                  )
                  (cancelled (balance_of (bond_account sha) cur entries));
        })
      ]
    where
      no_result :
          (e : LedgerError) (result : Answer × State)
          → ◌≡◌ {A = Result DisputeError (Answer × State)} (err (ledger e)) (ok result)
          → ⊥
      no_result e result h = cc

      cancelled : (x : ℤ) → x +ℤ negate x ≡ pos 0
      cancelled x = omega int_laws

module _ (d : Digests PostingSet) (c : Crypto) (run_id plan_sha : Text) {entries : Ledger}
    (r : Reached d run_id plan_sha entries) (doc : Resolution)
    (approvals : List (Text × Option Assertion)) (m : ℕ) (payee disputer sha : Text)
    (reputation : Tally Text) (arbiters : Roster) (payee_apart : payee ≢ bond_account sha)
    (disputer_apart : disputer ≢ bond_account sha)
    (short : has_digits default_prec
        (balance_of (bond_account sha) (currency_or doc.currency) entries)
      ≡ true) where
  -- The votes that carry a resolution, and what it leaves.
  pub record Carried (result : Answer × State) : Type 0 where
    pub votes : List (Text × Text)
    pub quorum : Quorum c doc.canonical approvals arbiters votes
    pub enough : m ≤ length votes
    pub several : 2 ≤ m
    pub emptied :
        Emptied d run_id plan_sha r
          (currency_or doc.currency)
          payee
          disputer
          sha
          payee_apart
          disputer_apart
          short
          result

  abbrev pub Settles : Answer × State → Type 0
  Settles result =
      ((result.0.resolved ≡ false) × (result.1 ≡ (entries, reputation))) ⊎ Carried result

  left_alone :
      (why : DisputeReason) (n : Option ℕ) (result : Answer × State)
      → ◌≡◌ {A = Result DisputeError (Answer × State)}
          (ok (unresolved why n, (entries, reputation)))
          (ok result)
      → Settles result
  left_alone why n result h =
      let same = ok_injective h in
      inl (
        ap (λ (p : Answer × State). p.0.resolved) (sym same),
        ap (λ (p : Answer × State). p.1) (sym same),
      )

  not_less : (a b : ℕ) → ltb a b ≡ false → b ≤ a
  not_less a b h = ground arith

  carried :
      (n : ℕ) (upheld : Bool) (outcome : Text) (result : Answer × State)
      → count_approvals c doc.canonical approvals arbiters ≡ some n
      → 2 ≤ m
      → m ≤ n
      → move d entries (currency_or doc.currency) upheld outcome payee disputer sha reputation n
        ≡ ok result
      → Settles result
  carried n upheld outcome result counted several enough h =
      let (votes, size, q) = count_approvals-Quorum c doc.canonical approvals arbiters n counted in
      inr (record {
        votes = votes;
        quorum = q;
        enough = rw size enough;
        several = several;
        emptied =
            move-Emptied d run_id plan_sha r (currency_or doc.currency) payee disputer sha
              payee_apart disputer_apart short upheld outcome reputation n result h;
      })

  counted-Settles :
      (n : ℕ) (result : Answer × State)
      → count_approvals c doc.canonical approvals arbiters ≡ some n
      → 2 ≤ m
      → resolve_counted d entries doc m payee disputer sha reputation (some n) ≡ ok result
      → Settles result
  unfolding resolve_counted
  counted-Settles n result counted several h = elim (Bool-cases (ltb n m)) [
    | inl few ↦ left_alone insufficient_approvals (some n) result (rw (resolve_counted, few) at h)
    | inr enough ↦ elim (Bool-cases (is_outcome doc.outcome (codes "upheld"))) [
      | inl upheld ↦
          carried n true (codes "upheld") result counted several (not_less n m enough)
            (rw (resolve_counted, enough, upheld) at h)
      | inr other ↦ elim (Bool-cases (is_outcome doc.outcome (codes "rejected"))) [
        | inl rejected ↦
            carried n false (codes "rejected") result counted several (not_less n m enough)
              (rw (resolve_counted, enough, other, rejected) at h)
        | inr neither ↦
            left_alone invalid_outcome (some n) result
              (rw (resolve_counted, enough, other, neither) at h)
      ]
    ]
  ]

  -- A call of `resolve` on a reached ledger that returns has either resolved nothing and changed neither
  -- the ledger nor the reputations, or m is at least two and at least m different registered arbiters
  -- have approved this document under different keys; the ledger then is a reached one in which the bond
  -- account of the quote is empty, if neither party is that account and its balance had at most 28 digits.
  pub resolve-Settles :
      (result : Answer × State)
      → resolve d c entries doc approvals m payee disputer sha reputation arbiters ≡ ok result
      → Settles result
  unfolding resolve
  resolve-Settles result h = elim (Bool-cases (ltb m 2)) [
    | inl small ↦ left_alone quorum_too_small none result (rw (resolve, small) at h)
    | inr several ↦ elim (Option-cases (count_approvals c doc.canonical approvals arbiters)) [
      | inl raised ↦ absurd (no_count result (rw (resolve, several, raised, resolve_counted) at h))
      | inr (n, counted) ↦
          counted-Settles n result counted (omega (arith, not_less m 2 several))
            (rw (resolve, several, counted) at h)
    ]
  ]
    where
      no_count :
          (result : Answer × State)
          → ◌≡◌ {A = Result DisputeError (Answer × State)} (err index_error) (ok result)
          → ⊥
      no_count result h = cc
