-- ===== src/Cwp/Chain/Spec.antt =====
-- What a verified chain is, stated without the loop: each record carries the digest of the record
-- before it, is no second genesis, and continues the sequence numbers.
use cyberware.Prelude.{
  ℕ, suc, ◌≡◌, refl, ◌⊎◌, inl, inr, ◌↔◌, true, false, Option, none, some, List, [], ◌∷◌, map, ℤ,
  Text, Option-cases, arith, sym, ◌∙◌, ◌&&◌, ◌||◌,
}
use cyberware.Cwp.Chain.{
  Value, missing, null, flag, int, text, other, Entry, Item, object, Digests, Problem, Check, stop,
  next, is_text, seq_int, gap, check_seq, check, walk, link_digest, genesis_type, zero_root, truthy,
  differs, genesis_problems, verify_chain,
}

Check-cases : (c : Check) → ((p : Problem) × (c ≡ stop p)) ⊎ ((l : Option ℤ) × (c ≡ next l))
Check-cases (stop p) = inl (p, refl)
Check-cases (next l) = inr (l, refl)

check_seq-next :
    (i : ℕ) (last l : Option ℤ) (v : Value)
    → check_seq i last v ≡ next l
    → (n : ℤ) × (v ≡ int n) × (gap last n ≡ false) × (l ≡ some n)
check_seq-next i last l (int n) h = (n, refl, ground arith, ground arith)
check_seq-next i last l missing h = cc
check_seq-next i last l null h = cc
check_seq-next i last l (flag b) h = cc
check_seq-next i last l (text t) h = cc
check_seq-next i last l (other b) h = cc

module _ {P : Type 0} (d : Digests P) (schema : ℕ) where
  -- The records `es` continue a chain whose tip has the digest `h` and the sequence number `last`.
  abbrev pub Linked : Text → Option ℤ → List (Entry P) → Type 0
  Linked h last [] = Unit
  Linked h last (e ∷ es) =
      (is_text e.link.kind genesis_type ≡ false)
      × (is_text e.prev zero_root ≡ false)
      × (is_text e.prev h ≡ true)
      × (n : ℤ) × (e.link.seq ≡ int n)
      × (gap last n ≡ false)
      × (h' : Text) × (link_digest d schema e.link ≡ some h')
      × Linked h' (some n) es

  pub check-next :
      (i : ℕ) (h : Text) (last l : Option ℤ) (e : Entry P)
      → check (suc i) h last e ≡ next l
      → (is_text e.link.kind genesis_type ≡ false)
        × (is_text e.prev zero_root ≡ false)
        × (is_text e.prev h ≡ true)
        × (check_seq (suc i) last e.link.seq ≡ next l)
  unfolding check
  check-next i h last l e eq = ground arith

  walk_step :
      (i : ℕ) (h : Text) (last : Option ℤ) (e : Entry P) (es : List (Item P))
      → walk d schema (suc i) h last (object e ∷ es) ≡ some []
      → (l : Option ℤ) × (check (suc i) h last e ≡ next l)
        × (h' : Text) × (link_digest d schema e.link ≡ some h')
        × (walk d schema (suc (suc i)) h' l es ≡ some [])
  unfolding walk
  walk_step i h last e es ok = elim (Check-cases (check (suc i) h last e)) [
    | inl (p, bad) ↦ absurd (ground arith)
    | inr (l, good) ↦ elim (Option-cases (link_digest d schema e.link)) [
      | inl raised ↦ absurd (ground arith)
      | inr (h', done) ↦ (l, good, h', done, ground arith)
    ]
  ]

  -- A walk without a problem has only linked records.
  pub walk-Linked :
      (i : ℕ) (h : Text) (last : Option ℤ) (es : List (Entry P))
      → walk d schema (suc i) h last (map object es) ≡ some []
      → Linked h last es
  walk-Linked i h last [] ok = tt
  walk-Linked i h last (e ∷ es) ok =
      let (l, c, h', done, rest) = walk_step i h last e (map object es) ok in
      let facts = check-next i h last l e c in
      let (n, number, step, same) = check_seq-next (suc i) last l e.link.seq facts.3 in
      (
        facts.0,
        facts.1,
        facts.2,
        n,
        number,
        step,
        h',
        done,
        walk-Linked (suc i) h' (some n) es (rw same at rest),
      )

  check_of :
      (i : ℕ) (h : Text) (last : Option ℤ) (e : Entry P) (n : ℤ)
      → is_text e.link.kind genesis_type ≡ false
      → is_text e.prev zero_root ≡ false
      → is_text e.prev h ≡ true
      → e.link.seq ≡ int n
      → gap last n ≡ false
      → check (suc i) h last e ≡ next (some n)
  unfolding check
  check_of i h last e n a b c number step = ground arith

  -- And the other way round.
  pub Linked-walk :
      (i : ℕ) (h : Text) (last : Option ℤ) (es : List (Entry P))
      → Linked h last es
      → walk d schema (suc i) h last (map object es) ≡ some []
  unfolding walk
  Linked-walk i h last [] ok = refl
  Linked-walk i h last (e ∷ es) (a, b, c, n, number, step, h', done, rest) =
      rw (check_of i h last e n a b c number step, walk, done)
        (Linked-walk (suc i) h' (some n) es rest)

  -- The first record is a genesis that binds an origin, the expected one where one is given.
  abbrev pub IsOrigin : Option Text → Option Text → Entry P → Type 0
  IsOrigin run plan g =
      (is_text g.link.kind genesis_type ≡ true)
      × (is_text g.prev zero_root ≡ true)
      × (((truthy g.link.run_id && truthy g.link.plan_sha)
            || (truthy g.link.supersedes_head || truthy g.link.supersedes))
          ≡ true)
      × (differs run g.link.run_id ≡ false)
      × (differs plan g.link.plan_sha ≡ false)

  -- A ledger that begins with its genesis `g`.
  abbrev pub IsChain : Option Text → Option Text → Entry P → List (Entry P) → Type 0
  IsChain run plan g es =
      IsOrigin run plan g
      × (h : Text) × (link_digest d schema g.link ≡ some h)
      × Linked h (seq_int g.link.seq) es

  pub genesis_problems_iff :
      (run plan : Option Text) (g : Entry P)
      → (genesis_problems run plan g ≡ []) ↔ IsOrigin run plan g
  unfolding genesis_problems
  genesis_problems_iff run plan g = (λ h. ground arith, λ h. ground arith)

  verify_of_origin :
      (run plan : Option Text) (g : Entry P) (es : List (Item P))
      → genesis_problems run plan g ≡ []
      → verify_chain d (object g ∷ es) schema run plan
        ≡ walk d schema 0 zero_root none (object g ∷ es)
  unfolding verify_chain
  verify_of_origin run plan g es clean = rw (clean, verify_chain)

  verify_no_problem :
      (run plan : Option Text) (g : Entry P) (es : List (Item P))
      → verify_chain d (object g ∷ es) schema run plan ≡ some []
      → genesis_problems run plan g ≡ []
  unfolding verify_chain
  verify_no_problem run plan g es ok = ground arith

  first_step :
      (g : Entry P) (es : List (Item P)) {h : Text}
      → is_text g.prev zero_root ≡ true
      → link_digest d schema g.link ≡ some h
      → walk d schema 0 zero_root none (object g ∷ es) ≡ walk d schema 1 h (seq_int g.link.seq) es
  unfolding walk check
  first_step g es rooted digest = rw (rooted, check, walk, digest)

  first_digest :
      (g : Entry P) (es : List (Item P))
      → is_text g.prev zero_root ≡ true
      → walk d schema 0 zero_root none (object g ∷ es) ≡ some []
      → (h : Text) × (link_digest d schema g.link ≡ some h)
  unfolding walk check
  first_digest g es rooted ok = elim (Option-cases (link_digest d schema g.link)) [
    | inl raised ↦ absurd (ground arith)
    | inr found ↦ found
  ]

  -- `verify_chain` accepts a list of records, with no problem and no exception, exactly when it is a
  -- chain: a genesis that binds the expected origin, and after it only records that carry the digest
  -- of the one before, are no second genesis and continue the sequence numbers.
  pub verify_chain-IsChain :
      (run plan : Option Text) (g : Entry P) (es : List (Entry P))
      → (verify_chain d (map object (g ∷ es)) schema run plan ≡ some []) ↔ IsChain run plan g es
  verify_chain-IsChain run plan g es = (
    λ ok.
        let clean = verify_no_problem run plan g (map object es) ok in
        let origin = (genesis_problems_iff run plan g).0 clean in
        let walked = sym (verify_of_origin run plan g (map object es) clean) ∙ ok in
        let (h, digest) = first_digest g (map object es) origin.1 walked in
        (
          origin,
          h,
          digest,
          walk-Linked 0 h (seq_int g.link.seq) es
              (sym (first_step g (map object es) origin.1 digest) ∙ walked),
        ),
    λ (origin, h, digest, rest).
        verify_of_origin run plan g (map object es) ((genesis_problems_iff run plan g).1 origin)
        ∙ first_step g (map object es) origin.1 digest
        ∙ Linked-walk 0 h (seq_int g.link.seq) es rest,
  )
