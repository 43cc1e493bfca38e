-- ===== src/Store/Reconcile/Indexed.antt =====
-- infra/store/reconcile.py: what a run without an alarm shows of the records of the chain, one by one.
use cyberware.Prelude.{
  ℕ, ◌≡◌, ◌≢◌, refl, sym, ap, ◌∙◌, subst, some_injective, Bool, true, false, Option, none, some,
  List, [], ◌∷◌, ℤ, eqb_ℤ, ltb_ℤ, leb_ℤ, negsuc, Text, All, inl, inr, Bool-cases, Option-cases,
  if◌then◌else◌, arith,
}
use cyberware.Cwp.Chain.{
  Entry, Item, object, junk, Digests, is_text, seq_int, genesis_type, link_digest, verify_chain,
}
use cyberware.Store.Reconcile.{Table, lookup, insert, index_head, digests_from, reconcile_run}
use cyberware.Store.Reconcile.Faithful.{Kept, Faithful, Passes, reconcile_run-Faithful}

eqb_iff : (a b : ℤ) → eqb_ℤ a b ≡ true → a ≡ b
eqb_iff a b h = ground arith

eqb_self : (a : ℤ) → eqb_ℤ a a ≡ true
eqb_self a = ground arith

-- The number lies above every row; an index without rows has the head -1.
abbrev pub Above : ℤ → Table → Type 0
Above seq [] = leb_ℤ seq (negsuc 0) ≡ false
Above seq (r ∷ rows) = All (λ q. ltb_ℤ q.0 seq ≡ true) (r ∷ rows)

head_above :
    (seq : ℤ) (r : ℤ × Text) (rows : Table)
    → leb_ℤ seq (index_head (r ∷ rows)) ≡ false
    → All (λ q. ltb_ℤ q.0 seq ≡ true) (r ∷ rows)
unfolding index_head
head_above seq (k, v) [] h = (ground arith, tt)
head_above seq (k, v) (r ∷ rows) h = elim (Bool-cases (ltb_ℤ (index_head (r ∷ rows)) k)) [
  | inl most ↦ (
    ground (arith, rw (index_head, most) at h),
    head_above seq r rows (ground (arith, rw (index_head, most) at h)),
  )
  | inr less ↦ (
    ground (arith, rw (index_head, less) at h),
    head_above seq r rows (rw (index_head, less) at h),
  )
]

lookup-insert :
    (s seq : ℤ) (digest : Text) (t : Table)
    → lookup s (insert seq digest t) ≡ (if eqb_ℤ seq s then some digest else lookup s t)
unfolding insert
lookup-insert s seq digest [] = refl
lookup-insert s seq digest ((k, v) ∷ rest) = elim (Bool-cases (eqb_ℤ k seq)) [
  | inl same ↦
      rw (insert, same, sym (eqb_iff k seq same))
        (twice (eqb_ℤ k s) (some digest) (some v) (lookup s rest))
  | inr other ↦ elim (Bool-cases (ltb_ℤ seq k)) [
    | inl before ↦ rw (insert, other, before) refl
    | inr after ↦
        rw (insert, other, after, lookup-insert s seq digest rest)
          (swap (eqb_ℤ k s) (eqb_ℤ seq s) (some v) (some digest) (lookup s rest) (apart other))
  ]
]
  where
    twice :
        (b : Bool) (x y z : Option Text)
        → (if b then x else z) ≡ (if b then x else (if b then y else z))
    twice true x y z = refl
    twice false x y z = refl

    apart : eqb_ℤ k seq ≡ false → eqb_ℤ k s ≡ true → eqb_ℤ seq s ≡ true → ⊥
    apart o a b = absurd (
        let e = eqb_iff k s a ∙ sym (eqb_iff seq s b) in
        let f = ap (λ x. eqb_ℤ k x) e in let g = eqb_self k in ground arith)

    swap :
        (a b : Bool) (x y z : Option Text)
        → (a ≡ true → b ≡ true → ⊥)
        → (if a then x else (if b then y else z)) ≡ (if b then y else (if a then x else z))
    swap true true x y z h = absurd (h refl refl)
    swap true false x y z h = refl
    swap false true x y z h = refl
    swap false false x y z h = refl

-- What was found for the key satisfies what all rows do.
All-lookup :
    (P : ℤ → Text → Type 0) (t : Table) (s : ℤ) (v : Text)
    → All (λ r. P r.0 r.1) t
    → lookup s t ≡ some v
    → P s v
All-lookup P [] s v h found = absurd cc
All-lookup P ((k, w) ∷ rest) s v h found = elim (Bool-cases (eqb_ℤ k s)) [
  | inl same ↦
      subst (λ x. P x v) (eqb_iff k s same)
        (subst (λ y. P k y) (some_injective (rw same at found)) h.0)
  | inr other ↦ All-lookup P rest s v h.1 (rw other at found)
]

module _ {P : Type 0} (d : Digests P) (schema : ℕ) where
  abbrev first_of : Option Text → Option Text → Option Text
  first_of (some t) later = some t
  first_of none later = later

  -- The digest of a record behind the genesis that has the number.
  abbrev own_digest : Entry P → ℤ → Option Text
  own_digest e s = if is_text e.link.kind genesis_type then none else elim (seq_int e.link.seq) [
    | none ↦ none
    | some n ↦ if eqb_ℤ n s then link_digest d schema e.link else none
  ]

  -- The digest of the last record of the chain with the number.
  unfoldable pub digest_at : List (Item P) → ℤ → Option Text
  digest_at [] s = none
  digest_at (junk ∷ es) s = digest_at es s
  digest_at (object e ∷ es) s = first_of (digest_at es s) (own_digest e s)

  lookup-digests_from :
      (items : List (Item P)) (t t' : Table) (s : ℤ)
      → digests_from d schema items t ≡ some t'
      → lookup s t' ≡ first_of (digest_at items s) (lookup s t)
  unfolding digests_from digest_at
  lookup-digests_from [] t t' s h = ap (lookup s) (sym (some_injective h))
  lookup-digests_from (junk ∷ es) t t' s h = absurd cc
  lookup-digests_from (object e ∷ es) t t' s h = elim (Option-cases (link_digest d schema e.link)) [
    | inl raised ↦ absurd (never (rw (digests_from, raised) at h))
    | inr (digest, made) ↦ elim (Bool-cases (is_text e.link.kind genesis_type)) [
      | inl first ↦
          lookup-digests_from es t t' s (rw (digests_from, made, first) at h)
          ∙ rw first (skip (digest_at es s) (lookup s t))
      | inr later ↦ elim (Option-cases (seq_int e.link.seq)) [
        | inl unread ↦ absurd (never (rw (digests_from, made, later, unread) at h))
        | inr (n, number) ↦
            lookup-digests_from es (insert n digest t) t' s
              (rw (digests_from, made, later, number) at h)
            ∙ rw (lookup-insert s n digest t, later, number, made)
                (place (digest_at es s) (eqb_ℤ n s) digest (lookup s t))
      ]
    ]
  ]
    where
      never : none ≡ some t' → ⊥
      never e = cc

      skip : (a b : Option Text) → first_of a b ≡ first_of (first_of a none) b
      skip none b = refl
      skip (some x) b = refl

      place :
          (a : Option Text) (b : Bool) (x : Text) (z : Option Text)
          → first_of a (if b then some x else z)
            ≡ first_of (first_of a (if b then some x else none)) z
      place none true x z = refl
      place none false x z = refl
      place (some y) b x z = refl

-- For one number: what the chain has against what the index has.
abbrev pub Agrees : Option Text → Option Text → ℤ → Table → Type 0
Agrees none row seq rows = row ≡ none
Agrees (some digest) (some indexed) seq rows = indexed ≡ digest
Agrees (some digest) none seq rows = Above seq rows

abbrev pub Known : Option Text → Table → Type 0
Known none rows = rows ≡ []
Known (some plan) rows = Unit

Kept-Agrees :
    (row : Option Text) (seq : ℤ) (digest : Text) (rows : Table)
    → Kept row (index_head rows) seq digest
    → Agrees (some digest) row seq rows
unfolding index_head
Kept-Agrees (some d) seq digest rows h = h
Kept-Agrees none seq digest [] h = h
Kept-Agrees none seq digest (r ∷ rows) h = head_above seq r rows h

Known-of : (origin : Option Text) (rows : Table) → (origin ≡ none → rows ≡ []) → Known origin rows
Known-of none rows h = h refl
Known-of (some plan) rows h = tt

module _ {P : Type 0} (d : Digests P) (schema : ℕ) (run origin : Option Text) (rows : Table) where
  Faithful-Agrees :
      (items : List (Item P)) (chain : Table)
      → digests_from d schema items [] ≡ some chain
      → Faithful origin chain rows
      → (seq : ℤ) → Agrees (digest_at d schema items seq) (lookup seq rows) seq rows
  Faithful-Agrees items chain made f seq =
      against (digest_at d schema items seq) (lookup-digests_from d schema items [] chain seq made)
    where
      against :
          (o : Option Text)
          → lookup seq chain ≡ first_of d schema o none
          → Agrees o (lookup seq rows) seq rows
      against (some digest) found = Kept-Agrees (lookup seq rows) seq digest rows (
          All-lookup (λ k v. Kept (lookup k rows) (index_head rows) k v) chain seq digest f.0 found)
      against none missing = elim (Option-cases (lookup seq rows)) [
        | inl gone ↦ gone
        | inr (v, there) ↦
            absurd (All-lookup (λ k w. lookup k chain ≢ none) rows seq v f.1 there missing)
      ]

  -- Where a cycle over a run reports no alarm, the chain verifies for the run and for the origin that the
  -- backend has, and for every number the index agrees with the chain: a number that no record has, no row
  -- has; a row has the digest of the last record with its number; and a record without a row lies above
  -- every row. An index whose origin is unknown has no rows.
  pub reconcile_run-Agrees :
      (items : List (Item P))
      → Passes d schema run origin rows (reconcile_run d schema run origin rows items)
      → (verify_chain d items schema run origin ≡ some [])
        × ((seq : ℤ) → Agrees (digest_at d schema items seq) (lookup seq rows) seq rows)
        × Known origin rows
  reconcile_run-Agrees items h =
      let (verified, chain, made, f) =
        (reconcile_run-Faithful d schema run origin rows items).0 h in
      (verified, Faithful-Agrees items chain made f, Known-of origin rows f.2)
