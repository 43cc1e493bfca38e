-- ===== src/Store/Reconcile/Faithful.antt =====
-- infra/store/reconcile.py: what an index that is reconciled without an alarm says of its chain.
use cyberware.Prelude.{
  ℕ, ◌≡◌, ◌≢◌, ◌↔◌, refl, sym, ap, ◌∙◌, subst, some_injective, Bool, true, false, not, Option, none,
  some, List, [], ◌∷◌, ◌++◌, ℤ, leb_ℤ, Text, same_text_iff, any, any-append, All, arith,
}
use cyberware.Cwp.Chain.{Item, Digests, Problem, verify_chain}
use cyberware.Store.Reconcile.{
  Divergence, Table, Verdict, lookup, index_head, check_record, check_records, check_row,
  check_rows, check_origin, is_alarm, divergences, chain_digests, compared, after_chain,
  reconcile_run,
}

-- A record of the chain against its row: the row has its digest, or there is none yet, and the record lies
-- above every row of the index.
abbrev pub Kept : Option Text → ℤ → ℤ → Text → Type 0
Kept (some d) head seq digest = d ≡ digest
Kept none head seq digest = leb_ℤ seq head ≡ false

-- Every record of the chain is kept, every row has a record, and where there are rows the origin is known.
abbrev pub Faithful : Option Text → Table → Table → Type 0
Faithful origin chain rows =
    (All (λ r. Kept (lookup r.0 rows) (index_head rows) r.0 r.1) chain)
    × (All (λ r. lookup r.0 chain ≢ none) rows)
    × (origin ≡ none → rows ≡ [])

quiet_append_iff :
    (xs ys : List Divergence)
    → (any is_alarm (xs ++ ys) ≡ false) ↔ (any is_alarm xs ≡ false) × (any is_alarm ys ≡ false)
quiet_append_iff xs ys = let e = any-append is_alarm xs ys in ground arith

check_record-Kept :
    (row : Option Text) (head seq : ℤ) (digest : Text)
    → (any is_alarm (check_record row head seq digest) ≡ false) ↔ Kept row head seq digest
check_record-Kept (some d) head seq digest = let e = same_text_iff d digest in ground arith
check_record-Kept none head seq digest = ground arith

check_records-Kept :
    (rows : Table) (head : ℤ) (chain : Table)
    → (any is_alarm (check_records rows head chain) ≡ false)
      ↔ All (λ r. Kept (lookup r.0 rows) head r.0 r.1) chain
unfolding check_records
check_records-Kept rows head [] = (λ h. tt, λ h. refl)
check_records-Kept rows head ((seq, digest) ∷ rest) =
    let first = check_record-Kept (lookup seq rows) head seq digest in
    let later = check_records-Kept rows head rest in
    let split =
      quiet_append_iff (check_record (lookup seq rows) head seq digest)
        (check_records rows head rest) in
    (λ h. (first.0 (split.0 h).0, later.0 (split.0 h).1), λ h. split.1 (first.1 h.0, later.1 h.1))

check_row-Present :
    (found : Option Text) (seq : ℤ) → (any is_alarm (check_row found seq) ≡ false) ↔ (found ≢ none)
check_row-Present (some digest) seq = (λ h e. cc, λ h. refl)
check_row-Present none seq = (λ h. absurd (ground arith), λ h. absurd (h refl))

check_rows-Present :
    (chain rows : Table)
    → (any is_alarm (check_rows chain rows) ≡ false) ↔ All (λ r. lookup r.0 chain ≢ none) rows
unfolding check_rows
check_rows-Present chain [] = (λ h. tt, λ h. refl)
check_rows-Present chain ((seq, digest) ∷ rest) =
    let first = check_row-Present (lookup seq chain) seq in
    let later = check_rows-Present chain rest in
    let split = quiet_append_iff (check_row (lookup seq chain) seq) (check_rows chain rest) in
    (λ h. (first.0 (split.0 h).0, later.0 (split.0 h).1), λ h. split.1 (first.1 h.0, later.1 h.1))

check_origin_iff :
    (origin : Option Text) (rows : Table)
    → (any is_alarm (check_origin origin rows) ≡ false) ↔ (origin ≡ none → rows ≡ [])
check_origin_iff none [] = (λ h e. refl, λ h. refl)
check_origin_iff none (r ∷ rows) = (λ h. absurd (ground arith), λ h. absurd (never (h refl)))
  where
    never : ◌≡◌ {A = Table} (r ∷ rows) [] → ⊥
    never e = cc
check_origin_iff (some plan) rows = (λ h e. absurd (never e), λ h. refl)
  where
    never : some plan ≡ none → ⊥
    never e = cc

pub divergences-Faithful :
    (origin : Option Text) (chain rows : Table)
    → (any is_alarm (divergences origin chain rows) ≡ false) ↔ Faithful origin chain rows
unfolding divergences
divergences-Faithful origin chain rows =
    let records = check_records rows (index_head rows) chain in
    let here = check_origin_iff origin rows in
    let kept = check_records-Kept rows (index_head rows) chain in
    let present = check_rows-Present chain rows in
    let outer = quiet_append_iff (check_origin origin rows) (records ++ check_rows chain rows) in
    let inner = quiet_append_iff records (check_rows chain rows) in
    (
      λ h. (
        kept.0 (inner.0 (outer.0 h).1).0,
        present.0 (inner.0 (outer.0 h).1).1,
        here.0 (outer.0 h).0,
      ),
      λ h. outer.1 (here.1 h.2, inner.1 (kept.1 h.0, present.1 h.1)),
    )

module _ {P : Type 0} (d : Digests P) (schema : ℕ) (run origin : Option Text) (rows : Table) where
  abbrev pub Passes : Option Verdict → Type 0
  Passes o = (v : Verdict) × (o ≡ some v) × (v.ok ≡ true)

  compared-Faithful :
      (o : Option Table)
      → Passes (compared origin rows o)
        ↔ ((chain : Table) × (o ≡ some chain) × Faithful origin chain rows)
  compared-Faithful none = (λ (v, e, h). absurd cc, λ (chain, e, h). absurd cc)
  compared-Faithful (some chain) =
      let quiet = divergences-Faithful origin chain rows in
      (
        λ (v, e, h). (
          chain,
          refl,
          quiet.0 (
              no_alarm (any is_alarm (divergences origin chain rows))
                (ap Verdict.ok (some_injective e) ∙ h)),
        ),
        λ (other, e, h).
            let f : Faithful origin chain rows =
              subst (λ c. Faithful origin c rows) (sym (some_injective e)) h in
            (_, refl, ap not (quiet.1 f)),
      )
    where
      no_alarm : (b : Bool) → not b ≡ true → b ≡ false
      no_alarm b h = ground arith

  after_chain-Faithful :
      (items : List (Item P)) (o : Option (List Problem))
      → Passes (after_chain d schema origin rows items o) ↔ (
          (o ≡ some [])
          × (chain : Table) × (chain_digests d schema items ≡ some chain)
          × Faithful origin chain rows)
  after_chain-Faithful items none = (λ (v, e, h). absurd cc, λ h. absurd (let e = h.0 in cc))
  after_chain-Faithful items (some (p ∷ ps)) = (
    λ (v, e, h). absurd (broken (ap Verdict.ok (some_injective e) ∙ h)),
    λ h. absurd (let e = h.0 in ground arith),
  )
    where
      broken : false ≢ true
      broken h = ground arith
  after_chain-Faithful items (some []) =
      let reads = compared-Faithful (chain_digests d schema items) in
      (λ h. let (chain, e, f) = reads.0 h in (refl, chain, e, f), λ h. reads.1 (h.1, h.2, h.3))

  -- A cycle over a run reports no alarm exactly where the chain verifies for the run and for the origin
  -- that the backend has, its digests can be computed, every record of it has its digest in the index or
  -- lies above every row, every row has a record, and the origin is known if there are rows.
  pub reconcile_run-Faithful :
      (items : List (Item P))
      → Passes (reconcile_run d schema run origin rows items) ↔ (
          (verify_chain d items schema run origin ≡ some [])
          × (chain : Table) × (chain_digests d schema items ≡ some chain)
          × Faithful origin chain rows)
  unfolding reconcile_run verify_chain
  reconcile_run-Faithful [] = (
    λ (v, e, h). absurd (broken (ap Verdict.ok (some_injective e) ∙ h)),
    λ h. absurd (let e = h.0 in ground arith),
  )
    where
      broken : false ≢ true
      broken h = ground arith
  reconcile_run-Faithful (i ∷ items) =
      after_chain-Faithful (i ∷ items) (verify_chain d (i ∷ items) schema run origin)
