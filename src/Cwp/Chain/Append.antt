-- ===== src/Cwp/Chain/Append.antt =====
-- `append` of infra/cwp/ledger.py keeps a verified chain verified.
use mathlib.Core.Path.{subst₂}
use cyberware.Prelude.{
  subst, sym, ◌∙◌, ◌-◌, Option-cases, some_injective, inl, inr, ℕ, ◌≡◌, refl, ◌+ℤ◌, true, false,
  Option, some, List, [], ◌∷◌, ◌++◌, ℤ, pos, Text, same_text_iff, last, length, arith,
}
use cyberware.Cwp.Chain.{
  int, text, Link, Entry, Digests, is_text, seq_int, gap, seq_or, link_digest, link_after, linked,
  append, current_major, genesis_type, zero_root,
}
use cyberware.Cwp.Chain.Spec.{Linked, IsChain}

pub is_text_self : (t : Text) → is_text (text t) t ≡ true
unfolding is_text
is_text_self t = (same_text_iff t t).1 refl

gap_next : (n : ℤ) → gap (some n) (n +ℤ pos 1) ≡ false
gap_next n = ground arith

module _ {P : Type 0} (d : Digests P) where
  -- No digest is the all-zero root.
  abbrev pub NeverZero : Type 0
  NeverZero = (l : Link P) → is_text (text (d.v2 l)) zero_root ≡ false

  -- The tip of a chain, and that a record which fits the tip extends the chain.
  snoc :
      (t : Entry P) (es : List (Entry P)) (k : ℤ)
      → NeverZero
      → t.link.seq ≡ int k
      → Linked d current_major (d.v2 t.link) (some k) es
      → (rec : Link P) → is_text rec.kind genesis_type ≡ false
      → (tip : Entry P) × (last (t ∷ es) ≡ some tip)
        × (n : ℤ) × (tip.link.seq ≡ int n)
        × Linked d current_major (d.v2 t.link) (some k) (es ++ linked rec n (d.v2 tip.link) ∷ [])
  unfolding link_digest
  snoc t [] k nonzero number links rec fresh = (
    t,
    refl,
    k,
    number,
    (fresh, nonzero t.link, is_text_self _, k +ℤ pos 1, refl, gap_next k, _, refl, tt),
  )
  snoc t (e ∷ es) k nonzero number (a, b, c, n, seq, step, h, done, rest) rec fresh =
      let same : h ≡ d.v2 e.link = cc in
      let (tip, found, m, at_tip, more) =
        snoc e es n nonzero seq (subst (λ x. Linked d current_major x (some n) es) same rest) rec
          fresh in
      (tip, found, m, at_tip, (a, b, c, n, seq, step, d.v2 e.link, refl, more))

  link_after_tip :
      (size : ℕ) (tip : Entry P) (rec : Link P) (n : ℤ)
      → tip.link.seq ≡ int n
      → link_after d size tip rec current_major ≡ some (linked rec n (d.v2 tip.link))
  unfolding link_after link_digest
  link_after_tip size tip rec n number = ground arith

  pub append_tip :
      (entries : List (Entry P)) (rec : Link P) (tip : Entry P) (n : ℤ)
      → last entries ≡ some tip
      → tip.link.seq ≡ int n
      → append d entries rec current_major ≡ some (entries ++ linked rec n (d.v2 tip.link) ∷ [])
  unfolding append
  append_tip entries rec tip n found number =
      rw (found, append, link_after_tip (length entries) tip rec n number)

  -- Onto a verified chain whose genesis has a number for its sequence, `append` adds one record, and
  -- the longer chain verifies with the same origin. The record must be no genesis, and the digest of
  -- no link may be all zeros.
  pub append-IsChain :
      (run plan : Option Text) (g : Entry P) (es : List (Entry P)) (rec : Link P) (k : ℤ)
      → NeverZero
      → g.link.seq ≡ int k
      → IsChain d current_major run plan g es
      → is_text rec.kind genesis_type ≡ false
      → (e : Entry P) × (append d (g ∷ es) rec current_major ≡ some (g ∷ es ++ e ∷ []))
        × IsChain d current_major run plan g (es ++ e ∷ [])
  unfolding link_digest
  append-IsChain run plan g es rec k nonzero number (origin, h, digest, links) fresh =
      let same : h ≡ d.v2 g.link = cc in
      let start : seq_int g.link.seq ≡ some k = rw number in
      let from = subst₂ (λ x l. Linked d current_major x l es) same start links in
      let (tip, found, n, at_tip, more) = snoc g es k nonzero number from rec fresh in
      (
        linked rec n (d.v2 tip.link),
        append_tip (g ∷ es) rec tip n found at_tip,
        (origin, d.v2 g.link, refl, rw start more),
      )

  link_after-shape :
      (size schema : ℕ) (tip : Entry P) (rec : Link P) (e : Entry P)
      → link_after d size tip rec schema ≡ some e
      → (n : ℤ) × (h : Text) × (linked rec n h ≡ e)
  unfolding link_after
  link_after-shape size schema tip rec e eq = elim (Option-cases (seq_or (size - 1) tip.link.seq)) [
    | inl no_seq ↦ absurd (ground arith)
    | inr (n, seq) ↦ elim (Option-cases (link_digest d schema tip.link)) [
      | inl raised ↦ absurd (ground arith)
      | inr (h, digest) ↦ (n, h, some_injective (sym (step n h seq digest) ∙ eq))
    ]
  ]
    where
      step :
          (n : ℤ) (h : Text)
          → seq_or (size - 1) tip.link.seq ≡ some n
          → link_digest d schema tip.link ≡ some h
          → link_after d size tip rec schema ≡ some (linked rec n h)
      step n h seq digest = ground arith

  -- An `append` that succeeds adds one linked record at the end.
  pub append-shape :
      (entries : List (Entry P)) (rec : Link P) (schema : ℕ) (after : List (Entry P))
      → append d entries rec schema ≡ some after
      → (n : ℤ) × (h : Text) × (after ≡ entries ++ linked rec n h ∷ [])
  unfolding append
  append-shape entries rec schema after eq = elim (Option-cases (last entries)) [
    | inl no_tip ↦ absurd (ground arith)
    | inr (tip, found) ↦ elim (Option-cases (link_after d (length entries) tip rec schema)) [
      | inl raised ↦ absurd (ground arith)
      | inr (e, made) ↦
          let (n, h, shape) = link_after-shape (length entries) schema tip rec e made in
          let whole : some (entries ++ e ∷ []) ≡ some after = ground arith in
          (n, h, rw shape (sym (some_injective whole)))
    ]
  ]
