-- ===== src/Cwp/Merkle/Soundness.antt =====
-- What an accepted inclusion proof proves.
use cyberware.Prelude.{
  ℕ, ◌+◌, ◌/◌, ◌%◌, ◌≡◌, refl, sym, ◌∙◌, ap, Bool, true, false, ◌&&◌, inl, inr, some, List, [], ◌∷◌,
  length, get_elem?, ltb, ltb→lt, ◌==◌, if◌then◌else◌, Bool-cases, some_injective, Eq, same_iff,
  arith,
}
use cyberware.Cwp.Merkle.{merkle_root, inclusion_proof, joined, recompute, verify_inclusion}
use cyberware.Cwp.Merkle.Inclusion.{found_below, inclusion-round_trip}

-- No two pairs of digests have the same hash.
abbrev pub CollisionFree : {H : Type 0} → (H → H → H) → Type 0
CollisionFree {H} hash = (a b c d : H) → hash a b ≡ hash c d → (a ≡ c) × (b ≡ d)

module _ {H : Type 0} (hash : H → H → H) (free : CollisionFree hash) where
  joined-injective : (i n : ℕ) (a b s t : H) → joined hash i n a s ≡ joined hash i n b t → a ≡ b
  joined-injective i n a b s t h = elim (Bool-cases (i % 2 == 0)) [
    | inl even ↦ (free a _ b _ (sym (left a s even) ∙ h ∙ left b t even)).0
    | inr odd ↦ (free s a t b (sym (right a s odd) ∙ h ∙ right b t odd)).1
  ]
    where
      left :
          (x u : H)
          → (i % 2 == 0) ≡ true
          → joined hash i n x u ≡ hash x (if ltb (i + 1) n then u else x)
      left x u e = rw e refl

      right : (x u : H) → (i % 2 == 0) ≡ false → joined hash i n x u ≡ hash u x
      right x u e = rw e refl

  -- Two proofs of one length that lead to one root start at one leaf.
  recompute-injective :
      (p q : List H) (i n : ℕ) (a b : H)
      → length p ≡ length q
      → recompute hash a i n p ≡ recompute hash b i n q
      → a ≡ b
  unfolding recompute
  recompute-injective [] [] i n a b size h = h
  recompute-injective [] (t ∷ q) i n a b size h = absurd (omega arith)
  recompute-injective (s ∷ p) [] i n a b size h = absurd (omega arith)
  recompute-injective (s ∷ p) (t ∷ q) i n a b size h = joined-injective i n a b s t (
      recompute-injective p q (i / 2) ((n + 1) / 2) (joined hash i n a s) (joined hash i n b t)
        (omega arith) h)

  -- If hashing pairs has no collisions, then a proof that is accepted against the root of a log, and
  -- that is as long as the log's own proofs, shows that the log holds that leaf at that index.
  pub verify_inclusion_sound :
      ⦃e : Eq H⦄ (empty_root : H) (leaves : List H) (index : ℕ) (leaf root : H)
      (proof honest : List H)
      → merkle_root hash empty_root leaves ≡ some root
      → inclusion_proof hash index leaves ≡ some honest
      → length proof ≡ length honest
      → verify_inclusion hash leaf index (length leaves) proof root ≡ true
      → get_elem? leaves index ≡ some leaf
  unfolding verify_inclusion
  verify_inclusion_sound empty_root leaves index leaf root proof honest rooted collected size
        accepted =
      let (in_range, hit) = both (ltb index (length leaves)) _ accepted in
      let (own, at) = found_below leaves index (ltb→lt index (length leaves) in_range) in
      let (path, top, path_collected, path_rooted, path_accepted) =
        inclusion-round_trip hash empty_root leaves index own at in
      let (_, own_hit) = both (ltb index (length leaves)) _ path_accepted in
      let same_path : path ≡ honest = some_injective (sym path_collected ∙ collected) in
      let same_root : top ≡ root = some_injective (sym path_rooted ∙ rooted) in
      at
      ∙ ap some (
          recompute-injective path proof index (length leaves) own leaf
            (ap length same_path ∙ sym size)
            ((same_iff _ top).0 own_hit ∙ same_root ∙ sym ((same_iff _ root).0 hit)))
    where
      both : (x y : Bool) → (x && y) ≡ true → (x ≡ true) × (y ≡ true)
      both x y h = ground arith
