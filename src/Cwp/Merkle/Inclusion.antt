-- ===== src/Cwp/Merkle/Inclusion.antt =====
-- Every leaf of a log has an inclusion proof, and it verifies.
use cyberware.Prelude.{
  ℕ, zero, suc, ◌+◌, ◌/◌, ◌≤◌, ◌<◌, ◌≡◌, refl, sym, ◌∙◌, ap, true, some, List, [], ◌∷◌, length,
  get_elem?, lt→ltb, some_injective, Eq, same_refl, arith,
}
use cyberware.Cwp.Merkle.{
  next_level, root_loop, merkle_root, sibling, path_loop, inclusion_proof, joined, recompute,
  verify_inclusion,
}

pub sibling-in_range : (i n : ℕ) → i < n → sibling i n < n
unfolding sibling
sibling-in_range i n h = ground arith

half-suc-suc : (i : ℕ) → suc (suc i) / 2 ≡ suc (i / 2)
half-suc-suc i = omega arith

sibling_first : (n : ℕ) → sibling 0 (suc (suc n)) ≡ 1
unfolding sibling
sibling_first n = ground arith

sibling_second : (n : ℕ) → sibling 1 (suc (suc n)) ≡ 0
unfolding sibling
sibling_second n = ground arith

sibling-suc-suc : (i n : ℕ) → sibling (suc (suc i)) (suc (suc n)) ≡ suc (suc (sibling i n))
unfolding sibling
sibling-suc-suc i n = ground arith

module _ {H : Type 0} where
  pub found_below : (xs : List H) (i : ℕ) → i < length xs → (a : H) × (get_elem? xs i ≡ some a)
  found_below [] i h = absurd (omega arith)
  found_below (x ∷ xs) zero h = (x, refl)
  found_below (x ∷ xs) (suc i) h = found_below xs i (omega arith)

  pub below_found : (xs : List H) (i : ℕ) (a : H) → get_elem? xs i ≡ some a → i < length xs
  below_found [] i a h = absurd cc
  below_found (x ∷ xs) zero a h = omega arith
  below_found (x ∷ xs) (suc i) a h = omega (arith, below_found xs i a h)

module _ {H : Type 0} (hash : H → H → H) where
  pub length-next_level : (xs : List H) → length (next_level hash xs) ≡ (length xs + 1) / 2
  unfolding next_level
  length-next_level [] = omega arith
  length-next_level (a ∷ []) = omega arith
  length-next_level (a ∷ b ∷ xs) = omega (arith, length-next_level xs)

  joined-suc-suc :
      (i n : ℕ) (a s : H) → joined hash i n a s ≡ joined hash (suc (suc i)) (suc (suc n)) a s
  joined-suc-suc i n a s = ground arith

  -- The parent of a node joins it with its sibling.
  pub parent :
      (xs : List H) (i : ℕ) (a s : H)
      → get_elem? xs i ≡ some a
      → get_elem? xs (sibling i (length xs)) ≡ some s
      → get_elem? (next_level hash xs) (i / 2) ≡ some (joined hash i (length xs) a s)
  unfolding next_level sibling
  parent [] i a s h k = absurd cc
  parent (x ∷ []) zero a s h k = rw (some_injective h) refl
  parent (x ∷ []) (suc i) a s h k = absurd cc
  parent (x ∷ y ∷ xs) zero a s h k =
      let right =
        some_injective (ap (get_elem? (x ∷ y ∷ xs)) (sym (sibling_first (length xs))) ∙ k) in
      rw (some_injective h, right, lt→ltb 1 (suc (suc (length xs))) (omega arith)) refl
  parent (x ∷ y ∷ xs) (suc zero) a s h k =
      let left =
        some_injective (ap (get_elem? (x ∷ y ∷ xs)) (sym (sibling_second (length xs))) ∙ k) in
      rw (some_injective h, left) refl
  parent (x ∷ y ∷ xs) (suc (suc i)) a s h k =
      let below =
        parent xs i a s h (ap (get_elem? (x ∷ y ∷ xs)) (sym (sibling-suc-suc i (length xs))) ∙ k) in
      ap (get_elem? (next_level hash (x ∷ y ∷ xs))) (half-suc-suc i)
      ∙ below
      ∙ ap some (joined-suc-suc i (length xs) a s)

  -- The loops agree: the path that one collects leads to the root that the other computes.
  proof-root :
      (fuel : ℕ) (xs : List H) (i : ℕ) (a : H)
      → length xs ≤ fuel
      → get_elem? xs i ≡ some a
      → (path : List H) × (path_loop hash fuel i xs ≡ some path)
        × (root_loop hash fuel xs ≡ some (recompute hash a i (length xs) path))
  unfolding path_loop root_loop recompute next_level
  proof-root fuel [] i a enough h = absurd cc
  proof-root fuel (x ∷ []) zero a enough h = ([], refl, h)
  proof-root fuel (x ∷ []) (suc i) a enough h = absurd cc
  proof-root zero (x ∷ y ∷ xs) i a enough h = absurd (omega arith)
  proof-root (suc fuel) (x ∷ y ∷ xs) i a enough h =
      let level = x ∷ y ∷ xs in
      let n = length level in
      let in_range = below_found level i a h in
      let (s, at_sibling) = found_below level (sibling i n) (sibling-in_range i n in_range) in
      let (path, collected, computed) =
        proof-root fuel (next_level hash level) (i / 2) (joined hash i n a s)
          (omega (arith, length-next_level level)) (parent level i a s h at_sibling) in
      (
        s ∷ path,
        rw (at_sibling, collected) refl,
        computed
            ∙ ap (λ m. some (recompute hash (joined hash i n a s) (i / 2) m path))
                (length-next_level level),
      )

  -- For every leaf of a log, `inclusion_proof` returns a proof and `merkle_root` a root, and
  -- `verify_inclusion` accepts the leaf at its index with them.
  pub inclusion-round_trip :
      ⦃e : Eq H⦄ (empty_root : H) (leaves : List H) (index : ℕ) (leaf : H)
      → get_elem? leaves index ≡ some leaf
      → (proof : List H) × (root : H) × (inclusion_proof hash index leaves ≡ some proof)
        × (merkle_root hash empty_root leaves ≡ some root)
        × (verify_inclusion hash leaf index (length leaves) proof root ≡ true)
  unfolding inclusion_proof merkle_root verify_inclusion
  inclusion-round_trip empty_root [] index leaf h = absurd cc
  inclusion-round_trip empty_root (x ∷ xs) index leaf h =
      let leaves = x ∷ xs in
      let live = lt→ltb index (length leaves) (below_found leaves index leaf h) in
      let (path, collected, computed) =
        proof-root (length leaves) leaves index leaf (omega arith) h in
      (
        path,
        recompute hash leaf index (length leaves) path,
        rw (live, collected) refl,
        computed,
        rw live (same_refl (recompute hash leaf index (length leaves) path)),
      )
