-- ===== src/Cwp/Merkle.antt =====
-- The Merkle tree of infra/cwp/checkpoint.py (`merkle_root`) and the inclusion proofs of
-- infra/cwp/translog.py over it. `H` is the type of digests; `hash a b` is `sha256(a + b)` and
-- `empty_root` is `sha256(b"")`. The loops `while len(level) > 1` run on fuel, the number of leaves.
pub mod Inclusion
pub mod Soundness
use cyberware.Prelude.{
  ℕ, zero, suc, ◌+◌, ◌-◌, ◌/◌, ◌%◌, Bool, true, false, ◌&&◌, Option, none, some, List, [], ◌∷◌,
  length, get_elem?, ltb, ◌==◌, if◌then◌else◌, Eq, same,
}

module _ {H : Type 0} (hash : H → H → H) where
  -- The body of the loop: an odd node is paired with itself.
  unfoldable pub next_level : List H → List H
  next_level [] = []
  next_level (a ∷ []) = hash a a ∷ []
  next_level (a ∷ b ∷ level) = hash a b ∷ next_level level

  unfoldable pub root_loop : ℕ → List H → Option H
  unfolding next_level
  root_loop fuel [] = none
  root_loop fuel (a ∷ []) = some a
  root_loop zero (a ∷ b ∷ level) = none
  root_loop (suc fuel) (a ∷ b ∷ level) = root_loop fuel (next_level (a ∷ b ∷ level))

  unfoldable pub merkle_root : H → List H → Option H
  unfolding root_loop
  merkle_root empty_root [] = some empty_root
  merkle_root empty_root (a ∷ leaves) = root_loop (length (a ∷ leaves)) (a ∷ leaves)

-- `idx ^ 1`
abbrev pub flip_last : ℕ → ℕ
flip_last i = if i % 2 == 0 then i + 1 else i - 1

-- The place of the sibling in a level of `n` nodes.
unfoldable pub sibling : ℕ → ℕ → ℕ
sibling i n = if ltb (flip_last i) n then flip_last i else i

abbrev cons_found : {H : Type 0} → Option H → Option (List H) → Option (List H)
cons_found none path = none
cons_found (some s) none = none
cons_found (some s) (some path) = some (s ∷ path)

module _ {H : Type 0} (hash : H → H → H) where
  unfoldable pub path_loop : ℕ → ℕ → List H → Option (List H)
  unfolding sibling next_level
  path_loop fuel i [] = none
  path_loop fuel i (a ∷ []) = some []
  path_loop zero i (a ∷ b ∷ level) = none
  path_loop (suc fuel) i (a ∷ b ∷ level) =
      cons_found (get_elem? (a ∷ b ∷ level) (sibling i (length (a ∷ b ∷ level))))
        (path_loop fuel (i / 2) (next_level hash (a ∷ b ∷ level)))

  -- `none` is the IndexError.
  unfoldable pub inclusion_proof : ℕ → List H → Option (List H)
  unfolding path_loop
  inclusion_proof index leaves =
      if ltb index (length leaves) then path_loop (length leaves) index leaves else none

  abbrev pub joined : ℕ → ℕ → H → H → H
  joined i span h s = if i % 2 == 0 then hash h (if ltb (i + 1) span then s else h) else hash s h

  unfoldable pub recompute : H → ℕ → ℕ → List H → H
  recompute h i span [] = h
  recompute h i span (s ∷ proof) = recompute (joined i span h s) (i / 2) ((span + 1) / 2) proof

  unfoldable pub verify_inclusion : ⦃e : Eq H⦄ → H → ℕ → ℕ → List H → H → Bool
  unfolding recompute
  verify_inclusion leaf index tree_size proof root_hash =
      ltb index tree_size && same (recompute leaf index tree_size proof) root_hash
