-- ===== src/Settle/Money/Split/Floors.antt =====
-- The floored shares never exceed the amount that is split.
use native.Mathlib.Nat.{div-add-mod, mod-lt}
use cyberware.Prelude.{
  ℕ, suc, ◌/◌, ◌+◌, ◌*◌, ◌≤◌, ◌<◌, ◌≡◌, false, List, [], ◌∷◌, ℤ, pos, negsuc, pos_part, neg_part,
  ◌*ℤ◌, ◌≤ℤ◌, sum, any, arith, refl, ◌-◌, add_nonneg, add_nonpos,
}
use cyberware.Settle.Money.Split.{is_negative}

-- The floors of the exact quotients.
unfoldable pub exact_div : ℤ → ℕ → ℤ
exact_div (pos n) d = pos (n / d)
exact_div (negsuc n) d = negsuc (n / d)

unfoldable pub exact_floors : ℤ → ℕ → List ℤ → List ℤ
unfolding exact_div
exact_floors units tw [] = []
exact_floors units tw (w ∷ ws) = exact_div (units *ℤ w) tw ∷ exact_floors units tw ws

-- One share of a nonnegative amount.
floor_pos :
    (n v d : ℕ)
    → (neg_part (exact_div (pos n *ℤ pos v) d) ≡ 0)
      × (d * pos_part (exact_div (pos n *ℤ pos v) d) ≤ n * v)
unfolding exact_div ◌*ℤ◌
floor_pos n v d = grind (arith, div-add-mod (n * v) d)

times_zero : (d : ℕ) → d * 0 ≡ 0
times_zero d = omega arith

distribute_le : (d a b n v s : ℕ) → d * a ≤ n * v → d * b ≤ n * s → d * (a + b) ≤ n * (v + s)
distribute_le d a b n v s h k = omega arith

sum_pos :
    (n d : ℕ) (ws : List ℤ)
    → any is_negative ws ≡ false
    → (neg_part (sum ws) ≡ 0)
      × (neg_part (sum (exact_floors (pos n) d ws)) ≡ 0)
      × (d * pos_part (sum (exact_floors (pos n) d ws)) ≤ n * pos_part (sum ws))
unfolding exact_floors
sum_pos n d [] h = (refl, refl, omega arith)
sum_pos n d (pos v ∷ ws) h =
    let share = floor_pos n v d in
    let rest = sum_pos n d ws (ground arith) in
    let weights = add_nonneg (pos v) (sum ws) refl rest.0 in
    let shares =
      add_nonneg (exact_div (pos n *ℤ pos v) d) (sum (exact_floors (pos n) d ws)) share.0 rest.1 in
    (weights.0, shares.0, rw (weights.1, shares.1) (distribute_le d _ _ n v _ share.1 rest.2))
sum_pos n d (negsuc v ∷ ws) h = ground arith

floor_neg :
    (m v d : ℕ)
    → 0 < d
    → (pos_part (exact_div (negsuc m *ℤ pos v) d) ≡ 0)
      × (suc m * v ≤ d * neg_part (exact_div (negsuc m *ℤ pos v) d))
unfolding exact_div ◌*ℤ◌
floor_neg m v d h = grind (arith, div-add-mod (suc m * v - 1) d, mod-lt (suc m * v - 1) h)

sum_neg :
    (m d : ℕ) (ws : List ℤ)
    → 0 < d
    → any is_negative ws ≡ false
    → (neg_part (sum ws) ≡ 0)
      × (pos_part (sum (exact_floors (negsuc m) d ws)) ≡ 0)
      × (suc m * pos_part (sum ws) ≤ d * neg_part (sum (exact_floors (negsuc m) d ws)))
unfolding exact_floors
sum_neg m d [] p h = (refl, refl, omega arith)
sum_neg m d (pos v ∷ ws) p h =
    let share = floor_neg m v d p in
    let rest = sum_neg m d ws p (ground arith) in
    let weights = add_nonneg (pos v) (sum ws) refl rest.0 in
    let shares =
      add_nonpos (exact_div (negsuc m *ℤ pos v) d) (sum (exact_floors (negsuc m) d ws)) share.0
        rest.1 in
    (weights.0, shares.0, rw (weights.1, shares.1) (distribute_le (suc m) v _ d _ _ share.1 rest.2))
sum_neg m d (negsuc v ∷ ws) p h = ground arith

cancel : (d a b : ℕ) → 0 < d → d * a ≤ b * d → a ≤ b
cancel d a b p h = grind arith

-- With no negative weight and a positive total, the floors add up to the units or to less.
pub sum-floors-le :
    (units : ℤ) (ws : List ℤ)
    → any is_negative ws ≡ false
    → 0 < pos_part (sum ws)
    → sum (exact_floors units (pos_part (sum ws)) ws) ≤ℤ units
sum-floors-le (pos n) ws h p =
    let s = sum_pos n (pos_part (sum ws)) ws h in
    omega (arith, s.1, cancel (pos_part (sum ws)) _ n p s.2)
sum-floors-le (negsuc m) ws h p =
    let s = sum_neg m (pos_part (sum ws)) ws p h in
    omega (
      arith,
      s.1,
      cancel (pos_part (sum ws)) (suc m)
          (neg_part (sum (exact_floors (negsuc m) (pos_part (sum ws)) ws))) p (omega (arith, s.2)),
    )
