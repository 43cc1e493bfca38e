-- ===== src/Settle/Money/Split.antt =====
-- `split` of infra/settle/money.py: the largest-remainder allocation of an amount, in the 28 digits of
-- Python's default decimal context. Weights are integers: decimal weights are taken by their coefficients
-- over one power of ten, which cancels in `units * w / tw`, and rounding depends on values only. The
-- fraction `raw[i] - floors[i]` only orders the shares; it is the parameter `fraction`, on the units, the
-- weight and the total weight.
pub mod Floors
pub mod Quotient
pub mod Order
pub mod Conserved
use cyberware.Prelude.{
  ℕ, zero, suc, ◌+◌, ◌-◌, ◌*◌, ◌^◌, leb, true, false, negate, neg_part, ◌/◌, ◌%◌, Bool, ◌&&◌, ◌||◌,
  Option, none, some, List, [], ◌∷◌, map, ℤ, pos, negsuc, pos_part, ◌+ℤ◌, ◌-ℤ◌, ◌*ℤ◌, ltb, ltb_ℤ,
  ◌==◌, is_zero, sum, length, get_elem?, any, Result, ok, err, if◌then◌else◌,
}
use cyberware.Settle.Money.Decimal.{default_prec, excess, round_half_even, significant}
use cyberware.Settle.Money.{Money, MoneyError, bad_weights, zero_weights}

abbrev pub is_negative : ℤ → Bool
is_negative w = ltb_ℤ w (pos 0)

-- A value of the default context.
abbrev pub rounded : ℤ → ℤ
rounded u = significant default_prec u

-- How many places a quotient below 28 digits has: the least that give it 28 digits. The first argument
-- bounds the search.
unfoldable pub shift : ℕ → ℕ → ℕ → ℕ
shift zero n d = 0
shift (suc fuel) n d = elim (n == 0 || leb (d * 10 ^ 27) n) [
  | true ↦ 0
  | false ↦ suc (shift fuel (n * 10) d)
]

-- `n / d` rounded half to even to 28 digits, as a coefficient over `10 ^ places`.
abbrev pub coefficient : ℕ → ℕ → ℕ → ℕ → ℕ
coefficient places k n d = round_half_even (n * 10 ^ places) (d * 10 ^ k) * 10 ^ k

abbrev pub quotient : ℕ → ℕ → ℕ → ℕ
quotient places n d = coefficient places (excess (n / d) 28 (n / d)) n d

-- `to_integral_value(rounding=ROUND_FLOOR)` of it, for either sign of the dividend.
unfoldable pub floor_div : ℤ → ℕ → ℤ
unfolding shift excess round_half_even negate
floor_div (pos n) d = let places = shift (27 + d) n d in pos (quotient places n d / 10 ^ places)
floor_div (negsuc n) d =
    let places = shift (27 + d) (suc n) d in
    negate (pos ((quotient places (suc n) d + (10 ^ places - 1)) / 10 ^ places))

unfoldable pub floors : ℤ → ℕ → List ℤ → List ℤ
unfolding floor_div significant
floors units tw [] = []
floors units tw (w ∷ ws) = floor_div (rounded (units *ℤ w)) tw ∷ floors units tw ws

-- `sum(xs, acc)`
unfoldable pub rounded_sum : ℤ → List ℤ → ℤ
unfolding significant
rounded_sum acc [] = acc
rounded_sum acc (x ∷ xs) = rounded_sum (rounded (acc +ℤ x)) xs

-- The sort keys of the shares, each with its index.
unfoldable pub keys : (ℤ → ℕ) → ℕ → List ℤ → List (ℕ × ℕ)
keys fraction i [] = []
keys fraction i (w ∷ ws) = (fraction w, i) ∷ keys fraction (suc i) ws

-- The key order, descending: the larger fraction first, and of equal ones the smaller index.
unfoldable pub precedes : ℕ × ℕ → ℕ × ℕ → Bool
precedes (f, i) (g, j) = ltb g f || ((f == g) && ltb i j)

unfoldable pub insert_key : ℕ × ℕ → List (ℕ × ℕ) → List (ℕ × ℕ)
unfolding precedes
insert_key k [] = k ∷ []
insert_key k (j ∷ js) = if precedes k j then k ∷ j ∷ js else j ∷ insert_key k js

unfoldable pub sort_keys : List (ℕ × ℕ) → List (ℕ × ℕ)
unfolding insert_key
sort_keys [] = []
sort_keys (k ∷ ks) = insert_key k (sort_keys ks)

abbrev pub index : ℕ × ℕ → ℕ
index (f, i) = i

-- `alloc[i] += 1`
unfoldable pub bump : ℕ → List ℤ → List ℤ
unfolding significant
bump i [] = []
bump zero (a ∷ alloc) = rounded (a +ℤ pos 1) ∷ alloc
bump (suc i) (a ∷ alloc) = a ∷ bump i alloc

unfoldable pub bump_at : Option (ℕ × ℕ) → List ℤ → List ℤ
unfolding bump
bump_at none alloc = alloc
bump_at (some k) alloc = bump (index k) alloc

-- The loop `for k in range(remainder)`, with `rounds` of it left.
unfoldable pub spread : List (ℕ × ℕ) → ℕ → ℕ → List ℤ → List ℤ
unfolding bump_at
spread order k zero alloc = alloc
spread order k (suc rounds) alloc =
    spread order (suc k) rounds (bump_at (get_elem? order (k % length order)) alloc)

-- The allocation in units, once the weights have been accepted.
unfoldable pub allocate : (ℤ → ℤ → ℤ → ℕ) → ℤ → List ℤ → List ℤ
unfolding floors keys sort_keys spread rounded_sum significant
allocate fraction units ws =
    let tw = rounded_sum (pos 0) ws in
    let fs = floors units (pos_part tw) ws in
    spread (sort_keys (keys (λ w. fraction units w tw) 0 ws)) 0
      (pos_part (rounded (units -ℤ rounded_sum (pos 0) fs))) fs

abbrev pub is_empty : List ℤ → Bool
is_empty [] = Bool.true
is_empty (w ∷ ws) = Bool.false

unfoldable pub split : (ℤ → ℤ → ℤ → ℕ) → Money → List ℤ → Result MoneyError (List Money)
unfolding allocate rounded_sum significant
split fraction total ws =
    if is_empty ws || any is_negative ws
    then err bad_weights
    else if is_zero (rounded_sum (pos 0) ws)
    then err zero_weights
    else ok (
        map (λ a. record { amount = rounded a; currency = total.currency })
          (allocate fraction (rounded total.amount) ws))
