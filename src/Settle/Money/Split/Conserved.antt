-- ===== src/Settle/Money/Split/Conserved.antt =====
-- A split gives one part for each weight, in the currency of the total, and within 27 digits the parts
-- add up to the total exactly.
use native.Mathlib.Nat.{mod-lt, mul-le-mul_left}
use cyberware.Prelude.{
  ℕ, zero, suc, ◌+◌, ◌*◌, ◌^◌, ◌%◌, ◌<◌, ◌≤◌, ◌≡◌, false, List, [], ◌∷◌, map, ℤ, pos, negsuc,
  pos_part, neg_part, ◌+ℤ◌, ◌-ℤ◌, ◌*ℤ◌, ◌≤ℤ◌, is_zero, sum, any, length, arith, refl, int_laws, ok,
  length-map, add_missing, add_nonneg, ◌∙◌, ap, subst, Text, All, ◌||◌,
}
use cyberware.Settle.Money.{Money}
use cyberware.Settle.Money.Decimal.{default_prec, has_digits}
use cyberware.Settle.Money.Exact.{significant_small}
use cyberware.Settle.Money.Split.{
  is_negative, is_empty, rounded, rounded_sum, floor_div, floors, keys, sort_keys, bump, bump_at,
  spread, allocate, split, index,
}
use cyberware.Settle.Money.Split.Quotient.{floor_div_exact}
use cyberware.Settle.Money.Split.Floors.{exact_div, exact_floors, sum-floors-le}
use cyberware.Settle.Money.Split.Order.{
  Below, length-sort_keys, sort_keys-Below, length-keys, keys-Below, get_elem?-Below,
}

-- What the default context does not round.
rounded_small : (a : ℤ) → neg_part a ≡ 0 → pos_part a ≤ 2 * 10 ^ 27 → rounded a ≡ a
unfolding has_digits
rounded_small a h k = significant_small default_prec a (ground arith)

abbrev pub NonNegative : List ℤ → Type 0
NonNegative = All (λ a. neg_part a ≡ 0)

NonNegative-of : (ws : List ℤ) → any is_negative ws ≡ false → NonNegative ws
NonNegative-of [] h = tt
NonNegative-of (w ∷ ws) h = (ground arith, NonNegative-of ws (ground arith))

sum-NonNegative : (xs : List ℤ) → NonNegative xs → neg_part (sum xs) ≡ 0
sum-NonNegative [] h = refl
sum-NonNegative (x ∷ xs) h = (add_nonneg x (sum xs) h.0 (sum-NonNegative xs h.1)).0

rounded_sum-exact :
    (acc : ℤ) (xs : List ℤ)
    → neg_part acc ≡ 0
    → NonNegative xs
    → pos_part acc + pos_part (sum xs) ≤ 10 ^ 27
    → rounded_sum acc xs ≡ acc +ℤ sum xs
unfolding rounded_sum
rounded_sum-exact acc [] p h small = omega int_laws
rounded_sum-exact acc (x ∷ xs) p h small =
    let next = add_nonneg acc x p h.0 in
    let whole = add_nonneg x (sum xs) h.0 (sum-NonNegative xs h.1) in
    rw (rounded_small (acc +ℤ x) next.0 (omega (arith, next.1, whole.1)))
      (rounded_sum-exact (acc +ℤ x) xs next.0 h.1 (omega (arith, next.1, whole.1)) ∙ omega int_laws)

times_pos : (n v : ℕ) → pos n *ℤ pos v ≡ pos (n * v)
unfolding ◌*ℤ◌
times_pos n v = ground arith

floor_exact :
    (n d : ℕ) (w : ℤ)
    → 0 < d
    → neg_part w ≡ 0
    → n * pos_part w ≤ 10 ^ 27
    → floor_div (rounded (pos n *ℤ w)) d ≡ exact_div (pos n *ℤ w) d
unfolding exact_div
floor_exact n d (pos v) p h small =
    rw (times_pos n v, rounded_small (pos (n * v)) refl (omega (arith, small)))
      (floor_div_exact (n * v) d p small)
floor_exact n d (negsuc v) p h small = absurd (omega arith)

floors-exact :
    (n d : ℕ) (ws : List ℤ)
    → 0 < d
    → NonNegative ws
    → n * pos_part (sum ws) ≤ 10 ^ 27
    → floors (pos n) d ws ≡ exact_floors (pos n) d ws
unfolding floors exact_floors
floors-exact n d [] p h small = refl
floors-exact n d (w ∷ ws) p h small =
    let whole = add_nonneg w (sum ws) h.0 (sum-NonNegative ws h.1) in
    let bound : n * (pos_part w + pos_part (sum ws)) ≤ 10 ^ 27 =
      subst (λ t. n * t ≤ 10 ^ 27) whole.1 small in
    rw
      (
        floor_exact n d w p h.0 (omega (arith, bound)),
        floors-exact n d ws p h.1 (omega (arith, bound)),
      )
      refl

exact_floors-NonNegative :
    (n d : ℕ) (ws : List ℤ) → NonNegative ws → NonNegative (exact_floors (pos n) d ws)
unfolding exact_floors exact_div
exact_floors-NonNegative n d [] h = tt
exact_floors-NonNegative n d (pos v ∷ ws) h =
    (rw (times_pos n v) refl, exact_floors-NonNegative n d ws h.1)
exact_floors-NonNegative n d (negsuc v ∷ ws) h = absurd (omega (arith, h.0))

-- `n` units can still be handed out without rounding.
abbrev Small : ℕ → List ℤ → Type 0
Small n = All (λ a. (neg_part a ≡ 0) × (pos_part a + n ≤ 2 * 10 ^ 27))

Small-of : (n : ℕ) (xs : List ℤ) → NonNegative xs → pos_part (sum xs) + n ≤ 2 * 10 ^ 27 → Small n xs
Small-of n [] h k = tt
Small-of n (x ∷ xs) h k =
    let whole = add_nonneg x (sum xs) h.0 (sum-NonNegative xs h.1) in
    ((h.0, omega (arith, whole.1)), Small-of n xs h.1 (omega (arith, whole.1)))

Small-fewer : (n : ℕ) (xs : List ℤ) → Small (suc n) xs → Small n xs
Small-fewer n [] h = tt
Small-fewer n (x ∷ xs) h = ((h.0.0, omega (arith, h.0.1)), Small-fewer n xs h.1)

bumped :
    (n : ℕ) (a : ℤ)
    → neg_part a ≡ 0
    → pos_part a + suc n ≤ 2 * 10 ^ 27
    → rounded (a +ℤ pos 1) ≡ a +ℤ pos 1
bumped n a h k =
    let up = add_nonneg a (pos 1) h refl in rounded_small (a +ℤ pos 1) up.0 (omega (arith, up.1))

bump-Small : (n i : ℕ) (alloc : List ℤ) → Small (suc n) alloc → Small n (bump i alloc)
unfolding bump
bump-Small n i [] h = tt
bump-Small n zero (a ∷ alloc) h =
    let up = add_nonneg a (pos 1) h.0.0 refl in
    rw (bumped n a h.0.0 h.0.1) ((up.0, omega (arith, up.1, h.0.1)), Small-fewer n alloc h.1)
bump-Small n (suc i) (a ∷ alloc) h = ((h.0.0, omega (arith, h.0.1)), bump-Small n i alloc h.1)

length-bump : (i : ℕ) (alloc : List ℤ) → length (bump i alloc) ≡ length alloc
unfolding bump
length-bump i [] = refl
length-bump zero (a ∷ alloc) = refl
length-bump (suc i) (a ∷ alloc) = rw (length-bump i alloc)

sum-bump :
    (n i : ℕ) (alloc : List ℤ)
    → Small (suc n) alloc
    → i < length alloc
    → sum (bump i alloc) ≡ sum alloc +ℤ pos 1
unfolding bump
sum-bump n i [] s h = absurd (omega arith)
sum-bump n zero (a ∷ alloc) s h = rw (bumped n a s.0.0 s.0.1) (omega int_laws)
sum-bump n (suc i) (a ∷ alloc) s h = rw (sum-bump n i alloc s.1 (omega arith)) (omega int_laws)

-- Every round of the loop hands out one unit.
sum-spread :
    (order : List (ℕ × ℕ)) (k rounds : ℕ) (alloc : List ℤ)
    → Small rounds alloc
    → Below (length alloc) order
    → 0 < length order
    → (sum (spread order k rounds alloc) ≡ sum alloc +ℤ pos rounds)
      × (length (spread order k rounds alloc) ≡ length alloc)
      × Small 0 (spread order k rounds alloc)
unfolding spread
sum-spread order k zero alloc s b p = (omega int_laws, refl, s)
sum-spread order k (suc rounds) alloc s b p =
    let (key, found, low) =
      get_elem?-Below (length alloc) order (k % length order) b (mod-lt k p) in
    let same_length = length-bump (index key) alloc in
    let rest =
      sum-spread order (suc k) rounds (bump (index key) alloc)
        (bump-Small rounds (index key) alloc s) (rw same_length b) p in
    rw (found, bump_at)
      (
        rw (rest.0, sum-bump rounds (index key) alloc s low) (omega int_laws),
        rw rest.1 same_length,
        rest.2,
      )

length-floors : (units : ℤ) (d : ℕ) (ws : List ℤ) → length (exact_floors units d ws) ≡ length ws
unfolding exact_floors
length-floors units d [] = refl
length-floors units d (w ∷ ws) = rw (length-floors units d ws)

length-pos : (ws : List ℤ) → 0 < pos_part (sum ws) → 0 < length ws
length-pos [] h = h
length-pos (w ∷ ws) h = omega arith

-- Nothing is rounded up to another floor or sum.
abbrev pub InRange : ℤ → List ℤ → Type 0
InRange units ws = (neg_part units ≡ 0) × (suc (pos_part units) * pos_part (sum ws) ≤ 10 ^ 27)

left_over :
    (n : ℕ) (x : ℤ)
    → neg_part x ≡ 0
    → x ≤ℤ pos n
    → (neg_part (pos n -ℤ x) ≡ 0) × (pos_part x + pos_part (pos n -ℤ x) ≡ n)
unfolding ◌-ℤ◌
left_over n x a b = ground arith

total_weight-exact :
    (n : ℕ) (ws : List ℤ)
    → any is_negative ws ≡ false
    → suc n * pos_part (sum ws) ≤ 10 ^ 27
    → rounded_sum (pos 0) ws ≡ sum ws
total_weight-exact n ws h small =
    rounded_sum-exact (pos 0) ws refl (NonNegative-of ws h) (omega (arith, small))
    ∙ from_zero (sum ws)
  where
    from_zero : (x : ℤ) → pos 0 +ℤ x ≡ x
    from_zero x = omega int_laws

allocate-sum :
    (fraction : ℤ → ℤ → ℤ → ℕ) (n : ℕ) (ws : List ℤ)
    → any is_negative ws ≡ false
    → 0 < pos_part (sum ws)
    → suc n * pos_part (sum ws) ≤ 10 ^ 27
    → (sum (allocate fraction (pos n) ws) ≡ pos n)
      × (length (allocate fraction (pos n) ws) ≡ length ws)
      × Small 0 (allocate fraction (pos n) ws)
unfolding allocate
allocate-sum fraction n ws h p small =
    let key = λ (w : ℤ). fraction (pos n) w (sum ws) in
    let ks = keys key 0 ws in
    let fs = exact_floors (pos n) (pos_part (sum ws)) ws in
    let size = length-sort_keys ks ∙ length-keys key 0 ws in
    let width = length-floors (pos n) (pos_part (sum ws)) ws in
    let left = left_over n (sum fs) floors_nonneg le in
    let done =
      sum-spread (sort_keys ks) 0 (pos_part (pos n -ℤ sum fs)) fs
        (Small-of (pos_part (pos n -ℤ sum fs)) fs
          (exact_floors-NonNegative n (pos_part (sum ws)) ws weights) (omega (arith, left.1, few)))
        (sort_keys-Below (length fs) ks (keys-Below key 0 (length fs) ws (omega (arith, width))))
        (omega (arith, size, length-pos ws p)) in
    rw
      (
        total_weight-exact n ws h small,
        floors-exact n (pos_part (sum ws)) ws p weights (omega (arith, small)),
        floors_sum,
        remainder,
      )
      (done.0 ∙ add_missing (sum fs) (pos n) le, done.1 ∙ width, done.2)
  where
    weights : NonNegative ws
    weights = NonNegative-of ws h

    few : n ≤ 10 ^ 27
    few = let k = mul-le-mul_left (suc n) p in omega (arith, k, small)

    from_zero : (x : ℤ) → pos 0 +ℤ x ≡ x
    from_zero x = omega int_laws

    le : sum (exact_floors (pos n) (pos_part (sum ws)) ws) ≤ℤ pos n
    le = sum-floors-le (pos n) ws h p

    floors_nonneg : neg_part (sum (exact_floors (pos n) (pos_part (sum ws)) ws)) ≡ 0
    floors_nonneg =
        sum-NonNegative (exact_floors (pos n) (pos_part (sum ws)) ws)
          (exact_floors-NonNegative n (pos_part (sum ws)) ws weights)

    floors_sum :
        rounded_sum (pos 0) (exact_floors (pos n) (pos_part (sum ws)) ws)
        ≡ sum (exact_floors (pos n) (pos_part (sum ws)) ws)
    floors_sum =
        rounded_sum-exact (pos 0) (exact_floors (pos n) (pos_part (sum ws)) ws) refl
          (exact_floors-NonNegative n (pos_part (sum ws)) ws weights)
          (omega (
            arith,
            few,
            left_over n (sum (exact_floors (pos n) (pos_part (sum ws)) ws)) floors_nonneg le,
          ))
        ∙ from_zero (sum (exact_floors (pos n) (pos_part (sum ws)) ws))

    remainder :
        rounded (pos n -ℤ sum (exact_floors (pos n) (pos_part (sum ws)) ws))
        ≡ pos n -ℤ sum (exact_floors (pos n) (pos_part (sum ws)) ws)
    remainder =
        let left =
          left_over n (sum (exact_floors (pos n) (pos_part (sum ws)) ws)) floors_nonneg le in
        rounded_small (pos n -ℤ sum (exact_floors (pos n) (pos_part (sum ws)) ws)) left.0
          (omega (arith, few, left.1))

abbrev pub amounts : List Money → List ℤ
amounts = map (λ m. m.amount)

abbrev pub InCurrency : Text → List Money → Type 0
InCurrency c = All (λ m. m.currency ≡ c)

currency-map :
    (c : Text) (us : List ℤ)
    → InCurrency c (map (λ a. record { amount = rounded a; currency = c }) us)
currency-map c [] = tt
currency-map c (u ∷ us) = (refl, currency-map c us)

refused :
    (ws : List ℤ)
    → any is_negative ws ≡ false
    → 0 < pos_part (sum ws)
    → (is_empty ws || any is_negative ws) ≡ false
refused [] h p = absurd (omega arith)
refused (w ∷ ws) h p = h

rounded_all : (us : List ℤ) → Small 0 us → map (λ a. rounded a) us ≡ us
rounded_all [] h = refl
rounded_all (u ∷ us) h = rw (rounded_small u h.0.0 (omega (arith, h.0.1)), rounded_all us h.1) refl

money_of :
    (c : Text) (us : List ℤ)
    → amounts (map (λ a. record { amount = rounded a; currency = c }) us) ≡ map (λ a. rounded a) us
money_of c [] = refl
money_of c (u ∷ us) = rw (money_of c us) refl

-- A split of an amount that is not negative, by weights of which none is negative and whose sum is positive,
-- succeeds; the amount in units, plus one, times the sum of the weights is to have at most 27 digits. It
-- gives one part for each weight, each in the currency of the total, and the parts add up to the total
-- exactly, however the fractions are rounded.
pub split-conserves :
    (fraction : ℤ → ℤ → ℤ → ℕ) (total : Money) (ws : List ℤ)
    → any is_negative ws ≡ false
    → 0 < pos_part (sum ws)
    → InRange total.amount ws
    → (parts : List Money) × (split fraction total ws ≡ ok parts)
      × (sum (amounts parts) ≡ total.amount)
      × (length parts ≡ length ws)
      × InCurrency total.currency parts
unfolding split
split-conserves fraction total ws h p range = at_units total.amount total.currency range
  where
    not_zero : (a : ℤ) → 0 < pos_part a → is_zero a ≡ false
    not_zero a q = ground arith

    few : (n : ℕ) → suc n * pos_part (sum ws) ≤ 10 ^ 27 → n ≤ 2 * 10 ^ 27
    few n small = let k = mul-le-mul_left (suc n) p in omega (arith, k, small)

    at_units :
        (u : ℤ) (c : Text)
        → InRange u ws
        → (parts : List Money) × (split fraction (record { amount = u; currency = c }) ws
            ≡ ok parts)
          × (sum (amounts parts) ≡ u)
          × (length parts ≡ length ws)
          × InCurrency c parts
    at_units (negsuc n) c r = absurd (omega (arith, r.0))
    at_units (pos n) c r =
        let us = allocate fraction (pos n) ws in
        let whole = allocate-sum fraction n ws h p r.1 in
        (
          map (λ a. record { amount = rounded a; currency = c }) us,
          rw
              (
                refused ws h p,
                total_weight-exact n ws h r.1,
                not_zero (sum ws) p,
                rounded_small (pos n) refl (few n r.1),
              )
              refl,
          ap sum (money_of c us ∙ rounded_all us whole.2) ∙ whole.0,
          length-map _ us ∙ whole.1,
          currency-map c us,
        )
