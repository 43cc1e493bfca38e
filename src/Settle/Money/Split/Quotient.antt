-- ===== src/Settle/Money/Split/Quotient.antt =====
-- The floor of a quotient of at most 27 digits is not changed by rounding the quotient to 28 digits.
use native.Mathlib.Nat.{div-add-mod, mod-lt, mul-le-mul_left, mul-le-mul_right, pow-succ'}
use cyberware.Prelude.{
  ℕ, zero, suc, ◌+◌, ◌*◌, ◌/◌, ◌%◌, ◌^◌, ◌≤◌, ◌<◌, ◌≡◌, refl, subst, true, false, ◌||◌, leb, ltb→lt,
  leb→le, ◌==◌, ==_iff, ltb, arith, pos, Bool-cases, inl, inr, ap, sym,
}
use cyberware.Settle.Money.Decimal.{round_half_even, excess}
use cyberware.Settle.Money.Exact.{excess_small}
use cyberware.Settle.Money.Rounding.{round_half_even-nearest}
use cyberware.Settle.Money.Split.{shift, quotient, floor_div}

tens : (n k : ℕ) → n * 10 ^ suc k ≡ n * 10 * 10 ^ k
tens n k = rw (pow-succ' 10 k) (move n (10 ^ k))
  where
    move : (n x : ℕ) → n * (10 * x) ≡ n * 10 * x
    move n x = omega arith

-- Enough places are found.
shift-enough : (fuel n d : ℕ) → d * 10 ^ 27 ≤ n * 10 ^ fuel → d * 10 ^ 27 ≤ n * 10 ^ shift fuel n d
unfolding shift
shift-enough zero n d h = h
shift-enough (suc fuel) n d h = elim (Bool-cases (n == 0 || leb (d * 10 ^ 27) n)) [
  | inl found ↦ rw (shift, found) (grind (arith, h))
  | inr more ↦
      rw (shift, more, tens n (shift fuel (n * 10) d))
        (shift-enough fuel (n * 10) d (subst (λ x. d * 10 ^ 27 ≤ x) (tens n fuel) h))
]

pow_grows : (d : ℕ) → suc d ≤ 10 ^ d
pow_grows zero = omega arith
pow_grows (suc d) = rw (pow-succ' 10 d) (omega (arith, pow_grows d))

-- The floor of a rounded quotient with enough places.
floor_kept :
    (n d m r P R : ℕ)
    → n ≡ d * m + r
    → r < d
    → d ≤ P
    → 2 * (n * P) ≤ 2 * (d * R) + d
    → 2 * (d * R) ≤ 2 * (n * P) + d
    → (m * P ≤ R) × (R < suc m * P)
floor_kept n d m r P R whole low wide under over = (
  elim (Bool-cases (leb (m * P) R)) [
    | inl fits ↦ leb→le (m * P) R fits
    | inr less ↦ absurd (too_low (not_leb (m * P) R less))
  ],
  elim (Bool-cases (leb (suc m * P) R)) [
    | inr less ↦ not_leb (suc m * P) R less
    | inl more ↦ absurd (too_high (leb→le (suc m * P) R more))
  ],
)
  where
    not_leb : (a b : ℕ) → leb a b ≡ false → b < a
    not_leb a b h = ground arith

    scaled : n * P ≡ d * (m * P) + r * P
    scaled = rw whole (grind arith)

    too_low : R < m * P → ⊥
    too_low h = let k = mul-le-mul_left d h in omega (arith, scaled)

    too_high : suc m * P ≤ R → ⊥
    too_high h =
        let k = mul-le-mul_left d h in let l = mul-le-mul_right P low in omega (arith, scaled)

quotient_unique : (R P m : ℕ) → 0 < P → m * P ≤ R → R < suc m * P → R / P ≡ m
quotient_unique R P m p low high = between (R / P) (R % P) (div-add-mod R P) (mod-lt R p)
  where
    between : (q r : ℕ) → P * q + r ≡ R → r < P → q ≡ m
    between q r whole less = elim (Bool-cases (ltb q m)) [
      | inl under ↦ absurd (let k = mul-le-mul_right P (ltb→lt q m under) in omega (arith, whole))
      | inr enough ↦ elim (Bool-cases (ltb m q)) [
        | inl over ↦ absurd (let k = mul-le-mul_right P (ltb→lt m q over) in omega (arith, whole))
        | inr exact ↦ ground arith
      ]
    ]

-- A dividend of at most 27 digits has as many places as its divisor needs.
wide_enough : (n d s : ℕ) → n ≤ 10 ^ 27 → d * 10 ^ 27 ≤ n * 10 ^ s → d ≤ 10 ^ s
wide_enough n d s small h = let k = mul-le-mul_right (10 ^ s) small in omega (arith, k, h)

start_enough : (n d : ℕ) → 0 < n → d * 10 ^ 27 ≤ n * 10 ^ (27 + d)
start_enough n d p = let k = mul-le-mul_right (10 ^ (27 + d)) p in omega (arith, k, powers d)
  where
    later : (d : ℕ) → 27 + suc d ≡ suc (27 + d)
    later d = omega arith

    powers : (d : ℕ) → suc d * 10 ^ 27 ≤ 10 ^ (27 + d)
    powers zero = omega arith
    powers (suc d) = rw (later d, pow-succ' 10 (27 + d)) (omega (arith, powers d))

quotient_kept : (n d s : ℕ) → 0 < d → d ≤ 10 ^ s → round_half_even (n * 10 ^ s) d / 10 ^ s ≡ n / d
quotient_kept n d s p wide =
    let near = round_half_even-nearest (n * 10 ^ s) d p in
    let kept =
      floor_kept n d (n / d) (n % d) (10 ^ s) (round_half_even (n * 10 ^ s) d)
        (sym (div-add-mod n d)) (mod-lt n p) wide near.0 near.1 in
    quotient_unique (round_half_even (n * 10 ^ s) d) (10 ^ s) (n / d) (omega (arith, wide)) kept.0
      kept.1

no_excess : (n d : ℕ) → 0 < d → n ≤ 10 ^ 27 → excess (n / d) 28 (n / d) ≡ 0
no_excess n d p small = excess_small (n / d) 28 (n / d) (below (n / d) less)
  where
    less : n / d ≤ 10 ^ 27
    less = let k = mul-le-mul_right (n / d) p in omega (arith, k, div-add-mod n d, small)

    below : (q : ℕ) → q ≤ 10 ^ 27 → ltb q (10 ^ 28) ≡ true
    below q h = ground arith

shift_zero : (fuel d : ℕ) → shift fuel 0 d ≡ 0
unfolding shift
shift_zero zero d = refl
shift_zero (suc fuel) d = refl

rounds_to_zero : (d : ℕ) → 0 < d → round_half_even (0 * 10 ^ 0) d ≡ 0
rounds_to_zero d p =
    least (round_half_even (0 * 10 ^ 0) d) (round_half_even-nearest (0 * 10 ^ 0) d p).1
  where
    least : (r : ℕ) → 2 * (d * r) ≤ 2 * (0 * 10 ^ 0) + d → r ≡ 0
    least zero h = refl
    least (suc r) h = absurd (omega arith)

zero_div : (d : ℕ) → 0 < d → 0 / d ≡ 0
zero_div d p = quotient_unique 0 d 0 p (omega arith) (omega arith)

-- The floor of the rounded quotient is the floor of the exact one.
pub floor_div_exact : (n d : ℕ) → 0 < d → n ≤ 10 ^ 27 → floor_div (pos n) d ≡ pos (n / d)
unfolding floor_div
floor_div_exact n d p small = ap pos (elim (Bool-cases (n == 0)) [
  | inl none ↦ nothing ((==_iff n 0).0 none)
  | inr some ↦
      let s = shift (27 + d) n d in
      rw (no_excess n d p small, one d, one_right (round_half_even (n * 10 ^ s) d))
        (quotient_kept n d s p (
          wide_enough n d s small (shift-enough (27 + d) n d (start_enough n d (positive n some)))))
])
  where
    one : (d : ℕ) → d * 10 ^ 0 ≡ d
    one d = omega arith

    one_right : (r : ℕ) → r * 10 ^ 0 ≡ r
    one_right r = omega arith

    nothing : n ≡ 0 → quotient (shift (27 + d) n d) n d / 10 ^ shift (27 + d) n d ≡ n / d
    nothing e =
        rw
          (
            e,
            shift_zero (27 + d) d,
            no_excess 0 d p (omega arith),
            one d,
            rounds_to_zero d p,
            zero_div d p,
          )
          refl

    positive : (n : ℕ) → (n == 0) ≡ false → 0 < n
    positive n h = ground arith
