-- ===== src/Prelude/Tallies.antt =====
-- A Python dictionary of amounts, in insertion order, that is only read with the default zero and
-- updated by `d[k] = d.get(k, zero) + x`.
use mathlib.Core.Path.{◌≡◌, refl, sym, ◌∙◌}
use mathlib.Core.Logic.{inl, inr}
use mathlib.Core.Bool.{Bool, true, false}
use mathlib.Core.List.{List, [], ◌∷◌, ◌++◌}
use native.Mathlib.Omega.{arith}
use cyberware.Prelude.Tests.{if◌then◌else◌, Bool-cases}
use cyberware.Prelude.Lists.{all}
use cyberware.Prelude.Int.{ℤ, pos, ◌+ℤ◌, is_zero, int_laws}
use cyberware.Prelude.Keys.{Eq, same, same_iff, same_refl}

abbrev pub Tally : Type 0 → Type 0
Tally K = List (K × ℤ)

module _ {K : Type 0} ⦃e : Eq K⦄ where
  unfoldable pub get : K → Tally K → ℤ
  get k [] = pos 0
  get k ((j, v) ∷ d) = if same j k then v else get k d

  unfoldable pub add : K → ℤ → Tally K → Tally K
  add k x [] = (k, pos 0 +ℤ x) ∷ []
  add k x ((j, v) ∷ d) = if same j k then (j, v +ℤ x) ∷ d else (j, v) ∷ add k x d

  pub get-add :
      (k j : K) (x : ℤ) (d : Tally K)
      → get j (add k x d) ≡ (if same k j then get j d +ℤ x else get j d)
  unfolding get add
  get-add k j x [] = ground (arith, same_iff k j)
  get-add k j x ((i, v) ∷ d) =
      ground (arith, get-add k j x d, same_iff i k, same_iff i j, same_iff k j)

  -- The loop that adds every pair of a list.
  unfoldable pub collect : List (K × ℤ) → Tally K → Tally K
  collect [] d = d
  collect ((k, x) ∷ xs) d = collect xs (add k x d)

  -- What a list of pairs holds for one key.
  unfoldable pub paid : K → List (K × ℤ) → ℤ
  paid k [] = pos 0
  paid k ((j, x) ∷ xs) = (if same j k then x else pos 0) +ℤ paid k xs

  pub get-collect :
      (k : K) (xs : List (K × ℤ)) (d : Tally K) → get k (collect xs d) ≡ get k d +ℤ paid k xs
  unfolding collect paid
  get-collect k [] d = omega int_laws
  get-collect k ((j, x) ∷ xs) d =
      rw (get-collect k xs (add j x d), get-add j k x d) (settle (same j k) (get k d) x (paid k xs))
    where
      settle :
          (b : Bool) (g x p : ℤ)
          → (if b then g +ℤ x else g) +ℤ p ≡ g +ℤ ((if b then x else pos 0) +ℤ p)
      settle true g x p = omega int_laws
      settle false g x p = omega int_laws

  pub paid-append : (k : K) (xs ys : List (K × ℤ)) → paid k (xs ++ ys) ≡ paid k xs +ℤ paid k ys
  unfolding paid
  paid-append k [] ys = omega int_laws
  paid-append k ((j, x) ∷ xs) ys = rw (paid-append k xs ys) (omega int_laws)

  pub collect-append :
      (xs ys : List (K × ℤ)) (d : Tally K) → collect (xs ++ ys) d ≡ collect ys (collect xs d)
  unfolding collect
  collect-append [] ys d = refl
  collect-append ((k, x) ∷ xs) ys d = collect-append xs ys (add k x d)

  -- A tally that has each key once: `Absent k d` says that `k` is not among the keys.
  abbrev pub Absent : K → Tally K → Type 0
  Absent k [] = Unit
  Absent k ((j, v) ∷ d) = (same j k ≡ false) × Absent k d

  abbrev pub Distinct : Tally K → Type 0
  Distinct [] = Unit
  Distinct ((j, v) ∷ d) = Absent j d × Distinct d

  add-Absent :
      (k j : K) (x : ℤ) (d : Tally K) → same k j ≡ false → Absent j d → Absent j (add k x d)
  unfolding add
  add-Absent k j x [] ne a = (ne, tt)
  add-Absent k j x ((i, v) ∷ d) ne a = elim (Bool-cases (same i k)) [
    | inl found ↦ rw found a
    | inr other ↦ rw other (a.0, add-Absent k j x d ne a.1)
  ]

  add-Distinct : (k : K) (x : ℤ) (d : Tally K) → Distinct d → Distinct (add k x d)
  unfolding add
  add-Distinct k x [] u = (tt, tt)
  add-Distinct k x ((i, v) ∷ d) u = elim (Bool-cases (same i k)) [
    | inl found ↦ rw found u
    | inr other ↦ rw other (add-Absent k i x d (flip i k other) u.0, add-Distinct k x d u.1)
  ]
    where
      flip : (i k : K) → same i k ≡ false → same k i ≡ false
      flip i k h = ground (arith, same_iff i k, same_iff k i)

  pub collect-Distinct : (xs : List (K × ℤ)) (d : Tally K) → Distinct d → Distinct (collect xs d)
  unfolding collect
  collect-Distinct [] d u = u
  collect-Distinct ((k, x) ∷ xs) d u = collect-Distinct xs (add k x d) (add-Distinct k x d u)

  abbrev pub zero_entry : K × ℤ → Bool
  zero_entry (k, v) = is_zero v

  -- If every entry is zero, so is what is read at any key.
  pub get_of_zeros : (k : K) (d : Tally K) → all zero_entry d ≡ true → get k d ≡ pos 0
  unfolding get
  get_of_zeros k [] h = refl
  get_of_zeros k ((j, v) ∷ d) h = ground (arith, get_of_zeros k d)

  get-Absent : (j k : K) (v : ℤ) (d : Tally K) → Absent j d → same j k ≡ true → get k d ≡ pos 0
  unfolding get
  get-Absent j k v [] a e = refl
  get-Absent j k v ((i, w) ∷ d) a e =
      ground (arith, same_iff j k, same_iff i j, same_iff i k, get-Absent j k v d a.1 e)

  -- And with each key once, the other way round.
  pub zeros_of_get :
      (d : Tally K) → Distinct d → ((k : K) → get k d ≡ pos 0) → all zero_entry d ≡ true
  unfolding get
  zeros_of_get [] u h = refl
  zeros_of_get ((j, v) ∷ d) u h =
      let v_zero : v ≡ pos 0 = sym (at_head j v d) ∙ h j in
      let rest = zeros_of_get d u.1 (λ k. elim (Bool-cases (same j k)) [
        | inl e ↦ get-Absent j k v d u.0 e
        | inr e ↦ sym (past_head j k v d e) ∙ h k
      ]) in
      rw (v_zero, rest)
    where
      at_head : (j : K) (v : ℤ) (d : Tally K) → get j ((j, v) ∷ d) ≡ v
      at_head j v d = rw (same_refl j)

      past_head : (j k : K) (v : ℤ) (d : Tally K) → same j k ≡ false → get k ((j, v) ∷ d) ≡ get k d
      past_head j k v d e = rw e
