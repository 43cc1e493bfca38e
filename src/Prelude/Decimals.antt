-- ===== src/Prelude/Decimals.antt =====
-- Decimal notation of a natural number, Python's `str` and `int`, and the texts that it delimits.
use Prim.Native.Nat.{ℕ, zero, suc, ◌+◌, ◌-◌, ◌*◌, ◌/◌, ◌%◌, ◌≤◌, ◌<◌}
use mathlib.Core.Path.{◌≡◌, refl, sym, ap, ◌∙◌}
use mathlib.Core.Logic.{◌≢◌, inl, inr}
use mathlib.Core.Bool.{true, false}
use mathlib.Core.List.{[], ◌∷◌, ◌++◌}
use native.Mathlib.Omega.{arith}
use cyberware.Prelude.Tests.{ltb, if◌then◌else◌, Bool-cases, ltb→lt}
use cyberware.Prelude.Lists.{All, length}
use cyberware.Prelude.Texts.{Text}

-- The digits of `n` in front of `acc`; the fuel is more than `n`.
unfoldable pub digits : ℕ → ℕ → Text → Text
digits zero n acc = acc
digits (suc fuel) n acc =
    let more = digits fuel (n / 10) ((48 + n % 10) ∷ acc) in
    if ltb n 10 then (48 + n) ∷ acc else more

unfoldable pub decimal : ℕ → Text
unfolding digits
decimal n = digits (suc n) n []

-- The number that digits denote, behind those read already.
unfoldable pub read_from : ℕ → Text → ℕ
read_from n [] = n
read_from n (c ∷ cs) = read_from (n * 10 + (c - 48)) cs

read-digits :
    (fuel n : ℕ) (acc : Text) → n < fuel → read_from 0 (digits fuel n acc) ≡ read_from n acc
unfolding digits read_from
read-digits zero n acc h = absurd (omega arith)
read-digits (suc fuel) n acc h = elim (Bool-cases (ltb n 10)) [
  | inl small ↦ rw (small, read_from) (ap (λ k. read_from k acc) (one n (ltb→lt n 10 small)))
  | inr large ↦ rw large (
      read-digits fuel (n / 10) ((48 + n % 10) ∷ acc) (tenth n fuel large h)
      ∙ ap (λ k. read_from k acc) (whole n))
]
  where
    one : (n : ℕ) → n < 10 → 0 * 10 + (48 + n - 48) ≡ n
    one n h = omega arith

    whole : (n : ℕ) → n / 10 * 10 + (48 + n % 10 - 48) ≡ n
    whole n = omega arith

    tenth : (n fuel : ℕ) → ltb n 10 ≡ false → n < suc fuel → n / 10 < fuel
    tenth n fuel h k = ground arith

-- Reading what was written.
pub read-decimal : (n : ℕ) → read_from 0 (decimal n) ≡ n
unfolding decimal read_from
read-decimal n = read-digits (suc n) n [] (omega arith)

pub decimal_injective : (m n : ℕ) → decimal m ≡ decimal n → m ≡ n
decimal_injective m n h = sym (read-decimal m) ∙ ap (read_from 0) h ∙ read-decimal n

-- A text of which no character is `c`.
abbrev pub Without : ℕ → Text → Type 0
Without c = All (λ x. x ≢ c)

-- The characters of a decimal are digits.
abbrev pub IsDigit : ℕ → Type 0
IsDigit c = (48 ≤ c) × (c < 58)

digits-IsDigit : (fuel n : ℕ) (acc : Text) → All IsDigit acc → All IsDigit (digits fuel n acc)
unfolding digits
digits-IsDigit zero n acc h = h
digits-IsDigit (suc fuel) n acc h = elim (Bool-cases (ltb n 10)) [
  | inl small ↦ rw small ((omega arith, one n small), h)
  | inr large ↦
      rw large (digits-IsDigit fuel (n / 10) ((48 + n % 10) ∷ acc) ((omega arith, last n), h))
]
  where
    one : (n : ℕ) → ltb n 10 ≡ true → 48 + n < 58
    one n h = ground arith

    last : (n : ℕ) → 48 + n % 10 < 58
    last n = omega arith

pub decimal-IsDigit : (n : ℕ) → All IsDigit (decimal n)
unfolding decimal
decimal-IsDigit n = digits-IsDigit (suc n) n [] tt

pub digits-Without : (c : ℕ) (s : Text) → (IsDigit c → ⊥) → All IsDigit s → Without c s
digits-Without c [] outside h = tt
digits-Without c (x ∷ s) outside h =
    (λ e. outside (subst_digit x c e h.0), digits-Without c s outside h.1)
  where
    subst_digit : (x c : ℕ) → x ≡ c → IsDigit x → IsDigit c
    subst_digit x c e d = (omega (arith, d.0), omega (arith, d.1))

-- Two texts that are split at the first `c` are split at one place.
pub split_unique :
    (c : ℕ) (s t u v : Text)
    → Without c s
    → Without c t
    → s ++ c ∷ u ≡ t ++ c ∷ v
    → (s ≡ t) × (u ≡ v)
split_unique c [] [] u v hs ht h = (refl, ground arith)
split_unique c [] (y ∷ t) u v hs ht h = absurd (ht.0 (ground arith))
split_unique c (x ∷ s) [] u v hs ht h = absurd (hs.0 (ground arith))
split_unique c (x ∷ s) (y ∷ t) u v hs ht h =
    let (same, rest) = split_unique c s t u v hs.1 ht.1 (tail_eq h) in (both (head_eq h) same, rest)
  where
    head_eq : {x y : ℕ} {s t : Text} → x ∷ s ≡ y ∷ t → x ≡ y
    head_eq h = cc

    tail_eq : {x y : ℕ} {s t : Text} → x ∷ s ≡ y ∷ t → s ≡ t
    tail_eq h = cc

    both : {x y : ℕ} {s t : Text} → x ≡ y → s ≡ t → x ∷ s ≡ y ∷ t
    both p q = cc

-- Two texts whose beginnings have one length are split at one place.
pub append_unique : (s t u v : Text) → length s ≡ length t → s ++ u ≡ t ++ v → (s ≡ t) × (u ≡ v)
append_unique [] [] u v size h = (refl, h)
append_unique [] (y ∷ t) u v size h = absurd (omega arith)
append_unique (x ∷ s) [] u v size h = absurd (omega arith)
append_unique (x ∷ s) (y ∷ t) u v size h =
    let (same, rest) = append_unique s t u v (omega arith) (tail_eq h) in
    (both (head_eq h) same, rest)
  where
    head_eq : {x y : ℕ} {s t : Text} → x ∷ s ≡ y ∷ t → x ≡ y
    head_eq h = cc

    tail_eq : {x y : ℕ} {s t : Text} → x ∷ s ≡ y ∷ t → s ≡ t
    tail_eq h = cc

    both : {x y : ℕ} {s t : Text} → x ≡ y → s ≡ t → x ∷ s ≡ y ∷ t
    both p q = cc
