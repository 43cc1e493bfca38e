-- ===== src/Prelude/Keys.antt =====
-- Equality of keys as an interface: a test that decides `≡`.
use Prim.Native.Nat.{ℕ}
use mathlib.Core.Path.{◌≡◌, refl}
use mathlib.Core.Logic.{◌↔◌}
use mathlib.Core.Bool.{Bool, true, ◌&&◌}
use native.Mathlib.Omega.{arith}
use cyberware.Prelude.Tests.{◌==◌, ==_iff}
use cyberware.Prelude.Texts.{Text, same_text, same_text_iff}

pub record Eq (A : Type 0) : Type 0 where
  pub beq : A → A → Bool
  pub beq_iff : (a b : A) → (beq a b ≡ true) ↔ (a ≡ b)

module _ {A : Type 0} ⦃e : Eq A⦄ where
  abbrev pub same : A → A → Bool
  same a b = e.beq a b

  pub same_iff : (a b : A) → (same a b ≡ true) ↔ (a ≡ b)
  same_iff a b = e.beq_iff a b

  pub same_refl : (a : A) → same a a ≡ true
  same_refl a = (same_iff a a).1 refl

instance abbrev pub nat_eq : Eq ℕ
nat_eq = record { beq = ◌==◌; beq_iff = ==_iff }

instance abbrev pub text_eq : Eq Text
text_eq = record { beq = same_text; beq_iff = same_text_iff }

module _ {A B : Type 0} ⦃a : Eq A⦄ ⦃b : Eq B⦄ where
  pub pair_beq_iff : (x y : A × B) → ((a.beq x.0 y.0 && b.beq x.1 y.1) ≡ true) ↔ (x ≡ y)
  pair_beq_iff x y = ground (arith, a.beq_iff x.0 y.0, b.beq_iff x.1 y.1)

  instance abbrev pub pair_eq : Eq (A × B)
  pair_eq = record { beq = λ x y. a.beq x.0 y.0 && b.beq x.1 y.1; beq_iff = pair_beq_iff }
