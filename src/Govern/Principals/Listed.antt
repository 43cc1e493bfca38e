-- ===== src/Govern/Principals/Listed.antt =====
-- infra/govern/principals.py: when a scope's list covers a skill.
use cyberware.Prelude.{
  ◌≡◌, ◌↔◌, refl, sym, ap, subst, ◌∙◌, true, Option, none, some, inl, inr, List, ◌∷◌, [], ◌++◌,
  Text, codes, same_text_iff, Bool-cases, Option-cases, some_injective, arith, Without, ◌==◌,
  ==_iff,
}
use cyberware.Govern.Principals.{among, split_colon, skill_listed, is_star}

-- The skill is listed: by its name, by the wildcard of its namespace, or by its bare leaf.
pub data Listed (skill : Text) (skills : List Text) : Type 0 where
  exact : among skill skills ≡ true → Listed skill skills
  wildcard :
      (ns leaf : Text)
      → skill ≡ ns ++ 58 ∷ leaf
      → Without 58 ns
      → among (ns ++ codes ":*") skills ≡ true
      → Listed skill skills
  bare :
      (ns leaf : Text)
      → skill ≡ ns ++ 58 ∷ leaf
      → Without 58 ns
      → among leaf skills ≡ true
      → Listed skill skills

both :
    {A B : Type 0} {a c : A} {b d : B}
    → ◌≡◌ {A = Option (A × B)} (some (a, b)) (some (c, d))
    → (a ≡ c) × (b ≡ d)
both h = let e = some_injective h in (ap (λ p. p.0) e, ap (λ p. p.1) e)

split_colon-some :
    (t ns leaf : Text) → split_colon t ≡ some (ns, leaf) → (t ≡ ns ++ 58 ∷ leaf) × Without 58 ns
unfolding split_colon
split_colon-some [] ns leaf h = absurd (ground arith)
split_colon-some (c ∷ cs) ns leaf h = elim (Bool-cases (c == 58)) [
  | inl at_colon ↦
      let met : some ([], cs) ≡ some (ns, leaf) = ground arith in
      let (empty, rest) = both met in
      (rw (sym empty, sym rest, (==_iff c 58).0 at_colon) refl, subst (Without 58) empty tt)
  | inr other ↦ elim (Option-cases (split_colon cs)) [
    | inl no_colon ↦ absurd (ground arith)
    | inr ((ns', leaf'), found) ↦
        let met : some (c ∷ ns', leaf') ≡ some (ns, leaf) = ground arith in
        let (same_ns, same_leaf) = both met in
        let (split, without) = split_colon-some cs ns' leaf' found in
        (
          rw (sym same_ns, sym same_leaf, split) refl,
          subst (Without 58) same_ns (ground (arith, ==_iff c 58), without),
        )
  ]
]

split_colon_at : (ns leaf : Text) → Without 58 ns → split_colon (ns ++ 58 ∷ leaf) ≡ some (ns, leaf)
unfolding split_colon
split_colon_at [] leaf h = refl
split_colon_at (c ∷ ns) leaf (h, hs) = ground (arith, split_colon_at ns leaf hs)

pub Listed-iff :
    (skill : Text) (skills : List Text)
    → (skill_listed skill (some skills) ≡ true) ↔ Listed skill skills
unfolding skill_listed
Listed-iff skill skills = (to, from)
  where
    to : skill_listed skill (some skills) ≡ true → Listed skill skills
    to h = elim (Bool-cases (among skill skills)) [
      | inl there ↦ exact there
      | inr away ↦ elim (Option-cases (split_colon skill)) [
        | inl no_colon ↦ absurd (ground arith)
        | inr ((ns, leaf), found) ↦
            let (split, without) = split_colon-some skill ns leaf found in
            elim (Bool-cases (among (ns ++ codes ":*") skills)) [
              | inl wild ↦ wildcard ns leaf split without wild
              | inr tame ↦ bare ns leaf split without (ground arith)
            ]
      ]
    ]

    from : Listed skill skills → skill_listed skill (some skills) ≡ true
    from (exact there) = ground arith
    from (wildcard ns leaf split without there) =
        let found = ap split_colon split ∙ split_colon_at ns leaf without in ground arith
    from (bare ns leaf split without there) =
        let found = ap split_colon split ∙ split_colon_at ns leaf without in ground arith

pub star_iff : (o : Option (List Text)) → (is_star o ≡ true) ↔ (o ≡ some (codes "*" ∷ []))
star_iff none = ground arith
star_iff (some []) = ground arith
star_iff (some (t ∷ u ∷ ts)) = ground arith
star_iff (some (t ∷ [])) = (
  λ h. ap (λ x. some (x ∷ [])) ((same_text_iff t (codes "*")).0 h),
  λ h. (same_text_iff t (codes "*")).1 (cc),
)

pub Listed-of :
    (skill : Text) (o : Option (List Text))
    → skill_listed skill o ≡ true
    → (skills : List Text) × (o ≡ some skills) × Listed skill skills
unfolding skill_listed
Listed-of skill none h = absurd (ground arith)
Listed-of skill (some skills) h = (skills, refl, (Listed-iff skill skills).0 h)

pub Listed-true :
    (skill : Text) (o : Option (List Text)) (skills : List Text)
    → o ≡ some skills
    → Listed skill skills
    → skill_listed skill o ≡ true
Listed-true skill o skills e h = ap (skill_listed skill) e ∙ (Listed-iff skill skills).1 h
