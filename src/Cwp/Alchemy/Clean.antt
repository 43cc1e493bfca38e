-- ===== src/Cwp/Alchemy/Clean.antt =====
-- infra/cwp/alchemy.py: what the gate of a publish admits.
use cyberware.Prelude.{
  ℕ, ◌≡◌, ◌↔◌, refl, subst, some_injective, Bool, true, false, not, Option, none, some, List, [],
  ◌∷◌, Text, same_text, text_self, any, All, passed_iff, ltb, arith,
}
use cyberware.Cwp.Alchemy.{
  Cfg, Blueprint, Names, is_unnamed, unnamed, same_edge, concord, citrinitas_clean,
  conservation_defect, unnamed_shape, cfg_mismatch, declared_or, publish_gate,
}

-- No state and no edge is undeclared.
abbrev pub Contained : Cfg → Cfg → Type 0
Contained extracted declared =
    (All (λ s. any (same_text s) declared.states ≡ true) extracted.states)
    × All (λ e. any (same_edge e) declared.edges ≡ true) extracted.edges

none_fails {ℓ} :
    {A : Type ℓ} (p : A → Bool) (xs : List A)
    → (any (λ x. not (p x)) xs ≡ false) ↔ All (λ x. p x ≡ true) xs
none_fails p [] = (λ h. tt, λ h. refl)
none_fails p (x ∷ xs) =
    let rest = none_fails p xs in
    (
      λ h. (ground arith, rest.0 (ground arith)),
      λ h. let later = rest.1 h.1 in let first = h.0 in ground arith,
    )

concord_iff : (ex de : Cfg) → (concord ex de ≡ true) ↔ Contained ex de
unfolding concord
concord_iff ex de =
    let states = none_fails (λ s. any (same_text s) de.states) ex.states in
    let edges = none_fails (λ e. any (same_edge e) de.edges) ex.edges in
    (
      λ h. (states.0 (ground arith), edges.0 (ground arith)),
      λ h. let a = states.1 h.0 in let b = edges.1 h.1 in ground arith,
    )

each_present {ℓ} :
    {A : Type ℓ} (same : A → A → Bool)
    → ((x : A) → same x x ≡ true)
    → (front xs : List A) → ((x : A) → any (same x) xs ≡ true → any (same x) front ≡ true)
    → All (λ x. any (same x) front ≡ true) xs
each_present same self front [] h = tt
each_present same self front (x ∷ xs) h = (
  h x (let e = self x in ground arith),
  each_present same self front xs (λ y there. h y (ground arith)),
)

edge_self : (e : Text × Text) → same_edge e e ≡ true
edge_self (a, b) = ground (arith, text_self a, text_self b)

-- Every graph is contained in itself: without a declared blueprint the last check always passes.
pub concord_self : (ex : Cfg) → concord ex ex ≡ true
concord_self ex = (concord_iff ex ex).1 (
  each_present same_text text_self ex.states ex.states (λ x h. h),
  each_present same_edge edge_self ex.edges ex.edges (λ x h. h),
)

no_unnamed :
    (n : Names) (cs : List Text)
    → (ltb 0 (unnamed n cs) ≡ false) ↔ All (λ c. is_unnamed n c ≡ false) cs
unfolding unnamed
no_unnamed n [] = (λ h. tt, λ h. refl)
no_unnamed n (c ∷ cs) =
    let rest = no_unnamed n cs in
    (
      λ h. (ground arith, rest.0 (ground arith)),
      λ h. let later = rest.1 h.1 in let first = h.0 in ground arith,
    )

fits_iff :
    (declared : Option Cfg) (ex : Cfg)
    → (not (concord ex (declared_or declared ex)) ≡ false)
      ↔ ((c : Cfg) → declared ≡ some c → Contained ex c)
fits_iff none ex = (λ h c e. absurd (nothing e), λ h. let own = concord_self ex in ground arith)
  where
    nothing : {c : Cfg} → none ≡ some c → ⊥
    nothing e = cc
fits_iff (some d) ex =
    let within = concord_iff ex d in
    (
      λ h c e. subst (Contained ex) (some_injective e) (within.0 (ground arith)),
      λ h. let fits = within.1 (h d refl) in ground arith,
    )

-- A subject is admitted exactly where no family is out of balance, every call has a name in the table, and
-- its control flow is contained in the blueprint that is declared, if one is.
pub publish_gate_iff :
    (n : Names) (bp : Blueprint) (declared : Option Cfg)
    → (publish_gate n bp declared ≡ citrinitas_clean)
      ↔ (bp.imbalance ≡ 0)
        × (All (λ c. is_unnamed n c ≡ false) bp.callees)
        × ((c : Cfg) → declared ≡ some c → Contained bp.graph c)
unfolding publish_gate
publish_gate_iff n bp declared =
    let balanced =
      passed_iff (ltb 0 bp.imbalance) conservation_defect citrinitas_clean (λ e. ground arith) in
    let named =
      passed_iff (ltb 0 (unnamed n bp.callees)) unnamed_shape citrinitas_clean
        (λ e. ground arith) in
    let fitting =
      passed_iff {w = citrinitas_clean} (not (concord bp.graph (declared_or declared bp.graph)))
        cfg_mismatch citrinitas_clean (λ e. ground arith) in
    let zero = none_out bp.imbalance in
    let calls = no_unnamed n bp.callees in
    let fits = fits_iff declared bp.graph in
    (
      λ h.
          let (a, h1) = balanced.0 h in
          let (b, h2) = named.0 h1 in (zero.0 a, calls.0 b, fits.0 (fitting.0 h2).0),
      λ h. balanced.1 (zero.1 h.0, named.1 (calls.1 h.1, fitting.1 (fits.1 h.2, refl))),
    )
  where
    none_out : (k : ℕ) → (ltb 0 k ≡ false) ↔ (k ≡ 0)
    none_out k = ground arith
