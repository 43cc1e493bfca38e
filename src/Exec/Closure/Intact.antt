-- ===== src/Exec/Closure/Intact.antt =====
-- infra/exec/closureverify.py: what a closure that passes is.
use cyberware.Prelude.{
  ◌≡◌, ◌↔◌, refl, sym, ap, ◌∙◌, true, none, some, ◌⊎◌, inl, inr, List, [], ◌∷◌, Text, codes,
  same_text, same_text_iff, All, Bool-cases, Option-cases, some_injective, arith,
}
use cyberware.Govern.Principals.{among}
use cyberware.Exec.Closure.{
  Snip, unpinned_by_design, names, stray, check_pin, check_pins, closure_decision,
}

-- Every pinned file is there with its digest, and every file there is pinned or is `contracts.json`.
pub record Intact (pins : List (Text × Text)) (d : Snip) : Type 0 where
  pub pinned : All (λ p. d.digest_file p.0 ≡ some p.1) pins
  pub no_stray : All (λ f. (among f (names pins) ≡ true) ⊎ (f ≡ unpinned_by_design)) d.files

stray_iff :
    (why : Text) (files allowed : List Text)
    → (stray why files allowed ≡ none)
      ↔ All (λ f. (among f allowed ≡ true) ⊎ (f ≡ unpinned_by_design)) files
unfolding stray
stray_iff why [] allowed = (λ h. tt, λ h. refl)
stray_iff why (f ∷ fs) allowed = elim (Bool-cases (among f allowed)) [
  | inl there ↦ (
    λ h. (inl there, (stray_iff why fs allowed).0 (ground arith)),
    λ (_, hs). let rest = (stray_iff why fs allowed).1 hs in ground arith,
  )
  | inr away ↦ elim (Bool-cases (same_text f unpinned_by_design)) [
    | inl exempt ↦ (
      λ h. (
        inr ((same_text_iff f unpinned_by_design).0 exempt),
        (stray_iff why fs allowed).0 (ground arith),
      ),
      λ (_, hs). let rest = (stray_iff why fs allowed).1 hs in ground arith,
    )
    | inr other ↦ (
      λ h. absurd (ground arith),
      λ (h, _). absurd (ground (arith, same_text_iff f unpinned_by_design)),
    )
  ]
]

check_pin_iff :
    (d : Snip) (p : Text × Text) → (check_pin d p ≡ none) ↔ (d.digest_file p.0 ≡ some p.1)
unfolding check_pin
check_pin_iff d p = elim (Option-cases (d.digest_file p.0)) [
  | inl gone ↦ (λ h. absurd (ground arith), λ h. absurd (ground arith))
  | inr (digest, found) ↦ (
    λ h. found ∙ ap some ((same_text_iff digest p.1).0 (ground arith)),
    λ h. let same = (same_text_iff digest p.1).1 (some_injective (sym found ∙ h)) in ground arith,
  )
]

check_pins_iff :
    (ps : List (Text × Text)) (d : Snip) (pinned : List Text)
    → (check_pins ps d pinned ≡ none)
      ↔ All (λ p. d.digest_file p.0 ≡ some p.1) ps
        × (stray (codes "closure:smuggled:") d.files pinned ≡ none)
unfolding check_pins
check_pins_iff [] d pinned = (λ h. (tt, h), λ (_, h). h)
check_pins_iff (p ∷ ps) d pinned = elim (Option-cases (check_pin d p)) [
  | inl good ↦ (
    λ h.
        let (hs, rest) = (check_pins_iff ps d pinned).0 (ground arith) in
        (((check_pin_iff d p).0 good, hs), rest),
    λ ((_, hs), rest). let all_good = (check_pins_iff ps d pinned).1 (hs, rest) in ground arith,
  )
  | inr (why, bad) ↦ (
    λ h. absurd (ground arith),
    λ ((h, _), _). let good = (check_pin_iff d p).1 h in absurd (ground arith),
  )
]

-- The closure check passes exactly where every file that the grant pins is there with its digest, and
-- where no file is there that is neither pinned nor `contracts.json`.
pub closure_decision_iff :
    (pins : List (Text × Text)) (d : Snip) → (closure_decision pins d ≡ none) ↔ Intact pins d
unfolding closure_decision
closure_decision_iff [] d =
    let strays = stray_iff (codes "closure:unpinned:") d.files [] in
    (λ h. record { pinned = tt; no_stray = strays.0 h }, λ i. strays.1 i.no_stray)
closure_decision_iff (p ∷ ps) d =
    let strays = stray_iff (codes "closure:smuggled:") d.files (names (p ∷ ps)) in
    let pins = check_pins_iff (p ∷ ps) d (names (p ∷ ps)) in
    (
      λ h. let (good, rest) = pins.0 h in record { pinned = good; no_stray = strays.0 rest },
      λ i. pins.1 (i.pinned, strays.1 i.no_stray),
    )
