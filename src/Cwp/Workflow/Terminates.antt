-- ===== src/Cwp/Workflow/Terminates.antt =====
-- infra/cwp/workflow.py: the search for the reachable states ends. Each turn takes one state off the
-- frontier, and each push uses up a transition whose target was unseen.
use cyberware.Prelude.{
  ℕ, zero, suc, ◌+◌, ◌≤◌, ◌≡◌, ◌↔◌, refl, sym, ap, ◌∙◌, Bool, true, false, some, List, [], ◌∷◌,
  Text, same_text, same_text_iff, text_self, any, length, if◌then◌else◌, Bool-cases, inl, inr,
  arith,
}
use cyberware.Cwp.Workflow.{
  Transition, Workflow, member, successors, push, explore, reachable_states,
}
use cyberware.Cwp.Workflow.Reach.{Reach, Every, if_either, reachable_states_iff}

-- The transitions whose target is unseen.
unfoldable unseen : List Transition → List Text → ℕ
unseen [] seen = 0
unseen (t ∷ ts) seen = let rest = unseen ts seen in if member t.target seen then rest else suc rest

unseen-length : (ts : List Transition) (seen : List Text) → unseen ts seen ≤ length ts
unfolding unseen
unseen-length [] seen = omega arith
unseen-length (t ∷ ts) seen = ground (arith, unseen-length ts seen)

is_target : Text → List Transition → Bool
is_target n ts = any (λ t. same_text t.target n) ts

more_seen :
    (ts : List Transition) (n : Text) (seen : List Text) → unseen ts (n ∷ seen) ≤ unseen ts seen
unfolding unseen
more_seen [] n seen = omega arith
more_seen (t ∷ ts) n seen = ground (arith, more_seen ts n seen)

uses_up :
    (ts : List Transition) (n : Text) (seen : List Text)
    → is_target n ts ≡ true
    → member n seen ≡ false
    → suc (unseen ts (n ∷ seen)) ≤ unseen ts seen
unfolding unseen is_target
uses_up [] n seen h new = absurd (ground arith)
uses_up (t ∷ ts) n seen h new = elim (Bool-cases (same_text t.target n)) [
  | inl here ↦
      let unseen_target : member t.target seen ≡ false =
        ap (λ u. member u seen) ((same_text_iff t.target n).0 here) ∙ new in
      ground (arith, more_seen ts n seen)
  | inr there ↦ let k = uses_up ts n seen (ground arith) new in ground arith
]

successors_targets :
    (s : Text) (ts : List Transition) → Every (λ n. is_target n ts ≡ true) (successors s ts)
unfolding successors is_target
successors_targets s [] n h = absurd (ground arith)
successors_targets s (t ∷ ts) n h = elim (Bool-cases (same_text t.source s)) [
  | inl here ↦ elim (Bool-cases (same_text n t.target)) [
    | inl same ↦
        let turned = (same_text_iff t.target n).1 (sym ((same_text_iff n t.target).0 same)) in
        ground arith
    | inr other ↦ let rest = successors_targets s ts n (ground arith) in ground arith
  ]
  | inr away ↦ let rest = successors_targets s ts n (ground arith) in ground arith
]

push_measure :
    (ts : List Transition) (ns seen frontier : List Text)
    → Every (λ n. is_target n ts ≡ true) ns
    → length (push ns seen frontier).1 + unseen ts (push ns seen frontier).0
      ≤ length frontier + unseen ts seen
unfolding push
push_measure ts [] seen frontier h = omega arith
push_measure ts (n ∷ ns) seen frontier h =
    if_either (λ r. length r.1 + unseen ts r.0 ≤ length frontier + unseen ts seen) (member n seen)
      (push ns seen frontier) (push ns (n ∷ seen) (n ∷ frontier))
      (λ old. push_measure ts ns seen frontier (λ u k. h u (ground arith)))
      (λ new.
        let less = uses_up ts n seen (h n (ground (arith, text_self n))) new in
        let rest = push_measure ts ns (n ∷ seen) (n ∷ frontier) (λ u k. h u (ground arith)) in
        paid
          (length (push ns (n ∷ seen) (n ∷ frontier)).1
            + unseen ts (push ns (n ∷ seen) (n ∷ frontier)).0)
          (length frontier) (unseen ts (n ∷ seen)) (unseen ts seen) rest less)
  where
    paid : (a b c d : ℕ) → a ≤ suc b + c → suc c ≤ d → a ≤ b + d
    paid a b c d h1 h2 = omega arith

explore_ends :
    (ts : List Transition) (n : ℕ) (seen frontier : List Text)
    → length frontier + unseen ts seen ≤ n
    → (out : List Text) × (explore n ts seen frontier ≡ some out)
unfolding explore
explore_ends ts zero seen [] h = (seen, refl)
explore_ends ts (suc n) seen [] h = (seen, refl)
explore_ends ts zero seen (s ∷ frontier) h = absurd (omega arith)
explore_ends ts (suc n) seen (s ∷ frontier) h =
    let r = push (successors s ts) seen frontier in
    explore_ends ts n (r.0) (r.1)
      (fewer (push_measure ts (successors s ts) seen frontier (successors_targets s ts)))
  where
    fewer : {a : ℕ} → a ≤ length frontier + unseen ts seen → a ≤ n
    fewer k = omega arith

search_ends : (wf : Workflow) → (out : List Text) × (reachable_states wf ≡ some out)
unfolding reachable_states
search_ends wf =
    explore_ends wf.transitions (suc (length wf.transitions)) (wf.entry ∷ []) (wf.entry ∷ [])
      (omega (arith, unseen-length wf.transitions (wf.entry ∷ [])))

-- The search for the reachable states of any workflow ends, and what it returns are exactly the states
-- that a run from its entry reaches by the transitions of the workflow.
pub reachable_states-Reach :
    (wf : Workflow)
    → (out : List Text) × (reachable_states wf ≡ some out)
      × ((t : Text) → (member t out ≡ true) ↔ Reach wf.transitions wf.entry t)
reachable_states-Reach wf =
    let (out, found) = search_ends wf in (out, found, λ t. reachable_states_iff wf out t found)
