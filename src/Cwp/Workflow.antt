-- ===== src/Cwp/Workflow.antt =====
-- infra/cwp/workflow.py: workflows as state machines, their reachable states, their composition, and
-- the execution of a saga. The predicates of a workflow, which only the external provers read, are left
-- out, and so are the provers.
pub mod Reach
pub mod Terminates
pub mod Compensates
use cyberware.Prelude.{
  ℕ, zero, suc, Bool, true, false, not, ◌&&◌, ◌||◌, Option, none, some, List, [], ◌∷◌, ◌++◌, map,
  Text, codes, same_text, last, any, all, length, ◌==◌, if◌then◌else◌, ◌+◌,
}

-- The value of a flag: its type is `Bool` or `Int`.
pub data FlagValue : Type 0 where
  boolean : Bool → FlagValue
  number : ℕ → FlagValue

pub record Transition : Type 0 where
  pub source : Text
  pub target : Text
  pub sets : List (Text × FlagValue)

-- A flag stands with its initial value.
pub record Workflow : Type 0 where
  pub name : Text
  pub states : List Text
  pub entry : Text
  pub flags : List (Text × FlagValue)
  pub transitions : List Transition

abbrev pub member : Text → List Text → Bool
member t ts = any (same_text t) ts

-- `adj.get(s, [])`
unfoldable pub successors : Text → List Transition → List Text
successors s [] = []
successors s (t ∷ ts) =
    let rest = successors s ts in if same_text t.source s then t.target ∷ rest else rest

-- The inner loop; the end of the frontier is the head of the list.
unfoldable pub push : List Text → List Text → List Text → List Text × List Text
push [] seen frontier = (seen, frontier)
push (next ∷ rest) seen frontier =
    let old = push rest seen frontier in
    let new = push rest (next ∷ seen) (next ∷ frontier) in if member next seen then old else new

-- The outer loop; `none` is a run out of fuel.
unfoldable pub explore : ℕ → List Transition → List Text → List Text → Option (List Text)
unfolding successors push
explore n ts seen [] = some seen
explore zero ts seen (s ∷ frontier) = none
explore (suc n) ts seen (s ∷ frontier) =
    let (seen', frontier') = push (successors s ts) seen frontier in explore n ts seen' frontier'

-- One turn for the entry and one for each transition.
unfoldable pub reachable_states : Workflow → Option (List Text)
unfolding explore
reachable_states wf =
    explore (suc (length wf.transitions)) wf.transitions (wf.entry ∷ []) (wf.entry ∷ [])

-- `f"{p}_{s}"`
abbrev pub prefixed : Text → Text → Text
prefixed p s = p ++ codes "_" ++ s

abbrev pub prefix_flags : Text → List (Text × FlagValue) → List (Text × FlagValue)
prefix_flags p fs = map (λ f. (prefixed p f.0, f.1)) fs

-- `_prefix`
unfoldable pub prefix : Workflow → Text → Workflow
prefix wf p = record {
  name = wf.name;
  states = map (prefixed p) wf.states;
  entry = prefixed p wf.entry;
  flags = prefix_flags p wf.flags;
  transitions =
      map
        (λ t. record {
          source = prefixed p t.source;
          target = prefixed p t.target;
          sets = prefix_flags p t.sets;
        })
        wf.transitions;
}

-- `compose` by `seq`; `none` is the IndexError of an operand without states.
unfoldable pub compose_seq : Workflow → Workflow → Option Workflow
unfolding prefix
compose_seq w1 w2 =
    let a = prefix w1 (codes "a") in
    let b = prefix w2 (codes "b") in
    elim (last a.states) [
      | none ↦ none
      | some end ↦ some record {
        name = codes "Seq_" ++ w1.name ++ codes "_" ++ w2.name;
        states = a.states ++ b.states;
        entry = a.entry;
        flags = a.flags ++ b.flags;
        transitions =
            a.transitions
            ++ (b.transitions ++ record { source = end; target = b.entry; sets = [] } ∷ []);
      }
    ]

-- `f"{s1}|{s2}"`
abbrev pub joint : Text → Text → Text
joint s1 s2 = s1 ++ codes "|" ++ s2

-- The transitions of either side out of a joint state.
unfoldable pub steps_left : Text → Text → List Transition → List Transition
steps_left s1 s2 [] = []
steps_left s1 s2 (t ∷ ts) =
    let rest = steps_left s1 s2 ts in
    if same_text t.source s1
    then record { source = joint s1 s2; target = joint t.target s2; sets = t.sets } ∷ rest
    else rest

unfoldable pub steps_right : Text → Text → List Transition → List Transition
steps_right s1 s2 [] = []
steps_right s1 s2 (t ∷ ts) =
    let rest = steps_right s1 s2 ts in
    if same_text t.source s2
    then record { source = joint s1 s2; target = joint s1 t.target; sets = t.sets } ∷ rest
    else rest

unfoldable pub steps_at : Text → List Text → List Transition → List Transition → List Transition
unfolding steps_left steps_right
steps_at s1 [] ta tb = []
steps_at s1 (s2 ∷ ss) ta tb = steps_left s1 s2 ta ++ (steps_right s1 s2 tb ++ steps_at s1 ss ta tb)

unfoldable pub product_steps :
    List Text → List Text → List Transition → List Transition → List Transition
unfolding steps_at
product_steps [] ss ta tb = []
product_steps (s1 ∷ rest) ss ta tb = steps_at s1 ss ta tb ++ product_steps rest ss ta tb

unfoldable pub product_states : List Text → List Text → List Text
product_states [] ss = []
product_states (s1 ∷ rest) ss = map (joint s1) ss ++ product_states rest ss

unfoldable pub without : Text → List Text → List Text
without t [] = []
without t (s ∷ ss) = let rest = without t ss in if same_text s t then rest else s ∷ rest

-- `compose` by `par`; `none` is the IndexError of an operand without states.
unfoldable pub compose_par : Workflow → Workflow → Option Workflow
unfolding prefix product_steps product_states without
compose_par w1 w2 =
    let a = prefix w1 (codes "a") in
    let b = prefix w2 (codes "b") in
    elim (last a.states) [
      | none ↦ none
      | some end1 ↦ elim (last b.states) [
        | none ↦ none
        | some end2 ↦ some record {
          name = codes "Par_" ++ w1.name ++ codes "_" ++ w2.name;
          states =
              without (joint end1 end2) (product_states a.states b.states) ++ joint end1 end2 ∷ [];
          entry = joint a.entry b.entry;
          flags = a.flags ++ b.flags;
          transitions = product_steps a.states b.states a.transitions b.transitions;
        }
      ]
    ]

-- What `run_saga` returns.
pub record Saga : Type 0 where
  pub failed_at : Option ℕ
  pub ran : List ℕ
  pub compensated : List ℕ
  pub compensation_ran : Bool

unfoldable pub reversed : List ℕ → List ℕ
reversed [] = []
reversed (x ∷ xs) = reversed xs ++ x ∷ []

abbrev pub same_numbers : List ℕ → List ℕ → Bool
same_numbers [] [] = true
same_numbers [] (y ∷ ys) = false
same_numbers (x ∷ xs) [] = false
same_numbers (x ∷ xs) (y ∷ ys) = (x == y) && same_numbers xs ys

abbrev pub is_at : Option ℕ → ℕ → Bool
is_at none i = false
is_at (some k) i = i == k

-- The loop from step `i`, with `left` steps to go.
unfoldable pub saga_from : ℕ → ℕ → Option ℕ → List ℕ → Saga
unfolding reversed
saga_from zero i fail_at done = record {
  failed_at = none;
  ran = done;
  compensated = [];
  compensation_ran = true;
}
saga_from (suc left) i fail_at done =
    let rest = saga_from left (suc i) fail_at (done ++ i ∷ []) in
    if is_at fail_at i
    then record {
      failed_at = some i;
      ran = done;
      compensated = reversed done;
      compensation_ran = same_numbers (reversed done) (reversed done);
    }
    else rest

unfoldable pub run_saga : ℕ → Option ℕ → Saga
unfolding saga_from
run_saga n fail_at = saga_from n 0 fail_at []
