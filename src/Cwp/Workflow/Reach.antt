-- ===== src/Cwp/Workflow/Reach.antt =====
-- infra/cwp/workflow.py: the states that a workflow can reach are those that the search finds.
use cyberware.Prelude.{
  ℕ, zero, suc, ◌≡◌, ◌↔◌, refl, sym, ◌∙◌, subst, Bool, true, false, some, ◌⊎◌, inl, inr, List, [],
  ◌∷◌, Text, same_text, same_text_iff, text_self, length, if◌then◌else◌, Bool-cases, some_injective,
  arith,
}
use cyberware.Cwp.Workflow.{
  Transition, Workflow, member, successors, push, explore, reachable_states,
}

-- A transition of the workflow from one state to another.
pub data Edge (s t : Text) : List Transition → Type 0 where
  this : {e : Transition} {ts : List Transition} → e.source ≡ s → e.target ≡ t → Edge s t (e ∷ ts)
  further : {e : Transition} {ts : List Transition} → Edge s t ts → Edge s t (e ∷ ts)

-- The states that a run from the entry comes to.
pub data Reach (ts : List Transition) (entry : Text) : Text → Type 0 where
  start : Reach ts entry entry
  step : (s t : Text) → Reach ts entry s → Edge s t ts → Reach ts entry t

-- The successors of a state are the targets of all its transitions.
successors-Edge :
    (s t : Text) (ts : List Transition) → member t (successors s ts) ≡ true → Edge s t ts
unfolding successors
successors-Edge s t [] h = absurd (ground arith)
successors-Edge s t (e ∷ ts) h = elim (Bool-cases (same_text e.source s)) [
  | inr other ↦ further (successors-Edge s t ts (rw other at h))
  | inl own ↦ elim (Bool-cases (same_text t e.target)) [
    | inl same ↦ this ((same_text_iff e.source s).0 own) (sym ((same_text_iff t e.target).0 same))
    | inr later ↦ further (successors-Edge s t ts (rw (own, later) at h))
  ]
]

Edge-successors :
    (s t : Text) (ts : List Transition) → Edge s t ts → member t (successors s ts) ≡ true
unfolding successors
Edge-successors s t [] h = elim h [ ]
Edge-successors s t (e ∷ ts) (this from to) =
    let own = (same_text_iff e.source s).1 from in
    let same = (same_text_iff t e.target).1 (sym to) in ground arith
Edge-successors s t (e ∷ ts) (further h) = let rest = Edge-successors s t ts h in ground arith

-- All members of a list satisfy `P`.
abbrev pub Every : (Text → Type 0) → List Text → Type 0
Every P xs = (t : Text) → member t xs ≡ true → P t

Every-cons : (P : Text → Type 0) (x : Text) (xs : List Text) → P x → Every P xs → Every P (x ∷ xs)
Every-cons P x xs p h t there = elim (Bool-cases (same_text t x)) [
  | inl here ↦ subst P (sym ((same_text_iff t x).0 here)) p
  | inr later ↦ h t (ground arith)
]

every_head : (P : Text → Type 0) (x : Text) (xs : List Text) → Every P (x ∷ xs) → P x
every_head P x xs h = h x (ground (arith, text_self x))

Every-tail : (P : Text → Type 0) (x : Text) (xs : List Text) → Every P (x ∷ xs) → Every P xs
Every-tail P x xs h t there = h t (ground arith)

pub if_either :
    {A : Type 0} (Q : A → Type 0) (b : Bool) (x y : A)
    → (b ≡ true → Q x)
    → (b ≡ false → Q y)
    → Q (if b then x else y)
if_either Q true x y h k = h refl
if_either Q false x y h k = k refl

abbrev In : List Text → Text → Type 0
In xs t = member t xs ≡ true

-- What is pushed satisfies what the successors do.
push-Every :
    (P : Text → Type 0) (ns seen frontier : List Text)
    → Every P ns
    → Every P seen
    → Every P frontier
    → Every P (push ns seen frontier).0 × Every P (push ns seen frontier).1
unfolding push
push-Every P [] seen frontier hn hs hf = (hs, hf)
push-Every P (n ∷ ns) seen frontier hn hs hf =
    if_either (λ r. Every P r.0 × Every P r.1) (member n seen) (push ns seen frontier)
      (push ns (n ∷ seen) (n ∷ frontier))
      (λ old. push-Every P ns seen frontier (Every-tail P n ns hn) hs hf)
      (λ new.
        let p = every_head P n ns hn in
        push-Every P ns (n ∷ seen) (n ∷ frontier) (Every-tail P n ns hn) (Every-cons P n seen p hs)
          (Every-cons P n frontier p hf))

In-cons : (x t : Text) (xs : List Text) → In xs t → In (x ∷ xs) t
In-cons x t xs h = ground arith

-- A push keeps what was seen and what waits, sees all it is given, and lets wait what is new.
record Pushed (ns seen frontier : List Text) (r : List Text × List Text) : Type 0 where
  pub seen_kept : Every (In r.0) seen
  pub waiting_kept : Every (In r.1) frontier
  pub all_seen : Every (In r.0) ns
  pub new_waits : Every (λ t. In seen t ⊎ In r.1 t) r.0

push-Pushed : (ns seen frontier : List Text) → Pushed ns seen frontier (push ns seen frontier)
unfolding push
push-Pushed [] seen frontier = record {
  seen_kept = λ t h. h;
  waiting_kept = λ t h. h;
  all_seen = λ t h. absurd (ground arith);
  new_waits = λ t h. inl h;
}
push-Pushed (n ∷ ns) seen frontier =
    if_either (Pushed (n ∷ ns) seen frontier) (member n seen) (push ns seen frontier)
      (push ns (n ∷ seen) (n ∷ frontier))
      (λ old.
        let p = push-Pushed ns seen frontier in
        record {
          seen_kept = p.seen_kept;
          waiting_kept = p.waiting_kept;
          all_seen = Every-cons (In (push ns seen frontier).0) n ns (p.seen_kept n old) p.all_seen;
          new_waits = p.new_waits;
        })
      (λ new.
        let r = push ns (n ∷ seen) (n ∷ frontier) in
        let p = push-Pushed ns (n ∷ seen) (n ∷ frontier) in
        record {
          seen_kept = λ t h. p.seen_kept t (In-cons n t seen h);
          waiting_kept = λ t h. p.waiting_kept t (In-cons n t frontier h);
          all_seen =
              Every-cons (In r.0) n ns
                (p.seen_kept n (every_head (In (n ∷ seen)) n seen (λ t h. h))) p.all_seen;
          new_waits = λ t h. new_or_old n seen frontier r.1 t p.waiting_kept (p.new_waits t h);
        })
  where
    new_or_old :
        (n : Text) (seen frontier waiting : List Text) (t : Text)
        → Every (In waiting) (n ∷ frontier)
        → In (n ∷ seen) t ⊎ In waiting t
        → In seen t ⊎ In waiting t
    new_or_old n seen frontier waiting t h (inr k) = inr k
    new_or_old n seen frontier waiting t h (inl k) = elim (Bool-cases (same_text t n)) [
      | inl here ↦ inr (h t (ground arith))
      | inr later ↦ inl (ground arith)
    ]

-- Every state that is seen waits, or all its successors are seen.
Covered : List Transition → List Text → List Text → Type 0
Covered ts seen frontier = Every (λ s. In frontier s ⊎ Every (In seen) (successors s ts)) seen

Covered-next :
    (ts : List Transition) (s : Text) (seen frontier : List Text)
    → Covered ts seen (s ∷ frontier)
    → Covered ts (push (successors s ts) seen frontier).0 (push (successors s ts) seen frontier).1
unfolding Covered
Covered-next ts s seen frontier h t there =
    let r = push (successors s ts) seen frontier in
    let p = push-Pushed (successors s ts) seen frontier in
    elim (p.new_waits t there) [
      | inr waits ↦ inl waits
      | inl old ↦ elim (h t old) [
        | inr done ↦ inr (λ u k. p.seen_kept u (done u k))
        | inl waiting ↦ elim (Bool-cases (same_text t s)) [
          | inl here ↦ inr (
              subst (λ x. Every (In r.0) (successors x ts)) (sym ((same_text_iff t s).0 here))
                p.all_seen)
          | inr later ↦ inl (p.waiting_kept t (ground arith))
        ]
      ]
    ]

explore_nil : (n : ℕ) (ts : List Transition) (seen : List Text) → explore n ts seen [] ≡ some seen
unfolding explore
explore_nil zero ts seen = refl
explore_nil (suc n) ts seen = refl

explore_sound :
    (P : Text → Type 0) (ts : List Transition) (n : ℕ) (seen frontier out : List Text)
    → ((s : Text) → P s → Every P (successors s ts))
    → explore n ts seen frontier ≡ some out
    → Every P seen
    → Every P frontier
    → Every P out
unfolding explore
explore_sound P ts n seen [] out next h hs hf =
    subst (Every P) (some_injective (sym (explore_nil n ts seen) ∙ h)) hs
explore_sound P ts zero seen (s ∷ frontier) out next h hs hf = absurd (ground arith)
explore_sound P ts (suc n) seen (s ∷ frontier) out next h hs hf =
    let r = push (successors s ts) seen frontier in
    let (ps, pf) =
      push-Every P (successors s ts) seen frontier (next s (every_head P s frontier hf)) hs
        (Every-tail P s frontier hf) in
    explore_sound P ts n (r.0) (r.1) out next h ps pf

explore_complete :
    (ts : List Transition) (n : ℕ) (seen frontier out : List Text)
    → explore n ts seen frontier ≡ some out
    → Covered ts seen frontier
    → Every (In out) seen × Covered ts out []
unfolding explore
explore_complete ts n seen [] out h covered =
    let same : seen ≡ out = some_injective (sym (explore_nil n ts seen) ∙ h) in
    (
      subst (λ o. Every (In o) seen) same (λ t there. there),
      subst (λ o. Covered ts o []) same covered,
    )
explore_complete ts zero seen (s ∷ frontier) out h covered = absurd (ground arith)
explore_complete ts (suc n) seen (s ∷ frontier) out h covered =
    let r = push (successors s ts) seen frontier in
    let p = push-Pushed (successors s ts) seen frontier in
    let (kept, done) =
      explore_complete ts n (r.0) (r.1) out h (Covered-next ts s seen frontier covered) in
    (λ t there. kept t (p.seen_kept t there), done)

-- The search finds exactly the states that a run of the workflow reaches from its entry.
pub reachable_states_iff :
    (wf : Workflow) (out : List Text) (t : Text)
    → reachable_states wf ≡ some out
    → (member t out ≡ true) ↔ Reach wf.transitions wf.entry t
unfolding reachable_states Covered
reachable_states_iff wf out t h =
    let n = suc (length wf.transitions) in
    let first : Every (In (wf.entry ∷ [])) (wf.entry ∷ []) = λ u there. there in
    let sound =
      explore_sound (Reach wf.transitions wf.entry) wf.transitions n (wf.entry ∷ []) (wf.entry ∷ [])
        out (λ s reached u next. step s u reached (successors-Edge s u wf.transitions next)) h only
        only in
    let (kept, done) =
      explore_complete wf.transitions n (wf.entry ∷ []) (wf.entry ∷ []) out h
        (λ u there. inl there) in
    (λ there. sound t there, λ reached. complete kept done t reached)
  where
    only : Every (Reach wf.transitions wf.entry) (wf.entry ∷ [])
    only =
        Every-cons (Reach wf.transitions wf.entry) wf.entry [] start
          (λ u there. absurd (ground arith))

    complete :
        Every (In out) (wf.entry ∷ [])
        → Covered wf.transitions out []
        → (u : Text) → Reach wf.transitions wf.entry u
        → In out u
    complete kept done u start = every_head (In out) wf.entry [] kept
    complete kept done u (step s _ before edge) = elim (done s (complete kept done s before)) [
      | inl waits ↦ absurd (ground arith)
      | inr all_seen ↦ all_seen u (Edge-successors s u wf.transitions edge)
    ]
