-- ===== src/Govern/Orgs/Enrolment.antt =====
-- infra/govern/orgs.py: whom a token authenticates, and when it is refused.
use cyberware.Prelude.{
  ◌≡◌, ◌≢◌, ◌↔◌, refl, ap, ◌∙◌, sym, Bool, true, false, Option, none, some, ◌⊎◌, inl, inr, [], ◌∷◌,
  Text, same_text_iff, some_injective, if◌then◌else◌, Option-cases, arith,
}
use cyberware.Cwp.Chain.{truthy}
use cyberware.Govern.Orgs.{
  Member, Members, Orgs, Authorized, spiffe_id, matches, find_member, or_else, find_org, authorize,
}

-- The organisation registers the principal, not revoked, under the digest.
pub data Enrolled (want pid : Text) : Members → Type 0 where
  here :
      {m : Member} {rest : Members}
      → truthy m.revoked ≡ false
      → m.token_sha ≡ want
      → Enrolled want pid ((pid, m) ∷ rest)
  there :
      {e : Text × Member} {rest : Members} → Enrolled want pid rest → Enrolled want pid (e ∷ rest)

pub data Registered (want org pid : Text) : Orgs → Type 0 where
  in_org :
      {members : Members} {rest : Orgs}
      → Enrolled want pid members
      → Registered want org pid ((org, members) ∷ rest)
  later_org :
      {o : Text × Members} {rest : Orgs}
      → Registered want org pid rest
      → Registered want org pid (o ∷ rest)

-- What is answered for a principal of an organisation.
abbrev pub identity : Text → Text → Authorized
identity org pid = record { org = org; principal = pid; spiffe = spiffe_id org pid }

matches_iff :
    (want : Text) (m : Member)
    → (matches want m ≡ true) ↔ ((truthy m.revoked ≡ false) × (m.token_sha ≡ want))
matches_iff want m = let e = same_text_iff m.token_sha want in ground arith

find_member-Enrolled :
    (want org : Text) (ms : Members) (a : Authorized)
    → find_member want org ms ≡ some a
    → (pid : Text) × (a ≡ identity org pid) × Enrolled want pid ms
unfolding find_member
find_member-Enrolled want org [] a h = absurd cc
find_member-Enrolled want org ((pid, m) ∷ rest) a h =
    elim (branches (matches want m) (some (identity org pid)) (find_member want org rest) h) [
      | inl (match, found) ↦
          let fits = (matches_iff want m).0 match in
          (pid, sym (some_injective found), here fits.0 fits.1)
      | inr later ↦ let (p, e, r) = find_member-Enrolled want org rest a later in (p, e, there r)
    ]
  where
    branches :
        (b : Bool) (x y : Option Authorized)
        → (if b then x else y) ≡ some a
        → ((b ≡ true) × (x ≡ some a)) ⊎ (y ≡ some a)
    branches true x y h = inl (refl, h)
    branches false x y h = inr h

find_org-Registered :
    (want : Text) (os : Orgs) (a : Authorized)
    → find_org want os ≡ some a
    → (org pid : Text) × (a ≡ identity org pid) × Registered want org pid os
unfolding find_org
find_org-Registered want [] a h = absurd cc
find_org-Registered want ((org, ms) ∷ rest) a h = elim (Option-cases (find_member want org ms)) [
  | inl nowhere ↦
      let (o, p, e, r) =
        find_org-Registered want rest a
          (ap (λ x. or_else x (find_org want rest)) (sym nowhere) ∙ h) in
      (o, p, e, later_org r)
  | inr (b, inside) ↦
      let (p, e, r) =
        find_member-Enrolled want org ms a
          (inside ∙ (ap (λ x. or_else x (find_org want rest)) (sym inside) ∙ h)) in
      (org, p, e, in_org r)
]

-- Whom a token authenticates: a principal that is registered under the digest of the token and is not
-- revoked, with its organisation and the identity made of the two.
pub authorize-Registered :
    (sha : Text → Text) (bearer : Text) (os : Orgs) (a : Authorized)
    → authorize sha bearer os ≡ some a
    → (bearer ≢ []) × (org pid : Text) × (a ≡ identity org pid) × Registered (sha bearer) org pid os
unfolding authorize
authorize-Registered sha [] os a h = absurd cc
authorize-Registered sha (c ∷ cs) os a h =
    let (org, pid, e, r) = find_org-Registered (sha (c ∷ cs)) os a h in (λ e. cc, org, pid, e, r)

found-Enrolled :
    (want org pid : Text) (ms : Members) → Enrolled want pid ms → find_member want org ms ≢ none
unfolding find_member
found-Enrolled want org pid [] r h = elim r [ ]
found-Enrolled want org pid ((p, m) ∷ rest) (here live same) h =
    let yes = (matches_iff want m).1 (live, same) in ground arith
found-Enrolled want org pid ((p, m) ∷ rest) (there r) h =
    let later = found-Enrolled want org pid rest r in ground arith

found-Registered :
    (want org pid : Text) (os : Orgs) → Registered want org pid os → find_org want os ≢ none
unfolding find_org
found-Registered want org pid [] r h = elim r [ ]
found-Registered want org pid ((o, ms) ∷ rest) (in_org r) h =
    found-Enrolled want o pid ms r (first (find_member want o ms) h)
  where
    first : (x : Option Authorized) → or_else x (find_org want rest) ≡ none → x ≡ none
    first none h = refl
    first (some a) h = h
found-Registered want org pid ((o, ms) ∷ rest) (later_org r) h =
    found-Registered want org pid rest r (second (find_member want o ms) h)
  where
    second :
        (x : Option Authorized) → or_else x (find_org want rest) ≡ none → find_org want rest ≡ none
    second none h = h
    second (some a) h = absurd cc

-- A token that is refused is empty, or no principal in force is registered under its digest.
pub authorize-refuses :
    (sha : Text → Text) (bearer : Text) (os : Orgs)
    → authorize sha bearer os ≡ none
    → (bearer ≡ []) ⊎ ((org pid : Text) → Registered (sha bearer) org pid os → ⊥)
unfolding authorize
authorize-refuses sha [] os h = inl refl
authorize-refuses sha (c ∷ cs) os h =
    inr (λ org pid r. found-Registered (sha (c ∷ cs)) org pid os r h)
