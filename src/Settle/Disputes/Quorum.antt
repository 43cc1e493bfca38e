-- ===== src/Settle/Disputes/Quorum.antt =====
-- Whom `count_approvals` counts.
use cyberware.Prelude.{
  ℕ, suc, ◌≡◌, refl, sym, ◌∙◌, ap, true, false, inl, inr, ◌⊎◌, Option, none, some, List, [], ◌∷◌,
  map, Text, length, length-map, get_elem?, any, same_text, All, Bool-cases, Option-cases,
  some_injective, arith,
}
use cyberware.Cwp.Webauthn.{
  Assertion, Crypto, Verdict, accepted, bad_client_data, bad_type, challenge_mismatch,
  origin_mismatch, rpid_mismatch, user_not_present, user_not_verified, credential_mismatch,
  bad_signature, verify_assertion,
}
use cyberware.Settle.Disputes.{
  Roster, Seen, origin, rp_id, key_of, after_verdict, with_key, consider, count_loop,
  count_approvals,
}

abbrev pub Apart : List Text → Type 0
Apart [] = Unit
Apart (x ∷ xs) = (any (same_text x) xs ≡ false) × Apart xs

abbrev first_of : Text × Text → Text
first_of v = v.0

abbrev second_of : Text × Text → Text
second_of v = v.1

-- The state of the loop after some votes, each an arbiter and a key.
abbrev seen_of : List (Text × Text) → Seen
seen_of votes = record { ids = map first_of votes; keys = map second_of votes }

module _ (c : Crypto) (doc : Text) (approvals : List (Text × Option Assertion))
    (arbiters : Roster) where
  -- A registered arbiter, with the approval under its registered key.
  pub record Vote (v : Text × Text) : Type 0 where
    pub registered : key_of v.0 arbiters ≡ some v.1
    pub place : ℕ
    pub approval : Option Assertion
    pub given : get_elem? approvals place ≡ some (v.0, approval)
    pub valid : verify_assertion c doc approval origin rp_id v.1 true ≡ some accepted

  -- Votes of different arbiters with different keys.
  pub record Quorum (votes : List (Text × Text)) : Type 0 where
    pub ids_apart : Apart (map first_of votes)
    pub keys_apart : Apart (map second_of votes)
    pub all_valid : All Vote votes

  verdict-cases :
      (s s' : Seen) (id key : Text) (v : Option Verdict)
      → after_verdict s id key v ≡ some s'
      → (s' ≡ s) ⊎ ((v ≡ some accepted) × (s' ≡ record { ids = id ∷ s.ids; keys = key ∷ s.keys }))
  verdict-cases s s' id key none h = absurd cc
  verdict-cases s s' id key (some accepted) h = inr (refl, sym (some_injective h))
  verdict-cases s s' id key (some bad_client_data) h = inl (sym (some_injective h))
  verdict-cases s s' id key (some bad_type) h = inl (sym (some_injective h))
  verdict-cases s s' id key (some challenge_mismatch) h = inl (sym (some_injective h))
  verdict-cases s s' id key (some origin_mismatch) h = inl (sym (some_injective h))
  verdict-cases s s' id key (some rpid_mismatch) h = inl (sym (some_injective h))
  verdict-cases s s' id key (some user_not_present) h = inl (sym (some_injective h))
  verdict-cases s s' id key (some user_not_verified) h = inl (sym (some_injective h))
  verdict-cases s s' id key (some credential_mismatch) h = inl (sym (some_injective h))
  verdict-cases s s' id key (some bad_signature) h = inl (sym (some_injective h))

  -- One round of the loop leaves the votes, or adds one.
  consider-Quorum :
      (votes : List (Text × Text)) (id : Text) (a : Option Assertion) (i : ℕ) (s' : Seen)
      → get_elem? approvals i ≡ some (id, a)
      → Quorum votes
      → consider c doc arbiters (seen_of votes) (id, a) ≡ some s'
      → (votes' : List (Text × Text)) × (s' ≡ seen_of votes') × Quorum votes'
  unfolding consider with_key
  consider-Quorum votes id a i s' at q h =
      elim (Bool-cases (any (same_text id) (map first_of votes))) [
        | inl again ↦ (votes, sym (some_injective (rw again at h)), q)
        | inr new ↦ elim (Option-cases (key_of id arbiters)) [
          | inl unknown ↦ (votes, sym (some_injective (rw (new, unknown) at h)), q)
          | inr (key, known) ↦ elim (Bool-cases (any (same_text key) (map second_of votes))) [
            | inl alias ↦ (votes, sym (some_injective (rw (new, known, alias) at h)), q)
            | inr fresh ↦
                elim (verdict-cases (seen_of votes) s' id key
                  (verify_assertion c doc a origin rp_id key true) (rw (new, known, fresh) at h)) [
                    | inl same ↦ (votes, same, q)
                    | inr (ok, added) ↦ (
                      (id, key) ∷ votes,
                      added,
                      record {
                        ids_apart = (new, q.ids_apart);
                        keys_apart = (fresh, q.keys_apart);
                        all_valid = (
                          record {
                            registered = known;
                            place = i;
                            approval = a;
                            given = at;
                            valid = ok;
                          },
                          q.all_valid,
                        );
                      },
                    )
                  ]
          ]
        ]
      ]

  loop-Quorum :
      (xs : List (Text × Option Assertion)) (votes : List (Text × Text)) (s : Seen)
      → ((i : ℕ) (x : Text × Option Assertion)
          → get_elem? xs i ≡ some x
          → (j : ℕ) × (get_elem? approvals j ≡ some x))
      → Quorum votes
      → count_loop c doc arbiters (seen_of votes) xs ≡ some s
      → (votes' : List (Text × Text)) × (s ≡ seen_of votes') × Quorum votes'
  unfolding count_loop
  loop-Quorum [] votes s among q h = (votes, sym (some_injective h), q)
  loop-Quorum ((id, a) ∷ xs) votes s among q h =
      elim (Option-cases (consider c doc arbiters (seen_of votes) (id, a))) [
        | inl raised ↦ absurd (ground arith)
        | inr (s', went) ↦
            let (i, at) = among 0 (id, a) refl in
            let (votes', same, q') = consider-Quorum votes id a i s' at q went in
            loop-Quorum xs votes' s (λ i x found. among (suc i) x found) q'
              (ap (λ z. count_loop c doc arbiters z xs) (sym same) ∙ (rw (count_loop, went) at h))
      ]

  -- If `count_approvals` counts `n`, then there are `n` votes of different registered arbiters under
  -- different keys, and each is among the approvals given and is accepted for this document under the
  -- key that the arbiter is registered with.
  pub count_approvals-Quorum :
      (n : ℕ)
      → count_approvals c doc approvals arbiters ≡ some n
      → (votes : List (Text × Text)) × (length votes ≡ n) × Quorum votes
  unfolding count_approvals
  count_approvals-Quorum n h =
      elim (Option-cases (count_loop c doc arbiters (record { ids = []; keys = [] }) approvals)) [
        | inl raised ↦ absurd (ground arith)
        | inr (s, done) ↦
            let (votes, same, q) =
              loop-Quorum approvals [] s (λ i x found. (i, found))
                (record { ids_apart = tt; keys_apart = tt; all_valid = tt }) done in
            (
              votes,
              sym (length-map first_of votes)
                  ∙ ap (λ (z : Seen). length z.ids) (sym same)
                  ∙ some_injective (rw done at h),
              q,
            )
      ]
