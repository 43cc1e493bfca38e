-- ===== src/Tests/Cwp.antt =====
-- Tests of the ledger chain and of the Merkle log.
use cyberware.Prelude.{
  ℕ, zero, suc, ◌≡◌, ◌↔◌, refl, Bool, true, false, ◌&&◌, Option, none, some, List, [], ◌∷◌, ◌++◌,
  map, length, get_elem?, sym, subst, some_injective, ℤ, pos, Text, codes, same_text, ◌==◌, Eq,
  arith,
}
use cyberware.Cwp.Chain.{
  missing, text, Link, Entry, object, Digests, is_text, genesis, linked, verify_chain,
  current_major, zero_root, link_digest, head_of,
}
use cyberware.Store.Reconcile.{lookup, Table, Verdict, Divergence, index_head, reconcile_run}
use cyberware.Store.Reconcile.Indexed.{Agrees, Known, digest_at, reconcile_run-Agrees}
use cyberware.Cwp.Chain.Spec.{IsChain, verify_chain-IsChain}
use cyberware.Cwp.Chain.Append.{NeverZero}
use cyberware.Cwp.Chain.Tamper.{relinked, relink-IsChain}
use cyberware.Cwp.Merkle.{merkle_root, inclusion_proof, verify_inclusion}
use cyberware.Cwp.Merkle.Inclusion.{inclusion-round_trip}
use cyberware.Cwp.Merkle.Soundness.{CollisionFree, verify_inclusion_sound}

-- A digest that reads the payload.
abbrev payload_digest : Option Text → Text
payload_digest none = codes "g"
payload_digest (some t) = codes "h:" ++ t

abbrev digest_of : Link Text → Text
digest_of l = payload_digest l.payload

abbrev digests : Digests Text
digests = record { v1 = digest_of; v2 = digest_of }

never_zero : NeverZero digests
unfolding is_text same_text
never_zero l = not_zero l.payload
  where
    not_zero : (p : Option Text) → is_text (text (payload_digest p)) zero_root ≡ false
    not_zero none = refl
    not_zero (some t) = refl

abbrev note : Text → Link Text
note t = record {
  kind = text (codes "note");
  seq = missing;
  run_id = missing;
  plan_sha = missing;
  supersedes_head = missing;
  supersedes = missing;
  payload = some t;
}

abbrev origin : Entry Text
origin = genesis (codes "run") (codes "plan")

abbrev first : Entry Text
first = linked (note (codes "a")) (pos 0) (codes "g")

abbrev second : Entry Text
second = linked (note (codes "b")) (pos 1) (codes "h:a")

abbrev forged : Entry Text
forged = linked (note (codes "z")) (pos 0) (codes "g")

is_chain : IsChain digests current_major none none origin (first ∷ second ∷ [])
unfolding verify_chain same_text cyberware.Prelude.◌+ℤ◌
is_chain =
    (verify_chain-IsChain digests current_major none none origin (first ∷ second ∷ [])).0 refl

verify_chain-IsChain_example :
    (verify_chain digests (map object (origin ∷ first ∷ second ∷ [])) current_major none none
      ≡ some [])
    ↔ IsChain digests current_major none none origin (first ∷ second ∷ [])
verify_chain-IsChain_example =
    verify_chain-IsChain digests current_major none none origin (first ∷ second ∷ [])

relink-IsChain_example :
    IsChain digests current_major none none origin
      (forged ∷ relinked digests current_major first forged second [] (codes "h:z") ∷ [])
    × (head_of digests current_major (
          origin
          ∷ forged
          ∷ relinked digests current_major first forged second [] (codes "h:z")
          ∷ [])
        ≡ head_of digests current_major (origin ∷ first ∷ second ∷ []))
unfolding is_text same_text link_digest
relink-IsChain_example =
    relink-IsChain digests current_major first forged second [] none none origin [] (codes "h:z")
      refl refl refl refl refl is_chain

abbrev indexed : Table
indexed = (pos 1, codes "h:a") ∷ []

abbrev altered : Table
altered = (pos 1, codes "h:z") ∷ []

abbrev reconciled : Table → Option Verdict
reconciled rows =
    reconcile_run digests current_major (some (codes "run")) (some (codes "plan")) rows
      (map object (origin ∷ first ∷ second ∷ []))

lag :
    reconciled indexed
    ≡ some record { ok = true; chain_ok = true; found = Divergence.index_behind (pos 2) ∷ [] }
unfolding reconcile_run verify_chain index_head same_text link_digest cyberware.Prelude.◌+ℤ◌
lag = refl

tamper :
    reconciled altered
    ≡ some record {
      ok = false;
      chain_ok = true;
      found = Divergence.digest_mismatch (pos 1) ∷ Divergence.index_behind (pos 2) ∷ [];
    }
unfolding reconcile_run verify_chain index_head same_text link_digest cyberware.Prelude.◌+ℤ◌
tamper = refl

reconcile_run-Agrees_example :
    (verify_chain digests
        (map object (origin ∷ first ∷ second ∷ []))
        current_major
        (some (codes "run"))
        (some (codes "plan"))
      ≡ some [])
    × ((seq : ℤ)
        → Agrees
            (digest_at digests current_major (map object (origin ∷ first ∷ second ∷ [])) seq)
            (lookup seq indexed)
            seq
            indexed)
    × Known (some (codes "plan")) indexed
reconcile_run-Agrees_example =
    reconcile_run-Agrees digests current_major (some (codes "run")) (some (codes "plan")) indexed
      (map object (origin ∷ first ∷ second ∷ [])) (_, lag, refl)

-- Digests whose pairs never collide.
data Digest : Type 0 where
  leaf : ℕ → Digest
  node : Digest → Digest → Digest

abbrev same_digest : Digest → Digest → Bool
same_digest (leaf a) (leaf b) = a == b
same_digest (leaf a) (node c d) = false
same_digest (node a b) (leaf c) = false
same_digest (node a b) (node c d) = same_digest a c && same_digest b d

same_digest_iff : (a b : Digest) → (same_digest a b ≡ true) ↔ (a ≡ b)
same_digest_iff (leaf a) (leaf b) = ground arith
same_digest_iff (leaf a) (node c d) = ground arith
same_digest_iff (node a b) (leaf c) = ground arith
same_digest_iff (node a b) (node c d) = ground (arith, same_digest_iff a c, same_digest_iff b d)

instance abbrev digest_eq : Eq Digest
digest_eq = record { beq = same_digest; beq_iff = same_digest_iff }

collision_free : CollisionFree node
collision_free a b c d h = (ground arith, ground arith)

abbrev leaves : List Digest
leaves = leaf 1 ∷ leaf 2 ∷ leaf 3 ∷ []

-- An odd level doubles its last node.
merkle_root_three :
    merkle_root node (leaf 0) leaves ≡ some (node (node (leaf 1) (leaf 2)) (node (leaf 3) (leaf 3)))
unfolding merkle_root
merkle_root_three = refl

inclusion-round_trip_example :
    (proof : List Digest) × (root : Digest) × (inclusion_proof node 2 leaves ≡ some proof)
    × (merkle_root node (leaf 0) leaves ≡ some root)
    × (verify_inclusion node (leaf 3) 2 (length leaves) proof root ≡ true)
inclusion-round_trip_example = inclusion-round_trip node (leaf 0) leaves 2 (leaf 3) refl

verify_inclusion_sound_example : get_elem? leaves 1 ≡ some (leaf 2)
unfolding merkle_root inclusion_proof verify_inclusion
verify_inclusion_sound_example =
    verify_inclusion_sound node collision_free (leaf 0) leaves 1 (leaf 2)
      (node (node (leaf 1) (leaf 2)) (node (leaf 3) (leaf 3)))
      (leaf 1 ∷ node (leaf 3) (leaf 3) ∷ []) (leaf 1 ∷ node (leaf 3) (leaf 3) ∷ []) refl refl refl
      refl
