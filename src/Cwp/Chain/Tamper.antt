-- ===== src/Cwp/Chain/Tamper.antt =====
-- What a verified chain does not show. A digest covers a record without its `prev`, so it does not
-- cover the records before: one that is rewritten is put right by the `prev` of the next one alone.
use cyberware.Prelude.{
  ℕ, ◌≡◌, refl, false, Option, some, List, [], ◌∷◌, ◌++◌, ℤ, Text, same_text_iff,
}
use cyberware.Cwp.Chain.{
  text, Entry, Digests, is_text, link_digest, head_from, head_of, genesis_type, zero_root,
}
use cyberware.Cwp.Chain.Spec.{Linked, IsChain}

module _ {P : Type 0} (d : Digests P) (schema : ℕ) (a a' b : Entry P) (back : List (Entry P)) where
  -- The record after a rewritten one, with its `prev` put right.
  abbrev pub relinked : Text → Entry P
  relinked h = record b { prev = text h }

  relink-Linked :
      (front : List (Entry P)) (h k : Text) (last : Option ℤ)
      → is_text a'.link.kind genesis_type ≡ false
      → a'.prev ≡ a.prev
      → a'.link.seq ≡ a.link.seq
      → link_digest d schema a'.link ≡ some k
      → is_text (text k) zero_root ≡ false
      → Linked d schema h last (front ++ a ∷ b ∷ back)
      → Linked d schema h last (front ++ a' ∷ relinked k ∷ back)
  unfolding is_text
  relink-Linked [] h k last fresh prev seq digest nonzero
        (x, y, z, n, number, step, h', done, more) =
      (
        fresh,
        rw prev y,
        rw prev z,
        n,
        rw seq number,
        step,
        k,
        digest,
        (
          more.0,
          nonzero,
          (same_text_iff k k).1 refl,
          more.3,
          more.4,
          more.5,
          more.6,
          more.7,
          more.8,
        ),
      )
  relink-Linked (e ∷ front) h k last fresh prev seq digest nonzero
        (x, y, z, n, number, step, h', done, rest) =
      (
        x,
        y,
        z,
        n,
        number,
        step,
        h',
        done,
        relink-Linked front h' k (some n) fresh prev seq digest nonzero rest,
      )

  relink-head :
      (front : List (Entry P)) (h k : Text) (last : Option ℤ)
      → link_digest d schema a'.link ≡ some k
      → Linked d schema h last (front ++ a ∷ b ∷ back)
      → head_from d schema h (front ++ a' ∷ relinked k ∷ back)
        ≡ head_from d schema h (front ++ a ∷ b ∷ back)
  unfolding head_from
  relink-head [] h k last digest (x, y, z, n, number, step, h', done, more) =
      rw (digest, head_from, done)
  relink-head (e ∷ front) h k last digest (x, y, z, n, number, step, h', done, rest) =
      rw (done, head_from) (relink-head front h' k (some n) digest rest)

  -- In a verified chain any record after the genesis but the last may be replaced by another with the same
  -- `prev` and sequence number, if it is no genesis and its digest is not all zeros. With the `prev`
  -- of the next record put right, and nothing else, the chain verifies again with the same head.
  pub relink-IsChain :
      (run plan : Option Text) (g : Entry P) (front : List (Entry P)) (k : Text)
      → is_text a'.link.kind genesis_type ≡ false
      → a'.prev ≡ a.prev
      → a'.link.seq ≡ a.link.seq
      → link_digest d schema a'.link ≡ some k
      → is_text (text k) zero_root ≡ false
      → IsChain d schema run plan g (front ++ a ∷ b ∷ back)
      → IsChain d schema run plan g (front ++ a' ∷ relinked k ∷ back)
        × (head_of d schema (g ∷ front ++ a' ∷ relinked k ∷ back)
            ≡ head_of d schema (g ∷ front ++ a ∷ b ∷ back))
  unfolding head_of
  relink-IsChain run plan g front k fresh prev seq digest nonzero (origin, h, found, links) = (
    (origin, h, found, relink-Linked front h k _ fresh prev seq digest nonzero links),
    rw (found, head_from) (relink-head front h k _ digest links),
  )
