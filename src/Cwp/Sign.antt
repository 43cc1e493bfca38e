-- ===== src/Cwp/Sign.antt =====
-- infra/cwp/sign.py: the signatures of DSSE envelopes. An envelope is taken with its payload and its
-- signatures decoded from base64. Ed25519 is a parameter, on a key, a signature and a message.
use cyberware.Prelude.{
  ◌++◌, Bool, Text, any, codes, take, length, decimal, ℕ, [], refl, ◌∷◌, ◌≡◌, Without,
  decimal-IsDigit, decimal_injective, digits-Without, split_unique, append_unique, arith,
}
use cyberware.Cwp.Envelope.{Envelope}

abbrev pub EdVerify : Type 0
EdVerify = Text → Text → Text → Bool

-- `keyid`, where the argument is the hexadecimal SHA-256 of the raw key.
unfoldable pub keyid : Text → Text
keyid digest = codes "ed25519:" ++ take 16 digest

-- What is signed: the type and the payload, each behind its length.
unfoldable pub pae : Text → Text → Text
unfolding decimal
pae kind payload =
    codes "DSSEv1 "
    ++ (decimal (length kind)
        ++ (codes " "
            ++ (kind ++ (codes " " ++ (decimal (length payload) ++ (codes " " ++ payload))))))

unfoldable pub verify : EdVerify → Envelope → Text → Bool
unfolding pae
verify ed e key = any (λ s. ed key s.sig (pae e.payload_type e.payload)) e.signatures

no_space : (n : ℕ) → Without 32 (decimal n)
no_space n = digits-Without 32 (decimal n) (λ d. omega arith) (decimal-IsDigit n)

-- What is signed determines the type and the payload: a signature over one pair is over no other.
pub pae_injective :
    (kind payload kind' payload' : Text)
    → pae kind payload ≡ pae kind' payload'
    → (kind ≡ kind') × (payload ≡ payload')
unfolding pae
pae_injective kind payload kind' payload' h =
    let (_, behind) =
      append_unique (codes "DSSEv1 ") (codes "DSSEv1 ") (sized kind (sized_last payload))
        (sized kind' (sized_last payload')) refl h in
    let (same_size, rest) =
      split_unique 32 (decimal (length kind)) (decimal (length kind'))
        (kind ++ 32 ∷ sized_last payload) (kind' ++ 32 ∷ sized_last payload')
        (no_space (length kind)) (no_space (length kind')) behind in
    let (same_kind, tail) =
      append_unique kind kind' (32 ∷ sized_last payload) (32 ∷ sized_last payload')
        (decimal_injective (length kind) (length kind') same_size) rest in
    let (_, last) =
      append_unique (32 ∷ []) (32 ∷ []) (sized_last payload) (sized_last payload') refl tail in
    let (_, same_payload) =
      split_unique 32 (decimal (length payload)) (decimal (length payload')) payload payload'
        (no_space (length payload)) (no_space (length payload')) last in
    (same_kind, same_payload)
  where
    sized_last : Text → Text
    sized_last t = decimal (length t) ++ 32 ∷ t

    sized : Text → Text → Text
    sized t rest = decimal (length t) ++ 32 ∷ (t ++ 32 ∷ rest)
