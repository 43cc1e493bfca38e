-- ===== src/Cwp/Webauthn.antt =====
-- infra/cwp/webauthn.py: the relying party's offline checks of an approval. Decoding base64url and
-- JSON is a parameter, whose result is the record `Assertion`; so are SHA-256 and the Ed25519 check.
use cyberware.Prelude.{
  ℕ, ◌/◌, ◌%◌, Bool, not, ◌&&◌, Option, none, some, List, ◌++◌, Text, codes, same_text, take,
  get_elem?, ◌==◌, if◌then◌else◌, ◌≡◌, ap, true, same_text_iff, arith, Option-cases, inl, inr,
}

-- The decoded fields; a client field that is not in the JSON object is `none`.
pub record Assertion : Type 0 where
  pub kind : Option Text
  pub challenge : Option Text
  pub origin : Option Text
  pub client_data : Text
  pub auth_data : List ℕ
  pub signature : Text
  pub key : Text

-- `challenge_for` with its encoding, SHA-256, and the signature check on a key, a signature and a
-- message.
pub record Crypto : Type 0 where
  pub challenge_for : Text → Text
  pub sha256 : Text → Text
  pub verify : Text → Text → Text → Bool

pub data Verdict : Type 0 where
  accepted bad_client_data bad_type challenge_mismatch origin_mismatch rpid_mismatch
        user_not_present user_not_verified credential_mismatch bad_signature :
      Verdict

abbrev pub is_field : Option Text → Text → Bool
is_field none t = Bool.false
is_field (some s) t = same_text s t

-- `flags & 1` and `flags & 4`
abbrev pub user_present : ℕ → Bool
user_present flags = flags % 2 == 1

abbrev pub user_verified : ℕ → Bool
user_verified flags = flags / 4 % 2 == 1

-- The checks from the flags on.
unfoldable pub verify_flags : Crypto → Assertion → Text → Bool → ℕ → Verdict
verify_flags c a credential require_uv flags =
    if not (user_present flags)
    then user_not_present
    else if require_uv && not (user_verified flags)
    then user_not_verified
    else if not (same_text a.key credential)
    then credential_mismatch
    else if not (c.verify credential a.signature (a.auth_data ++ c.sha256 a.client_data))
    then bad_signature
    else accepted

-- The checks of a decoded assertion; `none` is the IndexError of `auth_data[32]`.
unfoldable pub verify_decoded :
    Crypto → Text → Assertion → Text → Text → Text → Bool → Option Verdict
unfolding verify_flags
verify_decoded c doc a origin rp_id credential require_uv =
    if not (is_field a.kind (codes "webauthn.get"))
    then some bad_type
    else if not (is_field a.challenge (c.challenge_for doc))
    then some challenge_mismatch
    else if not (is_field a.origin origin)
    then some origin_mismatch
    else if not (same_text (take 32 a.auth_data) (c.sha256 rp_id))
    then some rpid_mismatch
    else elim (get_elem? a.auth_data 32) [
      | none ↦ none
      | some flags ↦ some (verify_flags c a credential require_uv flags)
    ]

-- `verify_assertion`, on the outcome of decoding.
unfoldable pub verify_assertion :
    Crypto → Text → Option Assertion → Text → Text → Text → Bool → Option Verdict
unfolding verify_decoded
verify_assertion c doc none origin rp_id credential require_uv = some bad_client_data
verify_assertion c doc (some a) origin rp_id credential require_uv =
    verify_decoded c doc a origin rp_id credential require_uv

-- What an accepted assertion shows: it is for this document, origin and relying party, its user was
-- present and, if wanted, verified, and the registered key has signed it.
pub record Approves (c : Crypto) (doc : Text) (a : Assertion) (origin rp_id credential : Text)
    : Type 0 where
  pub for_doc : a.challenge ≡ some (c.challenge_for doc)
  pub at_origin : a.origin ≡ some origin
  pub for_party : take 32 a.auth_data ≡ c.sha256 rp_id
  pub own_key : a.key ≡ credential
  pub signed : c.verify credential a.signature (a.auth_data ++ c.sha256 a.client_data) ≡ true
  pub flags : ℕ
  pub flagged : get_elem? a.auth_data 32 ≡ some flags
  pub present : flags % 2 ≡ 1
  pub verified : flags / 4 % 2 ≡ 1

field_is : (o : Option Text) (t : Text) → is_field o t ≡ true → o ≡ some t
field_is none t h = absurd (ground arith)
field_is (some s) t h = ap some ((same_text_iff s t).0 h)

accepted_flags :
    (c : Crypto) (a : Assertion) (credential : Text) (flags : ℕ)
    → verify_flags c a credential true flags ≡ accepted
    → (flags % 2 ≡ 1)
      × (flags / 4 % 2 ≡ 1)
      × (a.key ≡ credential)
      × (c.verify credential a.signature (a.auth_data ++ c.sha256 a.client_data) ≡ true)
unfolding verify_flags
accepted_flags c a credential flags h = ground (arith, same_text_iff a.key credential)

accepted_fields :
    (c : Crypto) (doc origin rp_id credential : Text) (a : Assertion)
    → verify_decoded c doc a origin rp_id credential true ≡ some accepted
    → (is_field a.challenge (c.challenge_for doc) ≡ true)
      × (is_field a.origin origin ≡ true)
      × (same_text (take 32 a.auth_data) (c.sha256 rp_id) ≡ true)
      × (flags : ℕ) × (get_elem? a.auth_data 32 ≡ some flags)
      × (verify_flags c a credential true flags ≡ accepted)
unfolding verify_decoded
accepted_fields c doc origin rp_id credential a h = elim (Option-cases (get_elem? a.auth_data 32)) [
  | inl short ↦ absurd (ground arith)
  | inr (flags, found) ↦ (ground arith, ground arith, ground arith, flags, found, ground arith)
]

-- An assertion that `verify_assertion` accepts, with user verification required, approves this very
-- document under the registered key: every check was passed.
pub verify_assertion-Approves :
    (c : Crypto) (doc origin rp_id credential : Text) (a : Assertion)
    → verify_assertion c doc (some a) origin rp_id credential true ≡ some accepted
    → Approves c doc a origin rp_id credential
unfolding verify_assertion
verify_assertion-Approves c doc origin rp_id credential a h =
    let (doc_ok, origin_ok, party_ok, flags, found, passed) =
      accepted_fields c doc origin rp_id credential a h in
    let (up, uv, own, signed) = accepted_flags c a credential flags passed in
    record {
      for_doc = field_is a.challenge (c.challenge_for doc) doc_ok;
      at_origin = field_is a.origin origin origin_ok;
      for_party = (same_text_iff (take 32 a.auth_data) (c.sha256 rp_id)).0 party_ok;
      own_key = own;
      signed = signed;
      flags = flags;
      flagged = found;
      present = up;
      verified = uv;
    }
