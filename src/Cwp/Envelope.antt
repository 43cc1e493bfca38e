-- ===== src/Cwp/Envelope.antt =====
-- DSSE envelopes: the signature check of infra/cwp/cosign.py and the dual-signed receipts of
-- infra/cwp/receipts.py. `payload` is the base64-decoded payload. OpenSSL's Ed25519ph check over the
-- DSSE encoding of the type and the payload is the parameter `PhVerify`; the reading of the payload
-- as JSON is the parameter `parse`.
use cyberware.Prelude.{
  Bool, false, ◌&&◌, Option, none, some, List, [], ◌∷◌, map, Text, codes, same_text, starts_with,
  leb, length, any, if◌then◌else◌,
}

pub record Signature : Type 0 where
  pub keyid : Text
  pub sig : Text

pub record Envelope : Type 0 where
  pub payload_type : Text
  pub payload : Text
  pub signatures : List Signature

-- Type, payload, signature and public key.
abbrev pub PhVerify : Type 0
PhVerify = Text → Text → Text → Text → Bool

-- What a receipt's predicate says, as far as settlement reads it.
pub record Predicate : Type 0 where
  pub run_id : Option Text
  pub quote_sha : Option Text
  pub validation : Option Text

-- The in-toto statement of a receipt; `has_subject` and `has_predicate_type` are Python's truth of
-- those fields.
pub record Statement : Type 0 where
  pub statement_type : Text
  pub has_subject : Bool
  pub has_predicate_type : Bool
  pub predicate : Predicate

pub record ReceiptReport : Type 0 where
  pub dual_signed : Bool
  pub in_toto_consumable : Bool
  pub accepted : Bool

abbrev pub in_toto_type : Text
in_toto_type = codes "application/vnd.in-toto+json"

unfoldable pub verify_ph : PhVerify → Envelope → Text → Bool
verify_ph v e pub_key = any (λ s. v e.payload_type e.payload s.sig pub_key) e.signatures

unfoldable pub distinct : List Text → List Text
distinct [] = []
distinct (k ∷ ks) = let rest = distinct ks in if any (same_text k) rest then rest else k ∷ rest

abbrev consumable : Option Statement → Bool
consumable none = false
consumable (some s) =
    starts_with s.statement_type (codes "https://in-toto.io/Statement")
    && (s.has_subject && s.has_predicate_type)

-- `verify_receipt`
unfoldable pub verify_receipt :
    PhVerify → (Text → Option Statement) → Envelope → Text → Text → ReceiptReport
unfolding verify_ph distinct
verify_receipt v parse e pub_a pub_b =
    if same_text e.payload_type in_toto_type
    then (let dual =
          (verify_ph v e pub_a && verify_ph v e pub_b)
          && leb 2 (length (distinct (map (λ s. s.keyid) e.signatures))) in
        let readable = consumable (parse e.payload) in
        record { dual_signed = dual; in_toto_consumable = readable; accepted = dual && readable })
    else record { dual_signed = false; in_toto_consumable = false; accepted = false }
