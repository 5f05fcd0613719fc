-- ===== src/Signer/Validity.antt =====
-- internal/app/service/signer/v1/attestation.go: what an attestation document says of the time in
-- which it is valid. The CBOR decoder and `x509.ParseCertificate` are parameters.
use arc_remote_signer.Common.{
  if◌then◌else◌, ℕ, Bool, not, ◌||◌, List, [], ◌∷◌, ◌==◌, ltb, Bytes, is_empty,
}
use arc_remote_signer.GoError.{◌>>=◌, ◌>>◌, Err, new, wrap, Result, ok, err, fail_if, map_err}

-- A `time.Time` is its nanoseconds since the zero time.
pub record AttestationValidity : Type 0 where
  pub not_before : ℕ
  pub not_after : ℕ

abbrev pub no_validity : AttestationValidity
no_validity = record { not_before = 0; not_after = 0 }

unfoldable pub validate_at : AttestationValidity → ℕ → Result (Unit {0})
validate_at v now = do
  fail_if (ltb now v.not_before) (new "attestation certificate is not valid yet")
  fail_if (not (ltb now v.not_after)) (new "attestation document is expired")
  ok tt

pub record AttestationPayload : Type 0 where
  pub certificate : Bytes
  pub ca_bundle : List Bytes

pub record Certificate : Type 0 where
  pub not_before : ℕ
  pub not_after : ℕ

-- The CBOR decoder at the types that the code asks for, and `x509.ParseCertificate`.
pub record Decoders : Type 0 where
  pub raw_tag : Bytes → Result (ℕ × Bytes)
  pub is_type_error : Err → Bool
  pub raw_messages : Bytes → Result (List Bytes)
  pub byte_string : Bytes → Result Bytes
  pub attestation_payload : Bytes → Result AttestationPayload
  pub parse_certificate : Bytes → Result Certificate

abbrev pub cose_sign1_tag : ℕ
cose_sign1_tag = 18

-- The body of the loop over the certificates.
unfoldable pub narrow : AttestationValidity → Certificate → AttestationValidity
narrow v c = record {
  not_before =
      if v.not_before == 0 || ltb v.not_before c.not_before then c.not_before else v.not_before;
  not_after = if v.not_after == 0 || ltb c.not_after v.not_after then c.not_after else v.not_after;
}

module _ (d : Decoders) where
  -- The document without its tag, where it has one.
  untagged : Bytes → Result (ℕ × Bytes) → Result Bytes
  untagged document (ok (number, content)) =
      if number == cose_sign1_tag then ok content else err (new "unexpected COSE tag: ")
  untagged document (err e) =
      if d.is_type_error e then ok document else err (wrap "failed to decode COSE tag: " e)

  -- `sign1[2]` of four fields.
  third_of_four : List Bytes → Result Bytes
  third_of_four (a ∷ b ∷ c ∷ e ∷ []) = ok c
  third_of_four _ = err (new "COSE Sign1 must contain four fields")

  unfoldable pub parse_certificates : AttestationValidity → List Bytes → Result AttestationValidity
  unfolding narrow
  parse_certificates v [] = ok v
  parse_certificates v (data_ ∷ rest) = do
    certificate ←
        map_err (wrap "failed to parse attestation certificate: ") (d.parse_certificate data_)
    parse_certificates (narrow v certificate) rest

  unfoldable pub payload_of : Bytes → Result AttestationPayload
  unfolding untagged third_of_four
  payload_of document = do
    content ← untagged document (d.raw_tag document)
    sign1 ← map_err (wrap "failed to decode COSE Sign1: ") (d.raw_messages content)
    field ← third_of_four sign1
    payload_bytes ← map_err (wrap "failed to decode attestation payload: ") (d.byte_string field)
    payload ←
        map_err (wrap "failed to decode attestation fields: ") (d.attestation_payload payload_bytes)
    fail_if (is_empty payload.certificate) (new "attestation certificate is empty")
    ok payload

  unfoldable pub parse_attestation_validity : Bytes → Result AttestationValidity
  unfolding payload_of parse_certificates
  parse_attestation_validity document = do
    payload ← payload_of document
    parse_certificates no_validity (payload.certificate ∷ payload.ca_bundle)
