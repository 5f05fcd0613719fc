-- ===== src/Signer/Refresh.antt =====
-- About `refreshAttestation` of internal/app/service/signer/v1/signer.go.
use arc_remote_signer.Common.{
  Bool, true, false, sym, ap, ◌∙◌, bytes_eq_iff, ℕ, ◌<◌, not, some, ◌≡◌, refl, inl, inr, arith,
  subst, Bool-cases, Bytes, ltb, bytes_eq, is_empty,
}
use arc_remote_signer.GoError.{new, Result, ok, err, map_err_ok, bind_ok, fail_if}
use arc_remote_signer.Proto.{GetPublicKeyResponse}
use arc_remote_signer.Signer.{
  KeyState, EnclaveClient, fetch_attestation, installed, get_public_key, refresh_attestation,
}
use arc_remote_signer.Signer.Validity.{
  AttestationValidity, validate_at, Decoders, parse_attestation_validity,
}

module _ (d : Decoders) (now : ℕ) (client : EnclaveClient) (key : KeyState) where
  -- The document that the enclave gives for the loaded public key, with the validity read from it,
  -- which holds now.
  pub record IsCurrentDocument (document : Bytes) (v : AttestationValidity) : Type 0 where
    pub answer : GetPublicKeyResponse
    pub answered : get_public_key client ≡ ok answer
    pub same_key : answer.public_key ≡ key.public_key
    pub is_document : document ≡ answer.attestation_document
    pub read : parse_attestation_validity d document ≡ ok v
    pub valid : validate_at v now ≡ ok tt

  -- The key state after a refresh: unchanged, or with the enclave's document, which is valid now and
  -- for longer than the one before.
  pub data IsRefreshed : KeyState → Type 0 where
    kept : IsRefreshed key
    renewed :
        {document : Bytes} {v : AttestationValidity}
        → IsCurrentDocument document v
        → key.attestation_validity.not_after < v.not_after
        → IsRefreshed (record {
          public_key = key.public_key;
          attestation_document = document;
          attestation_validity = v;
        })

  pub fetch-IsCurrentDocument :
      (document : Bytes)
      → (v : AttestationValidity) → fetch_attestation d now client key ≡ ok (document, v)
      → IsCurrentDocument document v
  unfolding fetch_attestation
  fetch-IsCurrentDocument document v h = bind_ok (get_public_key client) _ h λ resp p₁ h₁.
      bind_ok
        (fail_if (not (bytes_eq key.public_key resp.public_key))
          (new "enclave returned a different public key"))
        _ h₁
        λ u p₂ h₂.
          bind_ok
            (fail_if (is_empty resp.attestation_document)
              (new "enclave returned an empty attestation document"))
            _ h₂
            λ w p₃ h₃.
              map_err_ok _ (parse_attestation_validity d resp.attestation_document) _ h₃ λ v' p₄ h₄.
                bind_ok (validate_at v' now) _ h₄ λ x p₅ h₅. record {
                  answer = resp;
                  answered = p₁;
                  same_key = sym (
                      (bytes_eq_iff key.public_key resp.public_key).0
                        (equal (bytes_eq key.public_key resp.public_key) p₂));
                  is_document = sym (first h₅);
                  read =
                      subst (λ b. parse_attestation_validity d b ≡ ok v) (first h₅)
                        (p₄ ∙ ap ok (second h₅));
                  valid = subst (λ t. validate_at t now ≡ ok tt) (second h₅) p₅;
                }
    where
      first : {a b : Bytes × AttestationValidity} → ok a ≡ ok b → a.0 ≡ b.0
      first e = cc

      second : {a b : Bytes × AttestationValidity} → ok a ≡ ok b → a.1 ≡ b.1
      second e = cc

      equal :
          {u : Unit {0}} (b : Bool)
          → fail_if (not b) (new "enclave returned a different public key") ≡ ok u
          → b ≡ true
      equal true e = refl
      equal false e = absurd cc

  installed-IsRefreshed :
      (key' : KeyState)
      → (r : Result (Bytes × AttestationValidity))
      → ((document : Bytes)
          → (v : AttestationValidity) → r ≡ ok (document, v)
          → IsCurrentDocument document v)
      → (installed d key r).0 ≡ key'
      → IsRefreshed key'
  unfolding installed
  installed-IsRefreshed key' (ok (document, v)) current h =
      elim (Bool-cases (ltb key.attestation_validity.not_after v.not_after)) [
        | inl longer ↦
            subst IsRefreshed (rw longer at h) (renewed (current document v refl) (ground arith))
        | inr shorter ↦ subst IsRefreshed (rw shorter at h) kept
      ]
  installed-IsRefreshed key' (err e) current h = subst IsRefreshed h kept

  -- A refresh leaves the key state alone, or replaces its document and validity: the document is the
  -- one that the enclave gives for the same public key, the validity is read from that document,
  -- holds now, and lasts longer than the one before. In either case the public key stays.
  pub refresh-IsRefreshed :
      (key' : KeyState)
      → (refresh_attestation d now client (some key)).0 ≡ some key'
      → IsRefreshed key'
  unfolding refresh_attestation
  refresh-IsRefreshed key' h =
      installed-IsRefreshed key' (fetch_attestation d now client key) fetch-IsCurrentDocument
        (some-injective h)
    where
      some-injective : {a b : KeyState} → some a ≡ some b → a ≡ b
      some-injective e = cc
