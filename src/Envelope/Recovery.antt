-- ===== src/Envelope/Recovery.antt =====
-- About `generateEnvelopeCandidate` and `loadKeyCandidate` of
-- internal/enclave/service/enclave/envelope.go.
use arc_remote_signer.Common.{
  Bool-cases, Option-cases, inl, inr, Option, none, refl, some, Bytes, ◌≡◌, subst, arith,
}
use arc_remote_signer.GoError.{
  map_err-eq-ok, Result, Err, status, ok, bind_ok, map_err_ok, internal,
}
use arc_remote_signer.Proto.{Algorithm, SecretEnvelope}
use arc_remote_signer.Fingerprint.{CryptoAlgorithm, to_algorithm}
use arc_remote_signer.Envelope.{
  EnclaveProvider, decrypt_data_key, recipient_key, KmsProvider, Environment, canonical_data_key,
  open_data_key, load_key_candidate, Generated, generate_envelope_candidate,
}

-- The environment at another time, at which the security module answers requests for attestation
-- differently: each of its documents is made for its request, with the time in it.
abbrev pub attests_with : (Bytes → Result Bytes) → Option EnclaveProvider → Option EnclaveProvider
attests_with attest none = none
attests_with attest (some enclave) = some (record enclave { attest = attest })

abbrev pub at_another_time : {K : Type 0} → Environment K → (Bytes → Result Bytes) → Environment K
at_another_time s attest = record s { enclave_pvd = attests_with attest s.enclave_pvd }

-- A key is loaded without such documents.
pub load_key_candidate-attest :
    {K : Type 0} (s : Environment K) (attest : Bytes → Result Bytes) (pvd : Option KmsProvider)
    (env : SecretEnvelope)
    → load_key_candidate (at_another_time s attest) pvd env ≡ load_key_candidate s pvd env
unfolding load_key_candidate decrypt_data_key open_data_key recipient_key
load_key_candidate-attest s attest pvd env = by_provider s.enclave_pvd pvd
  where
    by_provider :
        (o : Option EnclaveProvider) (p : Option KmsProvider)
        → load_key_candidate (record s { enclave_pvd = attests_with attest o }) p env
          ≡ load_key_candidate (record s { enclave_pvd = o }) p env
    by_provider none none = refl
    by_provider none (some p) = refl
    by_provider (some enclave) none = refl
    by_provider (some enclave) (some p) = refl

module _ {K : Type 0} (s : Environment K) (pvd : KmsProvider) where
  -- What recovery relies on outside the repository's own code: KMS decrypts the data key that it
  -- generated, AES-GCM opens what it sealed, and a serialized key is read back with its public key.
  pub record IsRecoverable : Type 0 where
    pub kms_returns :
        (plain encrypted sealed opened : Bytes) (failure : Err)
        → pvd.generate_data_key ≡ ok (plain, encrypted, sealed)
        → open_data_key s plain sealed failure ≡ ok opened
        → (plain' : Bytes) × (sealed' : Bytes) × (pvd.decrypt encrypted ≡ ok (plain', sealed'))
          × (open_data_key s plain' sealed' (status internal "key recovery failed") ≡ ok opened)
    pub gcm_opens :
        (key plain cipher nonce : Bytes)
        → s.gcm.encrypt key plain ≡ ok (cipher, nonce)
        → s.gcm.decrypt key cipher nonce ≡ ok plain
    pub key_returns :
        (alg : CryptoAlgorithm) (k : K) (bytes public : Bytes)
        → s.crypto.new_secret_key alg ≡ ok k
        → s.crypto.serialize k ≡ ok bytes
        → s.crypto.public_key k ≡ ok public
        → (k' : K) × (s.crypto.deserialize_secret_key alg bytes ≡ ok k')
          × (s.crypto.public_key k' ≡ ok public)

  -- What KMS and the security module promise for a data key: KMS decrypts what it generated, and in
  -- Nitro mode the envelope that it gives then holds the same key for the module.
  pub record ReturnsDataKeys : Type 0 where
    pub decrypts :
        (plain encrypted sealed : Bytes)
        → pvd.generate_data_key ≡ ok (plain, encrypted, sealed)
        → (sealed' : Bytes) × (pvd.decrypt encrypted ≡ ok (plain, sealed'))
          × ((enclave : EnclaveProvider) (opened : Bytes)
              → s.enclave_pvd ≡ some enclave
              → enclave.decrypt_kms_enveloped_key sealed ≡ ok opened
              → enclave.decrypt_kms_enveloped_key sealed' ≡ ok opened)

  open_data_key-again :
      (plain sealed sealed' opened : Bytes) (failure later : Err)
      → ((enclave : EnclaveProvider)
          → s.enclave_pvd ≡ some enclave
          → enclave.decrypt_kms_enveloped_key sealed ≡ ok opened
          → enclave.decrypt_kms_enveloped_key sealed' ≡ ok opened)
      → open_data_key s plain sealed failure ≡ ok opened
      → open_data_key s plain sealed' later ≡ ok opened
  unfolding open_data_key recipient_key
  open_data_key-again plain sealed sealed' opened failure later same h =
      elim (Bool-cases s.nitro_enclave_enabled) [
        | inr off ↦ ground arith
        | inl on ↦ elim (Option-cases s.enclave_pvd) [
          | inl e ↦ absurd (ground arith)
          | inr (enclave, e) ↦
              let opens : enclave.decrypt_kms_enveloped_key sealed ≡ ok opened =
                map_err-eq-ok (λ _. failure) _ (rw (on, e, open_data_key) at h) in
              rw (on, e, same enclave e opens) refl
        ]
      ]

  pub kms_returns_of :
      ReturnsDataKeys
      → (plain encrypted sealed opened : Bytes) (failure : Err)
      → pvd.generate_data_key ≡ ok (plain, encrypted, sealed)
      → open_data_key s plain sealed failure ≡ ok opened
      → (plain' : Bytes) × (sealed' : Bytes) × (pvd.decrypt encrypted ≡ ok (plain', sealed'))
        × (open_data_key s plain' sealed' (status internal "key recovery failed") ≡ ok opened)
  kms_returns_of law plain encrypted sealed opened failure made h =
      let (sealed', decrypted, same) = law.decrypts plain encrypted sealed made in
      (
        plain,
        sealed',
        decrypted,
        open_data_key-again plain sealed sealed' opened failure
            (status internal "key recovery failed") (λ enclave. same enclave opened) h,
      )

  canonical_same :
      (a b : Bytes) → canonical_data_key a ≡ ok b → (a ≡ b) × (canonical_data_key a ≡ ok a)
  unfolding canonical_data_key
  canonical_same a b h = ground arith

  load_ok :
      (env : SecretEnvelope) (alg : CryptoAlgorithm) (plain sealed opened bytes : Bytes) (k : K)
      → to_algorithm env.algorithm ≡ ok alg
      → pvd.decrypt env.kms_encrypted_data_key ≡ ok (plain, sealed)
      → open_data_key s plain sealed (status internal "key recovery failed") ≡ ok opened
      → canonical_data_key opened ≡ ok opened
      → s.gcm.decrypt opened env.encrypted_private_key env.nonce ≡ ok bytes
      → s.crypto.deserialize_secret_key alg bytes ≡ ok k
      → load_key_candidate s (some pvd) env ≡ ok k
  unfolding load_key_candidate
  load_ok env alg plain sealed opened bytes k h₁ h₂ h₃ h₄ h₅ h₆ = ground arith

  Recovers : Generated s → Type 0
  Recovers made =
      (k : K) × (load_key_candidate s (some pvd) made.envelope ≡ ok k)
      × (s.crypto.public_key k ≡ ok made.public_key)

  assemble :
      (algorithm : Algorithm) (alg : CryptoAlgorithm) (t : Bytes × Bytes × Bytes)
      (opened data_key : Bytes) (key : K) (bytes public : Bytes) (sealed : Bytes × Bytes)
      → IsRecoverable
      → to_algorithm algorithm ≡ ok alg
      → pvd.generate_data_key ≡ ok t
      → open_data_key s t.0 t.2 (status internal "key generation failed") ≡ ok opened
      → canonical_data_key opened ≡ ok data_key
      → s.crypto.new_secret_key alg ≡ ok key
      → s.crypto.serialize key ≡ ok bytes
      → s.crypto.public_key key ≡ ok public
      → s.gcm.encrypt data_key bytes ≡ ok sealed
      → Recovers (record {
        envelope = record {
          algorithm = algorithm;
          kms_encrypted_data_key = t.1;
          encrypted_private_key = sealed.0;
          nonce = sealed.1;
        };
        key = key;
        public_key = public;
      })
  unfolding Recovers
  assemble algorithm alg t opened data_key key bytes public sealed r p₁ p₂ p₃ p₄ p₅ p₆ p₇ p₈ =
      let (k, d, q) = r.key_returns alg key bytes public p₅ p₆ p₇ in
      let (plain', sealed', e, o) = r.kms_returns t.0 t.1 t.2 opened _ p₂ p₃ in
      let (same, c) = canonical_same opened data_key p₄ in
      (
        k,
        load_ok _ alg plain' sealed' opened bytes k p₁ e o c
            (rw same (r.gcm_opens data_key bytes sealed.0 sealed.1 p₈)) d,
        q,
      )

  ok-injective : {a b : Generated s} → ok a ≡ ok b → a ≡ b
  ok-injective h = cc

  -- Whenever generation succeeds, loading the generated envelope succeeds with a key of the same
  -- public key, if KMS, AES-GCM and the key type keep what they promise.
  pub load-generate :
      (algorithm : Algorithm) (made : Generated s)
      → IsRecoverable
      → generate_envelope_candidate s (some pvd) algorithm ≡ ok made
      → (k : K) × (load_key_candidate s (some pvd) made.envelope ≡ ok k)
        × (s.crypto.public_key k ≡ ok made.public_key)
  unfolding generate_envelope_candidate Recovers
  load-generate algorithm made r h = map_err_ok _ (to_algorithm algorithm) _ h λ alg p₁ h₁.
      map_err_ok _ pvd.generate_data_key _ h₁ λ t p₂ h₂.
        bind_ok (open_data_key s t.0 t.2 (status internal "key generation failed")) _ h₂
          λ opened p₃ h₃. map_err_ok _ (canonical_data_key opened) _ h₃ λ data_key p₄ h₄.
            map_err_ok _ (s.crypto.new_secret_key alg) _ h₄ λ key p₅ h₅.
              map_err_ok _ (s.crypto.serialize key) _ h₅ λ bytes p₆ h₆.
                map_err_ok _ (s.crypto.public_key key) _ h₆ λ public p₇ h₇.
                  map_err_ok _ (s.gcm.encrypt data_key bytes) _ h₇ λ sealed p₈ h₈.
                    subst Recovers (ok-injective h₈) (
                      assemble algorithm alg t opened data_key key bytes public sealed r p₁ p₂ p₃ p₄
                        p₅ p₆ p₇ p₈)
