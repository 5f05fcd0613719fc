-- ===== src/Keys/RoundTrip.antt =====
-- About internal/enclave/common/crypto and internal/common/crypto/aes.
use arc_remote_signer.Common.{
  ℕ, Bool, ◌≡◌, refl, subst, ◌∙◌, arith, Option, some, ◌⊎◌, inl, inr, Bytes, length, take, drop,
  bytes_eq, bytes_eq_refl, Bool-cases,
}
use arc_remote_signer.GoError.{Err, status, internal, Foreign, Grpc, ok}
use arc_remote_signer.Fingerprint.{CryptoAlgorithm, crypto_bls, crypto_ed25519}
use arc_remote_signer.Envelope.{KmsProvider, EnclaveProvider, open_data_key}
use arc_remote_signer.Envelope.Recovery.{IsRecoverable}
use arc_remote_signer.Keys.{
  Libraries, Aead, Key, bls_key, ed25519_key, new_bls, new_ed25519, deserialize_bls,
  deserialize_ed25519, serialize_key, new_secret_key, deserialize_secret_key, encrypt_gcm,
  decrypt_gcm, real_crypto, real_gcm, real_environment,
}

module _ {SecretKey : Type 0} (lib : Libraries SecretKey) where
  -- What the libraries document: blst reads back the keys that it serializes, a generated Ed25519
  -- private key is the one of its first 32 bytes as seed, a full read gives as many bytes as it was
  -- asked for, and an AEAD opens what it sealed with the same nonce.
  pub record IsLibraries : Type 0 where
    pub blst_reads : (sk : SecretKey) → lib.blst.deserialize (lib.blst.serialize sk) ≡ some sk
    pub seeded :
        (public private : Bytes)
        → lib.ed25519.generate_key ≡ inr (public, private)
        → lib.ed25519.new_key_from_seed (take 32 private) ≡ private
    pub reads_full : (n : ℕ) (bytes : Bytes) → lib.read_full n ≡ inr bytes → length bytes ≡ n
    pub opens_sealed :
        (key : Bytes) (gcm : Aead)
        → lib.new_gcm key ≡ inr gcm
        → (nonce plain : Bytes) → length nonce ≡ gcm.nonce_size
        → gcm.opens nonce (gcm.seal nonce plain) ≡ inr plain

  Sum-cases :
      {A : Type 0} (r : Foreign ⊎ A) → ((x : Foreign) × (r ≡ inl x)) ⊎ ((a : A) × (r ≡ inr a))
  Sum-cases (inl x) = inl (x, refl)
  Sum-cases (inr a) = inr (a, refl)

  module _ (law : IsLibraries) where
    new_bls-deserialize :
        (k : Key SecretKey) (bytes : Bytes)
        → new_bls lib ≡ ok k
        → serialize_key lib k ≡ ok bytes
        → deserialize_bls lib bytes ≡ ok k
    unfolding new_bls serialize_key deserialize_bls
    new_bls-deserialize (bls_key sk) bytes h e = ground (arith, law.blst_reads sk)
    new_bls-deserialize (ed25519_key private) bytes h e = absurd (ground arith)

    new_ed25519-deserialize :
        (k : Key SecretKey) (bytes : Bytes)
        → new_ed25519 lib ≡ ok k
        → serialize_key lib k ≡ ok bytes
        → deserialize_ed25519 lib bytes ≡ ok k
    unfolding new_ed25519 serialize_key deserialize_ed25519
    new_ed25519-deserialize (bls_key sk) bytes h e = absurd (ground arith)
    new_ed25519-deserialize (ed25519_key private) bytes h e =
        elim (Sum-cases lib.ed25519.generate_key) [
          | inl (x, p) ↦ absurd (ground arith)
          | inr ((public, generated), p) ↦
              let s = law.seeded public generated p in
              let q : generated ≡ private = ground arith in
              let r : private ≡ bytes = ground arith in
              let t : lib.ed25519.new_key_from_seed (take 32 bytes) ≡ bytes =
                subst (λ (b : Bytes). lib.ed25519.new_key_from_seed (take 32 b) ≡ b) (q ∙ r) s in
              ground (arith, bytes_eq_refl (drop 32 bytes))
        ]

    -- A key that NewSecretKey made is read back from what its Serialize gives.
    pub deserialize_secret_key-serialize :
        (alg : CryptoAlgorithm) (k : Key SecretKey) (bytes : Bytes)
        → new_secret_key lib alg ≡ ok k
        → serialize_key lib k ≡ ok bytes
        → deserialize_secret_key lib alg bytes ≡ ok k
    unfolding new_secret_key deserialize_secret_key
    deserialize_secret_key-serialize alg k bytes h e = elim (Bool-cases (bytes_eq alg crypto_bls)) [
      | inl b ↦ rw b (new_bls-deserialize k bytes (ground arith) e)
      | inr b ↦ elim (Bool-cases (bytes_eq alg crypto_ed25519)) [
        | inl c ↦ rw (b, c) (new_ed25519-deserialize k bytes (ground arith) e)
        | inr c ↦ absurd (ground arith)
      ]
    ]

    -- DecryptGCM gives back what EncryptGCM was given, with the ciphertext and the nonce that it
    -- returned.
    pub decrypt_gcm-encrypt_gcm :
        (key plain cipher nonce : Bytes)
        → encrypt_gcm lib key plain ≡ ok (cipher, nonce)
        → decrypt_gcm lib key cipher nonce ≡ ok plain
    unfolding encrypt_gcm decrypt_gcm
    decrypt_gcm-encrypt_gcm key plain cipher nonce h = elim (Sum-cases (lib.new_gcm key)) [
      | inl (x, p) ↦ absurd (ground arith)
      | inr (gcm, p) ↦ elim (Sum-cases (lib.read_full gcm.nonce_size)) [
        | inl (x, q) ↦ absurd (ground arith)
        | inr (random, q) ↦ ground (
          arith,
          law.reads_full gcm.nonce_size random q,
          law.opens_sealed key gcm p random plain (law.reads_full gcm.nonce_size random q),
        )
      ]
    ]

    -- With the program's key types and AES-GCM, and a KMS that decrypts the data keys that it
    -- generated, a service's environment keeps all that recovery of an envelope relies on.
    pub real_environment-IsRecoverable :
        (grpc : Grpc) (nitro : Bool) (enclave_pvd : Option EnclaveProvider) (pvd : KmsProvider)
        → ((plain encrypted sealed opened : Bytes) (failure : Err)
            → pvd.generate_data_key ≡ ok (plain, encrypted, sealed)
            → open_data_key (real_environment lib grpc nitro enclave_pvd) plain sealed failure
              ≡ ok opened
            → (plain' : Bytes) × (sealed' : Bytes) × (pvd.decrypt encrypted ≡ ok (plain', sealed'))
              × (open_data_key
                    (real_environment lib grpc nitro enclave_pvd)
                    plain'
                    sealed'
                    (status internal "key recovery failed")
                  ≡ ok opened))
        → IsRecoverable (real_environment lib grpc nitro enclave_pvd) pvd
    unfolding real_crypto real_gcm
    real_environment-IsRecoverable grpc nitro enclave_pvd pvd kms = record {
      kms_returns = kms;
      gcm_opens = decrypt_gcm-encrypt_gcm;
      key_returns = λ alg k bytes public made serialized shown.
          (k, deserialize_secret_key-serialize alg k bytes made serialized, shown);
    }
