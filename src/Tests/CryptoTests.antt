-- ===== src/Tests/CryptoTests.antt =====
-- Runs of the KMS recipient, the Nitro provider, and the key types.
use arc_remote_signer.Common.{
  ℕ, ◌%◌, ◌==◌, if◌then◌else◌, true, false, List, [], ◌∷◌, ◌++◌, Option, none, some, ◌≡◌, refl,
  subst, sym, ap, ◌⊎◌, inr, ◌↔◌, arith, Bytes, length, length-replicate, replicate, take, IsBytes,
}
use arc_remote_signer.Common.Int.{pos}
use arc_remote_signer.GoError.{Foreign, ok, err, sentinel, decrypt_failed, Result}
use arc_remote_signer.Cms.{
  RawValue, AlgorithmIdentifier, ContentInfo, Asn1, Ciphers, EncryptedKey, oid_data,
  oid_enveloped_data, oid_rsaes_oaep, oid_mgf1, oid_sha256, oid_aes256_cbc, decrypt,
}
use arc_remote_signer.Cms.Sentinels.{decrypt-total}
use arc_remote_signer.Cms.Parsing.{IsEnvelope}
use arc_remote_signer.Cms.Plaintext.{IsCiphers, IsPlaintext, decrypt_iff}
use arc_remote_signer.Ber.{ber_to_der}
use arc_remote_signer.Pkcs7.{unpad_pkcs7}
use arc_remote_signer.Fingerprint.{crypto_bls}
use arc_remote_signer.Proto.{algorithm_bls}
use arc_remote_signer.Envelope.{
  EnclaveProvider, KmsProvider, Generated, generate_envelope_candidate, load_key_candidate,
}
use arc_remote_signer.Envelope.Recovery.{ReturnsDataKeys}
use arc_remote_signer.Keys.{
  Libraries, bls_key, Aead, new_secret_key, serialize_key, deserialize_secret_key, encrypt_gcm,
  decrypt_gcm, real_environment, Key, real_crypto, real_gcm, public_key_of,
}
use arc_remote_signer.Keys.Recovery.{load_key_candidate-generate_envelope_candidate}
use arc_remote_signer.Keys.RoundTrip.{
  IsLibraries, deserialize_secret_key-serialize, decrypt_gcm-encrypt_gcm,
}
use arc_remote_signer.Nitro.{Session, request_attestation}
use arc_remote_signer.Nitro.Sessions.{IsAnswered, IsBracketed, request_attestation_iff}
use arc_remote_signer.Tests.Data.{test_grpc}

abbrev absent : RawValue
absent = record { class = 0; tag = 0; is_compound = false; bytes = []; full_bytes = [] }

abbrev octets : Bytes → RawValue
octets b = record { class = 0; tag = 4; is_compound = false; bytes = b; full_bytes = 4 ∷ b }

abbrev plain_algorithm : List ℕ → RawValue → AlgorithmIdentifier
plain_algorithm oid parameters = record { algorithm = oid; parameters = parameters; extra = absent }

-- The plaintext 7 behind which 15 bytes of padding stand, in two fragments.
abbrev test_fragments : Bytes
test_fragments = 1 ∷ 2 ∷ []

abbrev test_content : ContentInfo
test_content = record {
  content_type = oid_enveloped_data;
  content = record {
    version = pos 2;
    recipient_infos =
        record {
          version = pos 2;
          recipient_identifier = 1 ∷ [];
          key_encryption_algorithm = plain_algorithm oid_rsaes_oaep (octets (3 ∷ []));
          encrypted_key = 5 ∷ [];
          extra = absent;
        }
        ∷ [];
    encrypted_content_info = record {
      content_type = oid_data;
      content_encryption_algorithm = plain_algorithm oid_aes256_cbc (octets (replicate 16 0));
      encrypted_content = record {
        class = 2;
        tag = 0;
        is_compound = true;
        bytes = test_fragments;
        full_bytes = test_fragments;
      };
      extra = absent;
    };
    extra = absent;
  };
  extra = absent;
}

abbrev test_octets : Bytes → Option (Bytes × Bytes)
test_octets [] = none
test_octets (x ∷ rest) = if x == 1 then some (7 ∷ [], rest) else some (replicate 15 15, rest)

abbrev test_asn1 : Asn1
test_asn1 = record {
  content_info = λ b. some (test_content, []);
  oaep_parameters = λ b. some (
    record {
      hash_algorithm = plain_algorithm oid_sha256 absent;
      mask_gen_algorithm = plain_algorithm oid_mgf1 (octets (6 ∷ []));
      p_source_algorithm = plain_algorithm [] absent;
      extra = absent;
    },
    [],
  );
  algorithm_identifier = λ b. some (plain_algorithm oid_sha256 absent, []);
  octets = test_octets;
}

-- A cipher that leaves bytes alone.
abbrev test_block : Bytes → Bytes → Bytes
test_block iv [] = []
test_block iv (x ∷ xs) = (x % 256) ∷ test_block iv xs

abbrev test_ciphers : Ciphers ℕ
test_ciphers = record {
  decrypt_oaep = λ key c. inr (replicate 32 key);
  new_cipher = λ key. inr test_block;
}

test_block-IsBytes : (iv text : Bytes) → IsBytes (test_block iv text)
test_block-IsBytes iv [] = tt
test_block-IsBytes iv (x ∷ xs) = (omega arith, test_block-IsBytes iv xs)

test_block-length : (iv text : Bytes) → length (test_block iv text) ≡ length text
test_block-length iv [] = refl
test_block-length iv (x ∷ xs) = omega (arith, test_block-length iv xs)

same_block :
    {a b : Bytes → Bytes → Bytes}
    → ◌≡◌ {A = Foreign ⊎ (Bytes → Bytes → Bytes)} (inr a) (inr b)
    → a ≡ b
same_block e = cc

test-IsCiphers : IsCiphers test_ciphers
test-IsCiphers = record {
  gives_bytes = λ key block e iv text.
      subst (λ (f : Bytes → Bytes → Bytes). IsBytes (f iv text)) (same_block e)
        (test_block-IsBytes iv text);
  keeps_length = λ key block e iv text.
      subst (λ (f : Bytes → Bytes → Bytes). length (f iv text) ≡ length text) (same_block e)
        (test_block-length iv text);
}

-- An octet string of one byte, which is its own DER encoding.
abbrev test_ber : Bytes
test_ber = 4 ∷ 1 ∷ 9 ∷ []

decrypt_test : decrypt test_asn1 test_ciphers (some 0) test_ber ≡ ok (7 ∷ [])
unfolding decrypt ber_to_der unpad_pkcs7
decrypt_test = refl

decrypt_total_example :
    ((plain : Bytes) × (decrypt test_asn1 test_ciphers (some 0) test_ber ≡ ok plain))
    ⊎ (decrypt test_asn1 test_ciphers (some 0) test_ber ≡ err (sentinel decrypt_failed))
decrypt_total_example = decrypt-total test_asn1 test_ciphers (some 0) test_ber

decrypt_example : (decrypt test_asn1 test_ciphers (some 0) test_ber ≡ ok (7 ∷ [])) ↔ (
    (e : EncryptedKey) × IsEnvelope test_asn1 test_ber e
    × IsPlaintext test_asn1 test_ciphers 0 e (7 ∷ []))
decrypt_example = decrypt_iff test_asn1 test_ciphers test-IsCiphers 0 test_ber (7 ∷ [])

abbrev test_session : Session
test_session req = ok (record { error = []; document = some (1 ∷ req.user_data) })

request_attestation_example :
    (((request_attestation (ok test_session) (record { public_key = []; user_data = 2 ∷ [] })).0
        ≡ ok (1 ∷ 2 ∷ []))
      ↔ IsAnswered (ok test_session) (record { public_key = []; user_data = 2 ∷ [] }) (1 ∷ 2 ∷ []))
    × IsBracketed
        (ok test_session)
        (record { public_key = []; user_data = 2 ∷ [] })
        (request_attestation (ok test_session) (record { public_key = []; user_data = 2 ∷ [] })).1
request_attestation_example =
    request_attestation_iff (ok test_session) (record { public_key = []; user_data = 2 ∷ [] })
      (1 ∷ 2 ∷ [])

abbrev test_aead : Aead
test_aead = record { nonce_size = 12; seal = λ n p. p; opens = λ n c. inr c }

abbrev test_libraries : Libraries Bytes
test_libraries = record {
  blst = record {
    key_gen = λ ikm. ikm;
    public_key = λ sk. 1 ∷ sk;
    sign = λ sk m dst. m;
    serialize = λ sk. sk;
    deserialize = λ b. some b;
    is_public_key = λ b. true;
    is_signature = λ b. true;
    verify = λ s pk m dst. true;
  };
  ed25519 = record {
    generate_key = inr (replicate 32 0, replicate 64 0);
    new_key_from_seed = λ seed. seed ++ replicate 32 0;
    sign = λ k m. m;
    verify = λ pk m s. true;
  };
  new_gcm = λ key. inr test_aead;
  read_full = λ n. inr (replicate n 0);
  ikm = inr (replicate 32 3);
}

generated_private :
    (public private : Bytes)
    → test_libraries.ed25519.generate_key ≡ inr (public, private)
    → replicate 64 0 ≡ private
generated_private public private e = cc

same_aead : {a b : Aead} → ◌≡◌ {A = Foreign ⊎ Aead} (inr a) (inr b) → a ≡ b
same_aead e = cc

full_read :
    (n : ℕ) (bytes : Bytes)
    → ◌≡◌ {A = Foreign ⊎ Bytes} (inr (replicate n 0)) (inr bytes)
    → replicate n 0 ≡ bytes
full_read n bytes e = cc

test-IsLibraries : IsLibraries test_libraries
test-IsLibraries = record {
  blst_reads = λ sk. refl;
  seeded = λ public private e.
      subst (λ (p : Bytes). test_libraries.ed25519.new_key_from_seed (take 32 p) ≡ p)
        (generated_private public private e) refl;
  reads_full =
      λ n bytes e. subst (λ (b : Bytes). length b ≡ n) (full_read n bytes e) (length-replicate n 0);
  opens_sealed = λ key gcm e nonce plain _.
      subst (λ (g : Aead). g.opens nonce (g.seal nonce plain) ≡ inr plain) (same_aead e) refl;
}

deserialize_example :
    deserialize_secret_key test_libraries crypto_bls (replicate 32 3)
    ≡ ok (bls_key (replicate 32 3))
unfolding new_secret_key serialize_key
deserialize_example =
    deserialize_secret_key-serialize test_libraries test-IsLibraries crypto_bls
      (bls_key (replicate 32 3)) (replicate 32 3) refl refl

decrypt_gcm_example :
    decrypt_gcm test_libraries (replicate 32 1) (8 ∷ []) (replicate 12 0) ≡ ok (8 ∷ [])
unfolding encrypt_gcm
decrypt_gcm_example =
    decrypt_gcm-encrypt_gcm test_libraries test-IsLibraries (replicate 32 1) (8 ∷ []) (8 ∷ [])
      (replicate 12 0) refl

abbrev test_kms_provider : KmsProvider
test_kms_provider = record {
  decrypt = λ b. ok (replicate 32 1, []);
  generate_data_key = ok (replicate 32 1, 9 ∷ [], []);
}

same_data_key :
    {a b c d e f : Bytes}
    → ◌≡◌ {A = Result (Bytes × Bytes × Bytes)} (ok (a, b, c)) (ok (d, e, f))
    → d ≡ a
same_data_key e = cc

returns_data_keys :
    ReturnsDataKeys (real_environment test_libraries test_grpc false none) test_kms_provider
returns_data_keys = record {
  decrypts = λ plain encrypted sealed made. (
    [],
    ap (λ (b : Bytes). ok (b, [])) (sym (same_data_key made)),
    λ enclave opened e. absurd (none-ne-some e),
  );
}
  where
    none-ne-some :
        {enclave : EnclaveProvider} → ◌≡◌ {A = Option EnclaveProvider} none (some enclave) → ⊥
    none-ne-some e = cc

abbrev real_generated : Generated (real_environment test_libraries test_grpc false none)
real_generated = record {
  envelope = record {
    algorithm = algorithm_bls;
    kms_encrypted_data_key = 9 ∷ [];
    encrypted_private_key = replicate 32 3;
    nonce = replicate 12 0;
  };
  key = bls_key (replicate 32 3);
  public_key = 1 ∷ replicate 32 3;
}

real_environment_example :
    (k : Key Bytes) × (load_key_candidate
        (real_environment test_libraries test_grpc false none)
        (some test_kms_provider)
        real_generated.envelope
      ≡ ok k)
    × ((real_environment test_libraries test_grpc false none).crypto.public_key k
        ≡ ok (1 ∷ replicate 32 3))
unfolding generate_envelope_candidate real_crypto real_gcm encrypt_gcm new_secret_key serialize_key
    public_key_of
real_environment_example =
    load_key_candidate-generate_envelope_candidate test_libraries test-IsLibraries test_grpc false
      none test_kms_provider algorithm_bls real_generated returns_data_keys refl
