-- ===== src/Envelope.antt =====
-- internal/enclave/service/enclave/envelope.go and enclave.go: from KMS data keys to signing keys,
-- and the mapping of errors to gRPC status errors. The interfaces of the key types, of the KMS
-- provider and of the Nitro provider are records; AES-GCM is a parameter.
pub mod Recovery
pub mod Status
use arc_remote_signer.Common.{
  ℕ, Bool, true, false, not, ◌||◌, Option, none, some, ◌==◌, if◌then◌else◌, Bytes, length, is_empty,
  ◌≡◌, String,
}
use Prim.Native.String.{◌++◌}
use arc_remote_signer.GoError.{
  Err, new, status, wrap, canceled, deadline_exceeded, invalid_argument, internal,
  failed_precondition, errors_is, is_context_canceled, is_context_deadline_exceeded,
  is_arn_sentinel, is_region_sentinel, Grpc, error_text, Code, Result, ok, err, ◌>>=◌, ◌>>◌,
  fail_if, map_err,
}
use arc_remote_signer.Proto.{Algorithm, SecretEnvelope}
use arc_remote_signer.Fingerprint.{CryptoAlgorithm, to_algorithm, as_invalid_argument}
use arc_remote_signer.Kms.Errors.{status_from_error}

-- `awskms.Provider`.
pub record KmsProvider : Type 0 where
  pub decrypt : Bytes → Result (Bytes × Bytes)
  pub generate_data_key : Result (Bytes × Bytes × Bytes)

-- `enclave.Provider`, as it answers at one time: `Attest` asks the security module for a new document
-- at every call.
pub record EnclaveProvider : Type 0 where
  pub decrypt_kms_enveloped_key : Bytes → Result Bytes
  pub attest_kms_recipient : Result Bytes
  pub attest : Bytes → Result Bytes

-- internal/enclave/common/crypto: `Key`, `NewSecretKey` and `DeserializeSecretKey`. What
-- `NewSecretKey` returns in a run stands for its random choice.
pub record KeyCrypto (K : Type 0) : Type 0 where
  pub public_key : K → Result Bytes
  pub sign_message : K → Bytes → Result Bytes
  pub serialize : K → Result Bytes
  pub new_secret_key : CryptoAlgorithm → Result K
  pub deserialize_secret_key : CryptoAlgorithm → Bytes → Result K

-- internal/common/crypto/aes: `EncryptGCM` gives a ciphertext and its nonce.
pub record Gcm : Type 0 where
  pub encrypt : Bytes → Bytes → Result (Bytes × Bytes)
  pub decrypt : Bytes → Bytes → Bytes → Result Bytes

-- internal/enclave/common/crypto/aes: `Deserialize`, then `Serialize`.
unfoldable pub canonical_data_key : Bytes → Result Bytes
canonical_data_key bytes =
    if not (length bytes == 32) then err (new "invalid key size: ") else ok bytes

module _ (g : Grpc) where
  -- An error with the prefix of its call site, unless that is empty.
  unfoldable pub prefixed : String → Code → String → Err
  prefixed String.[] c text = status c text
  prefixed (String.◌∷◌ x s) c text = status c ((String.◌∷◌ x s) ++ ": " ++ text)

  unfoldable pub prefixed_mapped : String → Err → Err
  prefixed_mapped String.[] mapped = mapped
  prefixed_mapped (String.◌∷◌ x s) mapped =
      status (g.code mapped) ((String.◌∷◌ x s) ++ ": " ++ g.message mapped)

  -- The last two cases of `toStatusError`.
  unfoldable pub fallback_status : String → Err → Err
  unfolding prefixed
  fallback_status prefix e = if g.is_status e then e else prefixed prefix internal (error_text g e)

  unfoldable pub to_status_error : String → Err → Err
  unfolding prefixed prefixed_mapped fallback_status
  to_status_error prefix e =
      if errors_is is_context_canceled e
      then status canceled (error_text g e)
      else if errors_is is_context_deadline_exceeded e
      then status deadline_exceeded (error_text g e)
      else if errors_is is_arn_sentinel e || errors_is is_region_sentinel e
      then prefixed prefix invalid_argument (error_text g e)
      else elim (status_from_error g e) [
        | some mapped ↦ prefixed_mapped prefix mapped
        | none ↦ fallback_status prefix e
      ]

-- The fields of `Service` that these functions read, and the packages that they call.
pub record Environment (K : Type 0) : Type 0 where
  pub grpc : Grpc
  pub nitro_enclave_enabled : Bool
  pub enclave_pvd : Option EnclaveProvider
  pub crypto : KeyCrypto K
  pub gcm : Gcm

module _ {K : Type 0} (s : Environment K) where
  -- `s.enclavePvd.DecryptKMSEnvelopedKey`, with its nil check; any failure is `failure`.
  recipient_key : Option EnclaveProvider → Bytes → Err → Result Bytes
  recipient_key none ciphertext failure =
      err (status failed_precondition "enclave provider is nil while nitro enclave is enabled")
  recipient_key (some enclave) ciphertext failure =
      map_err (λ _. failure) (enclave.decrypt_kms_enveloped_key ciphertext)

  -- The plain data key: KMS's own, or in Nitro mode the one in the recipient's envelope.
  unfoldable pub open_data_key : Bytes → Bytes → Err → Result Bytes
  unfolding recipient_key
  open_data_key plaintext for_recipient failure =
      if s.nitro_enclave_enabled
      then recipient_key s.enclave_pvd for_recipient failure
      else ok plaintext

  unfoldable pub decrypt_data_key : Option KmsProvider → Bytes → Result Bytes
  unfolding open_data_key canonical_data_key
  decrypt_data_key none encrypted = err (status failed_precondition "kms provider not initialized")
  decrypt_data_key (some pvd) encrypted = do
    (plaintext, for_recipient) ←
        map_err (to_status_error s.grpc "kms decrypt data key") (pvd.decrypt encrypted)
    opened ← open_data_key plaintext for_recipient (status internal "key recovery failed")
    map_err (λ _. status internal "key recovery failed") (canonical_data_key opened)

  unfoldable pub load_key_candidate : Option KmsProvider → SecretEnvelope → Result K
  unfolding decrypt_data_key to_algorithm
  load_key_candidate pvd env = do
    alg ← map_err (as_invalid_argument s.grpc) (to_algorithm env.algorithm)
    data_key ← decrypt_data_key pvd env.kms_encrypted_data_key
    plaintext ←
        map_err (λ _. status internal "key recovery failed")
          (s.gcm.decrypt data_key env.encrypted_private_key env.nonce)
    map_err (λ _. status internal "key recovery failed")
        (s.crypto.deserialize_secret_key alg plaintext)

  pub record Generated : Type 0 where
    pub envelope : SecretEnvelope
    pub key : K
    pub public_key : Bytes

  with_error : String → Err → Err
  with_error prefix e = status internal (prefix ++ error_text s.grpc e)

  unfoldable pub generate_envelope_candidate : Option KmsProvider → Algorithm → Result Generated
  unfolding open_data_key canonical_data_key to_algorithm with_error
  generate_envelope_candidate pvd algorithm = do
    alg ← map_err (as_invalid_argument s.grpc) (to_algorithm algorithm)
    kms ← elim pvd [
      | none ↦ err (status failed_precondition "kms provider not initialized")
      | some p ↦ ok p
    ]
    (plain, encrypted_data_key, for_recipient) ←
        map_err (wrap "kms generate data key: ") kms.generate_data_key
    opened ← open_data_key plain for_recipient (status internal "key generation failed")
    data_key ← map_err (λ _. status internal "key generation failed") (canonical_data_key opened)
    secret_key ← map_err (with_error "generate secret key: ") (s.crypto.new_secret_key alg)
    secret_key_bytes ← map_err (with_error "serialize secret key: ") (s.crypto.serialize secret_key)
    public_key ← map_err (with_error "get public key: ") (s.crypto.public_key secret_key)
    (cipher, nonce) ←
        map_err (with_error "encrypt secret key: ") (s.gcm.encrypt data_key secret_key_bytes)
    ok (record {
      envelope = record {
        algorithm = algorithm;
        kms_encrypted_data_key = encrypted_data_key;
        encrypted_private_key = cipher;
        nonce = nonce;
      };
      key = secret_key;
      public_key = public_key;
    })
