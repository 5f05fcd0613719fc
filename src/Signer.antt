-- ===== src/Signer.antt =====
-- internal/app/service/signer/v1/signer.go and crypto.go: the host's signing service. The secret
-- store, `encoding/gob` and the enclave's client are parameters; the service's key state is
-- explicit. Logging is left out.
pub mod Validity
pub mod Restart
pub mod Attestation
pub mod Refresh
pub mod Refreshing
use arc_remote_signer.Common.{
  if◌then◌else◌, ℕ, Bool, not, ◌||◌, ◌&&◌, Option, none, some, ◌==◌, ltb, Bytes, is_empty, bytes_eq,
  codes,
}
use arc_remote_signer.GoError.{
  ◌>>=◌, ◌>>◌, Err, new, wrap, status, internal, invalid_argument, unavailable, Grpc, error_text,
  Result, ok, err, fail_if, map_err,
}
use arc_remote_signer.Signer.Validity.{
  AttestationValidity, no_validity, validate_at, Decoders, parse_attestation_validity,
}
use arc_remote_signer.Proto.{
  Algorithm, algorithm_unspecified, algorithm_bls, algorithm_ed25519, SecretEnvelope,
  InitializeResponse, GetPublicKeyResponse,
}

pub record Header : Type 0 where
  pub algorithm : Algorithm
  pub cipher_key : Bytes
  pub cipher_data : Bytes
  pub nonce : Bytes

unfoldable pub to_secret_envelope : Header → Algorithm → SecretEnvelope
to_secret_envelope h alg = record {
  algorithm = alg;
  kms_encrypted_data_key = h.cipher_key;
  encrypted_private_key = h.cipher_data;
  nonce = h.nonce;
}

unfoldable pub header_from_secret_envelope : SecretEnvelope → Header
header_from_secret_envelope env = record {
  algorithm = env.algorithm;
  cipher_key = env.kms_encrypted_data_key;
  cipher_data = env.encrypted_private_key;
  nonce = env.nonce;
}

-- `secrets.Provider` at the configured key, over the store's state.
pub record SecretsProvider (S : Type 0) : Type 0 where
  pub get : S → Result Bytes
  pub update : S → Bytes → S × Result (Unit {0})

-- `encoding/gob` at the type of headers.
pub record Gob : Type 0 where
  pub encode : Header → Result Bytes
  pub decode : Bytes → Result Header

pub record KeyState : Type 0 where
  pub public_key : Bytes
  pub attestation_document : Bytes
  pub attestation_validity : AttestationValidity

abbrev pub InitializeKeyFunc : Type 0
InitializeKeyFunc = Option SecretEnvelope → Algorithm → Result (Option InitializeResponse)

unfoldable pub to_pb_algorithm : Bytes → Result Algorithm
to_pb_algorithm algorithm =
    if bytes_eq algorithm (codes "bls")
    then ok algorithm_bls
    else if bytes_eq algorithm (codes "ed25519")
    then ok algorithm_ed25519
    else err (new "unknown algorithm: ")

module _ (d : Decoders) (now : ℕ) where
  attested : Bytes → Result AttestationValidity
  unfolding parse_attestation_validity validate_at
  attested document = if is_empty document then ok no_validity else do
    v ←
        map_err (wrap "failed to parse attestation document: ")
          (parse_attestation_validity d document)
    validate_at v now
    ok v

  unfoldable pub new_key_state : InitializeResponse → Result KeyState
  unfolding attested
  new_key_state resp = do
    fail_if (is_empty resp.public_key) (new "enclave Initialize returned empty public key")
    v ← attested resp.attestation_document
    ok (record {
      public_key = resp.public_key;
      attestation_document = resp.attestation_document;
      attestation_validity = v;
    })

  is_incomplete : SecretEnvelope → Bool
  is_incomplete env =
      is_empty env.kms_encrypted_data_key
      || is_empty env.encrypted_private_key
      || is_empty env.nonce

  -- What `generateAndStoreKey` returns and stores when the store accepts it.
  unfoldable pub generated : Gob → Algorithm → Option InitializeResponse → Result (Bytes × KeyState)
  unfolding is_incomplete new_key_state header_from_secret_envelope
  generated gob algorithm none = err (new "enclave Initialize returned no secret envelope")
  generated gob algorithm (some resp) = do
    env ← elim resp.secret_envelope [
      | none ↦ err (new "enclave Initialize returned no secret envelope")
      | some env ↦ ok env
    ]
    fail_if (is_empty resp.public_key) (new "enclave Initialize returned empty public key")
    fail_if (not (env.algorithm == algorithm))
        (new "generated key algorithm does not match configured algorithm")
    fail_if (is_incomplete env) (new "enclave Initialize returned incomplete secret envelope")
    header_bytes ←
        map_err (wrap "failed to marshal header: ") (gob.encode (header_from_secret_envelope env))
    loaded_key ← new_key_state resp
    ok (header_bytes, loaded_key)

  -- The update of the secret and what follows it.
  unfoldable pub stored : {S : Type 0} → KeyState → S × Result (Unit {0}) → S × Result KeyState
  stored key (s, ok t) = (s, ok key)
  stored key (s, err e) = (s, err (wrap "failed to update secret: " e))

  unfoldable pub store_generated :
      {S : Type 0} → SecretsProvider S → S → Result (Bytes × KeyState) → S × Result KeyState
  unfolding stored
  store_generated pvd s (ok (header_bytes, key)) = stored key (pvd.update s header_bytes)
  store_generated pvd s (err e) = (s, err e)

  unfoldable pub generate_and_store_key :
      {S : Type 0}
      → SecretsProvider S
      → Gob
      → S
      → Algorithm
      → InitializeKeyFunc
      → S × Result KeyState
  unfolding generated store_generated
  generate_and_store_key pvd gob s algorithm initialize_key = store_generated pvd s (do
    resp ← map_err (wrap "failed to initialize generated key: ") (initialize_key none algorithm)
    generated gob algorithm resp)

  -- The response to a request that names an existing key.
  recovered : Option InitializeResponse → Result KeyState
  unfolding new_key_state
  recovered none = err (new "enclave Initialize returned no response")
  recovered (some resp) = elim resp.secret_envelope [
    | none ↦ new_key_state resp
    | some env ↦ err (new "enclave Initialize returned an envelope for an existing key")
  ]

  unfoldable pub load_key_from_secret :
      Gob → Bytes → Algorithm → InitializeKeyFunc → Result KeyState
  unfolding recovered to_secret_envelope
  load_key_from_secret gob secret algorithm initialize_key = do
    hdr ← map_err (wrap "failed to unmarshal header: ") (gob.decode secret)
    fail_if (not (hdr.algorithm == algorithm_unspecified) && not (hdr.algorithm == algorithm))
        (new "stored key algorithm does not match configured algorithm")
    resp ←
        map_err (wrap "failed to initialize existing key: ")
          (initialize_key (some (to_secret_envelope hdr algorithm)) algorithm_unspecified)
    recovered resp

  from_secret :
      {S : Type 0}
      → SecretsProvider S
      → Gob
      → S
      → Algorithm
      → InitializeKeyFunc
      → Result Bytes
      → S × Result KeyState
  unfolding generate_and_store_key load_key_from_secret
  from_secret pvd gob s algorithm initialize_key (ok secret) =
      if is_empty secret
      then generate_and_store_key pvd gob s algorithm initialize_key
      else (s, load_key_from_secret gob secret algorithm initialize_key)
  from_secret pvd gob s algorithm initialize_key (err e) =
      (s, err (wrap "failed to get secret: " e))

  unfoldable pub initialize_key_state :
      {S : Type 0}
      → SecretsProvider S
      → Gob
      → S
      → Algorithm
      → InitializeKeyFunc
      → S × Result KeyState
  unfolding from_secret
  initialize_key_state pvd gob s algorithm initialize_key =
      from_secret pvd gob s algorithm initialize_key (pvd.get s)

-- The client of the enclave, as the service uses it after it has a key.
pub record EnclaveClient : Type 0 where
  pub get_public_key : Result (Option GetPublicKeyResponse)
  pub sign_message : Bytes → Result Bytes

unfoldable pub get_public_key : EnclaveClient → Result GetPublicKeyResponse
get_public_key client = do
  answer ← map_err (wrap "failed to get public key: ") client.get_public_key
  resp ← elim answer [
    | none ↦ err (new "enclave GetPublicKey returned empty public key")
    | some r ↦ ok r
  ]
  fail_if (is_empty resp.public_key) (new "enclave GetPublicKey returned empty public key")
  ok resp

module _ (d : Decoders) where
  -- The new document and its validity.
  unfoldable pub fetch_attestation :
      ℕ → EnclaveClient → KeyState → Result (Bytes × AttestationValidity)
  unfolding get_public_key parse_attestation_validity validate_at
  fetch_attestation now client key = do
    resp ← get_public_key client
    fail_if (not (bytes_eq key.public_key resp.public_key))
        (new "enclave returned a different public key")
    fail_if (is_empty resp.attestation_document)
        (new "enclave returned an empty attestation document")
    v ←
        map_err (wrap "failed to parse attestation document: ")
          (parse_attestation_validity d resp.attestation_document)
    validate_at v now
    ok (resp.attestation_document, v)

  unfoldable pub installed :
      KeyState → Result (Bytes × AttestationValidity) → KeyState × AttestationValidity × Option Err
  installed key (ok (document, v)) =
      if not (ltb key.attestation_validity.not_after v.not_after)
      then (key, key.attestation_validity, none)
      else (
        record {
          public_key = key.public_key;
          attestation_document = document;
          attestation_validity = v;
        },
        v,
        none,
      )
  installed key (err e) = (key, key.attestation_validity, some e)

  -- One goroutine refreshes, so the key is the same in both critical sections.
  unfoldable pub refresh_attestation :
      ℕ → EnclaveClient → Option KeyState → Option KeyState × AttestationValidity × Option Err
  unfolding fetch_attestation installed
  refresh_attestation now client none = (none, no_validity, some (new "service is not initialized"))
  refresh_attestation now client (some key) =
      let (key', v, e) = installed key (fetch_attestation now client key) in (some key', v, e)

-- `PublicKey`, which returns the key and the attestation document.
unfoldable pub public_key : Grpc → ℕ → Option KeyState → Result GetPublicKeyResponse
unfolding validate_at
public_key g now none = err (status internal "service is not initialized")
public_key g now (some key) = do
  if key.attestation_validity.not_after == 0
      then ok tt
      else map_err (λ e. status unavailable (error_text g e))
          (validate_at key.attestation_validity now)
  ok (record { public_key = key.public_key; attestation_document = key.attestation_document })

-- `Sign`; the request is its message, or none for a nil request.
unfoldable pub sign : EnclaveClient → Option KeyState → Option Bytes → Result Bytes
sign client key none = err (status invalid_argument "invalid request")
sign client key (some message) = do
  fail_if (is_empty message) (status invalid_argument "message cannot be empty")
  elim key [
    | none ↦ err (status internal "service is not initialized")
    | some k ↦ map_err (λ _. status internal "failed to sign message") (client.sign_message message)
  ]
