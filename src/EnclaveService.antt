-- ===== src/EnclaveService.antt =====
-- internal/enclave/service/enclave/enclave.go and initrunner.go: the handlers of the enclave's
-- service. `Initialize` up to the gate is `admit`, and what the gate then runs is `run_init`; the
-- gate itself is Gate.antt. `kmsFactory` is a parameter.
pub mod Recovery
pub mod Concurrent
pub mod Installed
use arc_remote_signer.Common.{
  false, ◌&&◌, List, Option, none, some, if◌then◌else◌, Bytes, is_empty, [],
}
use arc_remote_signer.GoError.{
  wrap, status, internal, invalid_argument, failed_precondition, Result, ok, err, ◌>>=◌, ◌>>◌,
  fail_if, map_err,
}
use arc_remote_signer.Proto.{
  Algorithm, SecretEnvelope, KeySource, unset, existing_key, generate_new, InitializeRequest,
  InitializeResponse, GetPublicKeyResponse,
}
use arc_remote_signer.Fingerprint.{to_algorithm, as_invalid_argument, fingerprint_key_source}
use arc_remote_signer.Kms.Regions.{validate_regions}
use arc_remote_signer.Kms.Config.{Outside, AwsConfig, build_config}
use arc_remote_signer.Gate.{ReadyState}
use arc_remote_signer.Envelope.{
  Environment, KmsProvider, EnclaveProvider, to_status_error, load_key_candidate,
  generate_envelope_candidate,
}

pub record Service (K : Type 0) : Type 0 where
  pub env : Environment K
  pub outside : Outside
  pub awsproxy_endpoint : Bytes
  pub sha256 : Bytes → Bytes
  pub kms_factory : AwsConfig → List Bytes → Result KmsProvider

module _ {K : Type 0} (s : Service K) where
  -- `Initialize` before it enters the gate: the fingerprint to enter it with.
  unfoldable pub admit : Option InitializeRequest → Result Bytes
  unfolding validate_regions fingerprint_key_source
  admit none = err (status invalid_argument "request is nil")
  admit (some req) = do
    creds ← elim req.credentials [
      | none ↦ err (status invalid_argument "credentials are required")
      | some c ↦ ok c
    ]
    fail_if (is_empty req.kms_key_arns) (status invalid_argument "kms_key_arns is required")
    fail_if (s.env.nitro_enclave_enabled && req.kms_localstack_enabled)
        (status invalid_argument "LocalStack is not available in Nitro mode")
    map_err (to_status_error s.env.grpc "")
        (validate_regions s.outside.arn_parse creds.region req.kms_key_arns)
    fingerprint_key_source s.env.grpc s.sha256 req.key_source

  attest_with : Option EnclaveProvider → Bytes → Result Bytes
  attest_with none public_key =
      err (status internal "enclave provider is nil while nitro enclave is enabled")
  attest_with (some enclave) public_key =
      map_err (λ _. status internal "failed to attest public key") (enclave.attest public_key)

  -- The attestation document of a public key; empty outside Nitro mode.
  unfoldable pub attestation_of : Bytes → Result Bytes
  unfolding attest_with
  attestation_of public_key =
      if s.env.nitro_enclave_enabled then attest_with s.env.enclave_pvd public_key else ok []

  -- The getters of a nil envelope return zero values.
  or_zero : Option SecretEnvelope → SecretEnvelope
  or_zero (some env) = env
  or_zero none = record {
    algorithm = 0;
    kms_encrypted_data_key = [];
    encrypted_private_key = [];
    nonce = [];
  }

  pub record Candidate : Type 0 where
    pub key : K
    pub public_key : Bytes
    pub envelope : Option SecretEnvelope

  -- The switch on the key source.
  unfoldable pub candidate : KmsProvider → KeySource → Result Candidate
  unfolding or_zero load_key_candidate generate_envelope_candidate
  candidate pvd unset = err (status invalid_argument "key_source is required")
  candidate pvd (existing_key env) = do
    key ← load_key_candidate s.env (some pvd) (or_zero env)
    public_key ←
        map_err (λ _. status internal "failed to get public key") (s.env.crypto.public_key key)
    ok (record { key = key; public_key = public_key; envelope = none })
  candidate pvd (generate_new algorithm) = do
    made ← generate_envelope_candidate s.env (some pvd) algorithm
    ok (record { key = made.key; public_key = made.public_key; envelope = some made.envelope })

  unfoldable pub run_init : InitializeRequest → Result (Option (ReadyState K))
  unfolding build_config candidate attestation_of
  run_init req = do
    aws_cfg ←
        map_err (wrap "build aws config: ")
          (build_config s.outside req.credentials s.awsproxy_endpoint req.kms_localstack_enabled)
    pvd ← map_err (wrap "build kms provider: ") (s.kms_factory aws_cfg req.kms_key_arns)
    made ← candidate pvd req.key_source
    document ← attestation_of made.public_key
    ok (
        some (record {
          fingerprint = [];
          generated_envelope_fingerprint = [];
          has_generated_envelope_fingerprint = false;
          key = made.key;
          response = record {
            public_key = made.public_key;
            attestation_document = document;
            secret_envelope = made.envelope;
          };
        }))

  -- The error that the gate's caller gets from `Initialize`.
  unfoldable pub initialize_answer : Result InitializeResponse → Result InitializeResponse
  initialize_answer answer = map_err (to_status_error s.env.grpc "") answer

  unfoldable pub active_key : Option (ReadyState K) → Result K
  active_key none = err (status failed_precondition "enclave is not initialized")
  active_key (some state) = ok state.key

  unfoldable pub generate_key : Option Algorithm → Result (Unit {0})
  unfolding to_algorithm
  generate_key none = err (status invalid_argument "request is nil")
  generate_key (some algorithm) = do
    _ ← map_err (as_invalid_argument s.env.grpc) (to_algorithm algorithm)
    err (status failed_precondition "key generation is available only through Initialize")

  unfoldable pub get_public_key : Option (ReadyState K) → Result GetPublicKeyResponse
  unfolding active_key attestation_of
  get_public_key ready = do
    key ← active_key ready
    public_key ←
        map_err (λ _. status internal "failed to get public key") (s.env.crypto.public_key key)
    document ← attestation_of public_key
    ok (record { public_key = public_key; attestation_document = document })

  unfoldable pub sign_message : Option (ReadyState K) → Bytes → Result Bytes
  unfolding active_key
  sign_message ready message = do
    key ← active_key ready
    map_err (λ _. status internal "failed to sign message") (s.env.crypto.sign_message key message)
