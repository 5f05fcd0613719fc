-- ===== src/Tests/Data.antt =====
-- Concrete values for the tests: a reading of gRPC's status errors, a hash, and requests.
use arc_remote_signer.Common.{String, ℕ, Bool, true, false, [], ◌∷◌, none, some, Bytes, replicate}
use arc_remote_signer.GoError.{Err, status, Code, unknown, Grpc}
use arc_remote_signer.Proto.{InitializeResponse, SecretEnvelope, algorithm_bls}
use arc_remote_signer.Gate.{ReadyState}

abbrev pub grpc_code : Err → Code
grpc_code (status c m) = c
grpc_code _ = unknown

abbrev pub grpc_message : Err → String
grpc_message (status c m) = m
grpc_message _ = "unknown"

abbrev pub is_status_error : Err → Bool
is_status_error (status c m) = true
is_status_error _ = false

abbrev pub test_grpc : Grpc
test_grpc = record {
  status_text = λ c m. m;
  code = grpc_code;
  message = grpc_message;
  is_status = is_status_error;
}

-- A hash of 32 bytes: the first byte of the text, and zeros.
abbrev pub test_hash : Bytes → Bytes
test_hash [] = replicate 32 0
test_hash (x ∷ xs) = x ∷ replicate 31 0

abbrev pub test_envelope : SecretEnvelope
test_envelope = record {
  algorithm = algorithm_bls;
  kms_encrypted_data_key = 1 ∷ 2 ∷ [];
  encrypted_private_key = 3 ∷ [];
  nonce = 4 ∷ [];
}

abbrev pub test_response : InitializeResponse
test_response = record {
  public_key = 7 ∷ 8 ∷ [];
  attestation_document = [];
  secret_envelope = some test_envelope;
}

abbrev pub test_replay : InitializeResponse
test_replay = record { public_key = 7 ∷ 8 ∷ []; attestation_document = []; secret_envelope = none }

abbrev pub test_state : ReadyState ℕ
test_state = record {
  fingerprint = [];
  generated_envelope_fingerprint = [];
  has_generated_envelope_fingerprint = false;
  key = 5;
  response = test_response;
}
