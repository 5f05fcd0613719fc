-- ===== src/Proto.antt =====
-- proto/arc/enclave/v1/enclave.proto and proto/arc/signer/v1/signer.proto: the messages, as the Go
-- code sees them. A pointer to a message is an Option; an enum is the number on the wire.
use arc_remote_signer.Common.{ℕ, Bool, Option, Bytes, List}

abbrev pub Algorithm : Type 0
Algorithm = ℕ

abbrev pub algorithm_unspecified : Algorithm
algorithm_unspecified = 0

abbrev pub algorithm_bls : Algorithm
algorithm_bls = 1

abbrev pub algorithm_ed25519 : Algorithm
algorithm_ed25519 = 2

pub record AwsCredentials : Type 0 where
  pub access_key_id : Bytes
  pub secret_access_key : Bytes
  pub session_token : Bytes
  pub region : Bytes

pub record SecretEnvelope : Type 0 where
  pub algorithm : Algorithm
  pub kms_encrypted_data_key : Bytes
  pub encrypted_private_key : Bytes
  pub nonce : Bytes

-- The oneof; `unset` is the request that names no source.
pub data KeySource : Type 0 where
  unset : KeySource
  existing_key : Option SecretEnvelope → KeySource
  generate_new : Algorithm → KeySource

pub record InitializeRequest : Type 0 where
  pub credentials : Option AwsCredentials
  pub kms_key_arns : List Bytes
  pub kms_localstack_enabled : Bool
  pub key_source : KeySource

pub record InitializeResponse : Type 0 where
  pub public_key : Bytes
  pub attestation_document : Bytes
  pub secret_envelope : Option SecretEnvelope

pub record GetPublicKeyResponse : Type 0 where
  pub public_key : Bytes
  pub attestation_document : Bytes
