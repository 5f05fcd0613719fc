-- ===== src/Fingerprint.antt =====
-- internal/enclave/service/enclave/envelope.go: the fingerprint of a key source and the algorithms
-- that the enclave takes. SHA-256 is a parameter.
pub mod Framing
pub mod Identity
use arc_remote_signer.Common.{
  ℕ, ◌+◌, ◌/◌, ◌%◌, ◌^◌, Bool, ◌||◌, List, [], ◌∷◌, ◌++◌, Option, none, some, ◌==◌, if◌then◌else◌,
  Bytes, length, take, replicate, is_empty, codes,
}
use arc_remote_signer.GoError.{
  Err, new, status, invalid_argument, Grpc, error_text, Result, ok, err, ◌>>=◌, ◌>>◌, fail_if,
  map_err,
}
use arc_remote_signer.Proto.{
  Algorithm, algorithm_bls, algorithm_ed25519, SecretEnvelope, KeySource, unset, existing_key,
  generate_new,
}

-- The algorithms of internal/common/crypto, whose values are texts.
abbrev pub CryptoAlgorithm : Type 0
CryptoAlgorithm = Bytes

abbrev pub crypto_bls : CryptoAlgorithm
crypto_bls = codes "bls"

abbrev pub crypto_ed25519 : CryptoAlgorithm
crypto_ed25519 = codes "ed25519"

unfoldable pub to_algorithm : Algorithm → Result CryptoAlgorithm
to_algorithm algorithm =
    if algorithm == algorithm_bls
    then ok crypto_bls
    else if algorithm == algorithm_ed25519
    then ok crypto_ed25519
    else err (new "invalid algorithm: ")

-- `binary.BigEndian.PutUint32` into a buffer of four bytes.
unfoldable pub put_uint32 : ℕ → Bytes
put_uint32 n = (n / 2 ^ 24 % 256) ∷ (n / 2 ^ 16 % 256) ∷ (n / 2 ^ 8 % 256) ∷ (n % 256) ∷ []

-- What `hashKeySourceFields` writes into the hash.
unfoldable pub hashed_fields : List Bytes → Bytes
unfolding put_uint32
hashed_fields [] = []
hashed_fields (arg ∷ args) = (put_uint32 (length arg % 2 ^ 32) ++ arg) ++ hashed_fields args

module _ (g : Grpc) where
  -- `status.Error(codes.InvalidArgument, err.Error())` for the error of `toAlgorithm`.
  abbrev pub as_invalid_argument : Err → Err
  as_invalid_argument e = status invalid_argument (error_text g e)

  -- The switch of `fingerprintKeySource`: the fields that go into the hash.
  unfoldable pub key_source_parts : KeySource → Result (List Bytes)
  unfolding to_algorithm
  key_source_parts unset = err (status invalid_argument "key_source is required")
  key_source_parts (existing_key none) = err (status invalid_argument "existing_key is incomplete")
  key_source_parts (existing_key (some env)) = do
    fail_if
        (is_empty env.kms_encrypted_data_key
          || is_empty env.encrypted_private_key
          || is_empty env.nonce)
        (status invalid_argument "existing_key is incomplete")
    _ ← map_err as_invalid_argument (to_algorithm env.algorithm)
    ok (
        codes "initialize-existing-v1"
        ∷ ((env.algorithm % 256) ∷ [])
        ∷ env.kms_encrypted_data_key
        ∷ env.encrypted_private_key
        ∷ env.nonce
        ∷ [])
  key_source_parts (generate_new algorithm) = do
    _ ← map_err as_invalid_argument (to_algorithm algorithm)
    ok (codes "initialize-generate-v1" ∷ put_uint32 (algorithm % 2 ^ 32) ∷ [])

  -- A fingerprint is an array of 32 bytes.
  unfoldable pub fingerprint_key_source : (Bytes → Bytes) → KeySource → Result Bytes
  unfolding key_source_parts hashed_fields
  fingerprint_key_source sha256 source = do
    parts ← key_source_parts source
    ok (take 32 (sha256 (hashed_fields parts) ++ replicate 32 0))
