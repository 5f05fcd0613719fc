-- ===== src/Keys.antt =====
-- internal/enclave/common/crypto (crypto.go, bls/bls.go, ed25519/ed25519.go) and
-- internal/common/crypto/aes/aes.go: the key types behind the interfaces of Envelope.antt. blst,
-- crypto/ed25519, ed25519consensus, crypto/aes, crypto/cipher and the random source are parameters;
-- what the random source gives in a run is a value. Clearing of memory is left out.
pub mod RoundTrip
pub mod Recovery
use arc_remote_signer.Common.{
  ℕ, Bool, true, false, not, ◌||◌, Option, none, some, ◌==◌, if◌then◌else◌, ◌⊎◌, inl, inr, Bytes,
  length, take, drop, bytes_eq, codes,
}
use arc_remote_signer.GoError.{
  Err, new, wrap, foreign, Foreign, sentinel, invalid_algorithm, invalid_nonce_length, Grpc, Result,
  ok, err, ◌>>=◌, ◌>>◌, fail_if, map_err,
}
use arc_remote_signer.Cms.{result_of}
use arc_remote_signer.Fingerprint.{CryptoAlgorithm, crypto_bls, crypto_ed25519}
use arc_remote_signer.Envelope.{KeyCrypto, Gcm, EnclaveProvider, Environment}

abbrev pub dst_signature : Bytes
dst_signature = codes "BLS_SIG_BLS12381G2_XMD:SHA-256_SSWU_RO_NUL_"

abbrev pub private_key_size : ℕ
private_key_size = 64

abbrev pub public_key_size : ℕ
public_key_size = 32

abbrev pub signature_size : ℕ
signature_size = 64

abbrev pub seed_size : ℕ
seed_size = 32

-- The calls of the blst bindings; a nil pointer is none.
pub record Blst (SecretKey : Type 0) : Type 0 where
  pub key_gen : Bytes → SecretKey
  pub public_key : SecretKey → Bytes
  pub sign : SecretKey → Bytes → Bytes → Bytes
  pub serialize : SecretKey → Bytes
  pub deserialize : Bytes → Option SecretKey
  pub is_public_key : Bytes → Bool
  pub is_signature : Bytes → Bool
  pub verify : Bytes → Bytes → Bytes → Bytes → Bool

-- crypto/ed25519 and ed25519consensus; `generate_key` gives a public and a private key.
pub record Ed25519 : Type 0 where
  pub generate_key : Foreign ⊎ (Bytes × Bytes)
  pub new_key_from_seed : Bytes → Bytes
  pub sign : Bytes → Bytes → Bytes
  pub verify : Bytes → Bytes → Bytes → Bool

-- A `cipher.AEAD`.
pub record Aead : Type 0 where
  pub nonce_size : ℕ
  pub seal : Bytes → Bytes → Bytes
  pub opens : Bytes → Bytes → Foreign ⊎ Bytes

-- `new_gcm` is `aes.NewCipher`, then `cipher.NewGCM`; `read_full` reads so many random bytes, and
-- `ikm` are those of `bls.New`.
pub record Libraries (SecretKey : Type 0) : Type 0 where
  pub blst : Blst SecretKey
  pub ed25519 : Ed25519
  pub new_gcm : Bytes → Foreign ⊎ Aead
  pub read_full : ℕ → Foreign ⊎ Bytes
  pub ikm : Foreign ⊎ Bytes

-- `crypto.Key`: a `bls.Key` or an `ed25519.Key`.
pub data Key (SecretKey : Type 0) : Type 0 where
  bls_key : SecretKey → Key SecretKey
  ed25519_key : Bytes → Key SecretKey

module _ {SecretKey : Type 0} (lib : Libraries SecretKey) where
  -- Package bls.
  unfoldable pub new_bls : Result (Key SecretKey)
  new_bls = do
    ikm ← map_err (wrap "failed to generate random bytes: ") (result_of lib.ikm)
    ok (bls_key (lib.blst.key_gen ikm))

  unfoldable pub deserialize_bls : Bytes → Result (Key SecretKey)
  deserialize_bls bytes = elim (lib.blst.deserialize bytes) [
    | none ↦ err (new "failed to deserialize secret key")
    | some sk ↦ ok (bls_key sk)
  ]

  unfoldable pub verify_bls : Bytes → Bytes → Bytes → Bytes → Result Bool
  verify_bls signature message public_key dst =
      if not (lib.blst.is_public_key public_key)
      then err (new "failed to deserialize public key")
      else if not (lib.blst.is_signature signature)
      then err (new "failed to deserialize signature")
      else ok (lib.blst.verify signature public_key message dst)

  -- Package ed25519.
  unfoldable pub new_ed25519 : Result (Key SecretKey)
  new_ed25519 = do
    (public, private) ←
        map_err (wrap "failed to generate Ed25519 key: ") (result_of lib.ed25519.generate_key)
    fail_if (not (length private == private_key_size)) (new "invalid private key size: ")
    fail_if (not (length public == public_key_size)) (new "invalid public key size: ")
    ok (ed25519_key private)

  unfoldable pub deserialize_ed25519 : Bytes → Result (Key SecretKey)
  deserialize_ed25519 bytes = do
    fail_if (not (length bytes == private_key_size)) (new "invalid key size: ")
    let private = lib.ed25519.new_key_from_seed (take seed_size bytes)
    fail_if (not (bytes_eq (drop seed_size private) (drop seed_size bytes)))
        (new "private key public component does not match seed")
    ok (ed25519_key private)

  unfoldable pub verify_ed25519 : Bytes → Bytes → Bytes → Result Bool
  verify_ed25519 signature message public_key =
      if not (length public_key == public_key_size)
      then err (new "invalid public key size: ")
      else if not (length signature == signature_size)
      then err (new "invalid signature size: ")
      else ok (lib.ed25519.verify public_key message signature)

  -- The methods of a `Key`.
  unfoldable pub public_key_of : Key SecretKey → Result Bytes
  public_key_of (bls_key sk) = ok (lib.blst.public_key sk)
  public_key_of (ed25519_key private) = ok (drop seed_size private)

  unfoldable pub sign_message_with : Key SecretKey → Bytes → Result Bytes
  sign_message_with (bls_key sk) message = ok (lib.blst.sign sk message dst_signature)
  sign_message_with (ed25519_key private) message = ok (lib.ed25519.sign private message)

  unfoldable pub serialize_key : Key SecretKey → Result Bytes
  serialize_key (bls_key sk) = ok (lib.blst.serialize sk)
  serialize_key (ed25519_key private) = ok private

  -- Package crypto.
  unfoldable pub new_secret_key : CryptoAlgorithm → Result (Key SecretKey)
  unfolding new_bls new_ed25519
  new_secret_key alg =
      if bytes_eq alg crypto_bls
      then new_bls
      else if bytes_eq alg crypto_ed25519
      then new_ed25519
      else err (sentinel invalid_algorithm)

  unfoldable pub deserialize_secret_key : CryptoAlgorithm → Bytes → Result (Key SecretKey)
  unfolding deserialize_bls deserialize_ed25519
  deserialize_secret_key alg bytes =
      if bytes_eq alg crypto_bls
      then deserialize_bls bytes
      else if bytes_eq alg crypto_ed25519
      then deserialize_ed25519 bytes
      else err (sentinel invalid_algorithm)

  unfoldable pub verify_signed_message : CryptoAlgorithm → Bytes → Bytes → Bytes → Result Bool
  unfolding verify_bls verify_ed25519
  verify_signed_message alg signature message public_key =
      if bytes_eq alg crypto_bls
      then verify_bls signature message public_key dst_signature
      else if bytes_eq alg crypto_ed25519
      then verify_ed25519 signature message public_key
      else err (sentinel invalid_algorithm)

  -- Package aes.
  unfoldable pub encrypt_gcm : Bytes → Bytes → Result (Bytes × Bytes)
  encrypt_gcm key plaintext = do
    gcm ← result_of (lib.new_gcm key)
    nonce ← result_of (lib.read_full gcm.nonce_size)
    ok (gcm.seal nonce plaintext, nonce)

  unfoldable pub decrypt_gcm : Bytes → Bytes → Bytes → Result Bytes
  decrypt_gcm key ciphertext nonce = do
    gcm ← result_of (lib.new_gcm key)
    fail_if (not (length nonce == gcm.nonce_size)) (sentinel invalid_nonce_length)
    result_of (gcm.opens nonce ciphertext)

  -- What the service's functions are given in the program.
  unfoldable pub real_crypto : KeyCrypto (Key SecretKey)
  real_crypto = record {
    public_key = public_key_of;
    sign_message = sign_message_with;
    serialize = serialize_key;
    new_secret_key = new_secret_key;
    deserialize_secret_key = deserialize_secret_key;
  }

  unfoldable pub real_gcm : Gcm
  real_gcm = record { encrypt = encrypt_gcm; decrypt = decrypt_gcm }

  abbrev pub real_environment : Grpc → Bool → Option EnclaveProvider → Environment (Key SecretKey)
  real_environment grpc nitro enclave_pvd = record {
    grpc = grpc;
    nitro_enclave_enabled = nitro;
    enclave_pvd = enclave_pvd;
    crypto = real_crypto;
    gcm = real_gcm;
  }
