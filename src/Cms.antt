-- ===== src/Cms.antt =====
-- internal/enclave/provider/enclave/kmsrecipient/decrypt.go: `Decrypt` and all behind it but
-- `unpadPKCS7`, which is in Pkcs7.antt, and `berToDER`, which is in Ber.antt. encoding/asn1,
-- crypto/rsa, crypto/aes and crypto/cipher are parameters. Clearing of memory is left out.
mod Structure
pub mod Sentinels
pub mod Accepted
pub mod Parsing
pub mod Plaintext
pub use arc_remote_signer.Cms.Structure.*
use arc_remote_signer.Common.{
  ℕ, zero, suc, ◌%◌, Bool, true, false, not, ◌&&◌, ◌||◌, List, [], ◌∷◌, ◌++◌, Option, none, some,
  leb, ◌==◌, if◌then◌else◌, Bytes, length, is_empty, bytes_eq, ◌⊎◌, inl, inr,
}
use arc_remote_signer.Common.Int.{ℤ, pos, eq_ℤ}
use arc_remote_signer.GoError.{
  Err, new, sentinel, decrypt_failed, foreign, Foreign, fault, bad_argument, out_of_fuel, Result,
  ok, err, ◌>>=◌, ◌>>◌, fail_if,
}
use arc_remote_signer.Ber.{ber_to_der}
use arc_remote_signer.Pkcs7.{unpad_pkcs7}

-- `asn1.Unmarshal` into each of the types that the code reads: a value and the bytes behind it, or
-- an error, which the code never looks at.
pub record Asn1 : Type 0 where
  pub content_info : Bytes → Option (ContentInfo × Bytes)
  pub oaep_parameters : Bytes → Option (RsaOaepParameters × Bytes)
  pub algorithm_identifier : Bytes → Option (AlgorithmIdentifier × Bytes)
  pub octets : Bytes → Option (Bytes × Bytes)

-- `rsa.DecryptOAEP` with SHA-256 and no label, and `aes.NewCipher`, whose block is given by what its
-- CBC decrypter makes of an initialization vector and a ciphertext.
pub record Ciphers (PrivateKey : Type 0) : Type 0 where
  pub decrypt_oaep : PrivateKey → Bytes → Foreign ⊎ Bytes
  pub new_cipher : Bytes → Foreign ⊎ (Bytes → Bytes → Bytes)

abbrev pub result_of {ℓ} : {A : Type ℓ} → Foreign ⊎ A → Result A
result_of (inl e) = err (foreign e)
result_of (inr a) = ok a

unfoldable pub has_extra : RawValue → Bool
has_extra value = not (is_empty value.full_bytes)

unfoldable pub is_null_or_absent : RawValue → Bool
is_null_or_absent value =
    is_empty value.full_bytes
    || (value.class == class_universal
        && value.tag == tag_null
        && not value.is_compound
        && is_empty value.bytes)

unfoldable pub decode_octet_string : RawValue → Result Bytes
decode_octet_string value =
    if not (value.class == class_universal)
      || not (value.tag == tag_octet_string)
      || value.is_compound
    then err (new "expected OCTET STRING")
    else ok value.bytes

unfoldable pub is_sha256 : AlgorithmIdentifier → Bool
unfolding has_extra is_null_or_absent
is_sha256 algorithm =
    not (has_extra algorithm.extra)
    && bytes_eq algorithm.algorithm oid_sha256
    && is_null_or_absent algorithm.parameters

unfoldable pub is_empty_p_specified : AlgorithmIdentifier → Bool
unfolding has_extra decode_octet_string
is_empty_p_specified algorithm =
    if has_extra algorithm.extra || not (bytes_eq algorithm.algorithm oid_p_specified)
    then false
    else elim (decode_octet_string algorithm.parameters) [
      | ok value ↦ is_empty value
      | err e ↦ false
    ]

-- `asn1.Unmarshal` with no bytes left behind the value, or an error of this text.
abbrev pub whole {ℓ} : {A : Type ℓ} → Option (A × Bytes) → Err → Result A
whole none e = err e
whole (some (a, rest)) e = if is_empty rest then ok a else err e

-- An error in the place of another; a panic is no error.
abbrev pub in_place_of : Err → Err → Err
in_place_of (fault f) e = fault f
in_place_of _ e = e

-- A failed decoding, or a value that the caller refuses, is an error of this text.
abbrev pub checked : Result Bytes → (Bytes → Bool) → Err → Result Bytes
checked (err x) refused e = err (in_place_of x e)
checked (ok value) refused e = if refused value then err e else ok value

abbrev pub is_block_aligned : Bytes → Bool
is_block_aligned ciphertext = not (is_empty ciphertext) && length ciphertext % block_size == 0

abbrev pub one_recipient : List KeyTransRecipientInfo → Result KeyTransRecipientInfo
one_recipient (recipient ∷ []) = ok recipient
one_recipient _ = err (new "invalid CMS recipient count")

module _ (asn1 : Asn1) where
  unfoldable pub contains_sha256_algorithm : Bytes → Bool
  unfolding is_sha256
  contains_sha256_algorithm bytes = elim (asn1.algorithm_identifier bytes) [
    | some (algorithm, rest) ↦ is_empty rest && is_sha256 algorithm
    | none ↦ false
  ]

  unfoldable pub validate_oaep : AlgorithmIdentifier → Result (Unit {0})
  unfolding has_extra is_sha256 contains_sha256_algorithm is_empty_p_specified
  validate_oaep algorithm = do
    fail_if
        (has_extra algorithm.extra
          || not (bytes_eq algorithm.algorithm oid_rsaes_oaep)
          || is_empty algorithm.parameters.full_bytes)
        (new "invalid CMS key encryption algorithm")
    params ←
        whole (asn1.oaep_parameters algorithm.parameters.full_bytes)
          (new "invalid RSA-OAEP parameters")
    fail_if (has_extra params.extra) (new "invalid RSA-OAEP parameters")
    fail_if
        (not (is_sha256 params.hash_algorithm)
          || has_extra params.mask_gen_algorithm.extra
          || not (bytes_eq params.mask_gen_algorithm.algorithm oid_mgf1))
        (new "unsupported RSA-OAEP parameters")
    fail_if (not (contains_sha256_algorithm params.mask_gen_algorithm.parameters.full_bytes))
        (new "unsupported RSA-OAEP mask generation function")
    fail_if
        (not (is_empty params.p_source_algorithm.algorithm)
          && not (is_empty_p_specified params.p_source_algorithm))
        (new "unsupported RSA-OAEP label")

  -- The loop over the fragments, on fuel.
  unfoldable pub decode_fragments : ℕ → Bytes → Bytes → Result Bytes
  decode_fragments fuel [] ciphertext = ok ciphertext
  decode_fragments zero (b ∷ bs) ciphertext = err (fault out_of_fuel)
  decode_fragments (suc fuel) (b ∷ bs) ciphertext = elim (asn1.octets (b ∷ bs)) [
    | none ↦ err (new "invalid encrypted content fragment")
    | some (part, rest) ↦
        let decoded = decode_fragments fuel rest (ciphertext ++ part) in
        if leb (length (b ∷ bs)) (length rest)
        then err (new "invalid encrypted content fragment")
        else decoded
  ]

  unfoldable pub decode_encrypted_content : RawValue → Result Bytes
  unfolding decode_fragments
  decode_encrypted_content value =
      if not (value.class == class_context_specific) || not (value.tag == 0)
      then err (new "invalid encrypted content tag")
      else if not value.is_compound
      then ok value.bytes
      else decode_fragments (length value.bytes) value.bytes []

  -- `parse` from its look at the encrypted content on.
  unfoldable pub parse_ciphertext : Bytes → EncryptedContentInfo → Result EncryptedKey
  unfolding has_extra decode_octet_string decode_encrypted_content
  parse_ciphertext rsa_ciphertext encrypted_content = do
    let algorithm = encrypted_content.content_encryption_algorithm
    fail_if
        (has_extra encrypted_content.extra
          || has_extra algorithm.extra
          || not (bytes_eq encrypted_content.content_type oid_data)
          || not (bytes_eq algorithm.algorithm oid_aes256_cbc))
        (new "invalid CMS content encryption algorithm")
    iv ←
        checked (decode_octet_string algorithm.parameters) (λ iv. not (length iv == block_size))
          (new "invalid CMS initialization vector")
    ciphertext ←
        checked (decode_encrypted_content encrypted_content.encrypted_content)
          (λ ciphertext. not (is_block_aligned ciphertext)) (new "invalid CMS ciphertext")
    ok (record { rsa_ciphertext = rsa_ciphertext; ciphertext = ciphertext; iv = iv })

  -- `parse` behind its check that there is one recipient.
  unfoldable pub parse_content : KeyTransRecipientInfo → EncryptedContentInfo → Result EncryptedKey
  unfolding validate_oaep has_extra parse_ciphertext
  parse_content recipient encrypted_content = do
    fail_if
        (has_extra recipient.extra
          || not (eq_ℤ recipient.version recipient_info_version)
          || is_empty recipient.recipient_identifier
          || is_empty recipient.encrypted_key)
        (new "invalid CMS recipient")
    validate_oaep recipient.key_encryption_algorithm
    parse_ciphertext recipient.encrypted_key encrypted_content

  unfoldable pub parse : Bytes → Result EncryptedKey
  unfolding has_extra parse_content
  parse content = do
    der ← ber_to_der content
    ci ← whole (asn1.content_info der) (new "invalid CMS content info")
    fail_if
        (has_extra ci.extra
          || has_extra ci.content.extra
          || not (bytes_eq ci.content_type oid_enveloped_data)
          || not (eq_ℤ ci.content.version enveloped_data_version))
        (new "invalid CMS envelope")
    recipient ← one_recipient ci.content.recipient_infos
    parse_content recipient ci.content.encrypted_content_info

-- `if err != nil { return nil, ErrDecrypt }`; a panic is no error.
abbrev pub collapsed {ℓ} : {A : Type ℓ} → Result A → Result A
collapsed (ok a) = ok a
collapsed (err e) = err (in_place_of e (sentinel decrypt_failed))

-- `NewCBCDecrypter` panics unless the vector is one block long, and `CryptBlocks` unless the
-- ciphertext is whole blocks.
unfoldable pub crypt_blocks : (Bytes → Bytes → Bytes) → Bytes → Bytes → Result Bytes
crypt_blocks block iv ciphertext =
    if length iv == block_size && length ciphertext % block_size == 0
    then ok (block iv ciphertext)
    else err (fault bad_argument)

module _ {PrivateKey : Type 0} (asn1 : Asn1) (ciphers : Ciphers PrivateKey) where
  -- `encryptedKey.decrypt`.
  unfoldable pub decrypt_envelope : PrivateKey → EncryptedKey → Result Bytes
  unfolding crypt_blocks
  decrypt_envelope private_key e = do
    content_key ← result_of (ciphers.decrypt_oaep private_key e.rsa_ciphertext)
    fail_if (not (length content_key == aes256_key_size)) (new "invalid AES-256 content key")
    block ← result_of (ciphers.new_cipher content_key)
    fail_if (not (length e.iv == block_size) || not (is_block_aligned e.ciphertext))
        (new "invalid AES-CBC parameters")
    plaintext ← crypt_blocks block e.iv e.ciphertext
    unpad_pkcs7 plaintext block_size

  -- `Decrypt`.
  unfoldable pub decrypt : Option PrivateKey → Bytes → Result Bytes
  unfolding decrypt_envelope parse
  decrypt none content = err (sentinel decrypt_failed)
  decrypt (some private_key) content = do
    envelope ← collapsed (parse asn1 content)
    collapsed (decrypt_envelope private_key envelope)
