-- ===== src/Cms/Structure.antt =====
-- internal/enclave/provider/enclave/kmsrecipient/decrypt.go: the structure of a CMS message, as the
-- code declares it for encoding/asn1, and the constants of that package and of crypto/aes that it uses.
use arc_remote_signer.Common.{ℕ, Bool, List, [], ◌∷◌, Bytes}
use arc_remote_signer.Common.Int.{ℤ, pos}

-- `asn1.ObjectIdentifier`; `Equal` is `bytes_eq`, which compares lists of numbers.
abbrev pub Oid : Type 0
Oid = List ℕ

abbrev pub oid_data : Oid
oid_data = 1 ∷ 2 ∷ 840 ∷ 113549 ∷ 1 ∷ 7 ∷ 1 ∷ []

abbrev pub oid_enveloped_data : Oid
oid_enveloped_data = 1 ∷ 2 ∷ 840 ∷ 113549 ∷ 1 ∷ 7 ∷ 3 ∷ []

abbrev pub oid_rsaes_oaep : Oid
oid_rsaes_oaep = 1 ∷ 2 ∷ 840 ∷ 113549 ∷ 1 ∷ 1 ∷ 7 ∷ []

abbrev pub oid_mgf1 : Oid
oid_mgf1 = 1 ∷ 2 ∷ 840 ∷ 113549 ∷ 1 ∷ 1 ∷ 8 ∷ []

abbrev pub oid_p_specified : Oid
oid_p_specified = 1 ∷ 2 ∷ 840 ∷ 113549 ∷ 1 ∷ 1 ∷ 9 ∷ []

abbrev pub oid_sha256 : Oid
oid_sha256 = 2 ∷ 16 ∷ 840 ∷ 1 ∷ 101 ∷ 3 ∷ 4 ∷ 2 ∷ 1 ∷ []

abbrev pub oid_aes256_cbc : Oid
oid_aes256_cbc = 2 ∷ 16 ∷ 840 ∷ 1 ∷ 101 ∷ 3 ∷ 4 ∷ 1 ∷ 42 ∷ []

abbrev pub enveloped_data_version : ℤ
enveloped_data_version = pos 2

abbrev pub recipient_info_version : ℤ
recipient_info_version = pos 2

abbrev pub aes256_key_size : ℕ
aes256_key_size = 32

-- `asn1.RawValue`, with the constants of its classes and tags, and `aes.BlockSize`.
pub record RawValue : Type 0 where
  pub class : ℕ
  pub tag : ℕ
  pub is_compound : Bool
  pub bytes : Bytes
  pub full_bytes : Bytes

abbrev pub class_universal : ℕ
class_universal = 0

abbrev pub class_context_specific : ℕ
class_context_specific = 2

abbrev pub tag_octet_string : ℕ
tag_octet_string = 4

abbrev pub tag_null : ℕ
tag_null = 5

abbrev pub block_size : ℕ
block_size = 16

pub record AlgorithmIdentifier : Type 0 where
  pub algorithm : Oid
  pub parameters : RawValue
  pub extra : RawValue

pub record RsaOaepParameters : Type 0 where
  pub hash_algorithm : AlgorithmIdentifier
  pub mask_gen_algorithm : AlgorithmIdentifier
  pub p_source_algorithm : AlgorithmIdentifier
  pub extra : RawValue

pub record EncryptedContentInfo : Type 0 where
  pub content_type : Oid
  pub content_encryption_algorithm : AlgorithmIdentifier
  pub encrypted_content : RawValue
  pub extra : RawValue

pub record KeyTransRecipientInfo : Type 0 where
  pub version : ℤ
  pub recipient_identifier : Bytes
  pub key_encryption_algorithm : AlgorithmIdentifier
  pub encrypted_key : Bytes
  pub extra : RawValue

pub record EnvelopedData : Type 0 where
  pub version : ℤ
  pub recipient_infos : List KeyTransRecipientInfo
  pub encrypted_content_info : EncryptedContentInfo
  pub extra : RawValue

pub record ContentInfo : Type 0 where
  pub content_type : Oid
  pub content : EnvelopedData
  pub extra : RawValue

pub record EncryptedKey : Type 0 where
  pub rsa_ciphertext : Bytes
  pub ciphertext : Bytes
  pub iv : Bytes
