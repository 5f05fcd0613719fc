-- ===== src/Cms/Parsing.antt =====
-- About `Decrypt` of internal/enclave/provider/enclave/kmsrecipient.
use arc_remote_signer.Common.{
  ◌%◌, ◌≡◌, subst, true, false, [], ◌∷◌, some, Bytes, length, is_empty, bytes_eq_iff, arith, inl,
  inr, ◌↔◌, Option-cases,
}
use arc_remote_signer.Common.Int.{ℤ, pos, eq_ℤ}
use arc_remote_signer.GoError.{ok, Result-cases}
use arc_remote_signer.Ber.{ber_to_der}
use arc_remote_signer.Cms.{
  oid_data, oid_enveloped_data, oid_aes256_cbc, Asn1, KeyTransRecipientInfo, EncryptedContentInfo,
  ContentInfo, EncryptedKey, one_recipient, has_extra, decode_octet_string,
  decode_encrypted_content, parse_ciphertext, parse_content, parse,
}
use arc_remote_signer.Cms.Accepted.{
  IsAbsent, IsOctets, IsOaep, IsContent, decode_octet_string_iff, decode_encrypted_content_iff,
  validate_oaep-IsOaep, IsOaep-validate_oaep,
}

module _ (asn1 : Asn1) where
  -- What the encrypted content of an envelope has to be, for this encrypted key.
  pub record IsContentFor (content : EncryptedContentInfo) (e : EncryptedKey) : Type 0 where
    pub content_whole : IsAbsent content.extra
    pub algorithm_whole : IsAbsent content.content_encryption_algorithm.extra
    pub is_data : content.content_type ≡ oid_data
    pub aes : content.content_encryption_algorithm.algorithm ≡ oid_aes256_cbc
    pub iv : IsOctets content.content_encryption_algorithm.parameters e.iv
    pub iv_block : length e.iv ≡ 16
    pub ciphertext : IsContent asn1 content.encrypted_content e.ciphertext
    pub some_blocks : is_empty e.ciphertext ≡ false
    pub whole_blocks : length e.ciphertext % 16 ≡ 0

  -- What its recipient has to be.
  pub record IsRecipient (recipient : KeyTransRecipientInfo) : Type 0 where
    pub recipient_whole : IsAbsent recipient.extra
    pub recipient_version : recipient.version ≡ pos 2
    pub identified : is_empty recipient.recipient_identifier ≡ false
    pub keyed : is_empty recipient.encrypted_key ≡ false
    pub oaep : IsOaep asn1 recipient.key_encryption_algorithm

  -- An envelope of version 2 for one recipient.
  pub record IsEnvelope (content : Bytes) (e : EncryptedKey) : Type 0 where
    pub der : Bytes
    pub converted : ber_to_der content ≡ ok der
    pub ci : ContentInfo
    pub read : asn1.content_info der ≡ some (ci, [])
    pub info_whole : IsAbsent ci.extra
    pub data_whole : IsAbsent ci.content.extra
    pub enveloped : ci.content_type ≡ oid_enveloped_data
    pub version : ci.content.version ≡ pos 2
    pub recipient : KeyTransRecipientInfo
    pub only : ci.content.recipient_infos ≡ recipient ∷ []
    pub for_recipient : IsRecipient recipient
    pub content_for : IsContentFor ci.content.encrypted_content_info e
    pub rsa_ciphertext : e.rsa_ciphertext ≡ recipient.encrypted_key

  eq_ℤ-two : (n : ℤ) → (eq_ℤ n (pos 2) ≡ true) ↔ (n ≡ pos 2)
  eq_ℤ-two n = ground arith

  parse_ciphertext-IsContentFor :
      (rsa_ciphertext : Bytes) (content : EncryptedContentInfo) (e : EncryptedKey)
      → parse_ciphertext asn1 rsa_ciphertext content ≡ ok e
      → IsContentFor content e × (e.rsa_ciphertext ≡ rsa_ciphertext)
  unfolding parse_ciphertext has_extra
  parse_ciphertext-IsContentFor rsa content e h =
      let algorithm = content.content_encryption_algorithm in
      elim (Result-cases (decode_octet_string algorithm.parameters)) [
        | inr (x, p) ↦ absurd (ground arith)
        | inl (iv, p) ↦
            elim (Result-cases (decode_encrypted_content asn1 content.encrypted_content)) [
              | inr (x, q) ↦ absurd (ground arith)
              | inl (text, q) ↦
                  let same : (text ≡ e.ciphertext) × (iv ≡ e.iv) = ground arith in
                  (
                    record {
                      content_whole = ground arith;
                      algorithm_whole = ground arith;
                      is_data = ground (arith, bytes_eq_iff content.content_type oid_data);
                      aes = ground (arith, bytes_eq_iff algorithm.algorithm oid_aes256_cbc);
                      iv =
                          subst (IsOctets algorithm.parameters) same.1
                            ((decode_octet_string_iff algorithm.parameters iv).0 p);
                      iv_block = ground arith;
                      ciphertext =
                          subst (IsContent asn1 content.encrypted_content) same.0 (
                            (decode_encrypted_content_iff asn1 content.encrypted_content text).0 q);
                      some_blocks = ground arith;
                      whole_blocks = ground arith;
                    },
                    ground arith,
                  )
            ]
      ]

  IsContentFor-parse_ciphertext :
      (content : EncryptedContentInfo) (e : EncryptedKey)
      → IsContentFor content e
      → parse_ciphertext asn1 e.rsa_ciphertext content ≡ ok e
  unfolding parse_ciphertext has_extra
  IsContentFor-parse_ciphertext content e c =
      let algorithm = content.content_encryption_algorithm in
      ground (
        arith,
        c.content_whole,
        c.algorithm_whole,
        c.iv_block,
        c.some_blocks,
        c.whole_blocks,
        (bytes_eq_iff content.content_type oid_data).1 c.is_data,
        (bytes_eq_iff algorithm.algorithm oid_aes256_cbc).1 c.aes,
        (decode_octet_string_iff algorithm.parameters e.iv).1 c.iv,
        (decode_encrypted_content_iff asn1 content.encrypted_content e.ciphertext).1 c.ciphertext,
      )

  parse_content-IsRecipient :
      (recipient : KeyTransRecipientInfo) (content : EncryptedContentInfo) (e : EncryptedKey)
      → parse_content asn1 recipient content ≡ ok e
      → IsRecipient recipient × (parse_ciphertext asn1 recipient.encrypted_key content ≡ ok e)
  unfolding parse_content has_extra
  parse_content-IsRecipient recipient content e h = (
    record {
      recipient_whole = ground arith;
      recipient_version = (eq_ℤ-two recipient.version).0 (ground arith);
      identified = ground arith;
      keyed = ground arith;
      oaep = validate_oaep-IsOaep asn1 recipient.key_encryption_algorithm (ground arith);
    },
    ground arith,
  )

  IsRecipient-parse_content :
      (recipient : KeyTransRecipientInfo) (content : EncryptedContentInfo)
      → IsRecipient recipient
      → parse_content asn1 recipient content ≡ parse_ciphertext asn1 recipient.encrypted_key content
  unfolding parse_content has_extra
  IsRecipient-parse_content recipient content r = ground (
    arith,
    r.recipient_whole,
    r.identified,
    r.keyed,
    (eq_ℤ-two recipient.version).1 r.recipient_version,
    IsOaep-validate_oaep asn1 recipient.key_encryption_algorithm r.oaep,
  )

  pub parse-IsEnvelope :
      (content : Bytes) (e : EncryptedKey) → parse asn1 content ≡ ok e → IsEnvelope content e
  unfolding parse has_extra
  parse-IsEnvelope content e h = elim (Result-cases (ber_to_der content)) [
    | inr (x, p) ↦ absurd (ground arith)
    | inl (der, p) ↦ elim (Option-cases (asn1.content_info der)) [
      | inl q ↦ absurd (ground arith)
      | inr ((ci, rest), q) ↦ elim (Result-cases (one_recipient ci.content.recipient_infos)) [
        | inr (x, r) ↦ absurd (ground arith)
        | inl (recipient, r) ↦
            let (for_recipient, rest) =
              parse_content-IsRecipient recipient ci.content.encrypted_content_info e
                (ground arith) in
            let (content_for, same) =
              parse_ciphertext-IsContentFor recipient.encrypted_key
                ci.content.encrypted_content_info e rest in
            record {
              der = der;
              converted = p;
              ci = ci;
              read = ground arith;
              info_whole = ground arith;
              data_whole = ground arith;
              enveloped = ground (arith, bytes_eq_iff ci.content_type oid_enveloped_data);
              version = (eq_ℤ-two ci.content.version).0 (ground arith);
              recipient = recipient;
              only = ground arith;
              for_recipient = for_recipient;
              content_for = content_for;
              rsa_ciphertext = same;
            }
      ]
    ]
  ]

  pub IsEnvelope-parse :
      (content : Bytes) (e : EncryptedKey) → IsEnvelope content e → parse asn1 content ≡ ok e
  unfolding parse has_extra
  IsEnvelope-parse content e v = ground (
    arith,
    v.converted,
    v.read,
    v.info_whole,
    v.data_whole,
    v.only,
    (bytes_eq_iff v.ci.content_type oid_enveloped_data).1 v.enveloped,
    (eq_ℤ-two v.ci.content.version).1 v.version,
    v.rsa_ciphertext,
    IsRecipient-parse_content v.recipient v.ci.content.encrypted_content_info v.for_recipient,
    IsContentFor-parse_ciphertext v.ci.content.encrypted_content_info e v.content_for,
  )
