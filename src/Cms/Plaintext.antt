-- ===== src/Cms/Plaintext.antt =====
-- About `Decrypt` of internal/enclave/provider/enclave/kmsrecipient.
use arc_remote_signer.Common.{
  ℕ, ◌%◌, ◌≡◌, refl, ap, some, Bytes, length, arith, ◌⊎◌, inl, inr, ◌↔◌, IsBytes,
}
use arc_remote_signer.GoError.{Foreign, ok, Result-cases}
use arc_remote_signer.Pkcs7.Padding.{Padded, unpad_pkcs7_iff}
use arc_remote_signer.Cms.{
  crypt_blocks, Asn1, Ciphers, EncryptedKey, parse, decrypt_envelope, decrypt,
}
use arc_remote_signer.Cms.Parsing.{IsEnvelope, parse-IsEnvelope, IsEnvelope-parse}

-- What CBC decryption with a block of `aes.NewCipher` gives: as many bytes as it takes.
pub record IsCiphers {PrivateKey : Type 0} (ciphers : Ciphers PrivateKey) : Type 0 where
  pub gives_bytes :
      (key : Bytes) (block : Bytes → Bytes → Bytes)
      → ciphers.new_cipher key ≡ inr block
      → (iv text : Bytes) → IsBytes (block iv text)
  pub keeps_length :
      (key : Bytes) (block : Bytes → Bytes → Bytes)
      → ciphers.new_cipher key ≡ inr block
      → (iv text : Bytes) → length (block iv text) ≡ length text

module _ {PrivateKey : Type 0} (asn1 : Asn1) (ciphers : Ciphers PrivateKey) where
  -- The plaintext that the key finds in an envelope.
  pub record IsPlaintext (key : PrivateKey) (e : EncryptedKey) (plain : Bytes) : Type 0 where
    pub content_key : Bytes
    pub unwrapped : ciphers.decrypt_oaep key e.rsa_ciphertext ≡ inr content_key
    pub key_size : length content_key ≡ 32
    pub block : Bytes → Bytes → Bytes
    pub cipher : ciphers.new_cipher content_key ≡ inr block
    pub padded : Padded (block e.iv e.ciphertext) 16 plain

  module _ (law : IsCiphers ciphers) where
    decrypt_envelope-IsPlaintext :
        (key : PrivateKey) (content : Bytes) (e : EncryptedKey) (plain : Bytes)
        → decrypt_envelope asn1 ciphers key e ≡ ok plain
        → IsPlaintext key e plain
    unfolding decrypt_envelope crypt_blocks
    decrypt_envelope-IsPlaintext key content e plain h =
        elim (Sum-cases (ciphers.decrypt_oaep key e.rsa_ciphertext)) [
          | inl (x, p) ↦ absurd (ground arith)
          | inr (content_key, p) ↦ elim (Sum-cases (ciphers.new_cipher content_key)) [
            | inl (x, q) ↦ absurd (ground arith)
            | inr (block, q) ↦
                let len = law.keeps_length content_key block q e.iv e.ciphertext in
                record {
                  content_key = content_key;
                  unwrapped = p;
                  key_size = ground arith;
                  block = block;
                  cipher = q;
                  padded =
                      (unpad_pkcs7_iff (block e.iv e.ciphertext) plain 16
                          (law.gives_bytes content_key block q e.iv e.ciphertext) (omega arith)
                          (ground arith)).0
                        (ground arith);
                }
          ]
        ]
      where
        Sum-cases :
            {A : Type 0} (r : Foreign ⊎ A) → ((x : Foreign) × (r ≡ inl x)) ⊎ ((a : A) × (r ≡ inr a))
        Sum-cases (inl x) = inl (x, refl)
        Sum-cases (inr a) = inr (a, refl)

    IsPlaintext-decrypt_envelope :
        (key : PrivateKey) (content : Bytes) (e : EncryptedKey) (plain : Bytes)
        → IsEnvelope asn1 content e
        → IsPlaintext key e plain
        → decrypt_envelope asn1 ciphers key e ≡ ok plain
    unfolding decrypt_envelope crypt_blocks
    IsPlaintext-decrypt_envelope key content e plain v t =
        let len = law.keeps_length t.content_key t.block t.cipher e.iv e.ciphertext in
        let c = v.content_for in
        ground (
          arith,
          t.unwrapped,
          t.key_size,
          t.cipher,
          c.iv_block,
          c.some_blocks,
          c.whole_blocks,
          (unpad_pkcs7_iff (t.block e.iv e.ciphertext) plain 16
                (law.gives_bytes t.content_key t.block t.cipher e.iv e.ciphertext) (omega arith)
                (omega (arith, c.whole_blocks, ap (λ (n : ℕ). n % 16) len))).1
              t.padded,
        )

    -- `Decrypt` returns a plaintext exactly when the content converts to an envelope of version 2
    -- for one recipient, with RSAES-OAEP over SHA-256 and no label and with AES-256-CBC, and the
    -- private key unwraps a content key of 32 bytes under which the joined fragments of the
    -- ciphertext decrypt to that plaintext with its PKCS #7 padding.
    pub decrypt_iff :
        (key : PrivateKey) (content plain : Bytes)
        → (decrypt asn1 ciphers (some key) content ≡ ok plain)
          ↔ ((e : EncryptedKey) × IsEnvelope asn1 content e × IsPlaintext key e plain)
    unfolding decrypt
    decrypt_iff key content plain = (forward, backward)
      where
        forward :
            decrypt asn1 ciphers (some key) content ≡ ok plain
            → (e : EncryptedKey) × IsEnvelope asn1 content e × IsPlaintext key e plain
        forward h = elim (Result-cases (parse asn1 content)) [
          | inr (x, p) ↦ absurd (ground arith)
          | inl (e, p) ↦ (
            e,
            parse-IsEnvelope asn1 content e p,
            decrypt_envelope-IsPlaintext key content e plain (ground arith),
          )
        ]

        backward :
            (e : EncryptedKey) × IsEnvelope asn1 content e × IsPlaintext key e plain
            → decrypt asn1 ciphers (some key) content ≡ ok plain
        backward (e, v, t) =
            let p = IsEnvelope-parse asn1 content e v in
            let q = IsPlaintext-decrypt_envelope key content e plain v t in ground arith
