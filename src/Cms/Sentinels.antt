-- ===== src/Cms/Sentinels.antt =====
-- About `Decrypt` of internal/enclave/provider/enclave/kmsrecipient.
use arc_remote_signer.Common.{
  false, not, ◌||◌, ◌==◌, ℕ, zero, suc, ◌≤◌, ◌≡◌, refl, Bool, List, [], ◌∷◌, ◌++◌, Option, none,
  some, Bytes, String, length, leb, arith, ◌⊎◌, inl, inr, Bool-cases, Option-cases,
}
use arc_remote_signer.GoError.{
  new, sentinel, decrypt_failed, Foreign, Result, ok, err, ◌>>=◌, fail_if, Sound, Sound-bind,
  Sound-fail_if,
}
use arc_remote_signer.Ber.{ber_to_der}
use arc_remote_signer.Ber.Safety.{ber_to_der-total}
use arc_remote_signer.Pkcs7.{unpad_pkcs7}
use arc_remote_signer.Pkcs7.Range.{unpadded, unpad_pkcs7-unpadded}
use arc_remote_signer.Cms.{
  crypt_blocks, is_block_aligned, block_size, aes256_key_size, Asn1, Ciphers, RawValue,
  AlgorithmIdentifier, KeyTransRecipientInfo, EncryptedContentInfo, EncryptedKey, result_of, whole,
  checked, one_recipient, decode_octet_string, validate_oaep, decode_fragments,
  decode_encrypted_content, parse_ciphertext, parse_content, parse, decrypt_envelope, collapsed,
  decrypt,
}

-- A result that is no panic.
abbrev Calm : {A : Type 0} → Result A → Type 0
Calm r = Sound (λ _. Unit {0}) r

module _ {A B : Type 0} where
  Calm-bind : (m : Result A) (f : A → Result B) → Calm m → ((a : A) → Calm (f a)) → Calm (m >>= f)
  Calm-bind m f h k = Sound-bind (λ _. Unit) (λ _. Unit) m f h (λ a _. k a)

Calm-fail_if :
    {B : Type 0} (b : Bool) (text : String) (f : Unit {0} → Result B)
    → Calm (f tt)
    → Calm (fail_if b (new text) >>= f)
Calm-fail_if b text f h = Sound-fail_if (λ _. Unit) b (new text) f tt (λ _. h)

fail_if-Calm : (b : Bool) (text : String) → Calm (fail_if b (new text))
fail_if-Calm b text = ground arith

whole-Calm : {A : Type 0} (o : Option (A × Bytes)) (text : String) → Calm (whole o (new text))
whole-Calm o text = ground arith

checked-Calm :
    (r : Result Bytes) (refused : Bytes → Bool) (text : String)
    → Calm r
    → Calm (checked r refused (new text))
checked-Calm r refused text h = ground arith

result_of-Calm : {A : Type 0} (r : Foreign ⊎ A) → Calm (result_of r)
result_of-Calm r = ground arith

one_recipient-Calm : (rs : List KeyTransRecipientInfo) → Calm (one_recipient rs)
one_recipient-Calm rs = ground arith

decode_octet_string-Calm : (value : RawValue) → Calm (decode_octet_string value)
unfolding decode_octet_string
decode_octet_string-Calm value = ground arith

unpad_pkcs7-Calm : (xs : Bytes) (block_size : ℕ) → Calm (unpad_pkcs7 xs block_size)
unfolding unpadded
unpad_pkcs7-Calm xs block_size = rw (unpad_pkcs7-unpadded xs block_size) (ground arith)

-- Behind the guard CBC decryption has arguments that it takes.
crypt_blocks-Calm :
    (block : Bytes → Bytes → Bytes) (iv ciphertext : Bytes)
    → (not (length iv == block_size) || not (is_block_aligned ciphertext)) ≡ false
    → Calm (crypt_blocks block iv ciphertext)
unfolding crypt_blocks
crypt_blocks-Calm block iv ciphertext h = ground arith

ber_to_der-Calm : (content : Bytes) → Calm (ber_to_der content)
ber_to_der-Calm content = elim (ber_to_der-total content) [
  | inl (der, p, _) ↦ rw p tt
  | inr (e, p, calm) ↦ rw p calm
]

collapsed_or_sentinel :
    {A : Type 0} (r : Result A)
    → Calm r
    → ((a : A) × (collapsed r ≡ ok a)) ⊎ (collapsed r ≡ err (sentinel decrypt_failed))
collapsed_or_sentinel (ok a) h = inl (a, refl)
collapsed_or_sentinel (err e) h = inr (ground arith)

ruleset calm_laws = (
  Calm-bind, Calm-fail_if, fail_if-Calm, whole-Calm, checked-Calm, result_of-Calm,
  one_recipient-Calm, decode_octet_string-Calm, unpad_pkcs7-Calm, ber_to_der-Calm,
)

module _ (asn1 : Asn1) where
  -- Each round leaves fewer bytes, so as much fuel as there are bytes is enough.
  decode_fragments-Calm :
      (fuel : ℕ) (remaining ciphertext : Bytes)
      → length remaining ≤ fuel
      → Calm (decode_fragments asn1 fuel remaining ciphertext)
  unfolding decode_fragments
  decode_fragments-Calm fuel [] ciphertext h = tt
  decode_fragments-Calm zero (b ∷ bs) ciphertext h = absurd (omega arith)
  decode_fragments-Calm (suc fuel) (b ∷ bs) ciphertext h =
      elim (Option-cases (asn1.octets (b ∷ bs))) [
        | inl e ↦ ground arith
        | inr ((part, rest), e) ↦ elim (Bool-cases (leb (length (b ∷ bs)) (length rest))) [
          | inl p ↦ ground arith
          | inr p ↦
              let r = decode_fragments-Calm fuel rest (ciphertext ++ part) (ground arith) in
              ground arith
        ]
      ]

  decode_encrypted_content-Calm : (value : RawValue) → Calm (decode_encrypted_content asn1 value)
  unfolding decode_encrypted_content
  decode_encrypted_content-Calm value =
      ground (arith, decode_fragments-Calm (length value.bytes) value.bytes [] (omega arith))

  validate_oaep-Calm : (algorithm : AlgorithmIdentifier) → Calm (validate_oaep asn1 algorithm)
  unfolding validate_oaep
  validate_oaep-Calm algorithm = search calm_laws depth 12

  parse_ciphertext-Calm :
      (rsa_ciphertext : Bytes) (encrypted_content : EncryptedContentInfo)
      → Calm (parse_ciphertext asn1 rsa_ciphertext encrypted_content)
  unfolding parse_ciphertext
  parse_ciphertext-Calm rsa_ciphertext encrypted_content =
      search (calm_laws, decode_encrypted_content-Calm) depth 12

  parse_content-Calm :
      (recipient : KeyTransRecipientInfo) (encrypted_content : EncryptedContentInfo)
      → Calm (parse_content asn1 recipient encrypted_content)
  unfolding parse_content
  parse_content-Calm recipient encrypted_content =
      search (calm_laws, validate_oaep-Calm, parse_ciphertext-Calm) depth 12

  parse-Calm : (content : Bytes) → Calm (parse asn1 content)
  unfolding parse
  parse-Calm content = search (calm_laws, parse_content-Calm)

  module _ {PrivateKey : Type 0} (ciphers : Ciphers PrivateKey) where
    decrypt_envelope-Calm :
        (key : PrivateKey) (e : EncryptedKey) → Calm (decrypt_envelope asn1 ciphers key e)
    unfolding decrypt_envelope
    decrypt_envelope-Calm key e =
        Calm-bind (result_of (ciphers.decrypt_oaep key e.rsa_ciphertext)) _ (result_of-Calm _)
          λ content_key.
            Calm-fail_if (not (length content_key == aes256_key_size)) "invalid AES-256 content key"
              _
              (Calm-bind (result_of (ciphers.new_cipher content_key)) _ (result_of-Calm _) λ block.
                Sound-fail_if (λ _. Unit)
                  (not (length e.iv == block_size) || not (is_block_aligned e.ciphertext))
                  (new "invalid AES-CBC parameters") _ tt
                  λ aligned.
                    Calm-bind (crypt_blocks block e.iv e.ciphertext) _
                      (crypt_blocks-Calm block e.iv e.ciphertext aligned)
                      λ plaintext. unpad_pkcs7-Calm plaintext block_size)

    -- Whatever asn1, RSA and AES do, on every content `Decrypt` returns a plaintext or ErrDecrypt,
    -- and no other error; it never panics, and its loops end.
    pub decrypt-total :
        (private_key : Option PrivateKey) (content : Bytes)
        → ((plain : Bytes) × (decrypt asn1 ciphers private_key content ≡ ok plain))
          ⊎ (decrypt asn1 ciphers private_key content ≡ err (sentinel decrypt_failed))
    unfolding decrypt
    decrypt-total none content = inr refl
    decrypt-total (some key) content =
        elim (collapsed_or_sentinel (parse asn1 content) (parse-Calm content)) [
          | inr e ↦ inr (rw e refl)
          | inl (envelope, e) ↦
              rw e (elim (collapsed_or_sentinel _ (decrypt_envelope-Calm key envelope)) [
                | inl (plain, h) ↦ inl (plain, h)
                | inr h ↦ inr h
              ])
        ]
