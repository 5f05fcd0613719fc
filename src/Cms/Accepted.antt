-- ===== src/Cms/Accepted.antt =====
-- About `Decrypt` of internal/enclave/provider/enclave/kmsrecipient.
use arc_remote_signer.Common.{
  ℕ, zero, suc, ◌≤◌, ◌<◌, ◌≡◌, sym, subst, ◌∙◌, true, false, not, ◌&&◌, [], ◌∷◌, ◌++◌, append_assoc,
  append-nil, some, Bytes, length, leb, is_empty, bytes_eq_iff, arith, ◌⊎◌, inl, inr, ◌↔◌,
  Bool-cases, Option-cases,
}
use arc_remote_signer.GoError.{ok}
use arc_remote_signer.Cms.{
  oid_rsaes_oaep, oid_mgf1, oid_p_specified, oid_sha256, Asn1, RawValue, AlgorithmIdentifier,
  RsaOaepParameters, has_extra, is_null_or_absent, is_sha256, contains_sha256_algorithm,
  is_empty_p_specified, decode_octet_string, validate_oaep, decode_fragments,
  decode_encrypted_content,
}

-- A field that asn1 did not find.
abbrev pub IsAbsent : RawValue → Type 0
IsAbsent value = value.full_bytes ≡ []

abbrev pub IsOctets : RawValue → Bytes → Type 0
IsOctets value bytes =
    (value.class ≡ 0) × (value.tag ≡ 4) × (value.is_compound ≡ false) × (value.bytes ≡ bytes)

abbrev pub IsNull : RawValue → Type 0
IsNull value =
    (value.class ≡ 0) × (value.tag ≡ 5) × (value.is_compound ≡ false) × (value.bytes ≡ [])

abbrev pub IsSha256 : AlgorithmIdentifier → Type 0
IsSha256 a =
    IsAbsent a.extra × (a.algorithm ≡ oid_sha256) × (IsAbsent a.parameters ⊎ IsNull a.parameters)

abbrev pub HasNoLabel : AlgorithmIdentifier → Type 0
HasNoLabel a =
    (a.algorithm ≡ [])
    ⊎ (IsAbsent a.extra × (a.algorithm ≡ oid_p_specified) × IsOctets a.parameters [])

pub is_sha256_iff : (a : AlgorithmIdentifier) → (is_sha256 a ≡ true) ↔ IsSha256 a
unfolding is_sha256 has_extra is_null_or_absent
is_sha256_iff a = ground (arith, bytes_eq_iff a.algorithm oid_sha256)

pub decode_octet_string_iff :
    (value : RawValue) (bytes : Bytes)
    → (decode_octet_string value ≡ ok bytes) ↔ IsOctets value bytes
unfolding decode_octet_string
decode_octet_string_iff value bytes = ground arith

pub no_label_iff :
    (a : AlgorithmIdentifier)
    → ((not (is_empty a.algorithm) && not (is_empty_p_specified a)) ≡ false) ↔ HasNoLabel a
unfolding is_empty_p_specified has_extra decode_octet_string
no_label_iff a = ground (arith, bytes_eq_iff a.algorithm oid_p_specified)

module _ (asn1 : Asn1) where
  -- RSAES-OAEP with SHA-256 as its hash and as the hash of its mask generation, and no label.
  pub record IsOaep (a : AlgorithmIdentifier) : Type 0 where
    pub plain : IsAbsent a.extra
    pub rsa : a.algorithm ≡ oid_rsaes_oaep
    pub given : is_empty a.parameters.full_bytes ≡ false
    pub params : RsaOaepParameters
    pub read : asn1.oaep_parameters a.parameters.full_bytes ≡ some (params, [])
    pub no_more : IsAbsent params.extra
    pub hash : IsSha256 params.hash_algorithm
    pub mask : IsAbsent params.mask_gen_algorithm.extra
    pub mgf1 : params.mask_gen_algorithm.algorithm ≡ oid_mgf1
    pub mask_algorithm : AlgorithmIdentifier
    pub mask_read :
        asn1.algorithm_identifier params.mask_gen_algorithm.parameters.full_bytes
        ≡ some (mask_algorithm, [])
    pub mask_hash : IsSha256 mask_algorithm
    pub label : HasNoLabel params.p_source_algorithm

  -- Octet strings behind each other, and their contents in that order.
  pub data Fragments : Bytes → Bytes → Type 0 where
    last : Fragments [] []
    more :
        {xs part rest text : Bytes}
        → asn1.octets xs ≡ some (part, rest)
        → length rest < length xs
        → Fragments rest text
        → Fragments xs (part ++ text)

  -- The bytes of the ciphertext: given at once, or in fragments.
  abbrev pub IsContent : RawValue → Bytes → Type 0
  IsContent value text =
      (value.class ≡ 2)
      × (value.tag ≡ 0)
      × (((value.is_compound ≡ false) × (value.bytes ≡ text))
          ⊎ ((value.is_compound ≡ true) × Fragments value.bytes text))

  contains_algorithm_read :
      (bytes : Bytes)
      → contains_sha256_algorithm asn1 bytes ≡ true
      → (a : AlgorithmIdentifier) × (asn1.algorithm_identifier bytes ≡ some (a, [])) × IsSha256 a
  unfolding contains_sha256_algorithm
  contains_algorithm_read bytes h = elim (Option-cases (asn1.algorithm_identifier bytes)) [
    | inl e ↦ ground arith
    | inr ((a, rest), e) ↦ ground (arith, is_sha256_iff a)
  ]

  decode_fragments-Fragments :
      (fuel : ℕ) (remaining front text : Bytes)
      → decode_fragments asn1 fuel remaining front ≡ ok text
      → (back : Bytes) × Fragments remaining back × (text ≡ front ++ back)
  unfolding decode_fragments
  decode_fragments-Fragments fuel [] front text h = ([], last, ground (arith, append-nil front))
  decode_fragments-Fragments zero (b ∷ bs) front text h = absurd (ground arith)
  decode_fragments-Fragments (suc fuel) (b ∷ bs) front text h =
      elim (Option-cases (asn1.octets (b ∷ bs))) [
        | inl e ↦ absurd (ground arith)
        | inr ((part, rest), e) ↦ elim (Bool-cases (leb (length (b ∷ bs)) (length rest))) [
          | inl p ↦ absurd (ground arith)
          | inr p ↦
              let (back, f, q) =
                decode_fragments-Fragments fuel rest (front ++ part) text (ground arith) in
              (part ++ back, more e (ground arith) f, q ∙ append_assoc front part back)
        ]
      ]

  Fragments-decode_fragments :
      (fuel : ℕ) (remaining front text : Bytes)
      → Fragments remaining text
      → length remaining ≤ fuel
      → decode_fragments asn1 fuel remaining front ≡ ok (front ++ text)
  unfolding decode_fragments
  Fragments-decode_fragments fuel remaining front text last h = ground (arith, append-nil front)
  Fragments-decode_fragments fuel [] front text (more e less f) h = absurd (omega arith)
  Fragments-decode_fragments zero (b ∷ bs) front text (more e less f) h = absurd (omega arith)
  Fragments-decode_fragments (suc fuel) (b ∷ bs) front text
        (more {part = part} {rest = rest} {text = back} e less f) h =
      let r = Fragments-decode_fragments fuel rest (front ++ part) back f (omega arith) in
      ground (arith, append_assoc front part back)

  pub decode_encrypted_content_iff :
      (value : RawValue) (text : Bytes)
      → (decode_encrypted_content asn1 value ≡ ok text) ↔ IsContent value text
  unfolding decode_encrypted_content
  decode_encrypted_content_iff value text = (forward, backward)
    where
      forward : decode_encrypted_content asn1 value ≡ ok text → IsContent value text
      forward h = elim (Bool-cases value.is_compound) [
        | inl c ↦
            let (back, f, q) =
              decode_fragments-Fragments (length value.bytes) value.bytes [] text (ground arith) in
            (ground arith, ground arith, inr (c, subst (Fragments value.bytes) (sym q) f))
        | inr c ↦ ground arith
      ]

      backward : IsContent value text → decode_encrypted_content asn1 value ≡ ok text
      backward (c, t, inl (p, e)) = ground arith
      backward (c, t, inr (p, f)) =
          let r =
            Fragments-decode_fragments (length value.bytes) value.bytes [] text f (omega arith) in
          ground arith

  pub validate_oaep-IsOaep : (a : AlgorithmIdentifier) → validate_oaep asn1 a ≡ ok tt → IsOaep a
  unfolding validate_oaep has_extra
  validate_oaep-IsOaep a h = elim (Option-cases (asn1.oaep_parameters a.parameters.full_bytes)) [
    | inl e ↦ absurd (ground arith)
    | inr ((params, rest), e) ↦
        let given =
          contains_algorithm_read params.mask_gen_algorithm.parameters.full_bytes (ground arith) in
        record {
          plain = ground arith;
          rsa = ground (arith, bytes_eq_iff a.algorithm oid_rsaes_oaep);
          given = ground arith;
          params = params;
          read = ground arith;
          no_more = ground arith;
          hash = (is_sha256_iff params.hash_algorithm).0 (ground arith);
          mask = ground arith;
          mgf1 = ground (arith, bytes_eq_iff params.mask_gen_algorithm.algorithm oid_mgf1);
          mask_algorithm = given.0;
          mask_read = given.1;
          mask_hash = given.2;
          label = (no_label_iff params.p_source_algorithm).0 (ground arith);
        }
  ]

  pub IsOaep-validate_oaep : (a : AlgorithmIdentifier) → IsOaep a → validate_oaep asn1 a ≡ ok tt
  unfolding validate_oaep has_extra contains_sha256_algorithm
  IsOaep-validate_oaep a o = ground (
    arith,
    o.plain,
    o.rsa,
    o.given,
    o.read,
    o.no_more,
    o.mask,
    o.mgf1,
    o.mask_read,
    bytes_eq_iff a.algorithm oid_rsaes_oaep,
    bytes_eq_iff o.params.mask_gen_algorithm.algorithm oid_mgf1,
    (is_sha256_iff o.params.hash_algorithm).1 o.hash,
    (is_sha256_iff o.mask_algorithm).1 o.mask_hash,
    (no_label_iff o.params.p_source_algorithm).1 o.label,
  )
