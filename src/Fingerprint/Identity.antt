-- ===== src/Fingerprint/Identity.antt =====
-- About `fingerprintKeySource` of internal/enclave/service/enclave/envelope.go: when two key sources
-- share a fingerprint.
use arc_remote_signer.Common.{
  ◌%◌, ◌^◌, ◌<◌, List, [], ◌∷◌, none, some, ◌≡◌, ap, sym, ◌∙◌, arith, Bytes, length, replicate,
  take-append, codes,
}
use arc_remote_signer.GoError.{Grpc, ok, bind_ok}
use arc_remote_signer.Proto.{KeySource, unset, existing_key, generate_new}
use arc_remote_signer.Fingerprint.{
  put_uint32, hashed_fields, key_source_parts, fingerprint_key_source,
}
use arc_remote_signer.Fingerprint.Framing.{AreShort, hashed_fields_injective}

-- The fields that a request carries are shorter than 2^32 bytes.
abbrev pub HasShortFields : KeySource → Type 0
HasShortFields (existing_key (some env)) =
    (length env.kms_encrypted_data_key < 2 ^ 32)
    × (length env.encrypted_private_key < 2 ^ 32)
    × (length env.nonce < 2 ^ 32)
HasShortFields _ = Unit

module _ (g : Grpc) where
  parts-AreShort :
      (source : KeySource) (parts : List Bytes)
      → HasShortFields source
      → key_source_parts g source ≡ ok parts
      → AreShort parts
  unfolding key_source_parts put_uint32
  parts-AreShort unset parts h e = cc
  parts-AreShort (existing_key none) parts h e = cc
  parts-AreShort (existing_key (some env)) parts h e = rw existing_parts (omega arith)
    where
      existing_parts :
          parts
          ≡ codes "initialize-existing-v1"
            ∷ ((env.algorithm % 256) ∷ [])
            ∷ env.kms_encrypted_data_key
            ∷ env.encrypted_private_key
            ∷ env.nonce
            ∷ []
      existing_parts = ground arith
  parts-AreShort (generate_new algorithm) parts h e = rw generate_parts (omega arith)
    where
      generate_parts : parts ≡ codes "initialize-generate-v1" ∷ put_uint32 (algorithm % 2 ^ 32) ∷ []
      generate_parts = ground arith

  parts_injective :
      (s t : KeySource) (parts : List Bytes)
      → key_source_parts g s ≡ ok parts
      → key_source_parts g t ≡ ok parts
      → s ≡ t
  unfolding key_source_parts put_uint32
  parts_injective unset t parts p q = cc
  parts_injective (existing_key none) t parts p q = cc
  parts_injective s unset parts p q = cc
  parts_injective s (existing_key none) parts p q = cc
  parts_injective (existing_key (some env)) (existing_key (some other)) parts p q = ground arith
  parts_injective (existing_key (some env)) (generate_new algorithm) parts p q = ground arith
  parts_injective (generate_new algorithm) (existing_key (some env)) parts p q = ground arith
  parts_injective (generate_new algorithm) (generate_new other) parts p q = ground arith

  -- The hash does not map the hashed texts of these two sources to one value, unless the texts
  -- are equal.
  abbrev pub NoCollision : (Bytes → Bytes) → KeySource → KeySource → Type 0
  NoCollision sha256 s t =
      (ps pt : List Bytes)
      → key_source_parts g s ≡ ok ps
      → key_source_parts g t ≡ ok pt
      → sha256 (hashed_fields ps) ≡ sha256 (hashed_fields pt)
      → hashed_fields ps ≡ hashed_fields pt

  fingerprint-parts :
      (sha256 : Bytes → Bytes) (source : KeySource) (f : Bytes)
      → ((x : Bytes) → length (sha256 x) ≡ 32)
      → fingerprint_key_source g sha256 source ≡ ok f
      → (parts : List Bytes) × (key_source_parts g source ≡ ok parts)
        × (sha256 (hashed_fields parts) ≡ f)
  unfolding fingerprint_key_source
  fingerprint-parts sha256 source f sized e = bind_ok (key_source_parts g source) _ e λ parts p q. (
    parts,
    p,
    sym (take-append (sha256 (hashed_fields parts)) (replicate 32 0) 32 (sized _))
        ∙ ground (arith, q),
  )

  -- Two key sources that the enclave accepts, with fields shorter than 2^32 bytes, have the same
  -- fingerprint only if they are equal, where the hash gives 32 bytes and these two sources are no
  -- collision of it.
  pub fingerprint_key_source_injective :
      (sha256 : Bytes → Bytes) (s t : KeySource) (f : Bytes)
      → ((x : Bytes) → length (sha256 x) ≡ 32)
      → NoCollision sha256 s t
      → HasShortFields s
      → HasShortFields t
      → fingerprint_key_source g sha256 s ≡ ok f
      → fingerprint_key_source g sha256 t ≡ ok f
      → s ≡ t
  fingerprint_key_source_injective sha256 s t f sized apart hs ht es et =
      let (ps, p, q) = fingerprint-parts sha256 s f sized es in
      let (pt, p', q') = fingerprint-parts sha256 t f sized et in
      let same : ps ≡ pt =
        hashed_fields_injective ps pt (parts-AreShort s ps hs p) (parts-AreShort t pt ht p')
          (apart ps pt p p' (q ∙ sym q')) in
      parts_injective s t ps p (p' ∙ ap ok (sym same))
