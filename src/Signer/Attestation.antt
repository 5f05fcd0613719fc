-- ===== src/Signer/Attestation.antt =====
-- About `parseAttestationValidity` and `validateAt` of internal/app/service/signer/v1/attestation.go.
use arc_remote_signer.Common.{
  ℕ, ◌≤◌, ◌<◌, List, [], ◌∷◌, ◌≡◌, refl, sym, ◌∙◌, arith, Bytes, ◌↔◌, ◌⊎◌, inl, inr, All,
}
use arc_remote_signer.GoError.{ok, map_err_ok}
use arc_remote_signer.Signer.Validity.{
  AttestationValidity, no_validity, validate_at, Certificate, Decoders, narrow, parse_certificates,
  payload_of, AttestationPayload, parse_attestation_validity,
}

-- `now` lies in the half-open interval of the certificate.
pub data IsCurrent (d : Decoders) (now : ℕ) (data_ : Bytes) : Type 0 where
  current :
      {c : Certificate}
      → d.parse_certificate data_ ≡ ok c
      → c.not_before ≤ now
      → now < c.not_after
      → IsCurrent d now data_

-- No certificate ends at the zero time, which the code takes for a missing bound.
abbrev pub HasEnd : Decoders → Bytes → Type 0
HasEnd d data_ = (c : Certificate) → d.parse_certificate data_ ≡ ok c → 0 < c.not_after

validate_at_iff :
    (v : AttestationValidity) (now : ℕ)
    → (validate_at v now ≡ ok tt) ↔ ((v.not_before ≤ now) × (now < v.not_after))
unfolding validate_at
validate_at_iff v now = ground arith

narrow_iff :
    (v : AttestationValidity) (c : Certificate) (now : ℕ)
    → 0 < c.not_after
    → (((narrow v c).not_before ≤ now) × (now < (narrow v c).not_after)) ↔ (
        (v.not_before ≤ now)
        × ((v.not_after ≡ 0) ⊎ (now < v.not_after))
        × (c.not_before ≤ now)
        × (now < c.not_after))
unfolding narrow
narrow_iff v c now h = ground arith

narrow_ends :
    (v : AttestationValidity) (c : Certificate) → 0 < c.not_after → 0 < (narrow v c).not_after
unfolding narrow
narrow_ends v c h = ground arith

IsCurrent-iff :
    (d : Decoders) (now : ℕ) (data_ : Bytes) (c : Certificate)
    → d.parse_certificate data_ ≡ ok c
    → IsCurrent d now data_ ↔ ((c.not_before ≤ now) × (now < c.not_after))
IsCurrent-iff d now data_ c p = (to, λ h. current p h.0 h.1)
  where
    same : {a b : Certificate} → ok a ≡ ok b → a ≡ b
    same h = cc

    to : IsCurrent d now data_ → (c.not_before ≤ now) × (now < c.not_after)
    to (current q a b) = let e = same (sym q ∙ p) in (rw e at a, rw e at b)

-- The loop over the certificates, from a validity that has an end.
rest_iff :
    (d : Decoders) (now : ℕ) (v w : AttestationValidity) (rest : List Bytes)
    → All (HasEnd d) rest
    → 0 < v.not_after
    → parse_certificates d v rest ≡ ok w
    → ((w.not_before ≤ now) × (now < w.not_after))
      ↔ ((v.not_before ≤ now) × (now < v.not_after) × All (IsCurrent d now) rest)
unfolding parse_certificates
rest_iff d now v w [] ends h eq =
    let e = same eq in (rw (← e) (λ t. (t.0, t.1, tt)), rw (← e) (λ t. (t.0, t.1)))
  where
    same : {a b : AttestationValidity} → ok a ≡ ok b → a ≡ b
    same h = cc
rest_iff d now v w (x ∷ rest) ends h eq = map_err_ok _ (d.parse_certificate x) _ eq λ c p eq₁.
    let end = ends.0 c p in
    let (to, from) = rest_iff d now (narrow v c) w rest ends.1 (narrow_ends v c end) eq₁ in
    let (split, join) = narrow_iff v c now end in
    let (out, into) = IsCurrent-iff d now x c p in
    (
      (λ t.
          let (a, b, all) = to t in
          let (e, f, k, l) = split (a, b) in (e, ends_later f, (into (k, l), all))),
      (λ t. let (a, b) = join (t.0, inr t.1, (out t.2.0).0, (out t.2.0).1) in from (a, b, t.2.1)),
    )
  where
    ends_later : (v.not_after ≡ 0) ⊎ (now < v.not_after) → now < v.not_after
    ends_later u = omega (arith, u, h)

from_none_iff :
    (d : Decoders) (now : ℕ) (w : AttestationValidity) (x : Bytes) (rest : List Bytes)
    → All (HasEnd d) (x ∷ rest)
    → parse_certificates d no_validity (x ∷ rest) ≡ ok w
    → ((w.not_before ≤ now) × (now < w.not_after)) ↔ All (IsCurrent d now) (x ∷ rest)
unfolding parse_certificates
from_none_iff d now w x rest ends eq = map_err_ok _ (d.parse_certificate x) _ eq λ c p eq₁.
    let end = ends.0 c p in
    let (to, from) =
      rest_iff d now (narrow no_validity c) w rest ends.1 (narrow_ends no_validity c end) eq₁ in
    let (split, join) = narrow_iff no_validity c now end in
    let (out, into) = IsCurrent-iff d now x c p in
    (
      (λ t. let (a, b, all) = to t in let (e, f, k, l) = split (a, b) in (into (k, l), all)),
      (λ t.
          let (a, b) = join (omega arith, inl refl, (out t.0).0, (out t.0).1) in from (a, b, t.1)),
    )

parsed :
    (d : Decoders) (document : Bytes) (payload : AttestationPayload) (v : AttestationValidity)
    → payload_of d document ≡ ok payload
    → parse_attestation_validity d document ≡ ok v
    → parse_certificates d no_validity (payload.certificate ∷ payload.ca_bundle) ≡ ok v
unfolding parse_attestation_validity
parsed d document payload v found eq = rw found at eq

-- The validity read from a document admits a moment exactly when every certificate of the
-- document's payload is current at that moment, provided that none of them ends at the zero time.
pub attestation_validity_iff :
    (d : Decoders) (now : ℕ) (document : Bytes) (payload : AttestationPayload)
    (v : AttestationValidity)
    → payload_of d document ≡ ok payload
    → All (HasEnd d) (payload.certificate ∷ payload.ca_bundle)
    → parse_attestation_validity d document ≡ ok v
    → (validate_at v now ≡ ok tt) ↔ All (IsCurrent d now) (payload.certificate ∷ payload.ca_bundle)
attestation_validity_iff d now document payload v found ends eq =
    let (to, from) =
      from_none_iff d now v payload.certificate payload.ca_bundle ends
        (parsed d document payload v found eq) in
    let (split, join) = validate_at_iff v now in ((λ h. to (split h)), (λ h. join (from h)))
