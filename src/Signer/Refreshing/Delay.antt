-- ===== src/Signer/Refreshing/Delay.antt =====
-- About `attestationRefreshDelay` of internal/app/service/signer/v1/attestation.go.
use arc_remote_signer.Common.{
  if◌then◌else◌, ltb, ℕ, ◌+◌, ◌-◌, ◌*◌, ◌/◌, ◌^◌, ◌≤◌, ◌<◌, ◌≡◌, refl, Bool, true, false, not, ◌&&◌,
  Bool-cases, ◌⊎◌, ap, inl, inr, arith,
}
use arc_remote_signer.Common.Int.{ℤ, pos, pos_part, neg_part, ltb_ℤ, ◌≤ℤ◌, ◌-ℤ◌}
use arc_remote_signer.Signer.Validity.{AttestationValidity}
use arc_remote_signer.Signer.Refreshing.{
  second, attestation_refresh_retry_floor, attestation_refresh_retry_ceiling, saturated, refresh_at,
  retry_delay, attestation_refresh_delay,
}

-- Between 30 seconds and 5 minutes.
abbrev pub IsRetryDelay : ℤ → Type 0
IsRetryDelay d = (attestation_refresh_retry_floor ≤ℤ d) × (d ≤ℤ attestation_refresh_retry_ceiling)

retry_delay-IsRetryDelay : (left : ℤ) → IsRetryDelay (retry_delay left)
unfolding retry_delay
retry_delay-IsRetryDelay left = ground arith

-- A minute or more left is not used up.
retry_delay-half : (left : ℕ) → 60 * second ≤ left → pos_part (retry_delay (pos left)) * 2 ≤ left
unfolding retry_delay
retry_delay-half left h = ground arith

saturated-positive : (d : ℤ) → 0 < pos_part d → 0 < pos_part (saturated d)
saturated-positive d h = ground arith

refresh_at-Is :
    (v : AttestationValidity)
    → v.not_before ≤ v.not_after
    → v.not_after - v.not_before < 2 ^ 61
    → refresh_at v ≡ pos (v.not_before + (v.not_after - v.not_before) * 4 / 5)
unfolding refresh_at
refresh_at-Is v h k = ground arith

refresh_at_between :
    (v : AttestationValidity)
    → v.not_before < v.not_after
    → v.not_after - v.not_before < 2 ^ 61
    → (pos_part (refresh_at v) < v.not_after) × (neg_part (refresh_at v) ≡ 0)
refresh_at_between v h k = rw (refresh_at-Is v (omega arith) k) (omega arith, refl)

saturated-below : (d : ℤ) → pos_part (saturated d) ≤ pos_part d
saturated-below d = ground arith

difference-below :
    (now : ℕ) (t : ℤ) → ltb_ℤ (pos now) t ≡ true → now + pos_part (t -ℤ pos now) ≡ pos_part t
difference-below now t h = ground arith

difference-positive : (now : ℕ) (t : ℤ) → ltb_ℤ (pos now) t ≡ true → 0 < pos_part (t -ℤ pos now)
difference-positive now t h = ground arith

IsRetryDelay-positive : (d : ℤ) → IsRetryDelay d → 0 < pos_part d
IsRetryDelay-positive d h = omega (arith, h.0)

difference-pos : (a b : ℕ) → b ≤ a → pos a -ℤ pos b ≡ pos (a - b)
difference-pos a b h = ground arith

pub attestation_refresh_delay-positive :
    (now : ℕ) (v : AttestationValidity) (retry : Bool)
    → 0 < pos_part (attestation_refresh_delay now v retry)
unfolding attestation_refresh_delay
attestation_refresh_delay-positive now v retry =
    elim (Bool-cases (not retry && ltb_ℤ (pos now) (refresh_at v))) [
      | inl due ↦ rw due (
          saturated-positive (refresh_at v -ℤ pos now)
            (difference-positive now (refresh_at v) (ground arith)))
      | inr late ↦ rw late (
          IsRetryDelay-positive (retry_delay (pos v.not_after -ℤ pos now))
            (retry_delay-IsRetryDelay (pos v.not_after -ℤ pos now)))
    ]

-- When four fifths of the document's lifetime are over.
abbrev pub fresh_until : AttestationValidity → ℕ
fresh_until v = v.not_before + (v.not_after - v.not_before) * 4 / 5

saturated-small : (n : ℕ) → n < 2 ^ 63 → saturated (pos n) ≡ pos n
saturated-small n h = ground arith

-- With a lifetime below 2^61 nanoseconds, and less than 2^63 left: on the first try, before four
-- fifths of the lifetime are over, the timer fires exactly when they are; otherwise, in a retry or
-- later, the delay is between 30 seconds and 5 minutes.
pub attestation_refresh_delay-bounded :
    (now : ℕ) (v : AttestationValidity) (retry : Bool)
    → v.not_before ≤ v.not_after
    → v.not_after - v.not_before < 2 ^ 61
    → v.not_after < now + 2 ^ 63
    → let delay = attestation_refresh_delay now v retry in
      ((retry ≡ false) × (now < fresh_until v) × (now + pos_part delay ≡ fresh_until v))
      ⊎ (((retry ≡ true) ⊎ (fresh_until v ≤ now)) × IsRetryDelay delay)
unfolding attestation_refresh_delay
attestation_refresh_delay-bounded now v retry order short near =
    rw (refresh_at-Is v order short) (by_branch retry (fresh_until v) (omega arith))
  where
    by_branch :
        (again : Bool) (until : ℕ)
        → until < now + 2 ^ 63
        → let delay =
            if not again && ltb_ℤ (pos now) (pos until)
            then saturated (pos until -ℤ pos now)
            else retry_delay (pos v.not_after -ℤ pos now) in
          ((again ≡ false) × (now < until) × (now + pos_part delay ≡ until))
          ⊎ (((again ≡ true) ⊎ (until ≤ now)) × IsRetryDelay delay)
    by_branch true until h = inr (inl refl, retry_delay-IsRetryDelay (pos v.not_after -ℤ pos now))
    by_branch false until h = elim (Bool-cases (ltb now until)) [
      | inl before ↦ inl (
        refl,
        ground arith,
        ground (
          arith,
          difference-pos until now (ground arith),
          saturated-small (until - now) (ground arith),
        ),
      )
      | inr late ↦ inr (
        inr (ground arith),
        ground (arith, retry_delay-IsRetryDelay (pos v.not_after -ℤ pos now)),
      )
    ]

-- With a lifetime below 2^61 nanoseconds and at least a minute left, the timer fires before the
-- document expires, in a retry too.
pub refresh_before_expiry :
    (now : ℕ) (v : AttestationValidity) (retry : Bool)
    → v.not_before < v.not_after
    → v.not_after - v.not_before < 2 ^ 61
    → now + 60 * second ≤ v.not_after
    → now + pos_part (attestation_refresh_delay now v retry) < v.not_after
unfolding attestation_refresh_delay
refresh_before_expiry now v retry h k left =
    elim (Bool-cases (not retry && ltb_ℤ (pos now) (refresh_at v))) [
      | inl due ↦ rw due (
          omega (
            arith,
            (refresh_at_between v h k).0,
            saturated-below (refresh_at v -ℤ pos now),
            difference-below now (refresh_at v) (ground arith),
          ))
      | inr late ↦ rw late (
          omega (
            arith,
            ap (λ (d : ℤ). pos_part (retry_delay d)) (difference-pos v.not_after now (omega arith)),
            retry_delay-half (v.not_after - now) (omega arith),
          ))
    ]
