-- ===== src/Signer/Refreshing.antt =====
-- internal/app/service/signer/v1/attestation.go (`attestationRefreshDelay`) and signer.go
-- (`startAttestationRefresh`, `runAttestationRefresh`): the goroutine that keeps the attestation
-- document fresh. A time is its nanoseconds since the zero time; a `time.Duration` is a signed
-- integer of 64 bits. A round of the loop is given by what it meets: the context, the clock and
-- the enclave's client.
pub mod Delay
pub mod Tracking
use arc_remote_signer.Common.{
  ℕ, ◌+◌, ◌-◌, ◌*◌, ◌/◌, ◌%◌, ◌^◌, Bool, true, false, not, ◌&&◌, List, [], ◌∷◌, Option, none, some,
  ◌==◌, ltb, if◌then◌else◌,
}
use arc_remote_signer.Common.Int.{ℤ, pos, negsuc, pos_part, neg_part, sub_ℕ, ltb_ℤ, ◌+ℤ◌, ◌-ℤ◌}
use arc_remote_signer.GoError.{Err}
use arc_remote_signer.Signer.{KeyState, EnclaveClient, refresh_attestation}
use arc_remote_signer.Signer.Validity.{AttestationValidity, Decoders}

abbrev pub second : ℕ
second = 1000000000

abbrev pub attestation_refresh_retry_floor : ℤ
attestation_refresh_retry_floor = pos (30 * second)

abbrev pub attestation_refresh_retry_ceiling : ℤ
attestation_refresh_retry_ceiling = pos (300 * second)

abbrev pub max_duration : ℕ
max_duration = 2 ^ 63 - 1

-- `t.Sub(u)` stops at the bounds of a Duration.
abbrev pub saturated : ℤ → ℤ
saturated d =
    if ltb max_duration (pos_part d)
    then pos max_duration
    else if ltb (2 ^ 63) (neg_part d)
    then negsuc max_duration
    else d

-- A product that wraps around; the factor is small, so the sum of the shift is not negative.
abbrev pub wrapped : ℤ → ℤ
wrapped d = sub_ℕ (pos_part (d +ℤ pos (2 ^ 70 + 2 ^ 63)) % 2 ^ 64) (2 ^ 63)

abbrev pub scaled : ℤ → ℕ → ℤ
scaled d k = wrapped (sub_ℕ (pos_part d * k) (neg_part d * k))

-- Division towards zero.
abbrev pub quotient : ℤ → ℕ → ℤ
quotient d k = sub_ℕ (pos_part d / k) (neg_part d / k)

unfoldable pub refresh_at : AttestationValidity → ℤ
refresh_at v =
    pos v.not_before +ℤ quotient (scaled (saturated (pos v.not_after -ℤ pos v.not_before)) 4) 5

-- The delay of a retry, from the time that the document has left.
unfoldable pub retry_delay : ℤ → ℤ
retry_delay left =
    let delay = quotient (saturated left) 2 in
    if ltb_ℤ delay attestation_refresh_retry_floor
    then attestation_refresh_retry_floor
    else if ltb_ℤ attestation_refresh_retry_ceiling delay
    then attestation_refresh_retry_ceiling
    else delay

unfoldable pub attestation_refresh_delay : ℕ → AttestationValidity → Bool → ℤ
unfolding refresh_at retry_delay
attestation_refresh_delay now v retry =
    if not retry && ltb_ℤ (pos now) (refresh_at v)
    then saturated (refresh_at v -ℤ pos now)
    else retry_delay (pos v.not_after -ℤ pos now)

-- `startAttestationRefresh`: the validity that the goroutine begins with, if it is started.
unfoldable pub start_attestation_refresh : Option KeyState → Option AttestationValidity
start_attestation_refresh none = none
start_attestation_refresh (some key) =
    if key.attestation_validity.not_after == 0 then none else some key.attestation_validity

-- A round ends with the context, or with the timer, set at one time, and a refresh at a later one.
pub data Round : Type 0 where
  cancelled : ℕ → Round
  fired : ℕ → ℕ → EnclaveClient → Round

-- The goroutine's variables, with the key state that it refreshes; `delays` records the timers.
pub record Refresher : Type 0 where
  pub loaded_key : Option KeyState
  pub validity : AttestationValidity
  pub retry : Bool
  pub delays : List ℤ
  pub returned : Bool

abbrev pub new_refresher : KeyState → AttestationValidity → Refresher
new_refresher key v = record {
  loaded_key = some key;
  validity = v;
  retry = false;
  delays = [];
  returned = false;
}

-- What is behind `refreshAttestation` in a round.
unfoldable pub after_refresh :
    Refresher → Option KeyState × AttestationValidity × Option Err → Refresher
after_refresh r (key, v, some e) = record r { loaded_key = key; retry = true }
after_refresh r (key, v, none) = record r {
  loaded_key = key;
  retry = not (ltb r.validity.not_after v.not_after);
  validity = v;
}

module _ (d : Decoders) where
  unfoldable pub refresh_round : Refresher → Round → Refresher
  unfolding attestation_refresh_delay after_refresh
  refresh_round r (cancelled now) = record r {
    delays = attestation_refresh_delay now r.validity r.retry ∷ r.delays;
    returned = true;
  }
  refresh_round r (fired now later client) =
      after_refresh
        (record r { delays = attestation_refresh_delay now r.validity r.retry ∷ r.delays })
        (refresh_attestation d later client r.loaded_key)

  unfoldable pub run_attestation_refresh : Refresher → List Round → Refresher
  unfolding refresh_round
  run_attestation_refresh r [] = r
  run_attestation_refresh r (round ∷ rounds) =
      let rest = run_attestation_refresh (refresh_round r round) rounds in
      if r.returned then r else rest
