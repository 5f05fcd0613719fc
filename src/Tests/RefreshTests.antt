-- ===== src/Tests/RefreshTests.antt =====
-- Runs of the goroutine that refreshes the attestation document.
use arc_remote_signer.Common.{
  if◌then◌else◌, bytes_eq, ◌≤◌, Bytes, ◌+◌, ◌*◌, ◌<◌, true, false, List, [], ◌∷◌, ◌≡◌, ◌⊎◌, arith,
}
use arc_remote_signer.Common.Int.{pos_part}
use arc_remote_signer.GoError.{Result, ok}
use arc_remote_signer.Signer.Validity.{AttestationValidity, Decoders, Certificate}
use arc_remote_signer.Signer.Refreshing.{second, attestation_refresh_delay, Round, fired, cancelled}
use arc_remote_signer.Signer.Refreshing.Delay.{
  IsRetryDelay, fresh_until, attestation_refresh_delay-bounded, refresh_before_expiry,
}
use arc_remote_signer.Tests.HostTests.{test_decoders, test_client}

-- Three hours.
abbrev test_validity : AttestationValidity
test_validity = record { not_before = 100 * second; not_after = 10900 * second }

attestation_refresh_delay_example :
    ((false ≡ false)
      × (200 * second < fresh_until test_validity)
      × (200 * second + pos_part (attestation_refresh_delay (200 * second) test_validity false)
          ≡ fresh_until test_validity))
    ⊎ (((false ≡ true) ⊎ (fresh_until test_validity ≤ 200 * second))
        × IsRetryDelay (attestation_refresh_delay (200 * second) test_validity false))
attestation_refresh_delay_example =
    attestation_refresh_delay-bounded (200 * second) test_validity false (omega arith) (omega arith)
      (omega arith)

refresh_before_expiry_example :
    200 * second + pos_part (attestation_refresh_delay (200 * second) test_validity false)
    < 10900 * second
refresh_before_expiry_example =
    refresh_before_expiry (200 * second) test_validity false (omega arith) (omega arith)
      (omega arith)

abbrev test_rounds : List Round
test_rounds = fired 12 20 test_client ∷ fired 21 22 test_client ∷ cancelled 30 ∷ []

-- The first document ends at 40, and every other one at 50.
parse_dated : Bytes → Result Certificate
parse_dated b = ok (record { not_before = 10; not_after = if bytes_eq b (1 ∷ []) then 40 else 50 })

abbrev dated_decoders : Decoders
dated_decoders = record test_decoders {
  attestation_payload = λ b. ok (record { certificate = b; ca_bundle = [] });
  parse_certificate = parse_dated;
}
