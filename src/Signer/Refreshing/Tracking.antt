-- ===== src/Signer/Refreshing/Tracking.antt =====
-- About `runAttestationRefresh` of internal/app/service/signer/v1/signer.go.
use arc_remote_signer.Common.{◌≤◌, ◌<◌, ◌≡◌, some, All}
use arc_remote_signer.Common.Int.{pos_part}
use arc_remote_signer.GoError.{ok}
use arc_remote_signer.Signer.{KeyState}
use arc_remote_signer.Signer.Validity.{Decoders, parse_attestation_validity}
use arc_remote_signer.Signer.Refreshing.{Refresher}

-- The goroutine's validity is that of the loaded key, which is still the first one's and whose
-- document lasts at least as long; that validity is the one read from its document; and every timer
-- was set to a positive delay.
pub record IsTracking (d : Decoders) (first : KeyState) (r : Refresher) : Type 0 where
  pub key : KeyState
  pub loaded : r.loaded_key ≡ some key
  pub same_key : key.public_key ≡ first.public_key
  pub tracked : r.validity ≡ key.attestation_validity
  pub dated : parse_attestation_validity d key.attestation_document ≡ ok key.attestation_validity
  pub no_shorter : first.attestation_validity.not_after ≤ key.attestation_validity.not_after
  pub positive : All (λ d. 0 < pos_part d) r.delays
