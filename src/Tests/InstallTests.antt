-- ===== src/Tests/InstallTests.antt =====
-- A run of the enclave's service with its gate.
use mathlib.Core.List.{Memᴰ}
use arc_remote_signer.Common.{ℕ, List, [], ◌∷◌, none, some, refl, codes, replicate}
use arc_remote_signer.GoError.{ok}
use arc_remote_signer.Proto.{InitializeResponse}
use arc_remote_signer.Kms.Regions.{is_kms_region}
use arc_remote_signer.Gate.{Answer, new_init_gate, response_for_fingerprint}
use arc_remote_signer.EnclaveService.{Service}
use arc_remote_signer.EnclaveService.Concurrent.{
  ServiceEvent, initialize, joins, begins, init_returns, service_run,
}
use arc_remote_signer.EnclaveService.Installed.{IsInstalled, initialize-IsInstalled}
use arc_remote_signer.Tests.EnclaveTests.{test_generated}
use arc_remote_signer.Tests.ServiceTests.{test_service, test_request}

abbrev test_running : Service ℕ
test_running = record test_service {
  outside = record (test_service.outside) {
    arn_parse = λ b.
        ok (record { partition = codes "aws"; service = codes "kms"; region = codes "us-east-1" });
  };
}

abbrev test_events : List ServiceEvent
test_events =
    initialize 1 (some test_request)
    ∷ joins 1
    ∷ begins
    ∷ init_returns test_request
    ∷ initialize 2 none
    ∷ []

abbrev test_resp : InitializeResponse
test_resp = record {
  public_key = 5 ∷ [];
  attestation_document = [];
  secret_envelope = some test_generated.envelope;
}

abbrev test_answer : Answer
test_answer = record {
  caller = record { id = 1; fingerprint = replicate 32 0 };
  result = ok test_resp;
}

initialize_example :
    IsInstalled test_running
      (service_run test_running (new_init_gate ℕ) test_events).ready
      test_resp
      (6 ∷ [])
unfolding service_run is_kms_region response_for_fingerprint
initialize_example =
    initialize-IsInstalled test_running test_events test_answer test_resp (6 ∷ [])
      (Memᴰ.tail (Memᴰ.head refl)) refl
