-- ===== src/Tests/ServiceTests.antt =====
-- A run of `runInit` of internal/enclave/service/enclave/initrunner.go.
use arc_remote_signer.Common.{true, ℕ, false, [], ◌∷◌, none, some, ◌≡◌, refl, subst, codes}
use arc_remote_signer.GoError.{new, ok, err, wrap, sentinel, invalid_region, IsGrpc}
use arc_remote_signer.Proto.{
  SecretEnvelope, algorithm_bls, existing_key, generate_new, InitializeRequest,
}
use arc_remote_signer.Kms.Config.{AwsConfig}
use arc_remote_signer.Kms.Regions.{is_kms_region}
use arc_remote_signer.Envelope.{EnclaveProvider, KmsProvider, open_data_key, to_status_error}
use arc_remote_signer.Envelope.Status.{to_status_error-IsStatusError}
use arc_remote_signer.Envelope.Recovery.{IsRecoverable}
use arc_remote_signer.EnclaveService.{Service, attestation_of, run_init}
use arc_remote_signer.EnclaveService.Recovery.{unpublished, later_service, run_init_recovers}
use arc_remote_signer.Tests.Data.{test_grpc, test_hash}
use arc_remote_signer.Tests.EnclaveTests.{
  test_data_key, test_environment, test_kms, test_generated, test-IsRecoverable,
}

abbrev pub test_service : Service ℕ
test_service = record {
  env = test_environment;
  outside = record {
    arn_parse = λ b. err (new "no ARN");
    url_parse = λ b. ok (record {
      scheme = codes "http";
      has_user = false;
      host = codes "proxy:1";
      hostname = codes "proxy";
      port = codes "1";
      fragment = [];
    });
    new_amazon_root_ca_pool = ok tt;
  };
  awsproxy_endpoint = codes "http://proxy:1";
  sha256 = test_hash;
  kms_factory = λ cfg arns. ok test_kms;
}

abbrev pub test_request : InitializeRequest
test_request = record {
  credentials = some (record {
    access_key_id = 1 ∷ [];
    secret_access_key = 2 ∷ [];
    session_token = 3 ∷ [];
    region = codes "us-east-1";
  });
  kms_key_arns = (4 ∷ []) ∷ [];
  kms_localstack_enabled = false;
  key_source = generate_new algorithm_bls;
}

-- The same service in Nitro mode; a document is the public key behind the moment of its making.
abbrev nitro_enclave : ℕ → EnclaveProvider
nitro_enclave now = record {
  decrypt_kms_enveloped_key = λ b. ok test_data_key;
  attest_kms_recipient = ok [];
  attest = λ b. ok (now ∷ b);
}

abbrev nitro_service : Service ℕ
nitro_service = record test_service {
  env = record test_environment {
    nitro_enclave_enabled = true;
    enclave_pvd = some (nitro_enclave 1);
  };
}

nitro-IsRecoverable : IsRecoverable nitro_service.env test_kms
unfolding open_data_key
nitro-IsRecoverable = record {
  kms_returns = λ plain encrypted sealed opened failure e h. (test_data_key, [], refl, cc);
  gcm_opens = λ key plain cipher nonce e. cc;
  key_returns = test-IsRecoverable.key_returns;
}

factory-IsRecoverable :
    (cfg : AwsConfig) (pvd : KmsProvider)
    → nitro_service.kms_factory cfg test_request.kms_key_arns ≡ ok pvd
    → IsRecoverable nitro_service.env pvd
factory-IsRecoverable cfg pvd e =
    subst (IsRecoverable nitro_service.env) (same e) nitro-IsRecoverable
  where
    same : {a b : KmsProvider} → ok a ≡ ok b → a ≡ b
    same q = cc

run_init_recovers_example :
    (env : SecretEnvelope) × (key : ℕ) × (some test_generated.envelope ≡ some env)
    × (run_init
          (later_service nitro_service (λ b. ok (2 ∷ b)))
          (record test_request { key_source = existing_key (some env) })
        ≡ ok (some (unpublished nitro_service key (5 ∷ []) (2 ∷ 5 ∷ []) none)))
unfolding run_init attestation_of is_kms_region
run_init_recovers_example =
    run_init_recovers nitro_service (λ b. ok (2 ∷ b)) test_request algorithm_bls
      (unpublished nitro_service 5 (5 ∷ []) (1 ∷ 5 ∷ []) (some test_generated.envelope))
      (2 ∷ 5 ∷ []) factory-IsRecoverable refl refl refl

test_grpc-IsGrpc : IsGrpc test_grpc
test_grpc-IsGrpc = record {
  code-status = λ c m. refl;
  message-status = λ c m. refl;
  is_status-status = λ c m. refl;
}

to_status_error_example :
    test_grpc.is_status
      (to_status_error test_grpc "kms" (wrap "region: " (sentinel invalid_region)))
    ≡ true
to_status_error_example =
    to_status_error-IsStatusError test_grpc test_grpc-IsGrpc "kms"
      (wrap "region: " (sentinel invalid_region))
