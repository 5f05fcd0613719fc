-- ===== src/EnclaveService/Recovery.antt =====
-- About `runInit` of internal/enclave/service/enclave/initrunner.go: generation, then recovery.
use arc_remote_signer.Common.{ap, ◌∙◌, false, [], Option, none, some, ◌≡◌, refl, subst, Bytes}
use arc_remote_signer.GoError.{Result, ok, map_err_ok, bind_ok}
use arc_remote_signer.Proto.{
  Algorithm, SecretEnvelope, existing_key, generate_new, InitializeRequest,
}
use arc_remote_signer.Kms.Config.{AwsConfig, build_config}
use arc_remote_signer.Gate.{ReadyState}
use arc_remote_signer.Envelope.{
  KmsProvider, Generated, load_key_candidate, generate_envelope_candidate,
}
use arc_remote_signer.Envelope.Recovery.{
  IsRecoverable, load-generate, at_another_time, load_key_candidate-attest,
}
use arc_remote_signer.EnclaveService.{Service, Candidate, candidate, attestation_of, run_init}

module _ {K : Type 0} (s : Service K) where
  -- The Ready state that `run_init` builds before the gate publishes it.
  abbrev pub unpublished : K → Bytes → Bytes → Option SecretEnvelope → ReadyState K
  unpublished key public_key document envelope = record {
    fingerprint = [];
    generated_envelope_fingerprint = [];
    has_generated_envelope_fingerprint = false;
    key = key;
    response = record {
      public_key = public_key;
      attestation_document = document;
      secret_envelope = envelope;
    };
  }

  candidate-generated :
      (pvd : KmsProvider)
      → (algorithm : Algorithm) → (made : Candidate s)
      → candidate s pvd (generate_new algorithm) ≡ ok made
      → (g : Generated s.env) × (generate_envelope_candidate s.env (some pvd) algorithm ≡ ok g)
        × (record { key = g.key; public_key = g.public_key; envelope = some g.envelope } ≡ made)
  unfolding candidate
  candidate-generated pvd algorithm made h =
      bind_ok (generate_envelope_candidate s.env (some pvd) algorithm) _ h λ g p q. (g, p, same q)
    where
      same : {a b : Candidate s} → ok a ≡ ok b → a ≡ b
      same e = cc

  candidate-loaded :
      (pvd : KmsProvider)
      → (env : SecretEnvelope) → (k : K) → (public_key : Bytes)
      → load_key_candidate s.env (some pvd) env ≡ ok k
      → s.env.crypto.public_key k ≡ ok public_key
      → candidate s pvd (existing_key (some env))
        ≡ ok (record { key = k; public_key = public_key; envelope = none })
  unfolding candidate
  candidate-loaded pvd env k public_key p q = rw (p, q) refl

  run_init_with :
      (req : InitializeRequest)
      → (cfg : AwsConfig) → (pvd : KmsProvider) → (made : Candidate s) → (document : Bytes)
      → build_config s.outside req.credentials s.awsproxy_endpoint req.kms_localstack_enabled
        ≡ ok cfg
      → s.kms_factory cfg req.kms_key_arns ≡ ok pvd
      → candidate s pvd req.key_source ≡ ok made
      → attestation_of s made.public_key ≡ ok document
      → run_init s req ≡ ok (some (unpublished made.key made.public_key document made.envelope))
  unfolding run_init
  run_init_with req cfg pvd made document p q r t = rw (p, q, r, t) refl

-- The service at another time, at which the security module answers differently.
abbrev pub later_service : {K : Type 0} → Service K → (Bytes → Result Bytes) → Service K
later_service s attest = record s { env = at_another_time s.env attest }

module _ {K : Type 0} (s : Service K) (attest : Bytes → Result Bytes) where
  abbrev Recovers : InitializeRequest → Bytes → ReadyState K → Type 0
  Recovers req document state =
      (env : SecretEnvelope) × (key : K) × (state.response.secret_envelope ≡ some env)
      × (run_init (later_service s attest) (record req { key_source = existing_key (some env) })
          ≡ ok (some (unpublished s key state.response.public_key document none)))

  -- When `runInit` succeeds on a request to generate a key, its response holds an envelope, and on
  -- the same request with that envelope for an existing key it succeeds too at any other time at
  -- which the public key can be attested, with the same public key, with the document that it is
  -- given then, and without an envelope, if KMS, AES-GCM and the key type keep what they promise.
  pub run_init_recovers :
      (req : InitializeRequest) (algorithm : Algorithm) (state : ReadyState K) (document : Bytes)
      → ((cfg : AwsConfig) (pvd : KmsProvider)
          → s.kms_factory cfg req.kms_key_arns ≡ ok pvd
          → IsRecoverable s.env pvd)
      → req.key_source ≡ generate_new algorithm
      → run_init s req ≡ ok (some state)
      → attestation_of (later_service s attest) state.response.public_key ≡ ok document
      → (env : SecretEnvelope) × (key : K) × (state.response.secret_envelope ≡ some env)
        × (run_init (later_service s attest) (record req { key_source = existing_key (some env) })
            ≡ ok (some (unpublished s key state.response.public_key document none)))
  unfolding run_init
  run_init_recovers req algorithm state document recoverable source h attested =
      map_err_ok _
        (build_config s.outside req.credentials s.awsproxy_endpoint req.kms_localstack_enabled) _ h
        λ cfg p₁ h₁. map_err_ok _ (s.kms_factory cfg req.kms_key_arns) _ h₁ λ pvd p₂ h₂.
          bind_ok (candidate s pvd req.key_source) _ h₂ λ made p₃ h₃.
            bind_ok (attestation_of s made.public_key) _ h₃ λ before p₄ h₄.
              let (g, p, e) = candidate-generated s pvd algorithm made (rw source at p₃) in
              let (k, loaded, public) =
                load-generate s.env pvd algorithm g (recoverable cfg pvd p₂) p in
              let again : attestation_of (later_service s attest) g.public_key ≡ ok document =
                ap (λ b. attestation_of (later_service s attest) b)
                  (ap (λ (m : Candidate s). m.public_key) e
                    ∙ ap (λ (r : ReadyState K). r.response.public_key) (same h₄))
                ∙ attested in
              let replayed =
                run_init_with (later_service s attest)
                  (record req { key_source = existing_key (some g.envelope) }) cfg pvd
                  (record { key = k; public_key = g.public_key; envelope = none }) document p₁ p₂
                  (candidate-loaded (later_service s attest) pvd g.envelope k g.public_key
                    (load_key_candidate-attest s.env attest (some pvd) g.envelope ∙ loaded) public)
                  again in
              subst (Recovers req document) (same h₄) (
                subst
                  (λ (m : Candidate s).
                    Recovers req document (unpublished s m.key m.public_key before m.envelope))
                  e (g.envelope, k, refl, replayed))
    where
      same : {a b : ReadyState K} → ok (some a) ≡ ok (some b) → a ≡ b
      same e = cc
