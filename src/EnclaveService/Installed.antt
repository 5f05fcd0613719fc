-- ===== src/EnclaveService/Installed.antt =====
-- About `Initialize`, `GetPublicKey` and `SignMessage` of internal/enclave/service/enclave.
use mathlib.Core.List.{Memᴰ}
use arc_remote_signer.Common.{
  All-mem, ℕ, List, [], ◌∷◌, Option, none, some, ◌≡◌, refl, sym, ap, ◌∙◌, arith, Bytes, inl, inr,
}
use arc_remote_signer.GoError.{
  Err, status, internal, Result, ok, err, ◌>>=◌, map_err, Result-cases, bind_ok, map_err_ok,
}
use arc_remote_signer.Proto.{
  InitializeRequest, InitializeResponse, KeySource, unset, existing_key, generate_new,
}
use arc_remote_signer.Kms.Config.{build_config}
use arc_remote_signer.Fingerprint.{to_algorithm}
use arc_remote_signer.Gate.{
  ReadyState, Answer, Gate, new_init_gate, Event, arrive, join, begin_run, finish, cancel, step,
}
use arc_remote_signer.Gate.Invariant.{Inv, Justified, JustifiedBy, step-Inv, new_init_gate-Inv}
use arc_remote_signer.Gate.Agreement.{response_public_key}
use arc_remote_signer.Gate.Origin.{step-IsFrom}
use arc_remote_signer.Envelope.{
  Environment, KmsProvider, Generated, generate_envelope_candidate, load_key_candidate,
  open_data_key, canonical_data_key,
}
use arc_remote_signer.EnclaveService.{
  Service, Candidate, or_zero, candidate, attestation_of, run_init, active_key, get_public_key,
  sign_message,
}
use arc_remote_signer.EnclaveService.Concurrent.{
  ServiceEvent, initialize, joins, begins, init_returns, init_times_out, cancels, enter,
  service_step, service_run,
}

generated-public_key :
    {K : Type 0} (s : Environment K) (pvd : KmsProvider) (algorithm : ℕ) (made : Generated s)
    → generate_envelope_candidate s (some pvd) algorithm ≡ ok made
    → s.crypto.public_key made.key ≡ ok made.public_key
unfolding generate_envelope_candidate
generated-public_key s pvd algorithm made h = map_err_ok _ (to_algorithm algorithm) _ h λ alg p₁ h₁.
    map_err_ok _ pvd.generate_data_key _ h₁ λ t p₂ h₂.
      bind_ok (open_data_key s t.0 t.2 (status internal "key generation failed")) _ h₂
        λ opened p₃ h₃. map_err_ok _ (canonical_data_key opened) _ h₃ λ data_key p₄ h₄.
          map_err_ok _ (s.crypto.new_secret_key alg) _ h₄ λ key p₅ h₅.
            map_err_ok _ (s.crypto.serialize key) _ h₅ λ bytes p₆ h₆.
              map_err_ok _ (s.crypto.public_key key) _ h₆ λ public p₇ h₇.
                map_err_ok _ (s.gcm.encrypt data_key bytes) _ h₇ λ sealed p₈ h₈. ground arith

module _ {K : Type 0} (s : Service K) where
  candidate-public_key :
      (pvd : KmsProvider) (source : KeySource) (made : Candidate s)
      → candidate s pvd source ≡ ok made
      → s.env.crypto.public_key made.key ≡ ok made.public_key
  unfolding candidate
  candidate-public_key pvd unset made h = absurd cc
  candidate-public_key pvd (existing_key env) made h =
      elim (Result-cases (load_key_candidate s.env (some pvd) (or_zero s env))) [
        | inr (e, p) ↦ absurd (ground arith)
        | inl (key, p) ↦ elim (Result-cases (s.env.crypto.public_key key)) [
          | inr (e, q) ↦ absurd (ground arith)
          | inl (public_key, q) ↦ ground arith
        ]
      ]
  candidate-public_key pvd (generate_new algorithm) made h =
      bind_ok (generate_envelope_candidate s.env (some pvd) algorithm) _ h
        λ g p q. let r = generated-public_key s.env pvd algorithm g p in ground arith

  -- The key of a Ready state is the one whose public key it answers.
  abbrev HasOwnKey : ReadyState K → Type 0
  HasOwnKey state = s.env.crypto.public_key state.key ≡ ok state.response.public_key

  run_init-HasOwnKey :
      (req : InitializeRequest) (state : ReadyState K)
      → run_init s req ≡ ok (some state)
      → HasOwnKey state
  unfolding run_init
  run_init-HasOwnKey req state h =
      map_err_ok _
        (build_config s.outside req.credentials s.awsproxy_endpoint req.kms_localstack_enabled) _ h
        λ cfg p₁ h₁. map_err_ok _ (s.kms_factory cfg req.kms_key_arns) _ h₁ λ pvd p₂ h₂.
          bind_ok (candidate s pvd req.key_source) _ h₂ λ made p₃ h₃.
            bind_ok (attestation_of s made.public_key) _ h₃ λ document p₄ h₄.
              let r = candidate-public_key pvd req.key_source made p₃ in ground arith

  -- The gate's invariant, with a published key that is its response's.
  pub record IsServing (gate : Gate K) : Type 0 where
    pub gate_inv : Inv gate
    pub own : (state : ReadyState K) → gate.ready ≡ some state → HasOwnKey state

  step-IsServing :
      (gate : Gate K) (e : Event K)
      → ((state : ReadyState K) → e ≡ finish (ok (some state)) → HasOwnKey state)
      → IsServing gate
      → IsServing (step s.env.grpc s.sha256 gate e)
  step-IsServing gate e given v = record {
    gate_inv = step-Inv s.env.grpc s.sha256 gate e v.gate_inv;
    own = λ state h. elim (step-IsFrom s.env.grpc s.sha256 gate e state h) [
      | inl same ↦ v.own state same
      | inr (outcome, p, f) ↦
          ap s.env.crypto.public_key f.key
          ∙ given f.given (p ∙ ap finish f.outcome_is)
          ∙ ap (λ (r : InitializeResponse). ok r.public_key) (sym f.response)
    ];
  }

  refused-IsServing :
      (gate : Gate K) (id : ℕ) (e : Err) → IsServing gate → IsServing (enter s gate id (err e))
  unfolding enter
  refused-IsServing gate id e v = record {
    gate_inv = record {
      exclusive = v.gate_inv.exclusive;
      attended = v.gate_inv.attended;
      once = v.gate_inv.once;
      justified = ((λ resp p. absurd cc), v.gate_inv.justified);
    };
    own = v.own;
  }

  enter-IsServing :
      (gate : Gate K) (id : ℕ) (admitted : Result Bytes)
      → IsServing gate
      → IsServing (enter s gate id admitted)
  unfolding enter
  enter-IsServing gate id (err e) v = refused-IsServing gate id e v
  enter-IsServing gate id (ok fingerprint) v =
      step-IsServing gate (arrive (record { id = id; fingerprint = fingerprint }))
        (λ state e. absurd cc) v

  service_step-IsServing :
      (gate : Gate K) (e : ServiceEvent) → IsServing gate → IsServing (service_step s gate e)
  unfolding service_step
  service_step-IsServing gate (initialize id req) v = enter-IsServing gate id _ v
  service_step-IsServing gate (joins id) v = step-IsServing gate (join id) (λ state e. absurd cc) v
  service_step-IsServing gate begins v = step-IsServing gate begin_run (λ state e. absurd cc) v
  service_step-IsServing gate (init_returns req) v =
      step-IsServing gate (finish (run_init s req)) (λ state e. run_init-HasOwnKey req state cc) v
  service_step-IsServing gate (init_times_out x) v =
      step-IsServing gate (finish (err x)) (λ state e. absurd cc) v
  service_step-IsServing gate (cancels id x) v =
      step-IsServing gate (cancel id x) (λ state e. absurd cc) v

  service_run-IsServing :
      (gate : Gate K) (es : List ServiceEvent) → IsServing gate → IsServing (service_run s gate es)
  unfolding service_run
  service_run-IsServing gate [] v = v
  service_run-IsServing gate (e ∷ es) v =
      service_run-IsServing (service_step s gate e) es (service_step-IsServing gate e v)

  -- What the handlers do with the published state once Initialize has given this response.
  abbrev pub IsInstalled : Option (ReadyState K) → InitializeResponse → Bytes → Type 0
  IsInstalled ready resp message =
      (key : K) × (s.env.crypto.public_key key ≡ ok resp.public_key)
      × (get_public_key s ready ≡ (
          attestation_of s resp.public_key >>= λ document.
          ok (record { public_key = resp.public_key; attestation_document = document })))
      × (sign_message s ready message
          ≡ map_err (λ _. status internal "failed to sign message")
              (s.env.crypto.sign_message key message))

  justified-IsInstalled :
      (ready : Option (ReadyState K)) (fingerprint : Bytes) (resp : InitializeResponse)
      (message : Bytes)
      → JustifiedBy ready fingerprint resp
      → ((state : ReadyState K) → ready ≡ some state → HasOwnKey state)
      → IsInstalled ready resp message
  unfolding get_public_key sign_message active_key
  justified-IsInstalled none fingerprint resp message j own = absurd j
  justified-IsInstalled (some state) fingerprint resp message j own =
      let (same, _) = response_public_key state fingerprint resp j in
      let q : s.env.crypto.public_key state.key ≡ ok resp.public_key =
        own state refl ∙ ap ok (sym same) in
      (state.key, q, rw q refl, refl)

  -- However Initialize calls interleave, once one has succeeded with a public key, a key of that
  -- public key is installed: GetPublicKey attests and returns the same public key, and SignMessage
  -- signs with that key.
  pub initialize-IsInstalled :
      (es : List ServiceEvent) (a : Answer) (resp : InitializeResponse) (message : Bytes)
      → Memᴰ a (service_run s (new_init_gate K) es).answers
      → a.result ≡ ok resp
      → IsInstalled (service_run s (new_init_gate K) es).ready resp message
  initialize-IsInstalled es a resp message m h =
      let gate = service_run s (new_init_gate K) es in
      let v =
        service_run-IsServing (new_init_gate K) es
          (record { gate_inv = new_init_gate-Inv K; own = λ state e. absurd cc }) in
      justified-IsInstalled gate.ready a.caller.fingerprint resp message
        (All-mem (Justified gate.ready) v.gate_inv.justified m resp h) v.own
