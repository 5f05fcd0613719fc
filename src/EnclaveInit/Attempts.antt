-- ===== src/EnclaveInit/Attempts.antt =====
-- About `initializeEnclave` of internal/app/enclaveinit.go: when its attempts succeed.
use arc_remote_signer.Common.{
  ℕ, zero, suc, Bool, true, false, not, List, ◌==◌, Option, none, some, ◌≡◌, refl, sym, ap, inl,
  inr, ◌⊎◌, ◌↔◌, is_empty, Option-cases, ◌∙◌, subst, arith, Bytes,
}
use arc_remote_signer.GoError.{
  Code, unauthenticated, unavailable, deadline_exceeded, wrap, Err, Grpc, Result, ok, err,
  Result-cases,
}
use arc_remote_signer.Proto.{AwsCredentials, InitializeResponse}
use arc_remote_signer.EnclaveInit.{
  Surroundings, AwsSettings, EnclaveKeySource, Step, stop, retry, initialize_enclave, is_one_source,
  settle, attempt_once, attempt_loop, request_of,
}

-- The codes after which the host tries again.
pub data IsRetryable : Code → Type 0 where
  retry_unauthenticated : IsRetryable unauthenticated
  retry_unavailable : IsRetryable unavailable
  retry_deadline_exceeded : IsRetryable deadline_exceeded

module _ (g : Grpc) (env : Surroundings) (cfg : AwsSettings) (arns : List Bytes) (localstack : Bool)
    (source : EnclaveKeySource) where
  -- Attempts from number `attempt` on, of which `left` are left, meet a success: each attempt
  -- before it got credentials, sent the request that they make, and got an error with a retryable
  -- code, and the context was not done in the backoff after it.
  pub data Succeeds (resp : InitializeResponse) : (left attempt : ℕ) → Type 0 where
    succeeds_now :
        {left attempt : ℕ} {creds : AwsCredentials}
        → env.retrieve attempt ≡ ok creds
        → env.initialize attempt (request_of g env cfg arns localstack source creds) ≡ ok resp
        → Succeeds resp (suc left) attempt
    succeeds_later :
        {left attempt : ℕ} {creds : AwsCredentials} {e : Err}
        → env.retrieve attempt ≡ ok creds
        → env.initialize attempt (request_of g env cfg arns localstack source creds) ≡ err e
        → IsRetryable (g.code e)
        → env.cancelled attempt ≡ none
        → Succeeds resp left (suc attempt)
        → Succeeds resp (suc left) attempt

  attempt_without_credentials :
      (attempt : ℕ)
      → (more renew : Bool) → (e : Err) → env.retrieve attempt ≡ err e
      → (attempt_once g env cfg arns localstack source attempt more renew).1
        ≡ stop (err (wrap "retrieve aws credentials: " e))
  unfolding attempt_once
  attempt_without_credentials attempt more renew e p = ground arith

  attempt_with_credentials :
      (attempt : ℕ)
      → (more renew : Bool) → (creds : AwsCredentials) → env.retrieve attempt ≡ ok creds
      → (attempt_once g env cfg arns localstack source attempt more renew).1
        ≡ settle g env cfg arns localstack source attempt more
            (env.initialize attempt (request_of g env cfg arns localstack source creds))
  unfolding attempt_once
  attempt_with_credentials attempt more renew creds p = ground arith

  loop_stop :
      (left attempt : ℕ)
      → (renew : Bool) → (last : Option Err) → (r : Result InitializeResponse)
      → (attempt_once g env cfg arns localstack source attempt (not (left == 0)) renew).1 ≡ stop r
      → (attempt_loop g env cfg arns localstack source (suc left) attempt renew last).1 ≡ r
  unfolding attempt_loop
  loop_stop left attempt renew last r h = ground arith

  loop_retry :
      (left attempt : ℕ)
      → (renew renew' : Bool) → (last : Option Err) → (e : Err)
      → (attempt_once g env cfg arns localstack source attempt (not (left == 0)) renew).1
        ≡ retry renew' e
      → (attempt_loop g env cfg arns localstack source (suc left) attempt renew last).1
        ≡ (attempt_loop g env cfg arns localstack source left (suc attempt) renew' (some e)).1
  unfolding attempt_loop
  loop_retry left attempt renew renew' last e h = ground arith

  settle_retry :
      (attempt : ℕ)
      → (c : Code) → (e : Err) → g.code e ≡ c
      → IsRetryable c
      → env.cancelled attempt ≡ none
      → (more : Bool)
      → (renew : Bool) × (settle g env cfg arns localstack source attempt more (err e)
          ≡ retry renew e)
  unfolding settle
  settle_retry attempt c e h retry_unauthenticated free true = (true, ground arith)
  settle_retry attempt c e h retry_unauthenticated free false = (true, ground arith)
  settle_retry attempt c e h retry_unavailable free true = (false, ground arith)
  settle_retry attempt c e h retry_unavailable free false = (false, ground arith)
  settle_retry attempt c e h retry_deadline_exceeded free true = (false, ground arith)
  settle_retry attempt c e h retry_deadline_exceeded free false = (false, ground arith)

  settle_ok :
      (attempt : ℕ)
      → (more : Bool) → (r : Result InitializeResponse) → (resp : InitializeResponse) → r ≡ ok resp
      → settle g env cfg arns localstack source attempt more r ≡ stop (ok resp)
  unfolding settle
  settle_ok attempt more r resp q = ground arith

  settle_stop :
      (attempt : ℕ)
      → (more : Bool) → (e : Err) → (resp : InitializeResponse) → (c : Code) → g.code e ≡ c
      → ¬ (settle g env cfg arns localstack source attempt more (err e) ≡ stop (ok resp))
  unfolding settle
  settle_stop attempt true e resp c h q = ground (arith, Option-cases (env.cancelled attempt))
  settle_stop attempt false e resp c h q = ground (arith)

  -- What `settle` goes on with.
  settle-IsRetryable :
      (attempt : ℕ)
      → (more renew : Bool) → (e last : Err) → (c : Code) → g.code e ≡ c
      → settle g env cfg arns localstack source attempt more (err e) ≡ retry renew last
      → IsRetryable (g.code e) × ((more ≡ true) → env.cancelled attempt ≡ none)
  unfolding settle
  settle-IsRetryable attempt more renew e last unauthenticated h q = (
    subst IsRetryable (sym h) retry_unauthenticated,
    λ m. ground (arith, Option-cases (env.cancelled attempt)),
  )
  settle-IsRetryable attempt more renew e last unavailable h q = (
    subst IsRetryable (sym h) retry_unavailable,
    λ m. ground (arith, Option-cases (env.cancelled attempt)),
  )
  settle-IsRetryable attempt more renew e last deadline_exceeded h q = (
    subst IsRetryable (sym h) retry_deadline_exceeded,
    λ m. ground (arith, Option-cases (env.cancelled attempt)),
  )
  settle-IsRetryable attempt more renew e last c h q = absurd (ground arith)

  loop-Succeeds :
      (resp : InitializeResponse)
      → (left attempt : ℕ) → (renew : Bool) → (last : Option Err) → Succeeds resp left attempt
      → (attempt_loop g env cfg arns localstack source left attempt renew last).1 ≡ ok resp
  loop-Succeeds resp zero attempt renew last s = elim s [ ]
  loop-Succeeds resp (suc left) attempt renew last (succeeds_now p q) =
      loop_stop left attempt renew last (ok resp) (
        attempt_with_credentials attempt (not (left == 0)) renew _ p
        ∙ settle_ok attempt (not (left == 0)) _ resp q)
  loop-Succeeds resp (suc left) attempt renew last
        (succeeds_later {creds = creds} {e} p q c free s) =
      let (renew', again) = settle_retry attempt _ e refl c free (not (left == 0)) in
      loop_retry left attempt renew renew' last e
        (attempt_with_credentials attempt (not (left == 0)) renew creds p ∙ rw q again)
      ∙ loop-Succeeds resp left (suc attempt) renew' (some e) s

  err_ok :
      {e : Err}
      → {resp : InitializeResponse} → ¬ (Path (Result InitializeResponse) (err e) (ok resp))
  err_ok q = cc

  more_left :
      (left attempt : ℕ)
      → (resp : InitializeResponse) → Succeeds resp left attempt
      → not (left == 0) ≡ true
  more_left zero attempt resp s = elim s [ ]
  more_left (suc left) attempt resp s = ground arith

  Step-cases :
      (x : Step)
      → ((r : Result InitializeResponse) × (x ≡ stop r))
        ⊎ ((renew : Bool) × (e : Err) × (x ≡ retry renew e))
  Step-cases (stop r) = inl (r, refl)
  Step-cases (retry renew e) = inr (renew, e, refl)

  -- The attempt with the credentials `creds`, by what the enclave answers.
  answered :
      (resp : InitializeResponse)
      → (left attempt : ℕ) → (renew : Bool) → (last : Option Err) → (creds : AwsCredentials)
      → (r : Result InitializeResponse)
      → ((renew : Bool)
          → (last : Option Err)
          → (attempt_loop g env cfg arns localstack source left (suc attempt) renew last).1
            ≡ ok resp
          → Succeeds resp left (suc attempt))
      → env.retrieve attempt ≡ ok creds
      → env.initialize attempt (request_of g env cfg arns localstack source creds) ≡ r
      → (attempt_loop g env cfg arns localstack source (suc left) attempt renew last).1 ≡ ok resp
      → Succeeds resp (suc left) attempt
  answered resp left attempt renew last creds (ok resp') later p q eq =
      let once =
        attempt_with_credentials attempt (not (left == 0)) renew creds p
        ∙ settle_ok attempt (not (left == 0)) _ resp' q in
      succeeds_now p (q ∙ (sym (loop_stop left attempt renew last (ok resp') once) ∙ eq))
  answered resp left attempt renew last creds (err e) later p q eq =
      let once = rw q at (attempt_with_credentials attempt (not (left == 0)) renew creds p) in
      elim (Step-cases
        (settle g env cfg arns localstack source attempt (not (left == 0)) (err e))) [
          | inl (r, s) ↦ absurd (
              settle_stop attempt _ e resp _ refl
                (s ∙ ap stop (sym (loop_stop left attempt renew last r (once ∙ s)) ∙ eq)))
          | inr (renew', e', s) ↦
              let (c, free) = settle-IsRetryable attempt _ renew' e e' _ refl s in
              let rest =
                later renew' (some e')
                  (sym (loop_retry left attempt renew renew' last e' (once ∙ s)) ∙ eq) in
              succeeds_later p q c (free (more_left left (suc attempt) resp rest)) rest
        ]

  Succeeds-loop :
      (resp : InitializeResponse)
      → (left attempt : ℕ) → (renew : Bool) → (last : Option Err)
      → (attempt_loop g env cfg arns localstack source left attempt renew last).1 ≡ ok resp
      → Succeeds resp left attempt
  unfolding attempt_loop
  Succeeds-loop resp zero attempt renew none eq = absurd cc
  Succeeds-loop resp zero attempt renew (some last) eq = absurd cc
  Succeeds-loop resp (suc left) attempt renew last eq = elim (Result-cases (env.retrieve attempt)) [
    | inl (creds, p) ↦
        answered resp left attempt renew last creds _ (Succeeds-loop resp left (suc attempt)) p refl
          eq
    | inr (e, p) ↦ absurd (
        err_ok (
          sym
            (loop_stop left attempt renew last _ (attempt_without_credentials attempt _ renew e p))
          ∙ eq))
  ]

initialize_enclave-attempt_loop :
    (g : Grpc) (env : Surroundings) (cfg : AwsSettings) (arns : List Bytes) (localstack : Bool)
    (source : EnclaveKeySource)
    → is_empty arns ≡ false
    → is_one_source source ≡ true
    → initialize_enclave g env cfg arns localstack source
      ≡ attempt_loop g env cfg arns localstack source 3 1 false none
unfolding initialize_enclave
initialize_enclave-attempt_loop g env cfg arns localstack source filled one = ground arith

-- With KMS key ARNs and exactly one key source, `initializeEnclave` returns the response `resp`
-- exactly when one of the attempts 1 to 3 gets it, and each attempt before it retrieved
-- credentials, failed with Unauthenticated, Unavailable or DeadlineExceeded, and was not cancelled
-- in the backoff after it.
pub initialize_enclave_iff :
    (g : Grpc) (env : Surroundings) (cfg : AwsSettings) (arns : List Bytes) (localstack : Bool)
    (source : EnclaveKeySource) (resp : InitializeResponse)
    → is_empty arns ≡ false
    → is_one_source source ≡ true
    → ((initialize_enclave g env cfg arns localstack source).1 ≡ ok resp)
      ↔ Succeeds g env cfg arns localstack source resp 3 1
initialize_enclave_iff g env cfg arns localstack source resp filled one =
    let same =
      ap (λ p. p.1) (initialize_enclave-attempt_loop g env cfg arns localstack source filled one) in
    (
      λ h. Succeeds-loop g env cfg arns localstack source resp 3 1 false none (sym same ∙ h),
      λ s. same ∙ loop-Succeeds g env cfg arns localstack source resp 3 1 false none s,
    )
