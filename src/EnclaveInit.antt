-- ===== src/EnclaveInit.antt =====
-- internal/app/enclaveinit.go: the host starts the enclave and retries. What an attempt meets is a
-- function of its number: the AWS credentials, the enclave's answer, and whether the context ends
-- in the backoff after it. The list is the log of what the attempts did.
pub mod Attempts
use arc_remote_signer.Common.{
  ℕ, zero, suc, ◌+◌, Bool, true, false, not, ◌&&◌, ◌||◌, List, [], ◌∷◌, ◌++◌, Option, none, some,
  if◌then◌else◌, ◌==◌, ltb, Bytes, is_empty,
}
use arc_remote_signer.GoError.{
  Code, unauthenticated, unavailable, deadline_exceeded, permission_denied, invalid_argument,
  failed_precondition, Err, new, wrap, Grpc, Result, ok, err, ◌>>=◌, ◌>>◌, fail_if, map_err,
}
use arc_remote_signer.Proto.{
  Algorithm, algorithm_unspecified, AwsCredentials, SecretEnvelope, KeySource, existing_key,
  generate_new, InitializeRequest, InitializeResponse,
}

abbrev pub init_retry_attempts : ℕ
init_retry_attempts = 3

pub record EnclaveKeySource : Type 0 where
  pub existing_key : Option SecretEnvelope
  pub generate_new : Algorithm

-- `aws.Config`: the region, and whether the credentials can be invalidated.
pub record AwsSettings : Type 0 where
  pub region : Bytes
  pub can_invalidate : Bool

pub record Surroundings : Type 0 where
  pub retrieve : ℕ → Result AwsCredentials
  pub initialize : ℕ → InitializeRequest → Result InitializeResponse
  pub cancelled : ℕ → Option Err

pub data Action : Type 0 where
  invalidated retrieved : ℕ → Action
  requested : ℕ → InitializeRequest → Action

-- How the switch on the status code treats an error.
pub data Retry : Type 0 where
  again_with_new_credentials again rejected failed : Retry

unfoldable pub classify : Code → Retry
classify unauthenticated = again_with_new_credentials
classify unavailable = again
classify deadline_exceeded = again
classify permission_denied = rejected
classify invalid_argument = rejected
classify failed_precondition = rejected
classify _ = failed

is_none {ℓ} : {A : Type ℓ} → Option A → Bool
is_none none = true
is_none (some a) = false

same : Bool → Bool → Bool
same true b = b
same false b = not b

unfoldable pub is_one_source : EnclaveKeySource → Bool
unfolding same is_none
is_one_source source =
    not (same (is_none source.existing_key) (source.generate_new == algorithm_unspecified))

unfoldable pub key_source_of : EnclaveKeySource → KeySource
key_source_of source = elim source.existing_key [
  | some env ↦ existing_key (some env)
  | none ↦ generate_new source.generate_new
]

-- How an attempt goes on: the function returns, or the next attempt runs, with new credentials or
-- without.
pub data Step : Type 0 where
  stop : Result InitializeResponse → Step
  retry : Bool → Err → Step

module _ (g : Grpc) (env : Surroundings) (cfg : AwsSettings) (arns : List Bytes) (localstack : Bool)
    (source : EnclaveKeySource) where
  unfoldable pub request_of : AwsCredentials → InitializeRequest
  unfolding key_source_of
  request_of creds = record {
    credentials = some (record {
      access_key_id = creds.access_key_id;
      secret_access_key = creds.secret_access_key;
      session_token = creds.session_token;
      region = cfg.region;
    });
    kms_key_arns = arns;
    kms_localstack_enabled = localstack;
    key_source = key_source_of source;
  }

  backoff : ℕ → Bool → Bool → Err → Step
  backoff attempt false renew e = retry renew e
  backoff attempt true renew e = elim (env.cancelled attempt) [
    | none ↦ retry renew e
    | some c ↦ stop (err (wrap "enclave Initialize aborted during retry backoff: " c))
  ]

  -- The switch on the status code; `more` is whether attempts are left.
  after_failure : ℕ → Bool → Err → Retry → Step
  unfolding backoff
  after_failure attempt more e again = backoff attempt more false e
  after_failure attempt more e again_with_new_credentials = backoff attempt more true e
  after_failure attempt more e rejected =
      stop (err (wrap "enclave Initialize rejected request (non-retryable): " e))
  after_failure attempt more e failed = stop (err (wrap "enclave Initialize failed: " e))

  unfoldable pub settle : ℕ → Bool → Result InitializeResponse → Step
  unfolding after_failure classify
  settle attempt more (ok resp) = stop (ok resp)
  settle attempt more (err e) = after_failure attempt more e (classify (g.code e))

  invalidation : ℕ → Bool → List Action
  invalidation attempt renew = if renew && cfg.can_invalidate then invalidated attempt ∷ [] else []

  request : ℕ → Bool → Result AwsCredentials → List Action × Step
  unfolding request_of settle
  request attempt more (ok creds) = (
    requested attempt (request_of creds) ∷ [],
    settle attempt more (env.initialize attempt (request_of creds)),
  )
  request attempt more (err e) = ([], stop (err (wrap "retrieve aws credentials: " e)))

  unfoldable pub attempt_once : ℕ → Bool → Bool → List Action × Step
  unfolding invalidation request
  attempt_once attempt more renew =
      let (log, next) = request attempt more (env.retrieve attempt) in
      (invalidation attempt renew ++ retrieved attempt ∷ log, next)

  -- The loop, by the attempts that are left.
  unfoldable pub attempt_loop : ℕ → ℕ → Bool → Option Err → List Action × Result InitializeResponse
  unfolding attempt_once
  attempt_loop zero attempt renew none =
      ([], err (new "enclave Initialize exhausted retry attempts: "))
  attempt_loop zero attempt renew (some last) =
      ([], err (wrap "enclave Initialize exhausted retry attempts: " last))
  attempt_loop (suc left) attempt renew last =
      let (log, next) = attempt_once attempt (not (left == 0)) renew in
      elim next [
        | stop r ↦ (log, r)
        | retry renew' e ↦
            let (log', r) = attempt_loop left (suc attempt) renew' (some e) in (log ++ log', r)
      ]

  unfoldable pub initialize_enclave : List Action × Result InitializeResponse
  unfolding attempt_loop is_one_source
  initialize_enclave =
      if is_empty arns
      then ([], err (new "kmsKeyArns must not be empty"))
      else if not (is_one_source source)
      then ([], err (new "exactly one enclave key source is required"))
      else attempt_loop init_retry_attempts 1 false none
