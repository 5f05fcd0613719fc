-- ===== src/Gate.antt =====
-- internal/enclave/service/enclave/initgate.go: the one-time initialization gate. Callers run
-- concurrently, so the gate is a state that events change: each event is the part of
-- `ensureInitialized` between two points where the scheduler may switch. `singleflight` runs one
-- callback at a time and hands its result to every caller that waits for it.
-- The type of keys is a parameter.
pub mod Invariant
pub mod Agreement
pub mod Origin
use arc_remote_signer.Common.{
  ℕ, ◌+◌, Bool, true, false, ◌&&◌, List, [], ◌∷◌, ◌++◌, map, Option, none, some, ◌==◌,
  if◌then◌else◌, Bytes, bytes_eq,
}
use arc_remote_signer.GoError.{Err, new, status, failed_precondition, Grpc, Result, ok, err, ◌>>=◌}
use arc_remote_signer.Proto.{SecretEnvelope, existing_key, InitializeResponse}
use arc_remote_signer.Fingerprint.{fingerprint_key_source}

-- `readyState`, with a response: the gate rejects a state without one.
pub record ReadyState (K : Type 0) : Type 0 where
  pub fingerprint : Bytes
  pub generated_envelope_fingerprint : Bytes
  pub has_generated_envelope_fingerprint : Bool
  pub key : K
  pub response : InitializeResponse

pub record Caller : Type 0 where
  pub id : ℕ
  pub fingerprint : Bytes

pub record Answer : Type 0 where
  pub caller : Caller
  pub result : Result InitializeResponse

-- A callback of the singleflight group: whose fingerprint it publishes, and whether it has begun
-- to run `runInit`.
pub record Flight : Type 0 where
  pub fingerprint : Bytes
  pub running : Bool

-- `checked` are the callers that have found no state, and `waiting` those that wait for the
-- flight. `answers`, `runs` and `publications` record what happened: the results returned, the
-- calls of `runInit` and the stores to `ready`.
pub record Gate (K : Type 0) : Type 0 where
  pub ready : Option (ReadyState K)
  pub flight : Option Flight
  pub checked : List Caller
  pub waiting : List Caller
  pub answers : List Answer
  pub runs : ℕ
  pub publications : ℕ

abbrev pub new_init_gate : (K : Type 0) → Gate K
new_init_gate K = record {
  ready = none;
  flight = none;
  checked = [];
  waiting = [];
  answers = [];
  runs = 0;
  publications = 0;
}

-- The outcome of `runInit`; `none` is a nil state, or a state with a nil response.
abbrev pub Outcome : Type 0 → Type 0
Outcome K = Result (Option (ReadyState K))

pub data Event (K : Type 0) : Type 0 where
  arrive : Caller → Event K
  join : ℕ → Event K
  begin_run : Event K
  finish : Outcome K → Event K
  cancel : ℕ → Err → Event K

unfoldable pub response_for_fingerprint :
    {K : Type 0} → ReadyState K → Bytes → Result InitializeResponse
response_for_fingerprint state fingerprint =
    if bytes_eq state.fingerprint fingerprint
    then ok state.response
    else if state.has_generated_envelope_fingerprint
        && bytes_eq state.generated_envelope_fingerprint fingerprint
    then ok (record (state.response) { secret_envelope = none })
    else err
        (status failed_precondition "enclave is already initialized with a different key source")

module _ {K : Type 0} (g : Grpc) (sha256 : Bytes → Bytes) where
  with_recovery : ReadyState K → Option SecretEnvelope → Result (ReadyState K)
  with_recovery state none = ok state
  with_recovery state (some envelope) = do
    recovery ← fingerprint_key_source g sha256 (existing_key (some envelope))
    ok (record state {
      generated_envelope_fingerprint = recovery;
      has_generated_envelope_fingerprint = true;
    })

  -- What the callback makes of the outcome of `runInit`.
  unfoldable pub publish : Bytes → Outcome K → Result (ReadyState K)
  unfolding with_recovery
  publish fingerprint (err e) = err e
  publish fingerprint (ok none) = err (new "initialize returned an empty ready state")
  publish fingerprint (ok (some state)) =
      with_recovery (record state { fingerprint = fingerprint }) state.response.secret_envelope

take_caller : List Caller → ℕ → Option (Caller × List Caller)
take_caller [] id = none
take_caller (c ∷ cs) id =
    let rest = take_caller cs id in
    if c.id == id then some (c, cs) else elim rest [ none ↦ none | some (d, ds) ↦ some (d, c ∷ ds) ]

-- `DoChan`: the first caller starts the flight, and later ones wait for it.
start_flight : Option Flight → Caller → Option Flight
start_flight none c = some (record { fingerprint = c.fingerprint; running = false })
start_flight (some f) c = some f

module _ {K : Type 0} where
  -- What a waiting caller returns when the flight ends with `result`.
  unfoldable pub reply : Result (ReadyState K) → Caller → Answer
  reply (err e) c = record { caller = c; result = err e }
  reply (ok state) c = record { caller = c; result = response_for_fingerprint state c.fingerprint }

  -- The end of a flight.
  unfoldable pub complete : Gate K → Result (ReadyState K) → Gate K
  unfolding reply
  complete gate result = record gate {
    flight = none;
    waiting = [];
    answers = map (reply result) gate.waiting ++ gate.answers;
  }

  arrive_step : Gate K → Caller → Option (ReadyState K) → Gate K
  unfolding reply
  arrive_step gate c none = record gate { checked = c ∷ gate.checked }
  arrive_step gate c (some state) = record gate { answers = reply (ok state) c ∷ gate.answers }

  join_step : Gate K → Option (Caller × List Caller) → Gate K
  unfolding start_flight
  join_step gate none = gate
  join_step gate (some (c, rest)) = record gate {
    checked = rest;
    waiting = c ∷ gate.waiting;
    flight = start_flight gate.flight c;
  }

  -- The callback loads `ready` once more before it runs `runInit`.
  begin_step : Gate K → Option Flight → Option (ReadyState K) → Gate K
  unfolding complete
  begin_step gate none _ = gate
  begin_step gate (some f) ready = if f.running then gate else elim ready [
    | some state ↦ complete gate (ok state)
    | none ↦ record gate { flight = some (record f { running = true }); runs = gate.runs + 1 }
  ]

  finish_with : Gate K → Result (ReadyState K) → Gate K
  unfolding complete
  finish_with gate (err e) = complete gate (err e)
  finish_with gate (ok state) =
      complete (record gate { ready = some state; publications = gate.publications + 1 }) (ok state)

  cancel_step : Gate K → Err → Option (Caller × List Caller) → Gate K
  cancel_step gate e none = gate
  cancel_step gate e (some (c, rest)) = record gate {
    waiting = rest;
    answers = record { caller = c; result = err e } ∷ gate.answers;
  }

module _ {K : Type 0} (g : Grpc) (sha256 : Bytes → Bytes) where
  finish_step : Gate K → Option Flight → Outcome K → Gate K
  unfolding finish_with publish
  finish_step gate none outcome = gate
  finish_step gate (some f) outcome =
      if f.running then finish_with gate (publish g sha256 f.fingerprint outcome) else gate

  -- An event that is not possible in a state changes nothing.
  unfoldable pub step : Gate K → Event K → Gate K
  unfolding take_caller arrive_step join_step begin_step finish_step cancel_step
  step gate (arrive c) = arrive_step gate c gate.ready
  step gate (join id) = join_step gate (take_caller gate.checked id)
  step gate begin_run = begin_step gate gate.flight gate.ready
  step gate (finish outcome) = finish_step gate gate.flight outcome
  step gate (cancel id e) = cancel_step gate e (take_caller gate.waiting id)

  unfoldable pub run : Gate K → List (Event K) → Gate K
  unfolding step
  run gate [] = gate
  run gate (e ∷ es) = run (step gate e) es
