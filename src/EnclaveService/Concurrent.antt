-- ===== src/EnclaveService/Concurrent.antt =====
-- internal/enclave/service/enclave/enclave.go: the service and its gate together. `New` hands `runInit`
-- to the gate, so a flight ends with what `run_init` gives on a request, or with the error
-- of its timeout. `Initialize` enters the gate only behind `admit`. An event is what one goroutine
-- does between two points where another may run.
use arc_remote_signer.Common.{ℕ, List, [], ◌∷◌, Option, Bytes}
use arc_remote_signer.GoError.{Err, Result, ok, err}
use arc_remote_signer.Proto.{InitializeRequest}
use arc_remote_signer.Gate.{Gate, arrive, join, begin_run, finish, cancel, step}
use arc_remote_signer.EnclaveService.{Service, admit, run_init}

pub data ServiceEvent : Type 0 where
  initialize : ℕ → Option InitializeRequest → ServiceEvent
  joins : ℕ → ServiceEvent
  begins : ServiceEvent
  init_returns : InitializeRequest → ServiceEvent
  init_times_out : Err → ServiceEvent
  cancels : ℕ → Err → ServiceEvent

module _ {K : Type 0} (s : Service K) where
  -- A request that is refused is answered without the gate.
  unfoldable pub enter : Gate K → ℕ → Result Bytes → Gate K
  unfolding step
  enter gate id (err e) = record gate {
    answers =
        record { caller = record { id = id; fingerprint = [] }; result = err e } ∷ gate.answers;
  }
  enter gate id (ok fingerprint) =
      step s.env.grpc s.sha256 gate (arrive (record { id = id; fingerprint = fingerprint }))

  unfoldable pub service_step : Gate K → ServiceEvent → Gate K
  unfolding enter admit run_init step
  service_step gate (initialize id req) = enter gate id (admit s req)
  service_step gate (joins id) = step s.env.grpc s.sha256 gate (join id)
  service_step gate begins = step s.env.grpc s.sha256 gate begin_run
  service_step gate (init_returns req) = step s.env.grpc s.sha256 gate (finish (run_init s req))
  service_step gate (init_times_out e) = step s.env.grpc s.sha256 gate (finish (err e))
  service_step gate (cancels id e) = step s.env.grpc s.sha256 gate (cancel id e)

  unfoldable pub service_run : Gate K → List ServiceEvent → Gate K
  unfolding service_step
  service_run gate [] = gate
  service_run gate (e ∷ es) = service_run (service_step gate e) es
