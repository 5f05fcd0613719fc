-- ===== src/VsockDial.antt =====
-- internal/enclave/provider/awsproxy/transport_vsock.go: `vsockTransportDial`, which races
-- `vsock.Dial` against its context and a timeout, and `drainVsockDial`. Three goroutines run: the
-- one that dials, the caller, and the one that drains. Each event is what one of them does; an event
-- that is not possible in a state changes nothing. A connection is named by a number.
pub mod Leaks
use arc_remote_signer.Common.{ℕ, Bool, true, false, List, [], ◌∷◌, Option, none, some}
use arc_remote_signer.GoError.{Err, wrap}

-- `vsockDialResult`.
pub record DialResult : Type 0 where
  pub conn : Option ℕ
  pub error : Option Err

-- Where the dialling goroutine stands: in `vsock.Dial`, behind it, or behind its send.
pub data Dialer : Type 0 where
  dialing : Dialer
  returned : DialResult → Dialer
  sent : Dialer

-- Where the draining goroutine stands: not started, at its receive, or behind its `Close`.
pub data Drainer : Type 0 where
  absent : Drainer
  receiving : Drainer
  finished : Drainer

-- `queue` is the element of the channel of capacity 1, `answer` what the caller has returned, and
-- `closed` the connections that were closed.
pub record Race : Type 0 where
  pub dialer : Dialer
  pub queue : Option DialResult
  pub answer : Option DialResult
  pub drainer : Drainer
  pub closed : List ℕ

pub data Event : Type 0 where
  dial_returns : DialResult → Event
  dialer_sends : Event
  caller_receives : Event
  context_done : Option Err → Err → Event
  drainer_receives : Event

abbrev pub new_race : Race
new_race = record { dialer = dialing; queue = none; answer = none; drainer = absent; closed = [] }

unfoldable pub dial_returns_step : Race → DialResult → Dialer → Race
dial_returns_step race r dialing = record race { dialer = returned r }
dial_returns_step race r _ = race

-- A send on a full channel blocks.
unfoldable pub send_step : Race → Dialer → Option DialResult → Race
send_step race (returned r) none = record race { dialer = sent; queue = some r }
send_step race _ _ = race

-- The first case of the `select`.
unfoldable pub receive_step : Race → Option DialResult → Option DialResult → Race
receive_step race none (some r) = record race { queue = none; answer = some r }
receive_step race _ _ = race

-- The error of the second case: the parent's own error if it has one.
unfoldable pub abort_error : Option Err → Err → Err
abort_error (some parent) own = parent
abort_error none own = wrap "awsproxy: vsock dial timed out, err: " own

-- The second case, with the errors of the parent context and of `dialCtx`.
unfoldable pub context_done_step : Race → Option Err → Err → Option DialResult → Race
unfolding abort_error
context_done_step race parent own none = record race {
  answer = some (record { conn = none; error = some (abort_error parent own) });
  drainer = receiving;
}
context_done_step race parent own (some r) = race

unfoldable pub close_late : List ℕ → Option ℕ → List ℕ
close_late closed none = closed
close_late closed (some c) = c ∷ closed

-- `drainVsockDial`.
unfoldable pub drain_step : Race → Drainer → Option DialResult → Race
unfolding close_late
drain_step race receiving (some r) = record race {
  queue = none;
  drainer = finished;
  closed = close_late race.closed r.conn;
}
drain_step race _ _ = race

unfoldable pub race_step : Race → Event → Race
unfolding dial_returns_step send_step receive_step context_done_step drain_step
race_step race (dial_returns r) = dial_returns_step race r race.dialer
race_step race dialer_sends = send_step race race.dialer race.queue
race_step race caller_receives = receive_step race race.answer race.queue
race_step race (context_done parent own) = context_done_step race parent own race.answer
race_step race drainer_receives = drain_step race race.drainer race.queue

unfoldable pub run_race : Race → List Event → Race
unfolding race_step
run_race race [] = race
run_race race (e ∷ es) = run_race (race_step race e) es
