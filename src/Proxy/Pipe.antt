-- ===== src/Proxy/Pipe.antt =====
-- `pipe` of internal/common/byteproxy/byteproxy.go: the two copies between a session's connections,
-- and the function that waits for them. Each event is what one goroutine does up to the next point
-- where another may run.
pub mod Closing
use arc_remote_signer.Common.{
  ℕ, zero, suc, ◌+◌, ◌-◌, ◌≤◌, ◌<◌, Bool, true, false, ◌&&◌, List, [], ◌∷◌, ◌==◌, ltb,
  if◌then◌else◌, ◌≡◌, refl, arith, ◌⊎◌, inl, inr, Bool-cases,
}

-- A copy is in `io.Copy`, behind it, behind its `Close` of the other side, or has sent on
-- `copyDone`.
pub data Copy : Type 0 where
  copying : Copy
  copied : Copy
  closed_other : Copy
  sent : Copy

-- `copyDone := make(chan struct{}, 2)`.
abbrev pub copy_done_capacity : ℕ
copy_done_capacity = 2

-- `queued` is how many elements the channel `copyDone` holds, `finished` the variable
-- of that name, and `watching` whether `shutdown` is not nil.
pub record Pipe : Type 0 where
  pub to_upstream : Copy
  pub to_inbound : Copy
  pub inbound_closed : Bool
  pub upstream_closed : Bool
  pub queued : ℕ
  pub finished : ℕ
  pub watching : Bool

pub data Side : Type 0 where
  to_upstream to_inbound : Side

pub data Event : Type 0 where
  copy_ends : Side → Event
  copy_closes : Side → Event
  copy_sends : Side → Event
  receive : Event
  notice_shutdown : Event

abbrev pub new_pipe : Pipe
new_pipe = record {
  to_upstream = copying;
  to_inbound = copying;
  inbound_closed = false;
  upstream_closed = false;
  queued = 0;
  finished = 0;
  watching = true;
}

-- The copy towards the upstream closes the upstream, and the other one the inbound connection.
unfoldable pub upstream_step : Pipe → Copy → Event → Pipe
upstream_step p copying (copy_ends to_upstream) = record p { to_upstream = copied }
upstream_step p copied (copy_closes to_upstream) = record p {
  to_upstream = closed_other;
  upstream_closed = true;
}
upstream_step p closed_other (copy_sends to_upstream) =
    if ltb p.queued copy_done_capacity
    then record p { to_upstream = sent; queued = p.queued + 1 }
    else p
upstream_step p _ _ = p

unfoldable pub inbound_step : Pipe → Copy → Event → Pipe
inbound_step p copying (copy_ends to_inbound) = record p { to_inbound = copied }
inbound_step p copied (copy_closes to_inbound) = record p {
  to_inbound = closed_other;
  inbound_closed = true;
}
inbound_step p closed_other (copy_sends to_inbound) =
    if ltb p.queued copy_done_capacity
    then record p { to_inbound = sent; queued = p.queued + 1 }
    else p
inbound_step p _ _ = p

-- The loop runs while `finished < 2`; `shut` is whether the proxy's channel is closed.
unfoldable pub receive_step : Pipe → Pipe
receive_step p =
    if ltb p.finished 2 && ltb 0 p.queued
    then record p { queued = p.queued - 1; finished = p.finished + 1 }
    else p

unfoldable pub notice_step : Bool → Pipe → Pipe
notice_step shut p =
    if ltb p.finished 2 && (shut && p.watching)
    then record p { inbound_closed = true; upstream_closed = true; watching = false }
    else p

unfoldable pub pipe_step : Bool → Pipe → Event → Pipe
unfolding upstream_step inbound_step receive_step notice_step
pipe_step shut p (copy_ends to_upstream) = upstream_step p p.to_upstream (copy_ends to_upstream)
pipe_step shut p (copy_closes to_upstream) = upstream_step p p.to_upstream (copy_closes to_upstream)
pipe_step shut p (copy_sends to_upstream) = upstream_step p p.to_upstream (copy_sends to_upstream)
pipe_step shut p (copy_ends to_inbound) = inbound_step p p.to_inbound (copy_ends to_inbound)
pipe_step shut p (copy_closes to_inbound) = inbound_step p p.to_inbound (copy_closes to_inbound)
pipe_step shut p (copy_sends to_inbound) = inbound_step p p.to_inbound (copy_sends to_inbound)
pipe_step shut p receive = receive_step p
pipe_step shut p notice_shutdown = notice_step shut p

-- The schedule says at each event whether the proxy's channel is closed.
unfoldable pub run_pipe : Pipe → List (Bool × Event) → Pipe
unfolding pipe_step
run_pipe p [] = p
run_pipe p ((shut, e) ∷ es) = run_pipe (pipe_step shut p e) es

-- `pipe` returns when its loop ends.
unfoldable pub pipe_returns : Pipe → Bool
pipe_returns p = if ltb p.finished 2 then false else true
