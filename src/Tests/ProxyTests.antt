-- ===== src/Tests/ProxyTests.antt =====
-- Runs of the byte proxy.
use arc_remote_signer.Common.{
  ℕ, ◌<◌, true, false, Bool, List, [], ◌∷◌, none, some, ◌≡◌, refl, All, Bytes, codes, inl,
}
use arc_remote_signer.Common.Int.{pos}
use arc_remote_signer.GoError.{new, ok, err}
use arc_remote_signer.Proxy.{
  Event, at_slot, close_shutdown, close_listeners, cancel_dials, accept, accept_fails, check, admit,
  dial_succeeds, pipe_returns, release, finish, Slot, new_slot, run, started, shutdown_result,
}
use arc_remote_signer.Proxy.Slots.{IsValid}
use arc_remote_signer.Proxy.Invariant.{total_tickets, proxy_bounded, proxy_counts_goroutines}
use arc_remote_signer.Proxy.Drain.{IsDrained, shutdown-IsDrained}
use arc_remote_signer.Proxy.Pipe.{
  new_pipe, run_pipe, to_upstream, to_inbound, copy_ends, copy_closes, copy_sends, receive,
  notice_shutdown, closed_other, copy_done_capacity,
}
use arc_remote_signer.Proxy.Pipe.Closing.{IsFinished, pipe_returns-IsFinished, copy_never_blocks}
use arc_remote_signer.Proxy.Binding.{Config, new_proxy}
use arc_remote_signer.Proxy.Binding.Rollback.{AllOrNothing, service_names, new_proxy-AllOrNothing}

abbrev test_names : List Bytes
test_names = codes "kms" ∷ []

-- Both copies end, and a shutdown is noticed between them.
abbrev test_schedule : List (Bool × arc_remote_signer.Proxy.Pipe.Event)
test_schedule =
    (false, copy_ends to_upstream)
    ∷ (false, copy_closes to_upstream)
    ∷ (true, notice_shutdown)
    ∷ (true, copy_sends to_upstream)
    ∷ (true, receive)
    ∷ (true, copy_ends to_inbound)
    ∷ (true, copy_closes to_inbound)
    ∷ (true, copy_sends to_inbound)
    ∷ (true, receive)
    ∷ []

-- A connection that is bridged, one that is dropped, and a shutdown.
abbrev test_events : List Event
test_events =
    at_slot 0 (accept 7)
    ∷ at_slot 0 check
    ∷ at_slot 0 admit
    ∷ at_slot 0 (accept 8)
    ∷ at_slot 0 check
    ∷ at_slot 0 admit
    ∷ at_slot 0 (dial_succeeds 0 9)
    ∷ close_shutdown
    ∷ close_listeners
    ∷ cancel_dials
    ∷ at_slot 0 accept_fails
    ∷ at_slot 0 check
    ∷ at_slot 0 (pipe_returns 0 test_schedule)
    ∷ at_slot 0 (release 0)
    ∷ at_slot 0 (finish 0)
    ∷ []

proxy_bounded_example : All (IsValid 1 7) (run (started test_names 1) test_events).slots
proxy_bounded_example = proxy_bounded test_names 1 7 test_events

proxy_counts_goroutines_example :
    ((run (started test_names 1) test_events).wg
      ≡ total_tickets (run (started test_names 1) test_events).slots)
    × ((run (started test_names 1) test_events).panicked ≡ false)
proxy_counts_goroutines_example = proxy_counts_goroutines test_names 1 test_events

shutdown_example : All (IsDrained 7) (run (started test_names 1) test_events).slots
unfolding run started shutdown_result run_pipe arc_remote_signer.Proxy.Pipe.pipe_returns
shutdown_example = shutdown-IsDrained test_names 1 7 test_events none true refl

-- The one slot is taken, and the next connection stands before it.
abbrev full_events : List Event
full_events =
    at_slot 0 (accept 7)
    ∷ at_slot 0 check
    ∷ at_slot 0 admit
    ∷ at_slot 0 (accept 8)
    ∷ at_slot 0 check
    ∷ []

pipe_returns_example : IsFinished (run_pipe new_pipe test_schedule)
unfolding run_pipe arc_remote_signer.Proxy.Pipe.pipe_returns
pipe_returns_example = pipe_returns-IsFinished test_schedule refl

abbrev test_prefix : List (Bool × arc_remote_signer.Proxy.Pipe.Event)
test_prefix = (false, copy_ends to_upstream) ∷ (false, copy_closes to_upstream) ∷ []

copy_never_blocks_example : (run_pipe new_pipe test_prefix).queued < copy_done_capacity
unfolding run_pipe
copy_never_blocks_example = copy_never_blocks test_prefix (inl refl)

-- The second service does not listen, when the first one does already.
abbrev half_bound : Config ℕ ℕ
half_bound = record {
  name = codes "proxy";
  services =
      record { name = codes "kms"; endpoint = []; listen = some (ok 8000); dial = some 443 }
      ∷ record {
        name = codes "sts";
        endpoint = [];
        listen = some (err (new "in use"));
        dial = some 443;
      }
      ∷ [];
  max_conns = pos 16;
}

new_proxy_example :
    let b = new_proxy (some half_bound) in
    AllOrNothing
      (codes "proxy")
      (codes "kms" ∷ codes "sts" ∷ [])
      16
      b.opened
      b.closed
      b.dials_cancelled
      b.result
unfolding service_names
new_proxy_example = new_proxy-AllOrNothing half_bound
