-- ===== src/Proxy.antt =====
-- internal/common/byteproxy/byteproxy.go: the accept loops and the bridged sessions of a running
-- proxy. Goroutines run concurrently, so the proxy is a state that events change: each event is
-- what one goroutine does up to the next point where another may run. A connection is named by a
-- number. Logging is left out. Listeners are bound in Proxy/Binding.antt, and the two copies of a
-- session run in Proxy/Pipe.antt.
pub mod Binding
pub mod Pipe
pub mod Slots
pub mod Invariant
pub mod Drain
pub mod Refinement
use arc_remote_signer.Common.{
  ℕ, zero, suc, ◌+◌, ◌-◌, ◌%◌, ◌^◌, Bool, true, false, List, [], ◌∷◌, ◌++◌, Option, none, some,
  if◌then◌else◌, ◌==◌, ltb, Bytes, bytes_eq,
}
use arc_remote_signer.GoError.{Err, wrap}
use arc_remote_signer.Proxy.Pipe

-- Where a session's goroutine stands: in `Dial`, in `pipe` with its upstream connection, or in its
-- deferred calls, which give the slot back before they close the connection.
pub data Stage : Type 0 where
  dialing : Stage
  piping : ℕ → Stage
  ended : Stage
  released : Stage

pub record Session : Type 0 where
  pub conn : ℕ
  pub stage : Stage

-- Where an accept loop stands: in `Accept`, behind an `Accept` that failed, behind one that gave a
-- connection, behind the check of the shutdown channel for that connection, or returned.
pub data Loop : Type 0 where
  accepting : Loop
  failed : Loop
  accepted : ℕ → Loop
  checked : ℕ → Loop
  exited : Loop

-- A `serviceListener`; `held` is how many elements the channel `sem` of capacity `max_conns` holds,
-- and `dropped` is the bit pattern of its int64. `arrivals` records the connections that `Accept`
-- returned. The calls of `Close` are recorded too, and a connection may be closed several times:
-- `closed` has those on inbound connections of the accept loop and of a session's deferred calls,
-- `pipe_closed` those that happen inside `pipe`, and `upstreams_closed` all on upstreams.
pub record Slot : Type 0 where
  pub name : Bytes
  pub max_conns : ℕ
  pub loop : Loop
  pub sessions : List Session
  pub held : ℕ
  pub dropped : ℕ
  pub arrivals : List ℕ
  pub closed : List ℕ
  pub pipe_closed : List ℕ
  pub upstreams_closed : List ℕ

-- What an event does to the wait group.
pub data Ticket : Type 0 where
  keep add done : Ticket

pub data SlotEvent : Type 0 where
  accept : ℕ → SlotEvent
  accept_fails : SlotEvent
  check : SlotEvent
  admit : SlotEvent
  dial_succeeds : ℕ → ℕ → SlotEvent
  dial_fails : ℕ → SlotEvent
  pipe_returns : ℕ → List (Bool × Pipe.Event) → SlotEvent
  release : ℕ → SlotEvent
  finish : ℕ → SlotEvent

-- The session at an index, and the sessions with that one replaced or taken out.
unfoldable pub at : List Session → ℕ → Option Session
at [] k = none
at (s ∷ ss) zero = some s
at (s ∷ ss) (suc k) = at ss k

unfoldable pub put_at : List Session → ℕ → Session → List Session
put_at [] k x = []
put_at (s ∷ ss) zero x = x ∷ ss
put_at (s ∷ ss) (suc k) x = s ∷ put_at ss k x

unfoldable pub take_out : List Session → ℕ → List Session
take_out [] k = []
take_out (s ∷ ss) zero = ss
take_out (s ∷ ss) (suc k) = s ∷ take_out ss k

unfoldable pub accept_step : Slot → ℕ → Loop → Slot
accept_step slot c accepting = record slot { loop = accepted c; arrivals = c ∷ slot.arrivals }
accept_step slot c _ = slot

unfoldable pub accept_fails_step : Slot → Loop → Slot
accept_fails_step slot accepting = record slot { loop = failed }
accept_fails_step slot _ = slot

-- Behind a failed `Accept` the loop returns whether or not the proxy shuts down.
unfoldable pub check_step : Bool → Slot → Loop → Slot × Ticket
check_step shut slot failed = (record slot { loop = exited }, done)
check_step shut slot (accepted c) =
    if shut
    then (record slot { loop = exited; closed = c ∷ slot.closed }, done)
    else (record slot { loop = checked c }, keep)
check_step shut slot _ = (slot, keep)

unfoldable pub admit_step : Slot → Loop → Slot × Ticket
admit_step slot (checked c) =
    if ltb slot.held slot.max_conns
    then (
      record slot {
        loop = accepting;
        held = slot.held + 1;
        sessions = record { conn = c; stage = dialing } ∷ slot.sessions;
      },
      add,
    )
    else (
      record slot {
        loop = accepting;
        dropped = (slot.dropped + 1) % 2 ^ 64;
        closed = c ∷ slot.closed;
      },
      keep,
    )
admit_step slot _ = (slot, keep)

-- `bridge`, and the deferred calls behind it, at the session of index `k`.
unfoldable pub dial_succeeds_step : Slot → ℕ → ℕ → Option Session → Slot
unfolding put_at
dial_succeeds_step slot k up none = slot
dial_succeeds_step slot k up (some s) = elim s.stage [
  | dialing ↦ record slot { sessions = put_at slot.sessions k (record s { stage = piping up }) }
  | _ ↦ slot
]

unfoldable pub dial_fails_step : Slot → ℕ → Option Session → Slot
unfolding put_at
dial_fails_step slot k none = slot
dial_fails_step slot k (some s) = elim s.stage [
  | dialing ↦ record slot { sessions = put_at slot.sessions k (record s { stage = ended }) }
  | _ ↦ slot
]

-- The closes of one side inside `pipe`: that of the copy, and that on shutdown where it was noticed.
unfoldable pub closes_of : Pipe.Pipe → ℕ → List ℕ → List ℕ
closes_of p c closes = if p.watching then c ∷ closes else c ∷ c ∷ closes

-- `pipe` has run by a schedule, and returns; `bridge` then closes the upstream once more.
unfoldable pub pipe_returns_step : Slot → ℕ → Pipe.Pipe → Option Session → Slot
unfolding put_at closes_of Pipe.pipe_returns
pipe_returns_step slot k p none = slot
pipe_returns_step slot k p (some s) = elim s.stage [
  | piping up ↦
      if Pipe.pipe_returns p
      then record slot {
        sessions = put_at slot.sessions k (record s { stage = ended });
        pipe_closed = closes_of p s.conn slot.pipe_closed;
        upstreams_closed = up ∷ closes_of p up slot.upstreams_closed;
      }
      else slot
  | _ ↦ slot
]

-- A receive from an empty channel blocks.
unfoldable pub release_step : Slot → ℕ → Option Session → Slot
unfolding put_at
release_step slot k none = slot
release_step slot k (some s) = elim s.stage [
  | ended ↦ if slot.held == 0 then slot else record slot {
    sessions = put_at slot.sessions k (record s { stage = released });
    held = slot.held - 1;
  }
  | _ ↦ slot
]

-- The connection is closed, and `wg.Done` follows.
unfoldable pub finish_step : Slot → ℕ → Option Session → Slot × Ticket
unfolding take_out
finish_step slot k none = (slot, keep)
finish_step slot k (some s) = elim s.stage [
  | released ↦
      (record slot { sessions = take_out slot.sessions k; closed = s.conn ∷ slot.closed }, done)
  | _ ↦ (slot, keep)
]

-- An event that is not possible in a state changes nothing.
unfoldable pub slot_step : Bool → Slot → SlotEvent → Slot × Ticket
unfolding at accept_step accept_fails_step check_step admit_step dial_succeeds_step dial_fails_step
    pipe_returns_step release_step finish_step Pipe.run_pipe
slot_step shut slot (accept c) = (accept_step slot c slot.loop, keep)
slot_step shut slot accept_fails = (accept_fails_step slot slot.loop, keep)
slot_step shut slot check = check_step shut slot slot.loop
slot_step shut slot admit = admit_step slot slot.loop
slot_step shut slot (dial_succeeds k up) = (dial_succeeds_step slot k up (at slot.sessions k), keep)
slot_step shut slot (dial_fails k) = (dial_fails_step slot k (at slot.sessions k), keep)
slot_step shut slot (pipe_returns k schedule) =
    (pipe_returns_step slot k (Pipe.run_pipe Pipe.new_pipe schedule) (at slot.sessions k), keep)
slot_step shut slot (release k) = (release_step slot k (at slot.sessions k), keep)
slot_step shut slot (finish k) = finish_step slot k (at slot.sessions k)

-- `shut` is whether `shutdownCh` is closed. `wg` counts the goroutines, and `panicked` is whether
-- it has gone below zero.
pub record Proxy : Type 0 where
  pub slots : List Slot
  pub shut : Bool
  pub listeners_closed : Bool
  pub dials_cancelled : Bool
  pub wg : ℕ
  pub panicked : Bool

pub data Event : Type 0 where
  at_slot : ℕ → SlotEvent → Event
  close_shutdown : Event
  close_listeners : Event
  cancel_dials : Event

unfoldable pub count_ticket : Proxy → Ticket → Proxy
count_ticket p keep = p
count_ticket p add = record p { wg = p.wg + 1 }
count_ticket p done = if p.wg == 0 then record p { panicked = true } else record p { wg = p.wg - 1 }

-- The slots after an event at the slot of an index, and its ticket.
unfoldable pub slots_step : Bool → List Slot → ℕ → SlotEvent → List Slot × Ticket
unfolding slot_step
slots_step shut [] k e = ([], keep)
slots_step shut (s ∷ ss) zero e = let (s', t) = slot_step shut s e in (s' ∷ ss, t)
slots_step shut (s ∷ ss) (suc k) e = let (ss', t) = slots_step shut ss k e in (s ∷ ss', t)

-- The body of `shutOnce.Do` is three events, in this order.
unfoldable pub step : Proxy → Event → Proxy
unfolding count_ticket slots_step
step p (at_slot k e) =
    let (slots, t) = slots_step p.shut p.slots k e in count_ticket (record p { slots = slots }) t
step p close_shutdown = record p { shut = true }
step p close_listeners = if p.shut then record p { listeners_closed = true } else p
step p cancel_dials = if p.listeners_closed then record p { dials_cancelled = true } else p

unfoldable pub run : Proxy → List Event → Proxy
unfolding step
run p [] = p
run p (e ∷ es) = run (step p e) es

-- `Run`: each slot gets its accept loop, with a ticket of the wait group.
unfoldable pub start_loops : List Slot → ℕ → ℕ
start_loops [] wg = wg
start_loops (s ∷ ss) wg = start_loops ss (wg + 1)

abbrev pub new_slot : Bytes → ℕ → Slot
new_slot name max_conns = record {
  name = name;
  max_conns = max_conns;
  loop = accepting;
  sessions = [];
  held = 0;
  dropped = 0;
  arrivals = [];
  closed = [];
  pipe_closed = [];
  upstreams_closed = [];
}

unfoldable pub new_slots : List Bytes → ℕ → List Slot
new_slots [] max_conns = []
new_slots (name ∷ names) max_conns = new_slot name max_conns ∷ new_slots names max_conns

-- A proxy for these services, after `Run`.
unfoldable pub started : List Bytes → ℕ → Proxy
unfolding start_loops new_slots
started names max_conns = record {
  slots = new_slots names max_conns;
  shut = false;
  listeners_closed = false;
  dials_cancelled = false;
  wg = start_loops (new_slots names max_conns) 0;
  panicked = false;
}

-- What `Shutdown` returns in a state: nil when the wait group is at zero, an error when the context
-- is done, and nothing while it waits. A `select` with both ready may choose either; `prefer_done`
-- is its choice.
unfoldable pub shutdown_result : Proxy → Option Err → Bool → Option (Option Err)
shutdown_result p none prefer_done = if p.wg == 0 then some none else none
shutdown_result p (some e) prefer_done =
    if p.wg == 0
    then (if prefer_done
        then some none
        else some
            (some (wrap "byteproxy: shutdown deadline reached before all goroutines drained: " e)))
    else some (some (wrap "byteproxy: shutdown deadline reached before all goroutines drained: " e))

-- `DroppedCount`: the first service of that name counts.
unfoldable pub dropped_count : List Slot → Bytes → ℕ
dropped_count [] service = 0
dropped_count (s ∷ ss) service =
    if bytes_eq s.name service then s.dropped else dropped_count ss service
