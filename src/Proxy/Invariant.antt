-- ===== src/Proxy/Invariant.antt =====
-- About internal/common/byteproxy/byteproxy.go: an invariant of the proxy.
use arc_remote_signer.Common.{
  ℕ, zero, suc, ◌+◌, Bool, true, false, List, [], ◌∷◌, if◌then◌else◌, ◌==◌, ◌≡◌, refl, arith, Bytes,
  All,
}
use arc_remote_signer.Proxy.{
  Slot, Ticket, keep, add, done, SlotEvent, Proxy, Event, at_slot, close_shutdown, close_listeners,
  cancel_dials, count_ticket, slots_step, step, run, start_loops, new_slots, started,
}
use arc_remote_signer.Proxy.Slots.{IsValid, tickets, gained, lost, sum_of, slot_step-IsKept}

unfoldable pub total_tickets : List Slot → ℕ
total_tickets [] = 0
total_tickets (s ∷ ss) = tickets s + total_tickets ss

slots_step-IsValid :
    (n c : ℕ) (shut : Bool) (slots : List Slot) (k : ℕ) (e : SlotEvent)
    → All (IsValid n c) slots
    → All (IsValid n c) (slots_step shut slots k e).0
unfolding slots_step
slots_step-IsValid n c shut [] k e h = tt
slots_step-IsValid n c shut (s ∷ ss) zero e h = ((slot_step-IsKept n c s h.0 shut e).0, h.1)
slots_step-IsValid n c shut (s ∷ ss) (suc k) e h = (h.0, slots_step-IsValid n c shut ss k e h.1)

slots_step-tickets :
    (n c : ℕ) (shut : Bool) (slots : List Slot) (k : ℕ) (e : SlotEvent)
    → All (IsValid n c) slots
    → total_tickets (slots_step shut slots k e).0 + lost (slots_step shut slots k e).1
      ≡ total_tickets slots + gained (slots_step shut slots k e).1
unfolding slots_step total_tickets
slots_step-tickets n c shut [] k e h = refl
slots_step-tickets n c shut (s ∷ ss) zero e h =
    let kept = (slot_step-IsKept n c s h.0 shut e).1 in omega arith
slots_step-tickets n c shut (s ∷ ss) (suc k) e h =
    omega (arith, slots_step-tickets n c shut ss k e h.1)

-- Every slot is valid, and the wait group counts the goroutines.
pub record Inv (n c : ℕ) (p : Proxy) : Type 0 where
  pub valid : All (IsValid n c) p.slots
  pub wg : p.wg ≡ total_tickets p.slots
  pub calm : p.panicked ≡ false

counted-Inv :
    (n c : ℕ) (p : Proxy) (slots : List Slot) (t : Ticket)
    → Inv n c p
    → All (IsValid n c) slots
    → total_tickets slots + lost t ≡ total_tickets p.slots + gained t
    → Inv n c (count_ticket (record p { slots = slots }) t)
unfolding count_ticket
counted-Inv n c p slots keep v a h = record {
  valid = a;
  wg = omega (arith, v.wg, h);
  calm = v.calm;
}
counted-Inv n c p slots add v a h = record { valid = a; wg = omega (arith, v.wg, h); calm = v.calm }
counted-Inv n c p slots done v a h =
    let positive : (p.wg == 0) ≡ false = ground (arith, v.wg, h) in
    rw positive (record { valid = a; wg = omega (arith, v.wg, h); calm = v.calm })

either-Inv :
    (n c : ℕ) (b : Bool) {p q : Proxy} → Inv n c p → Inv n c q → Inv n c (if b then p else q)
either-Inv n c true v w = v
either-Inv n c false v w = w

step-Inv : (n c : ℕ) (p : Proxy) (e : Event) → Inv n c p → Inv n c (step p e)
unfolding step
step-Inv n c p (at_slot k e) v =
    counted-Inv n c p (slots_step p.shut p.slots k e).0 (slots_step p.shut p.slots k e).1 v
      (slots_step-IsValid n c p.shut p.slots k e v.valid)
      (slots_step-tickets n c p.shut p.slots k e v.valid)
step-Inv n c p close_shutdown v = record { valid = v.valid; wg = v.wg; calm = v.calm }
step-Inv n c p close_listeners v =
    either-Inv n c p.shut (record { valid = v.valid; wg = v.wg; calm = v.calm }) v
step-Inv n c p cancel_dials v =
    either-Inv n c p.listeners_closed (record { valid = v.valid; wg = v.wg; calm = v.calm }) v

pub run-Inv : (n c : ℕ) (p : Proxy) (es : List Event) → Inv n c p → Inv n c (run p es)
unfolding run
run-Inv n c p [] v = v
run-Inv n c p (e ∷ es) v = run-Inv n c (step p e) es (step-Inv n c p e v)

new_slots-IsValid : (names : List Bytes) (n c : ℕ) → All (IsValid n c) (new_slots names n)
unfolding new_slots sum_of
new_slots-IsValid [] n c = tt
new_slots-IsValid (name ∷ names) n c = (omega arith, new_slots-IsValid names n c)

start_loops-tickets :
    (names : List Bytes) (n wg : ℕ)
    → start_loops (new_slots names n) wg ≡ wg + total_tickets (new_slots names n)
unfolding new_slots start_loops total_tickets tickets sum_of
start_loops-tickets [] n wg = omega arith
start_loops-tickets (name ∷ names) n wg = omega (arith, start_loops-tickets names n (wg + 1))

started-Inv : (names : List Bytes) (n c : ℕ) → Inv n c (started names n)
unfolding started
started-Inv names n c = record {
  valid = new_slots-IsValid names n c;
  wg = omega (arith, start_loops-tickets names n 0);
  calm = refl;
}

-- However the goroutines of a started proxy interleave, with a shutdown at any point, each service
-- has at most `max_conns` sessions that have not given back their element of the channel, which
-- holds no other elements; and every connection is as often with the accept loop, with a session,
-- or closed by the loop or a session's deferred calls, taken together, as it was accepted. A session
-- that has given its element back is only about to close its connection.
pub proxy_bounded :
    (names : List Bytes) (max_conns c : ℕ) (es : List Event)
    → All (IsValid max_conns c) (run (started names max_conns) es).slots
proxy_bounded names n c es = (run-Inv n c (started names n) es (started-Inv names n c)).valid

-- The wait group counts exactly the accept loops and the sessions that have not returned, and it
-- never goes below zero.
pub proxy_counts_goroutines :
    (names : List Bytes) (max_conns : ℕ) (es : List Event)
    → ((run (started names max_conns) es).wg
        ≡ total_tickets (run (started names max_conns) es).slots)
      × ((run (started names max_conns) es).panicked ≡ false)
proxy_counts_goroutines names n es =
    let v = run-Inv n 0 (started names n) es (started-Inv names n 0) in (v.wg, v.calm)
