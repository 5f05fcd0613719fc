-- ===== src/Proxy/Drain.antt =====
-- About `Shutdown` of internal/common/byteproxy/byteproxy.go: what it has waited for when it returns
-- nil.
use arc_remote_signer.Common.{
  ℕ, Bool, List, [], ◌∷◌, Option, none, some, ◌≡◌, refl, sym, ◌∙◌, arith, Bytes, All,
}
use arc_remote_signer.GoError.{Err}
use arc_remote_signer.Proxy.{
  Session, Loop, accepting, failed, accepted, checked, exited, Slot, Event, Proxy, run, started,
  shutdown_result,
}
use arc_remote_signer.Proxy.Slots.{sum_of, count, running, tickets, IsValid}
use arc_remote_signer.Proxy.Invariant.{total_tickets, proxy_bounded, proxy_counts_goroutines}

-- The accept loop has returned, no session is left, and the loop and the sessions' deferred calls
-- have closed the connection as often as it was accepted.
pub record IsDrained (c : ℕ) (slot : Slot) : Type 0 where
  pub exited : slot.loop ≡ exited
  pub no_sessions : slot.sessions ≡ []
  pub all_closed : count c slot.arrivals ≡ count c slot.closed

no_sessions_of_sum : (ss : List Session) → sum_of (λ s. 1) ss ≡ 0 → ss ≡ []
unfolding sum_of
no_sessions_of_sum [] h = refl
no_sessions_of_sum (s ∷ ss) h = absurd (omega arith)

exited_of_running : (l : Loop) → running l ≡ 0 → l ≡ Loop.exited
exited_of_running accepting h = absurd (omega arith)
exited_of_running failed h = absurd (omega arith)
exited_of_running (accepted x) h = absurd (omega arith)
exited_of_running (checked x) h = absurd (omega arith)
exited_of_running Loop.exited h = refl

slot-IsDrained : (n c : ℕ) (slot : Slot) → IsValid n c slot → tickets slot ≡ 0 → IsDrained c slot
unfolding tickets sum_of
slot-IsDrained n c slot v h =
    let gone = exited_of_running slot.loop (omega arith) in
    let empty = no_sessions_of_sum slot.sessions (omega arith) in
    let accounted = rw (gone, empty) at v.accounted in
    record { exited = gone; no_sessions = empty; all_closed = omega arith }

slots-IsDrained :
    (n c : ℕ) (slots : List Slot)
    → All (IsValid n c) slots
    → total_tickets slots ≡ 0
    → All (IsDrained c) slots
unfolding total_tickets
slots-IsDrained n c [] v h = tt
slots-IsDrained n c (s ∷ ss) v h =
    (slot-IsDrained n c s v.0 (omega arith), slots-IsDrained n c ss v.1 (omega arith))

nil-wg :
    (p : Proxy) (deadline : Option Err) (prefer_done : Bool)
    → shutdown_result p deadline prefer_done ≡ some none
    → p.wg ≡ 0
unfolding shutdown_result
nil-wg p none prefer_done h = ground arith
nil-wg p (some e) prefer_done h = ground arith

-- Whenever `Shutdown` returns nil, in any interleaving, every accept loop has returned, no session
-- is left, and the loops and the sessions' deferred calls have closed each connection as often as it
-- was accepted, beside the closes inside `pipe`.
pub shutdown-IsDrained :
    (names : List Bytes) (max_conns c : ℕ) (es : List Event) (deadline : Option Err)
    (prefer_done : Bool)
    → shutdown_result (run (started names max_conns) es) deadline prefer_done ≡ some none
    → All (IsDrained c) (run (started names max_conns) es).slots
shutdown-IsDrained names n c es deadline prefer_done h =
    let p = run (started names n) es in
    slots-IsDrained n c p.slots (proxy_bounded names n c es)
      (sym (proxy_counts_goroutines names n es).0 ∙ nil-wg p deadline prefer_done h)
