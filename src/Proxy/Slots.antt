-- ===== src/Proxy/Slots.antt =====
-- About the accept loop and the sessions of one service of internal/common/byteproxy/byteproxy.go:
-- an invariant of its slot.
use arc_remote_signer.Common.{
  ℕ, zero, suc, ◌+◌, ◌-◌, ◌≤◌, Bool, true, false, List, [], ◌∷◌, Option, none, some, if◌then◌else◌,
  ◌==◌, ltb, ◌≡◌, refl, ap, arith, Bool-cases, inl, inr,
}
use arc_remote_signer.Proxy.Pipe.{Pipe, new_pipe, run_pipe}
use arc_remote_signer.Proxy.{
  closes_of, Stage, dialing, piping, ended, released, Session, Loop, accepting, failed, accepted,
  checked, exited, Slot, Ticket, keep, add, done, SlotEvent, accept, accept_fails, check, admit,
  dial_succeeds, dial_fails, pipe_returns, release, finish, at, put_at, take_out, accept_step,
  accept_fails_step, check_step, admit_step, dial_succeeds_step, dial_fails_step, pipe_returns_step,
  release_step, finish_step, slot_step,
}

-- Sums over the sessions.
unfoldable pub sum_of : (Session → ℕ) → List Session → ℕ
sum_of f [] = 0
sum_of f (s ∷ ss) = f s + sum_of f ss

pub sum_of-put_at :
    (f : Session → ℕ) (ss : List Session) (k : ℕ) (s x : Session)
    → at ss k ≡ some s
    → sum_of f (put_at ss k x) + f s ≡ sum_of f ss + f x
unfolding sum_of at put_at
sum_of-put_at f [] k s x h = absurd cc
sum_of-put_at f (y ∷ ss) zero s x h = ground (arith)
sum_of-put_at f (y ∷ ss) (suc k) s x h = omega (arith, sum_of-put_at f ss k s x h)

pub sum_of-take_out :
    (f : Session → ℕ) (ss : List Session) (k : ℕ) (s : Session)
    → at ss k ≡ some s
    → sum_of f (take_out ss k) + f s ≡ sum_of f ss
unfolding sum_of at take_out
sum_of-take_out f [] k s h = absurd cc
sum_of-take_out f (y ∷ ss) zero s h = ground (arith)
sum_of-take_out f (y ∷ ss) (suc k) s h = omega (arith, sum_of-take_out f ss k s h)

-- A session holds an element of the channel until its goroutine has given it back.
abbrev pub holds : Session → ℕ
holds s = elim s.stage [ released ↦ 0 | _ ↦ 1 ]

abbrev pub one : ℕ → ℕ → ℕ
one c d = if c == d then 1 else 0

abbrev pub has_conn : ℕ → Session → ℕ
has_conn c s = one c s.conn

abbrev pub count : ℕ → List ℕ → ℕ
count c [] = 0
count c (d ∷ ds) = one c d + count c ds

-- The connection in the hands of the accept loop.
abbrev pub pending : ℕ → Loop → ℕ
pending c (accepted d) = one c d
pending c (checked d) = one c d
pending c _ = 0

abbrev pub running : Loop → ℕ
running exited = 0
running _ = 1

-- The tickets of the wait group that a slot has: the accept loop's, and the sessions'.
unfoldable pub tickets : Slot → ℕ
tickets slot = running slot.loop + sum_of (λ s. 1) slot.sessions

-- The channel holds at most `max_conns` elements, one for each session that has not given its own
-- back; and of each connection, as many as were accepted are with the loop, with a session, or closed
-- by the loop or a session's deferred calls.
pub record IsValid (n c : ℕ) (slot : Slot) : Type 0 where
  pub limit : slot.max_conns ≡ n
  pub within : slot.held ≤ n
  pub counted : slot.held ≡ sum_of holds slot.sessions
  pub accounted :
      count c slot.arrivals
      ≡ pending c slot.loop + sum_of (has_conn c) slot.sessions + count c slot.closed

abbrev pub gained : Ticket → ℕ
gained add = 1
gained _ = 0

abbrev pub lost : Ticket → ℕ
lost done = 1
lost _ = 0

-- What a step does to a slot that is valid.
abbrev pub IsKept : ℕ → ℕ → Slot → Slot × Ticket → Type 0
IsKept n c slot (slot', t) = IsValid n c slot' × (tickets slot' + lost t ≡ tickets slot + gained t)

module _ (n c : ℕ) (slot : Slot) (v : IsValid n c slot) where
  accept-IsKept : (d : ℕ) (l : Loop) → slot.loop ≡ l → IsKept n c slot (accept_step slot d l, keep)
  unfolding accept_step tickets
  accept-IsKept d accepting h = ground arith
  accept-IsKept d failed h = ground arith
  accept-IsKept d (accepted x) h = ground arith
  accept-IsKept d (checked x) h = ground arith
  accept-IsKept d exited h = ground arith

  accept_fails-IsKept :
      (l : Loop) → slot.loop ≡ l → IsKept n c slot (accept_fails_step slot l, keep)
  unfolding accept_fails_step tickets
  accept_fails-IsKept accepting h = ground arith
  accept_fails-IsKept failed h = ground arith
  accept_fails-IsKept (accepted x) h = ground arith
  accept_fails-IsKept (checked x) h = ground arith
  accept_fails-IsKept exited h = ground arith

  check-IsKept : (shut : Bool) (l : Loop) → slot.loop ≡ l → IsKept n c slot (check_step shut slot l)
  unfolding check_step tickets
  check-IsKept true (accepted x) h = ground arith
  check-IsKept false (accepted x) h = ground arith
  check-IsKept shut accepting h = ground arith
  check-IsKept shut failed h = ground arith
  check-IsKept shut (checked x) h = ground arith
  check-IsKept shut exited h = ground arith

  admit-IsKept : (l : Loop) → slot.loop ≡ l → IsKept n c slot (admit_step slot l)
  unfolding admit_step tickets sum_of
  admit-IsKept accepting h = ground arith
  admit-IsKept failed h = ground arith
  admit-IsKept (accepted x) h = ground arith
  admit-IsKept (checked x) h = elim (Bool-cases (ltb slot.held slot.max_conns)) [
    | inl free ↦ rw free (ground arith)
    | inr full ↦ rw full (ground arith)
  ]
  admit-IsKept exited h = ground arith

  -- A session that moves on, and the elements of the channel, with it.
  moved-IsKept :
      (k now : ℕ) (s : Session) (stage : Stage) (pcs ups : List ℕ)
      → at slot.sessions k ≡ some s
      → now + holds s ≡ slot.held + holds (record s { stage = stage })
      → now ≤ slot.held
      → IsKept n c slot (
        record slot {
          sessions = put_at slot.sessions k (record s { stage = stage });
          held = now;
          pipe_closed = pcs;
          upstreams_closed = ups;
        },
        keep,
      )
  unfolding tickets
  moved-IsKept k now s stage pcs ups h e l =
      let s' = record s { stage = stage } in
      let holders = sum_of-put_at holds slot.sessions k s s' h in
      let conns = sum_of-put_at (has_conn c) slot.sessions k s s' h in
      let all = sum_of-put_at (λ x. 1) slot.sessions k s s' h in
      (
        record {
          limit = v.limit;
          within = omega (arith, v.within);
          counted = omega (arith, v.counted);
          accounted = omega (arith, v.accounted);
        },
        omega arith,
      )

  dial_succeeds-IsKept :
      (k up : ℕ) (o : Option Session)
      → at slot.sessions k ≡ o
      → IsKept n c slot (dial_succeeds_step slot k up o, keep)
  unfolding dial_succeeds_step
  dial_succeeds-IsKept k up none h = (v, refl)
  dial_succeeds-IsKept k up (some s) h = by_stage s.stage refl
    where
      by_stage :
          (stage : Stage)
          → s.stage ≡ stage
          → IsKept n c slot (dial_succeeds_step slot k up (some s), keep)
      by_stage dialing e = rw e (
          moved-IsKept k slot.held s (piping up) slot.pipe_closed slot.upstreams_closed h
            (ground arith) (omega arith))
      by_stage (piping x) e = rw e (v, refl)
      by_stage ended e = rw e (v, refl)
      by_stage released e = rw e (v, refl)

  dial_fails-IsKept :
      (k : ℕ) (o : Option Session)
      → at slot.sessions k ≡ o
      → IsKept n c slot (dial_fails_step slot k o, keep)
  unfolding dial_fails_step
  dial_fails-IsKept k none h = (v, refl)
  dial_fails-IsKept k (some s) h = by_stage s.stage refl
    where
      by_stage :
          (stage : Stage)
          → s.stage ≡ stage
          → IsKept n c slot (dial_fails_step slot k (some s), keep)
      by_stage dialing e = rw e (
          moved-IsKept k slot.held s ended slot.pipe_closed slot.upstreams_closed h (ground arith)
            (omega arith))
      by_stage (piping x) e = rw e (v, refl)
      by_stage ended e = rw e (v, refl)
      by_stage released e = rw e (v, refl)

  pipe_returns-IsKept :
      (k : ℕ) (p : Pipe) (o : Option Session)
      → at slot.sessions k ≡ o
      → IsKept n c slot (pipe_returns_step slot k p o, keep)
  unfolding pipe_returns_step
  pipe_returns-IsKept k p none h = (v, refl)
  pipe_returns-IsKept k p (some s) h = by_stage s.stage refl
    where
      by_stage :
          (stage : Stage)
          → s.stage ≡ stage
          → IsKept n c slot (pipe_returns_step slot k p (some s), keep)
      by_stage dialing e = rw e (v, refl)
      by_stage (piping x) e = elim (Bool-cases (arc_remote_signer.Proxy.Pipe.pipe_returns p)) [
        | inr waits ↦ rw (e, waits) (v, refl)
        | inl returns ↦
            rw (e, returns)
              (moved-IsKept k slot.held s ended (closes_of p s.conn slot.pipe_closed)
                (x ∷ closes_of p x slot.upstreams_closed) h (ground arith) (omega arith))
      ]
      by_stage ended e = rw e (v, refl)
      by_stage released e = rw e (v, refl)

  release-IsKept :
      (k : ℕ) (o : Option Session)
      → at slot.sessions k ≡ o
      → IsKept n c slot (release_step slot k o, keep)
  unfolding release_step
  release-IsKept k none h = (v, refl)
  release-IsKept k (some s) h = by_stage s.stage refl
    where
      by_stage :
          (stage : Stage) → s.stage ≡ stage → IsKept n c slot (release_step slot k (some s), keep)
      by_stage dialing e = rw e (v, refl)
      by_stage (piping x) e = rw e (v, refl)
      by_stage ended e = elim (Bool-cases (slot.held == 0)) [
        | inl empty ↦ rw (e, empty) (v, refl)
        | inr filled ↦
            rw (e, filled)
              (moved-IsKept k (slot.held - 1) s released slot.pipe_closed slot.upstreams_closed h
                (ground arith) (omega arith))
      ]
      by_stage released e = rw e (v, refl)

  finish-IsKept :
      (k : ℕ) (o : Option Session) → at slot.sessions k ≡ o → IsKept n c slot (finish_step slot k o)
  unfolding finish_step tickets
  finish-IsKept k none h = (v, refl)
  finish-IsKept k (some s) h = by_stage s.stage refl
    where
      by_stage : (stage : Stage) → s.stage ≡ stage → IsKept n c slot (finish_step slot k (some s))
      by_stage dialing e = rw e (v, refl)
      by_stage (piping x) e = rw e (v, refl)
      by_stage ended e = rw e (v, refl)
      by_stage released e =
          let holders = sum_of-take_out holds slot.sessions k s h in
          let conns = sum_of-take_out (has_conn c) slot.sessions k s h in
          let all = sum_of-take_out (λ x. 1) slot.sessions k s h in
          let free = ap (λ x. elim x as (λ y. ℕ) [ released ↦ 0 | _ ↦ 1 ]) e in
          rw e (
            record {
              limit = v.limit;
              within = v.within;
              counted = ground (arith, v.counted);
              accounted = ground (arith, v.accounted);
            },
            omega arith,
          )

  pub slot_step-IsKept : (shut : Bool) (e : SlotEvent) → IsKept n c slot (slot_step shut slot e)
  unfolding slot_step
  slot_step-IsKept shut (accept d) = accept-IsKept d slot.loop refl
  slot_step-IsKept shut accept_fails = accept_fails-IsKept slot.loop refl
  slot_step-IsKept shut check = check-IsKept shut slot.loop refl
  slot_step-IsKept shut admit = admit-IsKept slot.loop refl
  slot_step-IsKept shut (dial_succeeds k up) = dial_succeeds-IsKept k up (at slot.sessions k) refl
  slot_step-IsKept shut (dial_fails k) = dial_fails-IsKept k (at slot.sessions k) refl
  slot_step-IsKept shut (pipe_returns k schedule) =
      pipe_returns-IsKept k (run_pipe new_pipe schedule) (at slot.sessions k) refl
  slot_step-IsKept shut (release k) = release-IsKept k (at slot.sessions k) refl
  slot_step-IsKept shut (finish k) = finish-IsKept k (at slot.sessions k) refl
