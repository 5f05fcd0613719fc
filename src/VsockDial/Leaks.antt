-- ===== src/VsockDial/Leaks.antt =====
-- About `vsockTransportDial` and `drainVsockDial` of
-- internal/enclave/provider/awsproxy/transport_vsock.go.
use arc_remote_signer.Common.{
  ℕ, ◌+◌, List, [], ◌∷◌, Option, none, some, ◌≡◌, refl, ap, arith, ◌==◌, if◌then◌else◌,
  Option-cases, inl, inr, ◌≢◌,
}
use arc_remote_signer.GoError.{Err}
use arc_remote_signer.VsockDial.{
  DialResult, Dialer, dialing, returned, sent, Drainer, absent, receiving, finished, Race, Event,
  dial_returns, dialer_sends, caller_receives, context_done, drainer_receives, new_race,
  dial_returns_step, send_step, receive_step, context_done_step, close_late, drain_step, race_step,
  run_race,
}

-- How often a connection is in a place.
abbrev pub one : ℕ → Option ℕ → ℕ
one c none = 0
one c (some d) = if c == d then 1 else 0

abbrev pub in_result : ℕ → Option DialResult → ℕ
in_result c none = 0
in_result c (some r) = one c r.conn

abbrev pub in_dialer : ℕ → Dialer → ℕ
in_dialer c (returned r) = one c r.conn
in_dialer c _ = 0

unfoldable pub count : ℕ → List ℕ → ℕ
count c [] = 0
count c (d ∷ ds) = one c (some d) + count c ds

-- The connections that `vsock.Dial` has returned: the first event that returns one counts.
unfoldable pub dialled : List Event → Option ℕ
dialled [] = none
dialled (dial_returns r ∷ es) = r.conn
dialled (_ ∷ es) = dialled es

-- Where a connection is: with the dialling goroutine, in the channel, with the caller, or closed.
abbrev pub places : ℕ → Race → ℕ
places c race =
    in_dialer c race.dialer + in_result c race.queue + in_result c race.answer + count c race.closed

abbrev pub sends : Dialer → ℕ
sends sent = 1
sends _ = 0

abbrev pub queued : Option DialResult → ℕ
queued none = 0
queued (some r) = 1

-- Whether the caller or the drainer has received, by what the caller has returned.
abbrev pub received : Option DialResult → Drainer → ℕ
received none drainer = 0
received (some r) receiving = 0
received (some r) _ = 1

-- What was sent is in the channel or received; the drainer starts when the caller returns.
record Inv (race : Race) : Type 0 where
  balance : sends race.dialer ≡ queued race.queue + received race.answer race.drainer
  waiting : race.answer ≡ none → race.drainer ≡ absent

-- Only the return of the dial brings a connection in.
abbrev gained : ℕ → Event → Dialer → ℕ
gained c (dial_returns r) dialing = one c r.conn
gained c (dial_returns r) _ = 0
gained c _ _ = 0

-- What a step promises: the invariant, and connections that stay in one place each.
abbrev Keeps : ℕ → ℕ → Race → Race → Type 0
Keeps c gained race race' = Inv race' × (places c race' ≡ places c race + gained)

dial_returns-Keeps :
    (c : ℕ) (race : Race) (r : DialResult) (d : Dialer)
    → race.dialer ≡ d
    → Inv race
    → Keeps c (gained c (dial_returns r) d) race (dial_returns_step race r d)
unfolding dial_returns_step
dial_returns-Keeps c race r dialing e v = (
  record { balance = (let b = rw e at v.balance in b); waiting = v.waiting },
  omega (arith, ap (in_dialer c) e),
)
dial_returns-Keeps c race r (returned x) e v = (v, omega arith)
dial_returns-Keeps c race r sent e v = (v, omega arith)

send-Keeps :
    (c : ℕ) (race : Race) (d : Dialer) (q : Option DialResult)
    → race.dialer ≡ d
    → race.queue ≡ q
    → Inv race
    → Keeps c 0 race (send_step race d q)
unfolding send_step
send-Keeps c race (returned r) none e f v = (
  record { balance = omega (arith, rw (e, f) at v.balance); waiting = v.waiting },
  omega (arith, ap (in_dialer c) e, ap (in_result c) f),
)
send-Keeps c race (returned r) (some x) e f v = (v, omega arith)
send-Keeps c race dialing q e f v = (v, omega arith)
send-Keeps c race sent q e f v = (v, omega arith)

receive-Keeps :
    (c : ℕ) (race : Race) (a q : Option DialResult)
    → race.answer ≡ a
    → race.queue ≡ q
    → Inv race
    → Keeps c 0 race (receive_step race a q)
unfolding receive_step
receive-Keeps c race none (some r) e f v =
    let idle = v.waiting e in
    (
      record {
        balance =
            omega (arith, rw (e, f) at v.balance, ap (λ (d : Drainer). received (some r) d) idle);
        waiting = λ h. absurd cc;
      },
      omega (arith, ap (in_result c) e, ap (in_result c) f),
    )
receive-Keeps c race none none e f v = (v, omega arith)
receive-Keeps c race (some x) q e f v = (v, omega arith)

context_done-Keeps :
    (c : ℕ) (race : Race) (parent : Option Err) (own : Err) (a : Option DialResult)
    → race.answer ≡ a
    → Inv race
    → Keeps c 0 race (context_done_step race parent own a)
unfolding context_done_step
context_done-Keeps c race parent own none e v = (
  record { balance = omega (arith, rw e at v.balance); waiting = λ h. absurd cc },
  omega (arith, ap (in_result c) e),
)
context_done-Keeps c race parent own (some r) e v = (v, omega arith)

close_late-count :
    (c : ℕ) (closed : List ℕ) (o : Option ℕ)
    → count c (close_late closed o) ≡ one c o + count c closed
unfolding close_late count
close_late-count c closed none = omega arith
close_late-count c closed (some d) = omega arith

drain-Keeps :
    (c : ℕ) (race : Race) (d : Drainer) (q : Option DialResult)
    → race.drainer ≡ d
    → race.queue ≡ q
    → Inv race
    → Keeps c 0 race (drain_step race d q)
unfolding drain_step
drain-Keeps c race receiving (some r) e f v = elim (Option-cases race.answer) [
  | inl a ↦ absurd (let idle = v.waiting a in cc)
  | inr (x, a) ↦ (
    record {
      balance =
          omega (
            arith,
            rw (e, f, a) at v.balance,
            ap (λ (o : Option DialResult). received o finished) a,
          );
      waiting = λ h. absurd cc;
    },
    omega (arith, ap (in_result c) f, close_late-count c race.closed r.conn),
  )
]
drain-Keeps c race receiving none e f v = (v, omega arith)
drain-Keeps c race absent q e f v = (v, omega arith)
drain-Keeps c race finished q e f v = (v, omega arith)

race_step-Keeps :
    (c : ℕ) (race : Race) (e : Event)
    → Inv race
    → Keeps c (gained c e race.dialer) race (race_step race e)
unfolding race_step
race_step-Keeps c race (dial_returns r) v = dial_returns-Keeps c race r race.dialer refl v
race_step-Keeps c race dialer_sends v = send-Keeps c race race.dialer race.queue refl refl v
race_step-Keeps c race caller_receives v = receive-Keeps c race race.answer race.queue refl refl v
race_step-Keeps c race (context_done parent own) v =
    context_done-Keeps c race parent own race.answer refl v
race_step-Keeps c race drainer_receives v = drain-Keeps c race race.drainer race.queue refl refl v

-- The connection that `vsock.Dial` is still to return.
abbrev later : Dialer → List Event → Option ℕ
unfolding dialled
later dialing es = dialled es
later _ es = none

abbrev later_count : ℕ → List Event → Dialer → ℕ
later_count c es d = one c (later d es)

later-step :
    (c : ℕ) (race : Race) (e : Event) (es : List Event) (d : Dialer)
    → race.dialer ≡ d
    → one c (later d (e ∷ es)) ≡ gained c e d + one c (later (race_step race e).dialer es)
unfolding race_step dial_returns_step send_step receive_step context_done_step drain_step dialled
later-step c race (dial_returns r) es dialing h = rw h (omega arith)
later-step c race (dial_returns r) es (returned x) h = rw h (omega (arith, ap (later_count c es) h))
later-step c race (dial_returns r) es sent h = rw h (omega (arith, ap (later_count c es) h))
later-step c race dialer_sends es dialing h = rw h (omega (arith, ap (later_count c es) h))
later-step c race dialer_sends es (returned x) h = ground arith
later-step c race dialer_sends es sent h = rw h (omega (arith, ap (later_count c es) h))
later-step c race caller_receives es d h =
    let same : (receive_step race race.answer race.queue).dialer ≡ d = ground arith in
    let skip : later_count c (caller_receives ∷ es) d ≡ later_count c es d = ground arith in
    omega (arith, ap (later_count c es) same)
later-step c race (context_done parent own) es d h =
    let same : (context_done_step race parent own race.answer).dialer ≡ d = ground arith in
    let skip : later_count c (context_done parent own ∷ es) d ≡ later_count c es d = ground arith in
    omega (arith, ap (later_count c es) same)
later-step c race drainer_receives es d h =
    let same : (drain_step race race.drainer race.queue).dialer ≡ d = ground arith in
    let skip : later_count c (drainer_receives ∷ es) d ≡ later_count c es d = ground arith in
    omega (arith, ap (later_count c es) same)

run_race-Keeps :
    (c : ℕ) (race : Race) (es : List Event)
    → Inv race
    → Inv (run_race race es)
      × (places c (run_race race es) ≡ places c race + one c (later race.dialer es))
unfolding run_race dialled
run_race-Keeps c race [] v =
    (v, (let none_left : one c (later race.dialer []) ≡ 0 = ground arith in omega arith))
run_race-Keeps c race (e ∷ es) v =
    let (w, p) = race_step-Keeps c race e v in
    let (x, q) = run_race-Keeps c (race_step race e) es w in
    (x, omega (arith, later-step c race e es race.dialer refl))

new_race-Inv : Inv new_race
new_race-Inv = record { balance = refl; waiting = λ h. refl }

-- However the three goroutines interleave, once the dial's result has been sent, the caller has
-- returned and no drainer is waiting, the connection that the vsock dial returned is with the
-- caller or closed, once, and no other connection is.
pub run_race_leaks_nothing :
    (es : List Event) (c : ℕ) (answer : DialResult)
    → (run_race new_race es).dialer ≡ sent
    → (run_race new_race es).answer ≡ some answer
    → (run_race new_race es).drainer ≢ receiving
    → one c answer.conn + count c (run_race new_race es).closed ≡ one c (dialled es)
unfolding dialled count
run_race_leaks_nothing es c answer over told done =
    let (v, p) = run_race-Keeps c new_race es new_race-Inv in
    let race = run_race new_race es in
    let empty : in_result c race.queue ≡ 0 =
      nothing_left c race.queue race.drainer (rw (over, told) at v.balance) done in
    omega (arith, p, empty, ap (in_dialer c) over, ap (in_result c) told)
  where
    nothing_left :
        (c : ℕ) (queue : Option DialResult) (drainer : Drainer)
        → 1 ≡ queued queue + received (some answer) drainer
        → drainer ≢ receiving
        → in_result c queue ≡ 0
    nothing_left c none drainer h ne = refl
    nothing_left c (some r) receiving h ne = absurd (ne refl)
    nothing_left c (some r) absent h ne = absurd (omega arith)
    nothing_left c (some r) finished h ne = absurd (omega arith)
