-- ===== src/Gate/Invariant.antt =====
-- About internal/enclave/service/enclave/initgate.go: an invariant of the gate under its events.
use arc_remote_signer.Common.{
  ℕ, ◌+◌, true, List, [], ◌∷◌, map, Option, none, some, ◌≡◌, refl, ap, subst, ◌≢◌, ◌∙◌, arith,
  Bytes, All, All-append, Bool-cases, inl, inr,
}
use arc_remote_signer.GoError.{Err, Grpc, Result, ok, err}
use arc_remote_signer.Proto.{InitializeResponse}
use arc_remote_signer.Gate.{
  ReadyState, Caller, Answer, Flight, Gate, new_init_gate, Outcome, Event, arrive, join, begin_run,
  finish, cancel, response_for_fingerprint, publish, take_caller, reply, complete, arrive_step,
  start_flight, join_step, begin_step, finish_with, cancel_step, finish_step, step, run,
}

start_flight-ne-none : (flight : Option Flight) (c : Caller) → start_flight flight c ≡ none → ⊥
unfolding start_flight
start_flight-ne-none none c e = cc
start_flight-ne-none (some f) c e = cc

start_flight_idle : (c : Caller) (f : Flight) → start_flight none c ≡ some f → f.running ≡ true → ⊥
unfolding start_flight
start_flight_idle c f e r = ground arith

module _ {K : Type 0} where
  abbrev pub count_ready : Option (ReadyState K) → ℕ
  count_ready none = 0
  count_ready (some state) = 1

  abbrev pub JustifiedBy : Option (ReadyState K) → Bytes → InitializeResponse → Type 0
  JustifiedBy none fingerprint resp = ⊥
  JustifiedBy (some state) fingerprint resp = response_for_fingerprint state fingerprint ≡ ok resp

  -- A result is an error, or what the published state answers to the fingerprint.
  abbrev pub Justified : Option (ReadyState K) → Answer → Type 0
  Justified ready a =
      (resp : InitializeResponse) → a.result ≡ ok resp → JustifiedBy ready a.caller.fingerprint resp

  -- While a callback runs nothing is published; nobody waits without a flight; each published
  -- state was stored once; and every success comes from the published state.
  pub record Inv (gate : Gate K) : Type 0 where
    pub exclusive : (f : Flight) → gate.flight ≡ some f → f.running ≡ true → gate.ready ≡ none
    pub attended : gate.flight ≡ none → gate.waiting ≡ []
    pub once : gate.publications ≡ count_ready gate.ready
    pub justified : All (Justified gate.ready) gate.answers

  Justified-mono :
      (state : ReadyState K) (answers : List Answer)
      → All (Justified none) answers
      → All (Justified (some state)) answers
  Justified-mono state [] h = tt
  Justified-mono state (a ∷ rest) h = (λ resp e. absurd (h.0 resp e), Justified-mono state rest h.1)

  reply-Justified :
      (ready : Option (ReadyState K)) (r : Result (ReadyState K)) (cs : List Caller)
      → ((state : ReadyState K) → r ≡ ok state → ready ≡ some state)
      → All (Justified ready) (map (reply r) cs)
  unfolding reply
  reply-Justified ready r [] h = tt
  reply-Justified ready (err e) (c ∷ cs) h = ((λ resp p. cc), reply-Justified ready (err e) cs h)
  reply-Justified ready (ok state) (c ∷ cs) h =
      ((λ resp p. rw (h state refl) p), reply-Justified ready (ok state) cs h)

  complete-Inv :
      (gate : Gate K) (r : Result (ReadyState K))
      → gate.publications ≡ count_ready gate.ready
      → All (Justified gate.ready) gate.answers
      → ((state : ReadyState K) → r ≡ ok state → gate.ready ≡ some state)
      → Inv (complete gate r)
  unfolding complete
  complete-Inv gate r once old h = record {
    exclusive = λ f e _. cc;
    attended = λ _. refl;
    once = once;
    justified =
        All-append (Justified gate.ready) (map (reply r) gate.waiting) gate.answers
          (reply-Justified gate.ready r gate.waiting h) old;
  }

  arrive-Inv :
      (gate : Gate K) (c : Caller) (ready : Option (ReadyState K))
      → gate.ready ≡ ready
      → Inv gate
      → Inv (arrive_step gate c ready)
  unfolding arrive_step
  arrive-Inv gate c none e v = record {
    exclusive = v.exclusive;
    attended = v.attended;
    once = v.once;
    justified = v.justified;
  }
  arrive-Inv gate c (some state) e v = record {
    exclusive = v.exclusive;
    attended = v.attended;
    once = v.once;
    justified = (λ resp p. rw e p, v.justified);
  }

  join-Inv :
      (gate : Gate K) (found : Option (Caller × List Caller))
      → Inv gate
      → Inv (join_step gate found)
  unfolding join_step
  join-Inv gate none v = v
  join-Inv gate (some (c, rest)) v = record {
    exclusive = λ f e r. start-exclusive gate.flight refl f e r;
    attended = λ e. absurd (start_flight-ne-none gate.flight c e);
    once = v.once;
    justified = v.justified;
  }
    where
      start-exclusive :
          (flight : Option Flight)
          → gate.flight ≡ flight
          → (f : Flight) → start_flight flight c ≡ some f
          → f.running ≡ true
          → gate.ready ≡ none
      start-exclusive none p f e r = absurd (start_flight_idle c f e r)
      start-exclusive (some old) p f e r = v.exclusive f (p ∙ e) r

  begin-Inv :
      (gate : Gate K) (flight : Option Flight) (ready : Option (ReadyState K))
      → gate.flight ≡ flight
      → gate.ready ≡ ready
      → Inv gate
      → Inv (begin_step gate flight ready)
  unfolding begin_step
  begin-Inv gate none ready p q v = v
  begin-Inv gate (some f) none p q v = elim (Bool-cases f.running) [
    | inl busy ↦ rw busy v
    | inr idle ↦ rw idle (record {
      exclusive = λ _ _ _. q;
      attended = λ e. cc;
      once = v.once;
      justified = v.justified;
    })
  ]
  begin-Inv gate (some f) (some state) p q v = elim (Bool-cases f.running) [
    | inl busy ↦ rw busy v
    | inr idle ↦ rw idle (complete-Inv gate (ok state) v.once v.justified (λ s e. q ∙ cc))
  ]

  finish_with-Inv :
      (gate : Gate K) (r : Result (ReadyState K))
      → gate.ready ≡ none
      → Inv gate
      → Inv (finish_with gate r)
  unfolding finish_with
  finish_with-Inv gate (err e) q v = complete-Inv gate (err e) v.once v.justified (λ s p. cc)
  finish_with-Inv gate (ok state) q v =
      complete-Inv (record gate { ready = some state; publications = gate.publications + 1 })
        (ok state) (omega (arith, v.once ∙ ap count_ready q))
        (Justified-mono state gate.answers
          (subst (λ (r : Option (ReadyState K)). All (Justified r) gate.answers) q v.justified))
        (λ s e. cc)

  cancel-Inv :
      (gate : Gate K) (e : Err) (found : Option (Caller × List Caller))
      → (found ≢ none → gate.waiting ≢ [])
      → Inv gate
      → Inv (cancel_step gate e found)
  unfolding cancel_step
  cancel-Inv gate e none h v = v
  cancel-Inv gate e (some (c, rest)) h v = record {
    exclusive = v.exclusive;
    attended = λ idle. absurd (h (λ p. cc) (v.attended idle));
    once = v.once;
    justified = ((λ resp p. cc), v.justified);
  }

take_caller-found : (cs : List Caller) (id : ℕ) → take_caller cs id ≢ none → cs ≢ []
unfolding take_caller
take_caller-found [] id h e = h refl
take_caller-found (c ∷ cs) id h e = cc

module _ {K : Type 0} (g : Grpc) (sha256 : Bytes → Bytes) where
  finish-Inv :
      (gate : Gate K) (flight : Option Flight) (outcome : Outcome K)
      → gate.flight ≡ flight
      → Inv gate
      → Inv (finish_step g sha256 gate flight outcome)
  unfolding finish_step
  finish-Inv gate none outcome p v = v
  finish-Inv gate (some f) outcome p v = elim (Bool-cases f.running) [
    | inl busy ↦
        rw busy
          (finish_with-Inv gate (publish g sha256 f.fingerprint outcome) (v.exclusive f p busy) v)
    | inr idle ↦ rw idle v
  ]

  pub step-Inv : (gate : Gate K) (e : Event K) → Inv gate → Inv (step g sha256 gate e)
  unfolding step
  step-Inv gate (arrive c) v = arrive-Inv gate c gate.ready refl v
  step-Inv gate (join id) v = join-Inv gate (take_caller gate.checked id) v
  step-Inv gate begin_run v = begin-Inv gate gate.flight gate.ready refl refl v
  step-Inv gate (finish outcome) v = finish-Inv gate gate.flight outcome refl v
  step-Inv gate (cancel id e) v =
      cancel-Inv gate e (take_caller gate.waiting id) (take_caller-found gate.waiting id) v

  pub run-Inv : (gate : Gate K) (es : List (Event K)) → Inv gate → Inv (run g sha256 gate es)
  unfolding run
  run-Inv gate [] v = v
  run-Inv gate (e ∷ es) v = run-Inv (step g sha256 gate e) es (step-Inv gate e v)

pub new_init_gate-Inv : (K : Type 0) → Inv (new_init_gate K)
new_init_gate-Inv K = record {
  exclusive = λ f e _. cc;
  attended = λ _. refl;
  once = refl;
  justified = tt;
}
