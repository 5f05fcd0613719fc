-- ===== src/Gate/Agreement.antt =====
-- About internal/enclave/service/enclave/initgate.go: published states and the answers of callers.
use mathlib.Core.List.{Memᴰ}
use arc_remote_signer.Common.{
  List, [], ◌∷◌, ◌++◌, Option, none, some, ◌≡◌, refl, sym, ap, ◌∙◌, arith, Bytes, All-mem,
  Bool-cases, inl, inr,
}
use arc_remote_signer.GoError.{Grpc, ok}
use arc_remote_signer.Proto.{InitializeResponse}
use arc_remote_signer.Gate.{
  ReadyState, Answer, Flight, Gate, new_init_gate, Outcome, Event, arrive, join, begin_run, finish,
  cancel, response_for_fingerprint, finish_step, step, run,
}
use arc_remote_signer.Gate.Invariant.{
  count_ready, Justified, Inv, step-Inv, run-Inv, new_init_gate-Inv,
}

module _ {K : Type 0} where
  pub response_public_key :
      (state : ReadyState K) (fingerprint : Bytes) (resp : InitializeResponse)
      → response_for_fingerprint state fingerprint ≡ ok resp
      → (resp.public_key ≡ state.response.public_key)
        × (resp.attestation_document ≡ state.response.attestation_document)
  unfolding response_for_fingerprint
  response_public_key state fingerprint resp h = ground arith

  Justified-public_key :
      (ready : Option (ReadyState K)) (a b : Answer) (ra rb : InitializeResponse)
      → Justified ready a
      → Justified ready b
      → a.result ≡ ok ra
      → b.result ≡ ok rb
      → (ra.public_key ≡ rb.public_key) × (ra.attestation_document ≡ rb.attestation_document)
  Justified-public_key none a b ra rb ja jb ea eb = absurd (ja ra ea)
  Justified-public_key (some state) a b ra rb ja jb ea eb =
      let (pa, da) = response_public_key state a.caller.fingerprint ra (ja ra ea) in
      let (pb, db) = response_public_key state b.caller.fingerprint rb (jb rb eb) in
      (pa ∙ sym pb, da ∙ sym db)

module _ (K : Type 0) (g : Grpc) (sha256 : Bytes → Bytes) where
  -- However the callers interleave, and whatever the runs of `runInit` give, all callers that
  -- succeed get the same public key and the same attestation document.
  pub gate_agreement :
      (es : List (Event K)) (a b : Answer) (ra rb : InitializeResponse)
      → Memᴰ a (run g sha256 (new_init_gate K) es).answers
      → Memᴰ b (run g sha256 (new_init_gate K) es).answers
      → a.result ≡ ok ra
      → b.result ≡ ok rb
      → (ra.public_key ≡ rb.public_key) × (ra.attestation_document ≡ rb.attestation_document)
  gate_agreement es a b ra rb ma mb ea eb =
      let gate = run g sha256 (new_init_gate K) es in
      let v = run-Inv g sha256 (new_init_gate K) es (new_init_gate-Inv K) in
      Justified-public_key gate.ready a b ra rb (All-mem (Justified gate.ready) v.justified ma)
        (All-mem (Justified gate.ready) v.justified mb) ea eb

module _ {K : Type 0} (g : Grpc) (sha256 : Bytes → Bytes) where
  finish_ready :
      (gate : Gate K) (flight : Option Flight) (outcome : Outcome K) (state : ReadyState K)
      → gate.flight ≡ flight
      → Inv gate
      → gate.ready ≡ some state
      → (finish_step g sha256 gate flight outcome).ready ≡ some state
  unfolding finish_step
  finish_ready gate none outcome state p v h = h
  finish_ready gate (some f) outcome state p v h = elim (Bool-cases f.running) [
    | inl busy ↦ cc (v.exclusive f p busy)
    | inr idle ↦ rw idle h
  ]

  step_ready :
      (gate : Gate K) (e : Event K) (state : ReadyState K)
      → Inv gate
      → gate.ready ≡ some state
      → (step g sha256 gate e).ready ≡ some state
  unfolding step
  step_ready gate (arrive c) state v h = ground arith
  step_ready gate (join id) state v h = ground arith
  step_ready gate begin_run state v h = ground arith
  step_ready gate (finish outcome) state v h = finish_ready gate gate.flight outcome state refl v h
  step_ready gate (cancel id e) state v h = ground arith

  run_ready :
      (gate : Gate K) (es : List (Event K)) (state : ReadyState K)
      → Inv gate
      → gate.ready ≡ some state
      → (run g sha256 gate es).ready ≡ some state
  unfolding run
  run_ready gate [] state v h = h
  run_ready gate (e ∷ es) state v h =
      run_ready (step g sha256 gate e) es state (step-Inv g sha256 gate e v)
        (step_ready gate e state v h)

  run-append :
      (gate : Gate K) (es fs : List (Event K))
      → run g sha256 gate (es ++ fs) ≡ run g sha256 (run g sha256 gate es) fs
  unfolding run
  run-append gate [] fs = refl
  run-append gate (e ∷ es) fs = run-append (step g sha256 gate e) es fs

  -- A state that is published after some events stays published, unchanged, after any further
  -- events, and was stored exactly once.
  pub gate_publishes_once :
      (es later : List (Event K)) (state : ReadyState K)
      → (run g sha256 (new_init_gate K) es).ready ≡ some state
      → ((run g sha256 (new_init_gate K) (es ++ later)).ready ≡ some state)
        × ((run g sha256 (new_init_gate K) (es ++ later)).publications ≡ 1)
  gate_publishes_once es later state h =
      let v = run-Inv g sha256 (new_init_gate K) es (new_init_gate-Inv K) in
      let stays : (run g sha256 (new_init_gate K) (es ++ later)).ready ≡ some state =
        rw (run-append (new_init_gate K) es later)
          (run_ready (run g sha256 (new_init_gate K) es) later state v h) in
      (
        stays,
        (run-Inv g sha256 (new_init_gate K) (es ++ later) (new_init_gate-Inv K)).once
            ∙ ap count_ready stays,
      )
