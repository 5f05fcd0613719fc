-- ===== src/Gate/Origin.antt =====
-- About internal/enclave/service/enclave/initgate.go: where a published state comes from.
use arc_remote_signer.Common.{
  Option, none, some, ◌≡◌, refl, ap, ◌∙◌, ◌⊎◌, inl, inr, Bytes, arith, Bool-cases,
}
use arc_remote_signer.GoError.{Grpc, ok, err, Result-cases}
use arc_remote_signer.Gate.{
  ReadyState, Flight, Gate, Outcome, Event, arrive, join, begin_run, finish, cancel, publish,
  finish_step, with_recovery, step,
}

module _ {K : Type 0} (g : Grpc) (sha256 : Bytes → Bytes) where
  -- The state is a run's, with fingerprints put in.
  pub record IsFrom (outcome : Outcome K) (state : ReadyState K) : Type 0 where
    pub given : ReadyState K
    pub outcome_is : outcome ≡ ok (some given)
    pub key : state.key ≡ given.key
    pub response : state.response ≡ given.response

  publish-IsFrom :
      (fingerprint : Bytes) (outcome : Outcome K) (state : ReadyState K)
      → publish g sha256 fingerprint outcome ≡ ok state
      → IsFrom outcome state
  unfolding publish with_recovery
  publish-IsFrom fingerprint (err e) state h = absurd cc
  publish-IsFrom fingerprint (ok none) state h = absurd cc
  publish-IsFrom fingerprint (ok (some t)) state h = record {
    given = t;
    outcome_is = refl;
    key = ground arith;
    response = ground arith;
  }

  finish_step-IsFrom :
      (gate : Gate K) (flight : Option Flight) (outcome : Outcome K) (state : ReadyState K)
      → (finish_step g sha256 gate flight outcome).ready ≡ some state
      → (gate.ready ≡ some state) ⊎ IsFrom outcome state
  unfolding finish_step
  finish_step-IsFrom gate none outcome state h = inl h
  finish_step-IsFrom gate (some f) outcome state h = elim (Bool-cases f.running) [
    | inr idle ↦ inl (ground arith)
    | inl busy ↦ elim (Result-cases (publish g sha256 f.fingerprint outcome)) [
      | inr (e, p) ↦ inl (ground arith)
      | inl (t, p) ↦
          let same : t ≡ state = ground arith in
          inr (publish-IsFrom f.fingerprint outcome state (p ∙ ap ok same))
    ]
  ]

  -- A state that is published behind an event was published before it, or is what a run gave.
  pub step-IsFrom :
      (gate : Gate K) (e : Event K) (state : ReadyState K)
      → (step g sha256 gate e).ready ≡ some state
      → (gate.ready ≡ some state)
        ⊎ ((outcome : Outcome K) × (e ≡ finish outcome) × IsFrom outcome state)
  unfolding step
  step-IsFrom gate (arrive c) state h = inl (ground arith)
  step-IsFrom gate (join id) state h = inl (ground arith)
  step-IsFrom gate begin_run state h = inl (ground arith)
  step-IsFrom gate (finish outcome) state h =
      elim (finish_step-IsFrom gate gate.flight outcome state h) [
        | inl same ↦ inl same
        | inr given ↦ inr (outcome, refl, given)
      ]
  step-IsFrom gate (cancel id e) state h = inl (ground arith)
