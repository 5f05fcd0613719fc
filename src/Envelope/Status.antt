-- ===== src/Envelope/Status.antt =====
-- About `toStatusError` of internal/enclave/service/enclave/enclave.go.
use arc_remote_signer.Common.{
  true, ◌||◌, Option, none, some, ◌≡◌, refl, String, Bool-cases, inl, inr, subst,
}
use arc_remote_signer.GoError.{
  Err, Code, internal, Grpc, IsGrpc, errors_is, is_context_canceled, is_context_deadline_exceeded,
  is_arn_sentinel, is_region_sentinel, error_text,
}
use arc_remote_signer.Kms.Errors.{with_text, status_code_of, status_from_error}
use arc_remote_signer.Envelope.{prefixed, prefixed_mapped, fallback_status, to_status_error}

module _ (g : Grpc) (laws : IsGrpc g) where
  IsStatusError : Err → Type 0
  IsStatusError e = g.is_status e ≡ true

  prefixed-IsStatusError :
      (prefix : String) (c : Code) (text : String) → IsStatusError (prefixed g prefix c text)
  unfolding IsStatusError prefixed
  prefixed-IsStatusError String.[] c text = laws.is_status-status c text
  prefixed-IsStatusError (String.◌∷◌ x s) c text = laws.is_status-status c _

  with_text-IsStatusError :
      (e mapped : Err) (c : Option Code) → with_text g e c ≡ some mapped → IsStatusError mapped
  unfolding IsStatusError with_text
  with_text-IsStatusError e mapped none h = absurd cc
  with_text-IsStatusError e mapped (some c) h =
      subst (λ m. g.is_status m ≡ true) (same h) (laws.is_status-status c (error_text g e))
    where
      same : {a b : Err} → some a ≡ some b → a ≡ b
      same q = cc

  status_from_error-IsStatusError :
      (e mapped : Err) → status_from_error g e ≡ some mapped → IsStatusError mapped
  unfolding status_from_error
  status_from_error-IsStatusError e mapped h = with_text-IsStatusError e mapped (status_code_of e) h

  prefixed_mapped-IsStatusError :
      (prefix : String) (mapped : Err)
      → IsStatusError mapped
      → IsStatusError (prefixed_mapped g prefix mapped)
  unfolding IsStatusError prefixed_mapped
  prefixed_mapped-IsStatusError String.[] mapped h = h
  prefixed_mapped-IsStatusError (String.◌∷◌ x s) mapped h = laws.is_status-status _ _

  fallback_status-IsStatusError :
      (prefix : String) (e : Err) → IsStatusError (fallback_status g prefix e)
  unfolding IsStatusError fallback_status
  fallback_status-IsStatusError prefix e = elim (Bool-cases (g.is_status e)) [
    | inl h ↦ rw (h, h) refl
    | inr h ↦ rw h (prefixed-IsStatusError prefix internal (error_text g e))
  ]

  unrecognized :
      (prefix : String) (e : Err) (mapped : Option Err)
      → status_from_error g e ≡ mapped
      → IsStatusError
          (elim mapped [ some m ↦ prefixed_mapped g prefix m | none ↦ fallback_status g prefix e ])
  unrecognized prefix e none h = fallback_status-IsStatusError prefix e
  unrecognized prefix e (some m) h =
      prefixed_mapped-IsStatusError prefix m (status_from_error-IsStatusError e m h)

  -- Whatever the error and the prefix, `toStatusError` returns a gRPC status error, if gRPC
  -- takes what `status.Error` makes for one.
  pub to_status_error-IsStatusError :
      (prefix : String) (e : Err) → (g.is_status (to_status_error g prefix e) ≡ true)
  unfolding to_status_error IsStatusError
  to_status_error-IsStatusError prefix e = elim (Bool-cases (errors_is is_context_canceled e)) [
    | inl h ↦ rw h (laws.is_status-status _ _)
    | inr h ↦ elim (Bool-cases (errors_is is_context_deadline_exceeded e)) [
      | inl k ↦ rw (h, k) (laws.is_status-status _ _)
      | inr k ↦ elim (Bool-cases (errors_is is_arn_sentinel e || errors_is is_region_sentinel e)) [
        | inl r ↦ rw (h, k, r) (prefixed-IsStatusError prefix _ _)
        | inr r ↦ rw (h, k, r) (unrecognized prefix e (status_from_error g e) refl)
      ]
    ]
  ]
