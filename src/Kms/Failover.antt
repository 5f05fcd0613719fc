-- ===== src/Kms/Failover.antt =====
-- About `call` of internal/enclave/provider/awskms/awskms.go: the answer or the error that it
-- gives, and the order of the clients afterwards.
use arc_remote_signer.Common.{
  ◌⊎◌, inl, inr, List, [], ◌∷◌, ◌++◌, Option, none, some, ==_iff, ◌≡◌, refl, sym, ap, ◌∙◌, arith,
  append_assoc, append-nil,
}
use arc_remote_signer.GoError.{wrap, Err, Grpc, Result, ok, err}
use arc_remote_signer.Kms.Errors.{credential_auth_error}
use arc_remote_signer.Kms.Client.{
  Client, move_client_to_back, call_error, keep_first, call_loop, call,
}

move_client_to_back-head :
    (c : Client) (cs : List Client) → move_client_to_back c (c ∷ cs) ≡ cs ++ c ∷ []
unfolding move_client_to_back
move_client_to_back-head c cs = ground (arith, ==_iff c.id c.id)

module _ {A : Type 0} (g : Grpc) (ask : Client → Result A) where
  -- Every one of these clients fails, with these errors in order.
  pub data FailsWith : List Client → List Err → Type 0 where
    none_left : FailsWith [] []
    fails :
        {c : Client} {cs : List Client} {e : Err} {es : List Err}
        → ask c ≡ err e
        → FailsWith cs es
        → FailsWith (c ∷ cs) (e ∷ es)

  -- The first error that says that the credentials are refused, and the last error.
  abbrev pub first_auth : List Err → Option Err
  first_auth [] = none
  first_auth (e ∷ es) = keep_first (credential_auth_error g e) (first_auth es)

  abbrev pub last_error : Option Err → List Err → Option Err
  last_error last [] = last
  last_error last (e ∷ es) = last_error (some e) es

  keep_first_assoc :
      (a b c : Option Err) → keep_first (keep_first a b) c ≡ keep_first a (keep_first b c)
  unfolding keep_first
  keep_first_assoc none b c = refl
  keep_first_assoc (some e) b c = refl

  keep_first-none : (a : Option Err) → keep_first a none ≡ a
  unfolding keep_first
  keep_first-none none = refl
  keep_first-none (some e) = refl

  call_loop_fails :
      (c : Client) (cs clients : List Client) (auth last : Option Err) {e : Err}
      → ask c ≡ err e
      → call_loop g ask (c ∷ cs) clients auth last
        ≡ call_loop g ask cs
            (move_client_to_back c clients)
            (keep_first auth (credential_auth_error g e))
            (some e)
  unfolding call_loop
  call_loop_fails c cs clients auth last h = rw (h, call_loop)

  call_loop_answers :
      (c : Client) (cs clients : List Client) (auth last : Option Err) {a : A}
      → ask c ≡ ok a
      → call_loop g ask (c ∷ cs) clients auth last ≡ (clients, ok a)
  unfolding call_loop
  call_loop_answers c cs clients auth last h = rw (h, call_loop)

  call_loop_prefix :
      {failed : List Client} {errors : List Err} (tail others : List Client)
      (auth last : Option Err)
      → FailsWith failed errors
      → call_loop g ask (failed ++ tail) (failed ++ others) auth last
        ≡ call_loop g ask tail
            (others ++ failed)
            (keep_first auth (first_auth errors))
            (last_error last errors)
  call_loop_prefix tail others auth last none_left =
      rw (append-nil others)
        (ap (λ (a : Option Err). call_loop g ask tail others a last) (sym (keep_first-none auth)))
  call_loop_prefix tail others auth last (fails {c} {cs} {e} {es} h t) =
      call_loop_fails c (cs ++ tail) (c ∷ (cs ++ others)) auth last h
      ∙ ap
          (λ (l : List Client).
            call_loop g ask (cs ++ tail) l (keep_first auth (credential_auth_error g e)) (some e))
          (move_client_to_back-head c (cs ++ others) ∙ append_assoc cs others (c ∷ []))
      ∙ call_loop_prefix tail (others ++ c ∷ []) (keep_first auth (credential_auth_error g e))
          (some e) t
      ∙ rw (
        keep_first_assoc auth (credential_auth_error g e) (first_auth es),
        append_assoc others (c ∷ []) cs,
      )

  -- If the clients in front of the first working one fail, the call gives that one's answer, and
  -- later calls begin with it: the clients that failed stand behind the others, in their order.
  pub call_first_success :
      {failed : List Client} {errors : List Err} (good : Client) (rest : List Client) (a : A)
      → FailsWith failed errors
      → ask good ≡ ok a
      → call g ask (failed ++ (good ∷ rest)) ≡ ((good ∷ rest) ++ failed, ok a)
  unfolding call
  call_first_success {failed} {errors} good rest a f h =
      call_loop_prefix (good ∷ rest) (good ∷ rest) none none f
      ∙ call_loop_answers good rest ((good ∷ rest) ++ failed) (keep_first none (first_auth errors))
          (last_error none errors) h

  call_fails :
      {clients : List Client} {errors : List Err}
      → FailsWith clients errors
      → call g ask clients
        ≡ (clients, err (call_error (first_auth errors) (last_error none errors)))
  unfolding call call_loop keep_first
  call_fails {clients} f = rw append-nil at (call_loop_prefix [] [] none none f)

  -- The error to report of these: the first that says that the credentials are refused, or else the
  -- last one.
  pub data IsReported : List Err → Err → Type 0 where
    refused : {e : Err} {es : List Err} → credential_auth_error g e ≡ some e → IsReported (e ∷ es) e
    passed :
        {e x : Err} {es : List Err}
        → credential_auth_error g e ≡ none
        → IsReported es x
        → IsReported (e ∷ es) x
    final : {e : Err} → credential_auth_error g e ≡ none → IsReported (e ∷ []) e

  credential_auth_error-cases :
      (e : Err) → (credential_auth_error g e ≡ none) ⊎ (credential_auth_error g e ≡ some e)
  unfolding credential_auth_error
  credential_auth_error-cases e = ground arith

  -- What the loop keeps of these errors is the one to report.
  Keeps : List Err → Err → Type 0
  Keeps errors x =
      (first_auth errors ≡ some x)
      ⊎ ((first_auth errors ≡ none) × ((l : Option Err) → last_error l errors ≡ some x))

  kept : (e : Err) (es : List Err) → (x : Err) × IsReported (e ∷ es) x × Keeps (e ∷ es) x
  unfolding Keeps keep_first
  kept e [] = elim (credential_auth_error-cases e) [
    | inr a ↦ (e, refused a, inl (rw a refl))
    | inl a ↦ (e, final a, inr (rw a refl, λ l. refl))
  ]
  kept e (y ∷ ys) = elim (credential_auth_error-cases e) [
    | inr a ↦ (e, refused a, inl (rw a refl))
    | inl a ↦
        let (x, r, k) = kept y ys in
        (
          x,
          passed a r,
          elim k [ inl f ↦ inl (rw a f) | inr (f, l) ↦ inr (rw a f, λ m. l (some e)) ],
        )
  ]

  call_error-Keeps :
      (errors : List Err) (x : Err)
      → Keeps errors x
      → call_error (first_auth errors) (last_error none errors)
        ≡ wrap "all multi-region keys are invalid, error: " x
  unfolding Keeps call_error
  call_error-Keeps errors x (inl f) = rw f refl
  call_error-Keeps errors x (inr (f, l)) = rw (f, l none) refl

  -- If there are clients and every one of them fails, the list of clients is as it was, and the
  -- error wraps that of the first client whose credentials were refused, or else of the last client.
  pub call_all_fail :
      {clients : List Client} {e : Err} {errors : List Err}
      → FailsWith clients (e ∷ errors)
      → (x : Err) × IsReported (e ∷ errors) x
        × (call g ask clients
            ≡ (clients, err (wrap "all multi-region keys are invalid, error: " x)))
  call_all_fail {clients} {e} {errors} f =
      let (x, reported, k) = kept e errors in
      (
        x,
        reported,
        call_fails f ∙ ap (λ (y : Err). (clients, err y)) (call_error-Keeps (e ∷ errors) x k),
      )
