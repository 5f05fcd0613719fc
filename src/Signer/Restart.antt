-- ===== src/Signer/Restart.antt =====
-- About `initializeKeyState` of internal/app/service/signer/v1/signer.go: a first start and a later one.
use arc_remote_signer.Common.{
  ℕ, false, not, [], none, some, ◌≡◌, refl, sym, ap, subst, ◌&&◌, ◌∙◌, arith, Bytes, ◌==◌, is_empty,
  ==_iff,
}
use arc_remote_signer.GoError.{Result, ok, err, Result-cases}
use arc_remote_signer.Proto.{Algorithm, SecretEnvelope, InitializeResponse}
use arc_remote_signer.Signer.{
  Header, to_secret_envelope, header_from_secret_envelope, SecretsProvider, Gob, KeyState,
  InitializeKeyFunc, new_key_state, generate_and_store_key, load_key_from_secret, generated, stored,
  store_generated, initialize_key_state,
}
use arc_remote_signer.Signer.Validity.{Decoders}

-- What is relied on outside the code: gob reads back what it wrote, and writes something.
pub record GobRoundTrips (gob : Gob) : Type 0 where
  pub decode_encode :
      (h : Header) (bytes : Bytes) → gob.encode h ≡ ok bytes → gob.decode bytes ≡ ok h
  pub encode_nonempty :
      (h : Header) (bytes : Bytes) → gob.encode h ≡ ok bytes → is_empty bytes ≡ false

-- What is relied on of the store: an update that succeeds is what `get` gives afterwards.
abbrev pub ReadsBack : {S : Type 0} → SecretsProvider S → Type 0
ReadsBack pvd = (s s' : _) (b : Bytes) → pvd.update s b ≡ (s', ok tt) → pvd.get s' ≡ ok b

no_mismatch : (a b : Algorithm) → a ≡ b → (not (a == 0) && not (a == b)) ≡ false
no_mismatch a b e = ground (arith, ==_iff a b)

module _ (d : Decoders) (gob : Gob) {S : Type 0} (pvd : SecretsProvider S) where
  generated-encode :
      (now : ℕ)
      → (algorithm : Algorithm) → (resp : InitializeResponse) → (env : SecretEnvelope)
      → (bytes : Bytes) → (key : KeyState) → resp.secret_envelope ≡ some env
      → generated d now gob algorithm (some resp) ≡ ok (bytes, key)
      → (env.algorithm ≡ algorithm) × (gob.encode (header_from_secret_envelope env) ≡ ok bytes)
  unfolding generated
  generated-encode now algorithm resp env bytes key e h = ground (
    arith,
    rw e at h,
    Result-cases (gob.encode (header_from_secret_envelope env)),
    ==_iff env.algorithm algorithm,
  )

  stored-ok :
      (now : ℕ)
      → (key k : KeyState) → (p : S × Result (Unit {0})) → (s' : S)
      → stored d now k p ≡ (s', ok key)
      → (k ≡ key) × (p ≡ (s', ok tt))
  unfolding stored
  stored-ok now key k (s₂, ok t) s' h = (cc, cc)
  stored-ok now key k (s₂, err e) s' h = absurd (ground arith)

  store_generated-update :
      (now : ℕ)
      → (s s' : S) → (r : Result (Bytes × KeyState)) → (key : KeyState)
      → store_generated d now pvd s r ≡ (s', ok key)
      → (bytes : Bytes) × (r ≡ ok (bytes, key)) × (pvd.update s bytes ≡ (s', ok tt))
  unfolding store_generated
  store_generated-update now s s' (ok (bytes, k)) key h =
      let (e, u) = stored-ok now key k (pvd.update s bytes) s' h in
      (bytes, ap (λ x. ok (bytes, x)) e, u)
  store_generated-update now s s' (err e) key h = absurd (ground arith)

  -- A stored header brings the key back.
  load_recovers :
      (later : ℕ)
      → (algorithm : Algorithm) → (second : InitializeKeyFunc) → (env : SecretEnvelope)
      → (bytes : Bytes) → (resp : InitializeResponse) → env.algorithm ≡ algorithm
      → gob.decode bytes ≡ ok (header_from_secret_envelope env)
      → second (some env) 0 ≡ ok (some resp)
      → resp.secret_envelope ≡ none
      → load_key_from_secret d later gob bytes algorithm second ≡ new_key_state d later resp
  unfolding load_key_from_secret to_secret_envelope header_from_secret_envelope
  load_recovers later algorithm second env bytes resp e h₁ h₂ h₃ =
      let same = no_mismatch env.algorithm algorithm e in
      let asked =
        subst
          (λ a.
            second (some (to_secret_envelope (header_from_secret_envelope env) a)) 0
            ≡ ok (some resp))
          e h₂ in
      rw (h₁, same, asked, h₃) refl

  first_start :
      (now : ℕ)
      → (s : S) → (algorithm : Algorithm) → (first : InitializeKeyFunc)
      → (resp : InitializeResponse) → pvd.get s ≡ ok []
      → first none algorithm ≡ ok (some resp)
      → initialize_key_state d now pvd gob s algorithm first
        ≡ store_generated d now pvd s (generated d now gob algorithm (some resp))
  unfolding initialize_key_state generate_and_store_key
  first_start now s algorithm first resp h₁ h₂ = rw (h₁, h₂) refl

  next_start :
      (now : ℕ)
      → (s : S) → (bytes : Bytes) → (algorithm : Algorithm) → (second : InitializeKeyFunc)
      → pvd.get s ≡ ok bytes
      → is_empty bytes ≡ false
      → initialize_key_state d now pvd gob s algorithm second
        ≡ (s, load_key_from_secret d now gob bytes algorithm second)
  unfolding initialize_key_state
  next_start now s bytes algorithm second h₁ h₂ = rw (h₁, h₂) refl

  -- The host starts on an empty secret, and the enclave answers with `env` in its response. If that
  -- start succeeds, then a later start over the store that it left asks the enclave for exactly
  -- `env`, and when the enclave answers without an envelope, the start leaves the store alone and
  -- its key state is made of that answer. The store reads back a successful update, and gob reads
  -- back what it wrote, which is never empty.
  pub restart_recovers :
      (now later : ℕ) (s s' : S) (algorithm : Algorithm) (first second : InitializeKeyFunc)
      (resp resp' : InitializeResponse) (env : SecretEnvelope) (key : KeyState)
      → GobRoundTrips gob
      → ReadsBack pvd
      → pvd.get s ≡ ok []
      → first none algorithm ≡ ok (some resp)
      → resp.secret_envelope ≡ some env
      → second (some env) 0 ≡ ok (some resp')
      → resp'.secret_envelope ≡ none
      → initialize_key_state d now pvd gob s algorithm first ≡ (s', ok key)
      → initialize_key_state d later pvd gob s' algorithm second ≡ (s', new_key_state d later resp')
  restart_recovers now later s s' algorithm first second resp resp' env key g r h₁ h₂ h₃ h₄ h₅ h =
      let (bytes, made, updated) =
        store_generated-update now s s' _ key
          (sym (first_start now s algorithm first resp h₁ h₂) ∙ h) in
      let (e, encoded) = generated-encode now algorithm resp env bytes key h₃ made in
      next_start later s' bytes algorithm second (r s s' bytes updated)
        (g.encode_nonempty _ bytes encoded)
      ∙ ap (λ x. (s', x))
          (load_recovers later algorithm second env bytes resp' e (g.decode_encode _ bytes encoded)
            h₄ h₅)
