-- ===== src/Proxy/Binding/Services.antt =====
-- About `New` and `NewAWSProxy` of internal/common/byteproxy: where the services of the listeners
-- come from.
use arc_remote_signer.Common.{
  refl, ◌⊎◌, ℕ, ◌+◌, ◌%◌, ◌^◌, List, [], ◌∷◌, ◌++◌, some, ◌≡◌, sym, ap, subst, ◌∙◌, arith, Bytes,
  is_empty, All, All-append, Bool-cases, Option-cases, inl, inr,
}
use arc_remote_signer.Common.Int.{ℤ, pos, leb_ℤ, pos_part}
use arc_remote_signer.GoError.{Err, Result, ok, err, Result-cases}
use arc_remote_signer.Resolver.{aws_service_names}
use arc_remote_signer.Proxy.Binding.{
  ServiceConfig, Config, ServiceListener, BoundProxy, Built, AwsServiceBinding, close_listeners,
  bind_services, new_proxy, service_configs, new_aws_proxy,
}
use arc_remote_signer.Proxy.Binding.Rollback.{bind_services_next}

-- The port of the service of this name, where these are the services from this index on.
abbrev pub IsNumbered : ℕ → ℕ → List Bytes → Bytes → ℕ → Type 0
IsNumbered base_port i [] name port = ⊥
IsNumbered base_port i (svc ∷ names) name port =
    (name ≡ svc × port ≡ (base_port + i % 2 ^ 32) % 2 ^ 32)
    ⊎ IsNumbered base_port (i + 1) names name port

module _ {Listener : Type 0} {DialFunc : Type 0}
    (P : ServiceConfig Listener DialFunc → Type 0) where
  abbrev Served : ServiceListener Listener DialFunc → Type 0
  Served sl = P sl.service

  err-ne-ok :
      {p : BoundProxy Listener DialFunc} (e : Err)
      → ◌≡◌ {A = Result (BoundProxy Listener DialFunc)} (err e) (ok p)
      → ⊥
  err-ne-ok e h = cc

  bind_services-All :
      (name : Bytes) (capacity : ℕ) (services : List (ServiceConfig Listener DialFunc))
      (bound : List (ServiceListener Listener DialFunc)) (opened : List Listener)
      (p : BoundProxy Listener DialFunc)
      → All P services
      → All Served bound
      → (bind_services name capacity services bound opened).result ≡ ok p
      → All Served p.listeners
  unfolding bind_services close_listeners
  bind_services-All name capacity [] bound opened p ps bs h =
      subst (λ (q : BoundProxy Listener DialFunc). All Served q.listeners)
        (let e : record { name = name; listeners = bound } ≡ p = cc in e) bs
  bind_services-All name capacity (svc ∷ services) bound opened p ps bs h =
      elim (Option-cases svc.listen) [
        | inl e ↦ absurd (err-ne-ok _ (rw e at h))
        | inr (listened, e) ↦ elim (Option-cases svc.dial) [
          | inl d ↦ absurd (err-ne-ok _ (rw (e, d) at h))
          | inr (dial, d) ↦ elim (Result-cases listened) [
            | inr (x, l) ↦ absurd (err-ne-ok _ (rw (e, d, l) at h))
            | inl (ln, l) ↦
                bind_services-All name capacity services
                  (bound ++ (record { service = svc; ln = ln; capacity = capacity } ∷ []))
                  (opened ++ (ln ∷ [])) p ps.1 (All-append Served bound _ bs (ps.0, tt))
                  (next listened ln dial e d l)
          ]
        ]
      ]
    where
      next :
          (listened : Result Listener) (ln : Listener) (dial : DialFunc)
          → svc.listen ≡ some listened
          → svc.dial ≡ some dial
          → listened ≡ ok ln
          → (bind_services name capacity services
              (bound ++ (record { service = svc; ln = ln; capacity = capacity } ∷ []))
              (opened ++ (ln ∷ []))).result
            ≡ ok p
      next listened ln dial e d l =
          ap (λ (b : Built Listener DialFunc). b.result)
            (sym (
              bind_services_next name capacity svc services bound opened ln dial (e ∙ ap some l) d))
          ∙ h

  service_configs-All :
      (factory : Bytes → ℕ → Result (AwsServiceBinding Listener DialFunc)) (base_port i : ℕ)
      (names : List Bytes) (services : List (ServiceConfig Listener DialFunc))
      → ((name : Bytes) (port : ℕ) (b : AwsServiceBinding Listener DialFunc)
          → IsNumbered base_port i names name port
          → factory name port ≡ ok b
          → P (record { name = name; endpoint = b.endpoint; listen = b.listen; dial = b.dial }))
      → service_configs factory base_port i names ≡ ok services
      → All P services
  unfolding service_configs
  service_configs-All factory base_port i [] services given h =
      subst (All P) (let e : [] ≡ services = ground arith in e) tt
  service_configs-All factory base_port i (svc ∷ names) services given h =
      elim (Result-cases (factory svc ((base_port + i % 2 ^ 32) % 2 ^ 32))) [
        | inr (x, p) ↦ absurd (ground arith)
        | inl (b, p) ↦ elim (Result-cases (service_configs factory base_port (i + 1) names)) [
          | inr (x, q) ↦ absurd (ground arith)
          | inl (rest, q) ↦
              subst (All P)
                (let e : record {
                  name = svc;
                  endpoint = b.endpoint;
                  listen = b.listen;
                  dial = b.dial;
                }
                        ∷ rest
                      ≡ services =
                    ground arith in
                  e)
                (
                  given svc _ b (inl (refl, refl)) p,
                  service_configs-All factory base_port (i + 1) names rest
                      (λ name port c a. given name port c (inr a)) q,
                )
        ]
      ]

  new_proxy-All :
      (cfg : Config Listener DialFunc) (p : BoundProxy Listener DialFunc)
      → All P cfg.services
      → (new_proxy (some cfg)).result ≡ ok p
      → All Served p.listeners
  unfolding new_proxy
  new_proxy-All cfg p ps h = elim (Bool-cases (is_empty cfg.name)) [
    | inl a ↦ absurd (ground arith)
    | inr a ↦ elim (Bool-cases (is_empty cfg.services)) [
      | inl b ↦ absurd (ground arith)
      | inr b ↦ elim (Bool-cases (leb_ℤ cfg.max_conns (pos 0))) [
        | inl c ↦ absurd (ground arith)
        | inr c ↦
            bind_services-All cfg.name (pos_part cfg.max_conns) cfg.services [] [] p ps tt
              (rw (a, b, c) at h)
      ]
    ]
  ]

  -- What the factory gives for each service holds of the services of the proxy's listeners.
  pub new_aws_proxy-All :
      (name : Bytes) (base_port : ℕ) (max_conns : ℤ)
      (factory : Bytes → ℕ → Result (AwsServiceBinding Listener DialFunc))
      (p : BoundProxy Listener DialFunc)
      → ((name : Bytes) (port : ℕ) (b : AwsServiceBinding Listener DialFunc)
          → IsNumbered base_port 0 aws_service_names name port
          → factory name port ≡ ok b
          → P (record { name = name; endpoint = b.endpoint; listen = b.listen; dial = b.dial }))
      → (new_aws_proxy name base_port max_conns factory).result ≡ ok p
      → All Served p.listeners
  unfolding new_aws_proxy
  new_aws_proxy-All name base_port max_conns factory p given h =
      elim (Result-cases (service_configs factory base_port 0 aws_service_names)) [
        | inr (x, e) ↦ absurd (err-ne-ok _ (rw (new_aws_proxy, e) at h))
        | inl (services, e) ↦
            new_proxy-All (record { name = name; services = services; max_conns = max_conns }) p
              (service_configs-All factory base_port 0 aws_service_names services given e)
              (rw (new_aws_proxy, e) at h)
      ]
