-- ===== src/Proxy/Binding/Rollback.antt =====
-- About `New` of internal/common/byteproxy/byteproxy.go: success, and the rollback of a failure.
use arc_remote_signer.Common.{
  ℕ, ◌<◌, ◌≡◌, refl, ap, sym, subst, ◌∙◌, Bool, false, List, [], ◌∷◌, ◌++◌, append_assoc,
  append-nil, some, arith, Bytes, is_empty, All, All-append, Bool-cases, Option-cases, inl, inr,
}
use arc_remote_signer.Common.Int.{ℤ, pos, pos_part, leb_ℤ}
use arc_remote_signer.GoError.{Result, ok, err}
use arc_remote_signer.Proxy.Binding.{
  ServiceConfig, Config, ServiceListener, BoundProxy, Built, close_listeners, bind_services,
  new_proxy,
}

module _ {Listener : Type 0} {DialFunc : Type 0} where
  -- A listener that its own service's `Listen` gave, whose channel has this capacity.
  pub record IsOwn (capacity : ℕ) (sl : ServiceListener Listener DialFunc) : Type 0 where
    pub listened : sl.service.listen ≡ some (ok sl.ln)
    pub dials : (dial : DialFunc) × (sl.service.dial ≡ some dial)
    pub capacity_is : sl.capacity ≡ capacity

  unfoldable pub names_of : List (ServiceListener Listener DialFunc) → List Bytes
  names_of [] = []
  names_of (sl ∷ rest) = sl.service.name ∷ names_of rest

  unfoldable pub service_names : List (ServiceConfig Listener DialFunc) → List Bytes
  service_names [] = []
  service_names (svc ∷ rest) = svc.name ∷ service_names rest

  -- What a constructor promises whose services have these names and whose channels this capacity:
  -- a proxy that holds all that was opened, or an error with all that was opened closed again.
  abbrev pub AllOrNothing :
      Bytes
      → List Bytes
      → ℕ
      → List Listener
      → List Listener
      → Bool
      → Result (BoundProxy Listener DialFunc)
      → Type 0
  unfolding names_of close_listeners
  AllOrNothing name names capacity opened closed cancelled (ok p) =
      (0 < capacity)
      × (p.name ≡ name)
      × (names_of p.listeners ≡ names)
      × (close_listeners p.listeners ≡ opened)
      × (closed ≡ [])
      × (cancelled ≡ false)
      × All (IsOwn capacity) p.listeners
  AllOrNothing name names capacity opened closed cancelled (err e) = closed ≡ opened

  names_of-append :
      (xs ys : List (ServiceListener Listener DialFunc))
      → names_of (xs ++ ys) ≡ names_of xs ++ names_of ys
  unfolding names_of
  names_of-append [] ys = refl
  names_of-append (x ∷ xs) ys = ap (◌∷◌ x.service.name) (names_of-append xs ys)

  close_listeners-append :
      (xs ys : List (ServiceListener Listener DialFunc))
      → close_listeners (xs ++ ys) ≡ close_listeners xs ++ close_listeners ys
  unfolding close_listeners
  close_listeners-append [] ys = refl
  close_listeners-append (x ∷ xs) ys = ap (◌∷◌ x.ln) (close_listeners-append xs ys)

  abbrev Keeps : Bytes → List Bytes → ℕ → Built Listener DialFunc → Type 0
  Keeps name names capacity b =
      AllOrNothing name names capacity b.opened b.closed b.dials_cancelled b.result

  pub bind_services_next :
      (name : Bytes) (capacity : ℕ) (svc : ServiceConfig Listener DialFunc)
      (services : List (ServiceConfig Listener DialFunc))
      (bound : List (ServiceListener Listener DialFunc)) (opened : List Listener) (ln : Listener)
      (dial : DialFunc)
      → svc.listen ≡ some (ok ln)
      → svc.dial ≡ some dial
      → bind_services name capacity (svc ∷ services) bound opened
        ≡ bind_services name capacity services
            (bound ++ (record { service = svc; ln = ln; capacity = capacity } ∷ []))
            (opened ++ (ln ∷ []))
  unfolding bind_services
  bind_services_next name capacity svc services bound opened ln dial e d = ground arith

  bind_services-Keeps :
      (name : Bytes) (capacity : ℕ) (services : List (ServiceConfig Listener DialFunc))
      (bound : List (ServiceListener Listener DialFunc)) (opened : List Listener)
      → 0 < capacity
      → close_listeners bound ≡ opened
      → All (IsOwn capacity) bound
      → Keeps name
          (names_of bound ++ service_names services)
          capacity
          (bind_services name capacity services bound opened)
  unfolding bind_services service_names names_of close_listeners
  bind_services-Keeps name capacity [] bound opened some_conns h own =
      (some_conns, refl, (rw (append-nil (names_of bound))), h, refl, refl, own)
  bind_services-Keeps name capacity (svc ∷ services) bound opened some_conns h own =
      elim (Option-cases svc.listen) [
        | inl e ↦ rw e h
        | inr (err x, e) ↦ elim (Option-cases svc.dial) [
          | inl d ↦ rw (e, d) h
          | inr (dial, d) ↦ rw (e, d) h
        ]
        | inr (ok ln, e) ↦ elim (Option-cases svc.dial) [
          | inl d ↦ rw (e, d) h
          | inr (dial, d) ↦
              subst (Keeps name (names_of bound ++ (svc.name ∷ service_names services)) capacity)
                (sym (bind_services_next name capacity svc services bound opened ln dial e d))
                (subst
                  (λ names. Keeps name names capacity (
                    bind_services name capacity services
                      (bound ++ (record { service = svc; ln = ln; capacity = capacity } ∷ []))
                      (opened ++ (ln ∷ []))))
                  (ap (λ l. l ++ service_names services) (names_of-append bound _)
                    ∙ append_assoc (names_of bound) (svc.name ∷ []) (service_names services))
                  (bind_services-Keeps name capacity services
                    (bound ++ (record { service = svc; ln = ln; capacity = capacity } ∷ []))
                    (opened ++ (ln ∷ [])) some_conns
                    (close_listeners-append bound _ ∙ ap (λ l. l ++ (ln ∷ [])) h)
                    (All-append (IsOwn capacity) bound _ own
                      (record { listened = e; dials = (dial, d); capacity_is = refl }, tt))))
        ]
      ]

  -- Whatever services it is given, `New` succeeds with one listener for each, in their order, that
  -- the service's own `Listen` opened, with a channel of capacity MaxConns, which is positive, and
  -- with nothing closed; or it fails, and has closed exactly the listeners that it had opened.
  pub new_proxy-AllOrNothing :
      (cfg : Config Listener DialFunc)
      → let b = new_proxy (some cfg) in
        AllOrNothing cfg.name
          (service_names cfg.services)
          (pos_part cfg.max_conns)
          b.opened
          b.closed
          b.dials_cancelled
          b.result
  unfolding new_proxy names_of close_listeners AllOrNothing
  new_proxy-AllOrNothing cfg = elim (Bool-cases (is_empty cfg.name)) [
    | inl a ↦ rw a refl
    | inr a ↦ elim (Bool-cases (is_empty cfg.services)) [
      | inl b ↦ rw (a, b) refl
      | inr b ↦ elim (Bool-cases (leb_ℤ cfg.max_conns (pos 0))) [
        | inl c ↦ rw (a, b, c) refl
        | inr c ↦
            rw (a, b, c)
              (bind_services-Keeps cfg.name (pos_part cfg.max_conns) cfg.services [] []
                (positive cfg.max_conns c) refl tt)
      ]
    ]
  ]
    where
      positive : (n : ℤ) → leb_ℤ n (pos 0) ≡ false → 0 < pos_part n
      positive n h = ground arith
