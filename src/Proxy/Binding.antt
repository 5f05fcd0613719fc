-- ===== src/Proxy/Binding.antt =====
-- internal/common/byteproxy/byteproxy.go (`New`, `closeListeners`) and awsproxy.go: how the
-- listeners of a proxy are bound. A service's `Listen` is the result that it gives when called,
-- a nil closure is none. Beside its result a constructor has the listeners that it opened and those
-- that it closed, and whether it cancelled the context of the dials.
pub mod Rollback
pub mod Services
use arc_remote_signer.Common.{
  ℕ, ◌+◌, ◌%◌, ◌^◌, Bool, true, false, List, [], ◌∷◌, ◌++◌, map, Option, none, some, if◌then◌else◌,
  Bytes, is_empty, codes,
}
use arc_remote_signer.Common.Int.{ℤ, pos, pos_part, leb_ℤ}
use arc_remote_signer.GoError.{Err, new, wrap, Result, ok, err, ◌>>=◌, map_err}
use arc_remote_signer.Resolver.{aws_service_names}

module _ (Listener : Type 0) (DialFunc : Type 0) where
  pub record ServiceConfig : Type 0 where
    pub name : Bytes
    pub endpoint : Bytes
    pub listen : Option (Result Listener)
    pub dial : Option DialFunc

  pub record Config : Type 0 where
    pub name : Bytes
    pub services : List ServiceConfig
    pub max_conns : ℤ

  -- A `serviceListener`; `capacity` is that of its channel.
  pub record ServiceListener : Type 0 where
    pub service : ServiceConfig
    pub ln : Listener
    pub capacity : ℕ

  pub record BoundProxy : Type 0 where
    pub name : Bytes
    pub listeners : List ServiceListener

  pub record Built : Type 0 where
    pub result : Result BoundProxy
    pub opened : List Listener
    pub closed : List Listener
    pub dials_cancelled : Bool

  pub record AwsServiceBinding : Type 0 where
    pub endpoint : Bytes
    pub listen : Option (Result Listener)
    pub dial : Option DialFunc

module _ {Listener : Type 0} {DialFunc : Type 0} where
  -- What a constructor answers that refuses before it binds anything.
  abbrev pub refuse : Err → Built Listener DialFunc
  refuse e = record { result = err e; opened = []; closed = []; dials_cancelled = false }

  -- `closeListeners`.
  unfoldable pub close_listeners : List (ServiceListener Listener DialFunc) → List Listener
  close_listeners [] = []
  close_listeners (sl ∷ rest) = sl.ln ∷ close_listeners rest

  -- `closeListeners` and `dialCancel` on a construction error.
  abbrev pub roll_back :
      List (ServiceListener Listener DialFunc) → List Listener → Err → Built Listener DialFunc
  unfolding close_listeners
  roll_back bound opened e = record {
    result = err e;
    opened = opened;
    closed = close_listeners bound;
    dials_cancelled = true;
  }

  -- The loop of `New`, with the listeners that `p` holds and those that were opened so far.
  unfoldable pub bind_services :
      Bytes
      → ℕ
      → List (ServiceConfig Listener DialFunc)
      → List (ServiceListener Listener DialFunc)
      → List Listener
      → Built Listener DialFunc
  bind_services name capacity [] bound opened = record {
    result = ok (record { name = name; listeners = bound });
    opened = opened;
    closed = [];
    dials_cancelled = false;
  }
  bind_services name capacity (svc ∷ services) bound opened = elim svc.listen [
    | none ↦ roll_back bound opened (new "byteproxy: service missing Listen or Dial")
    | some listened ↦ elim svc.dial [
      | none ↦ roll_back bound opened (new "byteproxy: service missing Listen or Dial")
      | some dial ↦ elim listened [
        | err e ↦ roll_back bound opened (wrap "byteproxy: bind for service: " e)
        | ok ln ↦
            bind_services name capacity services
              (bound ++ (record { service = svc; ln = ln; capacity = capacity } ∷ []))
              (opened ++ (ln ∷ []))
      ]
    ]
  ]

  -- `New`.
  unfoldable pub new_proxy : Option (Config Listener DialFunc) → Built Listener DialFunc
  unfolding bind_services
  new_proxy none = refuse (new "byteproxy: nil config")
  new_proxy (some cfg) =
      if is_empty cfg.name
      then refuse (new "byteproxy: Name must be set")
      else if is_empty cfg.services
      then refuse (new "byteproxy: at least one service required")
      else if leb_ℤ cfg.max_conns (pos 0)
      then refuse (new "byteproxy: MaxConns must be > 0")
      else bind_services cfg.name (pos_part cfg.max_conns) cfg.services [] []

  -- The loop of `NewAWSProxy` from index `i` on; a port is a uint32.
  unfoldable pub service_configs :
      (Bytes → ℕ → Result (AwsServiceBinding Listener DialFunc))
      → ℕ
      → ℕ
      → List Bytes
      → Result (List (ServiceConfig Listener DialFunc))
  service_configs factory base_port i [] = ok []
  service_configs factory base_port i (svc ∷ names) = do
    b ←
        map_err (wrap "byteproxy: binding for service: ")
          (factory svc ((base_port + i % 2 ^ 32) % 2 ^ 32))
    services ← service_configs factory base_port (i + 1) names
    ok (record { name = svc; endpoint = b.endpoint; listen = b.listen; dial = b.dial } ∷ services)

  -- `NewAWSProxy`.
  unfoldable pub new_aws_proxy :
      Bytes
      → ℕ
      → ℤ
      → (Bytes → ℕ → Result (AwsServiceBinding Listener DialFunc))
      → Built Listener DialFunc
  unfolding new_proxy service_configs
  new_aws_proxy name base_port max_conns factory =
      elim (service_configs factory base_port 0 aws_service_names) [
        | err e ↦ refuse e
        | ok services ↦
            new_proxy (some (record { name = name; services = services; max_conns = max_conns }))
      ]
