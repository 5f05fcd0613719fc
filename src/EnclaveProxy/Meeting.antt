-- ===== src/EnclaveProxy/Meeting.antt =====
-- About `New` of internal/enclave/provider/awsproxy/awsproxy.go and `New` of
-- internal/vsockproxy/vsockproxy.go: the ports at which the two proxies meet.
use mathlib.Core.List.{Memᴰ}
use arc_remote_signer.Common.{
  Bool, true, false, [], ◌∷◌, ℕ, ◌+◌, ◌%◌, ◌^◌, List, some, ◌≡◌, sym, ap, ◌∙◌, Bytes, codes, All,
  All-mem, inl, inr,
}
use arc_remote_signer.GoError.{wrap, Result, ok, map_err-eq-ok, bind_ok}
use arc_remote_signer.Kms.Regions.{Arn}
use arc_remote_signer.Resolver.{aws_service_names, Inbound}
use arc_remote_signer.Proxy.Binding.{ServiceConfig, ServiceListener, BoundProxy, AwsServiceBinding}
use arc_remote_signer.Proxy.Binding.Services.{IsNumbered, new_aws_proxy-All}
use arc_remote_signer.HostProxy
use arc_remote_signer.HostProxy.Bound.{new_host_proxy-bound}
use arc_remote_signer.EnclaveProxy.{
  with_vsock_transport, with_tcp_transport, apply, proxy_name, Config, Transports, Options,
  ProxyOption, apply_all, default_options, describe_endpoint, binding, new_enclave_proxy,
}

-- The port of the only service.
IsNumbered-kms :
    (base_port : ℕ) {name : Bytes} {port : ℕ}
    → IsNumbered base_port 0 aws_service_names name port
    → name ≡ codes "kms" × port ≡ (base_port + 0 % 2 ^ 32) % 2 ^ 32
IsNumbered-kms base_port (inl e) = e
IsNumbered-kms base_port (inr e) = absurd e

-- A service that this proxy listens for at a port, and whose connections it passes to that port.
record IsServed {Listener : Type 0} {Conn : Type 0} (t : Transports Listener Conn)
    (o : Options Listener Conn) (base_port : ℕ) (svc : ServiceConfig Listener (Result Conn))
    : Type 0 where
  pub port : ℕ
  pub numbered : IsNumbered base_port 0 aws_service_names svc.name port
  pub listens : svc.listen ≡ some (o.listen port)
  pub dials : svc.dial ≡ some (o.dial port)
  pub described : describe_endpoint t o.transport o.tcp_parent_host port ≡ ok svc.endpoint

module _ {Listener : Type 0} {Conn : Type 0} (t : Transports Listener Conn) (cfg : Config)
    (options : List (ProxyOption Listener Conn)) where
  abbrev chosen : Options Listener Conn
  chosen = apply_all t (default_options t) options

  binding-IsServed :
      (name : Bytes) (port : ℕ) (b : AwsServiceBinding Listener (Result Conn))
      → IsNumbered cfg.base_port 0 aws_service_names name port
      → binding t chosen name port ≡ ok b
      → IsServed t chosen cfg.base_port
          (record { name = name; endpoint = b.endpoint; listen = b.listen; dial = b.dial })
  unfolding binding
  binding-IsServed name port b n h =
      bind_ok (describe_endpoint t chosen.transport chosen.tcp_parent_host port) _ h
        (λ endpoint described e.
          let same : record {
            endpoint = endpoint;
            listen = some (chosen.listen port);
            dial = some (chosen.dial port);
          }
              ≡ b =
            ok-injective e in
          record {
            port = port;
            numbered = n;
            listens = ap (λ x. x.listen) (sym same);
            dials = ap (λ x. x.dial) (sym same);
            described = described ∙ ap (λ x. ok x.endpoint) same;
          })
    where
      ok-injective : {x y : AwsServiceBinding Listener (Result Conn)} → ok x ≡ ok y → x ≡ y
      ok-injective e = cc

  new_enclave_proxy-IsServed :
      (p : BoundProxy Listener (Result Conn))
      → (new_enclave_proxy t (some cfg) options).result ≡ ok p
      → All (λ sl. IsServed t chosen cfg.base_port sl.service) p.listeners
  unfolding new_enclave_proxy
  new_enclave_proxy-IsServed p h =
      new_aws_proxy-All (IsServed t chosen cfg.base_port) proxy_name cfg.base_port cfg.max_conns
        (binding t chosen) p binding-IsServed (map_err-eq-ok (wrap "awsproxy: ") _ h)

module _ {HostListener : Type 0} {HostConn : Type 0}
    (t : HostProxy.Transports HostListener HostConn) (arn_parse : Bytes → Result Arn)
    (cfg : HostProxy.HostConfig)
    (options : List (HostProxy.ProxyOption HostListener HostConn)) where
  abbrev host_chosen : HostProxy.Options HostListener HostConn
  host_chosen = HostProxy.apply_all t (HostProxy.default_options t) options

  -- A service of the host's proxy, which listens for it at this port.
  record IsHosted (svc : ServiceConfig HostListener (Inbound → Result HostConn)) : Type 0 where
    pub port : ℕ
    pub numbered : IsNumbered cfg.base_port 0 aws_service_names svc.name port
    pub listens :
        svc.listen
        ≡ some ((HostProxy.apply_all t (HostProxy.default_options t) options).listen port)

  new_host_proxy-IsHosted :
      (p : BoundProxy HostListener (Inbound → Result HostConn))
      → (HostProxy.new_host_proxy t arn_parse (some cfg) options).result ≡ ok p
      → All (λ sl. IsHosted sl.service) p.listeners
  unfolding HostProxy.binding
  new_host_proxy-IsHosted p h =
      let (r, made, bound) = new_host_proxy-bound t arn_parse cfg options p h in
      new_aws_proxy-All IsHosted HostProxy.proxy_name cfg.base_port cfg.max_conns
        (HostProxy.binding t cfg host_chosen r) p
        (λ name port b n e. record {
          port = port;
          numbered = n;
          listens =
              ap (λ (x : AwsServiceBinding HostListener (Inbound → Result HostConn)). x.listen)
                (sym (ok-injective e));
        })
        bound
    where
      ok-injective :
          {x y : AwsServiceBinding HostListener (Inbound → Result HostConn)} → ok x ≡ ok y → x ≡ y
      ok-injective e = cc

module _ {Listener : Type 0} {Conn : Type 0} {HostListener : Type 0} {HostConn : Type 0}
    (t : Transports Listener Conn) (options : List (ProxyOption Listener Conn))
    (host : HostProxy.Transports HostListener HostConn)
    (host_options : List (HostProxy.ProxyOption HostListener HostConn)) where
  -- Both serve the same service: the enclave's listener accepts at a port, its connections are
  -- dialled to that port of the parent, and there the host's listener accepts.
  record IsMeeting (svc : ServiceConfig Listener (Result Conn))
      (host_svc : ServiceConfig HostListener (Inbound → Result HostConn)) : Type 0 where
    pub port : ℕ
    pub same_service : svc.name ≡ host_svc.name
    pub accepts : svc.listen ≡ some ((apply_all t (default_options t) options).listen port)
    pub dials : svc.dial ≡ some ((apply_all t (default_options t) options).dial port)
    pub host_accepts :
        host_svc.listen
        ≡ some
            ((HostProxy.apply_all host (HostProxy.default_options host) host_options).listen port)

  served-IsMeeting :
      (cfg : Config) (host_cfg : HostProxy.HostConfig) (svc : ServiceConfig Listener (Result Conn))
      (host_svc : ServiceConfig HostListener (Inbound → Result HostConn))
      (arn_parse : Bytes → Result Arn)
      → cfg.base_port ≡ host_cfg.base_port
      → IsServed t (apply_all t (default_options t) options) cfg.base_port svc
      → IsHosted host arn_parse host_cfg host_options host_svc
      → IsMeeting svc host_svc
  served-IsMeeting cfg host_cfg svc host_svc arn_parse same s h =
      let (name, at) = IsNumbered-kms cfg.base_port s.numbered in
      let (host_name, host_at) = IsNumbered-kms host_cfg.base_port h.numbered in
      let ports : h.port ≡ s.port =
        host_at ∙ ap (λ (b : ℕ). (b + 0 % 2 ^ 32) % 2 ^ 32) (sym same) ∙ sym at in
      record {
        port = s.port;
        same_service = name ∙ sym host_name;
        accepts = s.listens;
        dials = s.dials;
        host_accepts =
            h.listens
            ∙ ap
                (λ (n : ℕ). some (
                  (HostProxy.apply_all host (HostProxy.default_options host) host_options).listen
                    n))
                ports;
      }

  new_enclave_proxy-IsMeeting :
      (arn_parse : Bytes → Result Arn) (cfg : Config) (host_cfg : HostProxy.HostConfig)
      (p : BoundProxy Listener (Result Conn))
      (host_p : BoundProxy HostListener (Inbound → Result HostConn))
      (sl : ServiceListener Listener (Result Conn))
      (host_sl : ServiceListener HostListener (Inbound → Result HostConn))
      → cfg.base_port ≡ host_cfg.base_port
      → (new_enclave_proxy t (some cfg) options).result ≡ ok p
      → (HostProxy.new_host_proxy host arn_parse (some host_cfg) host_options).result ≡ ok host_p
      → Memᴰ sl p.listeners
      → Memᴰ host_sl host_p.listeners
      → IsMeeting sl.service host_sl.service
  new_enclave_proxy-IsMeeting arn_parse cfg host_cfg p host_p sl host_sl same h host_h m host_m =
      served-IsMeeting cfg host_cfg sl.service host_sl.service arn_parse same
        (All-mem
          (λ sl. IsServed t (apply_all t (default_options t) options) cfg.base_port sl.service)
          (new_enclave_proxy-IsServed t cfg options p h) m)
        (All-mem (λ sl. IsHosted host arn_parse host_cfg host_options sl.service)
          (new_host_proxy-IsHosted host arn_parse host_cfg host_options host_p host_h) host_m)

-- The toggle for Nitro mode chooses the transport on both sides.
abbrev pub transport_of : {Listener : Type 0} {Conn : Type 0} → Bool → ProxyOption Listener Conn
transport_of true = with_vsock_transport
transport_of false = with_tcp_transport

abbrev pub host_transport_of :
    {Listener : Type 0} {Conn : Type 0} → Bool → HostProxy.ProxyOption Listener Conn
host_transport_of true = HostProxy.with_vsock_transport
host_transport_of false = HostProxy.with_tcp_transport

module _ {Listener : Type 0} {Conn : Type 0} {HostListener : Type 0} {HostConn : Type 0}
    (t : Transports Listener Conn) (host : HostProxy.Transports HostListener HostConn) where
  -- In Nitro mode the enclave's connections for a service are dialled to a vsock port of its
  -- parent, at which the host's listener for the same service accepts; otherwise to the TCP port of
  -- the host named vsockproxy, at which it accepts.
  pub IsConnected :
      Bool
      → ServiceConfig Listener (Result Conn)
      → ServiceConfig HostListener (Inbound → Result HostConn)
      → ℕ
      → Type 0
  IsConnected true svc host_svc port =
      (svc.listen ≡ some (t.vsock_listen port))
      × (svc.dial ≡ some (t.vsock_dial port))
      × (host_svc.listen ≡ some (host.vsock_listen port))
  IsConnected false svc host_svc port =
      (svc.listen ≡ some (t.tcp_listen port))
      × (svc.dial ≡ some (t.tcp_dial (codes "vsockproxy") port))
      × (host_svc.listen ≡ some (host.tcp_listen port))

  -- An enclave's proxy and a host's proxy that were both built for the same mode and with the same
  -- base port are connected: each listener of the one and each of the other serve the same service,
  -- and the enclave's dials over vsock, or over TCP outside Nitro mode, the port at which the host's
  -- listens over the same transport.
  pub new_enclave_proxy-IsConnected :
      (nitro : Bool) (arn_parse : Bytes → Result Arn) (cfg : Config)
      (host_cfg : HostProxy.HostConfig) (p : BoundProxy Listener (Result Conn))
      (host_p : BoundProxy HostListener (Inbound → Result HostConn))
      (sl : ServiceListener Listener (Result Conn))
      (host_sl : ServiceListener HostListener (Inbound → Result HostConn))
      → cfg.base_port ≡ host_cfg.base_port
      → (new_enclave_proxy t (some cfg) (transport_of nitro ∷ [])).result ≡ ok p
      → (HostProxy.new_host_proxy host arn_parse
          (some host_cfg)
          (host_transport_of nitro ∷ [])).result
        ≡ ok host_p
      → Memᴰ sl p.listeners
      → Memᴰ host_sl host_p.listeners
      → (sl.service.name ≡ host_sl.service.name)
        × ((port : ℕ) × IsConnected nitro sl.service host_sl.service port)
  unfolding IsConnected apply_all apply HostProxy.apply_all HostProxy.apply
  new_enclave_proxy-IsConnected true arn_parse cfg host_cfg p host_p sl host_sl same h k m n =
      let met =
        new_enclave_proxy-IsMeeting t (transport_of true ∷ []) host (host_transport_of true ∷ [])
          arn_parse cfg host_cfg p host_p sl host_sl same h k m n in
      (met.same_service, (met.port, (met.accepts, met.dials, met.host_accepts)))
  new_enclave_proxy-IsConnected false arn_parse cfg host_cfg p host_p sl host_sl same h k m n =
      let met =
        new_enclave_proxy-IsMeeting t (transport_of false ∷ []) host (host_transport_of false ∷ [])
          arn_parse cfg host_cfg p host_p sl host_sl same h k m n in
      (met.same_service, (met.port, (met.accepts, met.dials, met.host_accepts)))
