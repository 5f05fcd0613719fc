-- ===== src/HostProxy.antt =====
-- internal/vsockproxy (vsockproxy.go, options.go, transport_vsock.go, transport_tcp.go): how the
-- host's proxy is made of the byte proxy and the route resolver. The listen and dial functions of
-- the two transports are parameters.
pub mod Bound
pub mod Allowed
use arc_remote_signer.Common.{
  ℕ, List, [], ◌∷◌, ◌++◌, Option, none, some, if◌then◌else◌, Bool, Bytes, codes,
}
use arc_remote_signer.Common.Int.{ℤ}
use arc_remote_signer.GoError.{new, wrap, Result, ok, err, map_err}
use arc_remote_signer.Kms.Regions.{Arn}
use arc_remote_signer.Resolver.{
  TransportKind, transport_vsock, transport_tcp, Config, RouteResolver, Inbound, new_route_resolver,
  dial,
}
use arc_remote_signer.Proxy.Binding.{AwsServiceBinding, Built, refuse, new_aws_proxy}

abbrev pub proxy_name : Bytes
proxy_name = codes "host-vsockproxy"

abbrev pub localstack_endpoint : Bytes
localstack_endpoint = codes "localstack:4566"

-- The configuration that `New` reads.
pub record HostConfig : Type 0 where
  pub base_port : ℕ
  pub max_conns : ℤ
  pub resolver : Config

module _ (Listener : Type 0) (Conn : Type 0) where
  -- `vsockListen`, `vsockDial`, and what `WithTCPTransport` installs.
  pub record Transports : Type 0 where
    pub vsock_listen : ℕ → Result Listener
    pub vsock_dial : Bytes → Result Conn
    pub tcp_listen : ℕ → Result Listener
    pub tcp_dial : Bytes → Result Conn

  -- `options`.
  pub record Options : Type 0 where
    pub listen : ℕ → Result Listener
    pub dial : Bytes → Result Conn
    pub transport : TransportKind
    pub tcp_localstack_endpoint : Bytes

  -- `Option`.
  pub data ProxyOption : Type 0 where
    with_vsock_transport with_tcp_transport : ProxyOption
    with_listen : (ℕ → Result Listener) → ProxyOption
    with_dial : (Bytes → Result Conn) → ProxyOption

module _ {Listener : Type 0} {Conn : Type 0} (t : Transports Listener Conn) where
  unfoldable pub apply : Options Listener Conn → ProxyOption Listener Conn → Options Listener Conn
  apply o with_vsock_transport = record o {
    transport = transport_vsock;
    listen = t.vsock_listen;
    dial = t.vsock_dial;
  }
  apply o with_tcp_transport = record o {
    transport = transport_tcp;
    tcp_localstack_endpoint = localstack_endpoint;
    listen = t.tcp_listen;
    dial = t.tcp_dial;
  }
  apply o (with_listen fn) = record o { listen = fn }
  apply o (with_dial fn) = record o { dial = fn }

  unfoldable pub apply_all :
      Options Listener Conn → List (ProxyOption Listener Conn) → Options Listener Conn
  unfolding apply
  apply_all o [] = o
  apply_all o (option ∷ options) = apply_all (apply o option) options

  -- The options that `New` starts from.
  abbrev pub default_options : Options Listener Conn
  default_options = record {
    listen = t.vsock_listen;
    dial = t.vsock_dial;
    transport = transport_vsock;
    tcp_localstack_endpoint = [];
  }

  -- The binding of a service, with the resolver that `New` has built.
  unfoldable pub binding :
      HostConfig
      → Options Listener Conn
      → RouteResolver
      → Bytes
      → ℕ
      → Result (AwsServiceBinding Listener (Inbound → Result Conn))
  unfolding dial
  binding cfg o r svc port = ok (record {
    endpoint =
        if cfg.resolver.localstack_enabled
        then o.tcp_localstack_endpoint
        else svc ++ codes " (region resolved per connection)";
    listen = some (o.listen port);
    dial = some (dial o.dial r svc);
  })

  -- An error of `NewAWSProxy` with the prefix of `New`.
  abbrev pub prefixed :
      Built Listener (Inbound → Result Conn) → Built Listener (Inbound → Result Conn)
  prefixed b = record b { result = map_err (wrap "vsockproxy: ") b.result }

  -- `New`.
  unfoldable pub new_host_proxy :
      (Bytes → Result Arn)
      → Option HostConfig
      → List (ProxyOption Listener Conn)
      → Built Listener (Inbound → Result Conn)
  unfolding apply_all binding new_route_resolver new_aws_proxy
  new_host_proxy arn_parse none options = refuse (new "vsockproxy: nil config")
  new_host_proxy arn_parse (some cfg) options =
      let o = apply_all default_options options in
      elim (new_route_resolver arn_parse (some cfg.resolver) o.transport
        o.tcp_localstack_endpoint) [
          | err e ↦ refuse e
          | ok r ↦ prefixed (new_aws_proxy proxy_name cfg.base_port cfg.max_conns (binding cfg o r))
        ]
