-- ===== src/EnclaveProxy.antt =====
-- internal/enclave/provider/awsproxy (awsproxy.go, options.go, transport_vsock.go,
-- transport_tcp.go): how the enclave's proxy is made of the byte proxy. The listen and dial
-- functions of the two transports are parameters; `Dial` ignores its inbound connection, and is the
-- result that it gives when called.
pub mod Meeting
use arc_remote_signer.Common.{ℕ, List, [], ◌∷◌, ◌++◌, Option, none, some, Bytes, codes}
use arc_remote_signer.Common.Int.{ℤ}
use arc_remote_signer.GoError.{new, wrap, Result, ok, err, ◌>>=◌, map_err}
use arc_remote_signer.Resolver.{TransportKind, transport_vsock, transport_tcp, transport_other}
use arc_remote_signer.Proxy.Binding.{AwsServiceBinding, Built, refuse, new_aws_proxy}

abbrev pub proxy_name : Bytes
proxy_name = codes "enclave-awsproxy"

abbrev pub tcp_parent_host : Bytes
tcp_parent_host = codes "vsockproxy"

pub record Config : Type 0 where
  pub base_port : ℕ
  pub max_conns : ℤ

module _ (Listener : Type 0) (Conn : Type 0) where
  -- `vsockTransportListen`, `vsockTransportDial`, and what `WithTCPTransport` installs. `decimal`
  -- is the verb `%d` of `fmt`.
  pub record Transports : Type 0 where
    pub vsock_listen : ℕ → Result Listener
    pub vsock_dial : ℕ → Result Conn
    pub tcp_listen : ℕ → Result Listener
    pub tcp_dial : Bytes → ℕ → Result Conn
    pub decimal : ℕ → Bytes

  -- `options`.
  pub record Options : Type 0 where
    pub listen : ℕ → Result Listener
    pub dial : ℕ → Result Conn
    pub transport : TransportKind
    pub tcp_parent_host : Bytes

  -- `Option`.
  pub data ProxyOption : Type 0 where
    with_vsock_transport with_tcp_transport : ProxyOption
    with_listen : (ℕ → Result Listener) → ProxyOption
    with_dial : (ℕ → Result Conn) → ProxyOption

module _ {Listener : Type 0} {Conn : Type 0} (t : Transports Listener Conn) where
  unfoldable pub apply : Options Listener Conn → ProxyOption Listener Conn → Options Listener Conn
  apply o with_vsock_transport = record o {
    transport = transport_vsock;
    listen = t.vsock_listen;
    dial = t.vsock_dial;
  }
  apply o with_tcp_transport = record o {
    transport = transport_tcp;
    tcp_parent_host = tcp_parent_host;
    listen = t.tcp_listen;
    dial = t.tcp_dial tcp_parent_host;
  }
  apply o (with_listen fn) = record o { listen = fn }
  apply o (with_dial fn) = record o { dial = fn }

  unfoldable pub apply_all :
      Options Listener Conn → List (ProxyOption Listener Conn) → Options Listener Conn
  unfolding apply
  apply_all o [] = o
  apply_all o (option ∷ options) = apply_all (apply o option) options

  -- The options that `New` starts from.
  abbrev pub default_options : Options Listener Conn
  default_options = record {
    listen = t.vsock_listen;
    dial = t.vsock_dial;
    transport = transport_vsock;
    tcp_parent_host = [];
  }

  -- `describeEndpoint`, by its transport.
  unfoldable pub describe_endpoint : TransportKind → Bytes → ℕ → Result Bytes
  describe_endpoint transport_vsock host port = ok (codes "vsock CID=3:" ++ t.decimal port)
  describe_endpoint transport_tcp host port =
      ok (codes "tcp " ++ (host ++ (codes ":" ++ t.decimal port)))
  describe_endpoint (transport_other n) host port = err (new "awsproxy: unhandled transport kind ")

  -- The binding of a service.
  unfoldable pub binding :
      Options Listener Conn → Bytes → ℕ → Result (AwsServiceBinding Listener (Result Conn))
  unfolding describe_endpoint
  binding o svc port = do
    endpoint ← describe_endpoint o.transport o.tcp_parent_host port
    ok (record { endpoint = endpoint; listen = some (o.listen port); dial = some (o.dial port) })

  -- An error of `NewAWSProxy` with the prefix of `New`.
  abbrev pub prefixed : Built Listener (Result Conn) → Built Listener (Result Conn)
  prefixed b = record b { result = map_err (wrap "awsproxy: ") b.result }

  -- `New`.
  unfoldable pub new_enclave_proxy :
      Option Config → List (ProxyOption Listener Conn) → Built Listener (Result Conn)
  unfolding apply_all binding new_aws_proxy
  new_enclave_proxy none options = refuse (new "awsproxy: nil config")
  new_enclave_proxy (some cfg) options = prefixed (
      new_aws_proxy proxy_name cfg.base_port cfg.max_conns
        (binding (apply_all default_options options)))
