-- ===== src/HostProxy/Bound.antt =====
-- About `New` of internal/vsockproxy/vsockproxy.go: the parts that a successful call is made of.
use arc_remote_signer.Common.{some, List, ◌≡◌, Bytes, inl, inr}
use arc_remote_signer.GoError.{Err, wrap, Result, ok, err, map_err-eq-ok, Result-cases}
use arc_remote_signer.Kms.Regions.{Arn}
use arc_remote_signer.Resolver.{RouteResolver, Inbound, new_route_resolver}
use arc_remote_signer.Proxy.Binding.{BoundProxy, new_aws_proxy}
use arc_remote_signer.HostProxy.{
  proxy_name, HostConfig, Transports, ProxyOption, apply_all, default_options, binding,
  new_host_proxy,
}

module _ {Listener : Type 0} {Conn : Type 0} (t : Transports Listener Conn)
    (arn_parse : Bytes → Result Arn) (cfg : HostConfig)
    (options : List (ProxyOption Listener Conn)) where
  err-ne-ok :
      {p : BoundProxy Listener (Inbound → Result Conn)} (x : Err)
      → ◌≡◌ {A = Result (BoundProxy Listener (Inbound → Result Conn))} (err x) (ok p)
      → ⊥
  err-ne-ok x q = cc

  -- A proxy was built by `NewAWSProxy` over a resolver of the configuration and the options.
  pub new_host_proxy-bound :
      (p : BoundProxy Listener (Inbound → Result Conn))
      → (new_host_proxy t arn_parse (some cfg) options).result ≡ ok p
      → (r : RouteResolver) × new_route_resolver arn_parse
            (some cfg.resolver)
            (apply_all t (default_options t) options).transport
            (apply_all t (default_options t) options).tcp_localstack_endpoint
          ≡ ok r
        × (new_aws_proxy proxy_name cfg.base_port cfg.max_conns
            (binding t cfg (apply_all t (default_options t) options) r)).result
          ≡ ok p
  unfolding new_host_proxy
  new_host_proxy-bound p h =
      elim (Result-cases (
        new_route_resolver arn_parse (some cfg.resolver)
          (apply_all t (default_options t) options).transport
          (apply_all t (default_options t) options).tcp_localstack_endpoint)) [
            | inr (x, q) ↦ absurd (err-ne-ok x (rw (new_host_proxy, q) at h))
            | inl (r, q) ↦
                (r, q, map_err-eq-ok (wrap "vsockproxy: ") _ (rw (new_host_proxy, q) at h))
          ]
