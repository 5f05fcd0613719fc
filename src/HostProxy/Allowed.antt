-- ===== src/HostProxy/Allowed.antt =====
-- About `New` of internal/vsockproxy/vsockproxy.go: which addresses the connections that its
-- listeners accept are bridged to.
use mathlib.Core.List.{Memᴰ}
use arc_remote_signer.Common.{
  true, false, ◌⊎◌, ◌++◌, some, List, ◌≡◌, sym, ap, ◌∙◌, Bytes, codes, All, All-mem,
}
use arc_remote_signer.GoError.{Result, ok}
use arc_remote_signer.Kms.Regions.{Arn}
use arc_remote_signer.Route.{AwsRoute}
use arc_remote_signer.Resolver.{RouteResolver, Inbound, read_route, new_route_resolver, dial}
use arc_remote_signer.Resolver.Allowed.{dial-IsAllowed}
use arc_remote_signer.Resolver.Configured.{IsRegionOf, allowed-IsConfigured}
use arc_remote_signer.Kms.Config.{kms_hostname}
use arc_remote_signer.Proxy.Binding.{
  ServiceConfig, ServiceListener, BoundProxy, AwsServiceBinding, new_aws_proxy,
}
use arc_remote_signer.Proxy.Binding.Services.{new_aws_proxy-All}
use arc_remote_signer.HostProxy.Bound.{new_host_proxy-bound}
use arc_remote_signer.HostProxy.{
  proxy_name, HostConfig, Transports, Options, ProxyOption, apply_all, default_options, binding,
  new_host_proxy,
}

module _ {Listener : Type 0} {Conn : Type 0} (t : Transports Listener Conn)
    (arn_parse : Bytes → Result Arn) (cfg : HostConfig)
    (options : List (ProxyOption Listener Conn)) where
  abbrev chosen : Options Listener Conn
  chosen = apply_all t (default_options t) options

  -- An address that the configuration allows for a header's region: LocalStack's, where that is
  -- enabled, and otherwise port 443 of the KMS host of that region, where a configured ARN is a KMS
  -- ARN of that region.
  pub IsConfigured : Bytes → Bytes → Type 0
  IsConfigured region endpoint =
      ((cfg.resolver.localstack_enabled ≡ true)
        × (endpoint ≡ (apply_all t (default_options t) options).tcp_localstack_endpoint))
      ⊎ ((cfg.resolver.localstack_enabled ≡ false)
          × IsRegionOf arn_parse cfg.resolver.arns region
          × (endpoint ≡ kms_hostname region ++ codes ":443"))

  -- The connection is one to an address that the configuration allows for its header.
  pub record IsBridged (inbound : Inbound) (c : Conn) : Type 0 where
    pub route : AwsRoute
    pub read : read_route inbound ≡ ok route
    pub is_kms : route.service ≡ codes "kms"
    pub endpoint : Bytes
    pub configured : IsConfigured route.region endpoint
    pub dialled : (apply_all t (default_options t) options).dial endpoint ≡ ok c

  -- A service whose connections the resolver dials.
  abbrev Dials : RouteResolver → ServiceConfig Listener (Inbound → Result Conn) → Type 0
  Dials r svc = svc.dial ≡ some (dial chosen.dial r svc.name)

  bound-Dials :
      (r : RouteResolver) (p : BoundProxy Listener (Inbound → Result Conn))
      → (new_aws_proxy proxy_name cfg.base_port cfg.max_conns (binding t cfg chosen r)).result
        ≡ ok p
      → All (λ sl. Dials r sl.service) p.listeners
  unfolding binding
  bound-Dials r p h =
      new_aws_proxy-All (Dials r) proxy_name cfg.base_port cfg.max_conns (binding t cfg chosen r) p
        (λ name port b _ e.
          ap (λ (x : AwsServiceBinding Listener (Inbound → Result Conn)). x.dial) (sym (same e)))
        h
    where
      same : {a b : AwsServiceBinding Listener (Inbound → Result Conn)} → ok a ≡ ok b → a ≡ b
      same e = cc

  dialled-IsBridged :
      (r : RouteResolver) (sl : ServiceListener Listener (Inbound → Result Conn))
      (f : Inbound → Result Conn) (inbound : Inbound) (c : Conn)
      → new_route_resolver arn_parse
          (some cfg.resolver)
          chosen.transport
          chosen.tcp_localstack_endpoint
        ≡ ok r
      → Dials r sl.service
      → sl.service.dial ≡ some f
      → f inbound ≡ ok c
      → IsBridged inbound c
  unfolding IsConfigured
  dialled-IsBridged r sl f inbound c made d e h =
      let same : dial chosen.dial r sl.service.name ≡ f = some-injective (sym d ∙ e) in
      let (route, endpoint, read, named, is_kms, allowed, dialled) =
        dial-IsAllowed chosen.dial r sl.service.name inbound c
          (ap (λ (g : Inbound → Result Conn). g inbound) same ∙ h) in
      record {
        route = route;
        read = read;
        is_kms = named ∙ is_kms;
        endpoint = endpoint;
        configured =
            allowed-IsConfigured arn_parse cfg.resolver chosen.transport
              chosen.tcp_localstack_endpoint r route endpoint made allowed;
        dialled = dialled;
      }
    where
      some-injective : {a b : Inbound → Result Conn} → some a ≡ some b → a ≡ b
      some-injective q = cc

  -- Whatever transport options it is given, each connection that a listener of the host's proxy
  -- bridges is one to LocalStack, where that is enabled, or to port 443 of the KMS host of a region
  -- of the configured ARNs, which is the region of the connection's header.
  pub new_host_proxy-IsBridged :
      (p : BoundProxy Listener (Inbound → Result Conn))
      (sl : ServiceListener Listener (Inbound → Result Conn)) (f : Inbound → Result Conn)
      (inbound : Inbound) (c : Conn)
      → (new_host_proxy t arn_parse (some cfg) options).result ≡ ok p
      → Memᴰ sl p.listeners
      → sl.service.dial ≡ some f
      → f inbound ≡ ok c
      → IsBridged inbound c
  new_host_proxy-IsBridged p sl f inbound c h m e bridged =
      let (r, made, bound) = new_host_proxy-bound t arn_parse cfg options p h in
      dialled-IsBridged r sl f inbound c made
        (All-mem (λ sl. Dials r sl.service) (bound-Dials r p bound) m) e bridged
