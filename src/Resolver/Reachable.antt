-- ===== src/Resolver/Reachable.antt =====
-- About `initClients` of the enclave (internal/enclave/provider/awskms/awskms.go) and
-- `newRouteResolver` and `resolve` of the host (internal/vsockproxy/routing.go) together.
use arc_remote_signer.Common.{
  true, false, List, [], ◌∷◌, ◌++◌, none, some, ◌≡◌, refl, sym, ap, subst, ◌∙◌, arith, All, Bytes,
  is_empty, codes, bytes_eq_refl, inl, inr,
}
use arc_remote_signer.GoError.{Result, ok, Result-cases}
use arc_remote_signer.Kms.Regions.{Arn, contains, extract_regions, extract_region_from_kms_key_arn}
use arc_remote_signer.Kms.Config.{Outside, AwsConfig, ClientConfig, kms_hostname, init_clients}
use arc_remote_signer.Kms.Config.Endpoints.{IsRouted, regions_of, arns_of, init_clients-IsRouted}
use arc_remote_signer.Route.{AwsRoute}
use arc_remote_signer.Resolver.{
  TransportKind, Config, RouteResolver, collect_regions, new_route_resolver, resolve, lookup,
}
use arc_remote_signer.Resolver.Allowed.{replace-template}

-- The host finds KMS for the header that the client sends: port 443 of the host that the client
-- takes for its endpoint and wants to see in the TLS certificate.
pub record IsReachable (r : RouteResolver) (c : ClientConfig) : Type 0 where
  pub route : AwsRoute
  pub header : c.http_client.route ≡ some route
  pub dialled : resolve r route ≡ ok (c.http_client.tls_server_name ++ codes ":443")
  pub endpoint : c.base_endpoint ≡ codes "https://" ++ c.http_client.tls_server_name

-- The host's loop finds the regions that the enclave's validation finds.
collect_regions-extract :
    (parse : Bytes → Result Arn) (arns regions hosted : List Bytes)
    → extract_regions parse arns ≡ ok regions
    → collect_regions parse arns ≡ ok hosted
    → regions ≡ hosted
unfolding extract_regions extract_region_from_kms_key_arn collect_regions
collect_regions-extract parse [] regions hosted h k = ground arith
collect_regions-extract parse (arn ∷ arns) regions hosted h k = elim (Result-cases (parse arn)) [
  | inr (e, p) ↦ absurd (ground arith)
  | inl (parsed, p) ↦ elim (Result-cases (extract_regions parse arns)) [
    | inr (e, q) ↦ absurd (ground arith)
    | inl (rest, q) ↦ elim (Result-cases (collect_regions parse arns)) [
      | inr (e, r) ↦ absurd (ground arith)
      | inl (rest', r) ↦
          let same = collect_regions-extract parse arns rest rest' q r in ground arith
    ]
  ]
]

resolve-configured :
    (r : RouteResolver) (region : Bytes)
    → r.use_localstack ≡ false
    → contains r.allowed_regions region ≡ true
    → resolve r (record { service = codes "kms"; region = region })
      ≡ ok (kms_hostname region ++ codes ":443")
unfolding resolve lookup
resolve-configured r region off known = rw (off, known) (ap ok (replace-template region))

pub new_route_resolver-regions :
    (parse : Bytes → Result Arn) (host : Config) (transport : TransportKind) (tcp : Bytes)
    (r : RouteResolver)
    → host.localstack_enabled ≡ false
    → new_route_resolver parse (some host) transport tcp ≡ ok r
    → (r.use_localstack ≡ false) × (collect_regions parse host.arns ≡ ok r.allowed_regions)
unfolding new_route_resolver
new_route_resolver-regions parse host transport tcp r off h =
    elim (Result-cases (collect_regions parse host.arns)) [
      | inr (e, p) ↦ absurd (ground arith)
      | inl (regions, p) ↦ ground arith
    ]

contains-later :
    (before : Bytes) (regions : List Bytes) (region : Bytes)
    → contains regions region ≡ true
    → contains (before ∷ regions) region ≡ true
unfolding contains
contains-later before regions region h = ground arith

contains-first : (region : Bytes) (regions : List Bytes) → contains (region ∷ regions) region ≡ true
unfolding contains
contains-first region regions = rw (bytes_eq_refl region) refl

regions-known :
    (allowed : List Bytes) (cs : List ClientConfig)
    → ((region : Bytes) → contains (regions_of cs) region ≡ true → contains allowed region ≡ true)
    → All (λ c. contains allowed c.region ≡ true) cs
unfolding regions_of
regions-known allowed [] h = tt
regions-known allowed (c ∷ cs) h = (
  h c.region (contains-first c.region (regions_of cs)),
  regions-known allowed cs
      (λ region k. h region (contains-later c.region (regions_of cs) region k)),
)

routed-IsReachable :
    (r : RouteResolver) (cs : List ClientConfig)
    → r.use_localstack ≡ false
    → All IsRouted cs
    → All (λ c. contains r.allowed_regions c.region ≡ true) cs
    → All (IsReachable r) cs
routed-IsReachable r [] off routed known = tt
routed-IsReachable r (c ∷ cs) off routed known = (
  record {
    route = record { service = codes "kms"; region = c.region };
    header = routed.0.route;
    dialled =
        resolve-configured r c.region off known.0
        ∙ ap (λ (host : Bytes). ok (host ++ codes ":443")) (sym routed.0.tls);
    endpoint = routed.0.base ∙ ap (λ (host : Bytes). codes "https://" ++ host) (sym routed.0.tls);
  },
  routed-IsReachable r cs off routed.1 known.1,
)

-- If the enclave is given the ARNs that the host is configured with, and LocalStack is off on both
-- sides, then the enclave's KMS clients are one for each ARN in their order, and for the header of
-- each of them the host resolves port 443 of the host name that the client takes for its endpoint
-- and wants in the TLS certificate.
pub init_clients-IsReachable :
    (o : Outside) (cfg : AwsConfig) (awsproxy_endpoint : Bytes) (cs : List ClientConfig)
    (host : Config) (transport : TransportKind) (tcp : Bytes) (r : RouteResolver)
    → cfg.base_endpoint ≡ none
    → is_empty awsproxy_endpoint ≡ false
    → host.localstack_enabled ≡ false
    → init_clients o cfg host.arns awsproxy_endpoint ≡ ok cs
    → new_route_resolver o.arn_parse (some host) transport tcp ≡ ok r
    → (arns_of cs ≡ host.arns) × All (IsReachable r) cs
init_clients-IsReachable o cfg awsproxy_endpoint cs host transport tcp r direct proxied off h k =
    let (extracted, named, routed) =
      init_clients-IsRouted o cfg awsproxy_endpoint host.arns cs direct proxied h in
    let (live, collected) = new_route_resolver-regions o.arn_parse host transport tcp r off k in
    let same =
      collect_regions-extract o.arn_parse host.arns (regions_of cs) r.allowed_regions extracted
        collected in
    (
      named,
      routed-IsReachable r cs live routed (
          regions-known r.allowed_regions cs
            (λ region q. subst (λ (l : List Bytes). contains l region ≡ true) same q)),
    )
