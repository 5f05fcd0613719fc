-- ===== src/Resolver/Configured.antt =====
-- About `newRouteResolver` of internal/vsockproxy/routing.go: what it allows, in terms of the
-- configuration.
use arc_remote_signer.Common.{
  true, false, List, [], ◌∷◌, ◌++◌, some, ◌≡◌, sym, ◌∙◌, arith, Bytes, codes, bytes_eq,
  bytes_eq_iff, Bool-cases, ◌⊎◌, inl, inr,
}
use arc_remote_signer.GoError.{Result, ok, Result-cases}
use arc_remote_signer.Kms.Regions.{Arn, contains}
use arc_remote_signer.Kms.Config.{kms_hostname}
use arc_remote_signer.Route.{AwsRoute}
use arc_remote_signer.Resolver.{
  TransportKind, Config, RouteResolver, collect_regions, new_route_resolver,
}
use arc_remote_signer.Resolver.Allowed.{IsAllowed}
use arc_remote_signer.Resolver.Reachable.{new_route_resolver-regions}

-- One of these strings is an ARN of KMS in this region.
pub data IsRegionOf (parse : Bytes → Result Arn) : List Bytes → Bytes → Type 0 where
  first :
      {arn : Bytes} {arns : List Bytes} {region : Bytes} (parsed : Arn)
      → parse arn ≡ ok parsed
      → parsed.service ≡ codes "kms"
      → parsed.region ≡ region
      → IsRegionOf parse (arn ∷ arns) region
  later :
      {arn : Bytes} {arns : List Bytes} {region : Bytes}
      → IsRegionOf parse arns region
      → IsRegionOf parse (arn ∷ arns) region

contains-behind :
    (y : Bytes) (ys : List Bytes) (x : Bytes)
    → contains (y ∷ ys) x ≡ true
    → bytes_eq x y ≡ false
    → contains ys x ≡ true
unfolding contains
contains-behind y ys x h k = rw (k, contains) at h

collected-IsRegionOf :
    (parse : Bytes → Result Arn) (arns regions : List Bytes) (region : Bytes)
    → collect_regions parse arns ≡ ok regions
    → contains regions region ≡ true
    → IsRegionOf parse arns region
unfolding collect_regions contains
collected-IsRegionOf parse [] regions region h k = absurd (ground arith)
collected-IsRegionOf parse (arn ∷ arns) regions region h k = elim (Result-cases (parse arn)) [
  | inr (e, p) ↦ absurd (ground arith)
  | inl (parsed, p) ↦ elim (Result-cases (collect_regions parse arns)) [
    | inr (e, q) ↦ absurd (ground arith)
    | inl (rest, q) ↦ elim (Bool-cases (bytes_eq region parsed.region)) [
      | inl here ↦
          first parsed p ((bytes_eq_iff parsed.service (codes "kms")).0 (ground arith))
            (sym ((bytes_eq_iff region parsed.region).0 here))
      | inr there ↦
          let e : regions ≡ parsed.region ∷ rest = ground arith in
          later (
            collected-IsRegionOf parse arns rest region q
              (contains-behind parsed.region rest region (rw e at k) there))
    ]
  ]
]

new_route_resolver-localstack :
    (parse : Bytes → Result Arn) (host : Config) (transport : TransportKind) (tcp : Bytes)
    (r : RouteResolver)
    → host.localstack_enabled ≡ true
    → new_route_resolver parse (some host) transport tcp ≡ ok r
    → (r.use_localstack ≡ true) × (r.tcp_localstack_endpoint ≡ tcp)
unfolding new_route_resolver
new_route_resolver-localstack parse host transport tcp r on h = ground arith

-- What a resolver allows is what its configuration says.
pub allowed-IsConfigured :
    (parse : Bytes → Result Arn) (host : Config) (transport : TransportKind) (tcp : Bytes)
    (r : RouteResolver) (route : AwsRoute) (endpoint : Bytes)
    → new_route_resolver parse (some host) transport tcp ≡ ok r
    → IsAllowed r route endpoint
    → ((host.localstack_enabled ≡ true) × (endpoint ≡ tcp))
      ⊎ ((host.localstack_enabled ≡ false)
          × IsRegionOf parse host.arns route.region
          × (endpoint ≡ kms_hostname route.region ++ codes ":443"))
unfolding IsAllowed
allowed-IsConfigured parse host transport tcp r route endpoint made allowed =
    elim (Bool-cases host.localstack_enabled) [
      | inl on ↦
          let (used, at) = new_route_resolver-localstack parse host transport tcp r on made in
          elim allowed [ inl (_, e) ↦ inl (on, e ∙ at) | inr (off, _, _) ↦ absurd (ground arith) ]
      | inr off ↦
          let (unused, collected) =
            new_route_resolver-regions parse host transport tcp r off made in
          elim allowed [
            | inl (used, _) ↦ absurd (ground arith)
            | inr (_, known, e) ↦ inr (
              off,
              collected-IsRegionOf parse host.arns r.allowed_regions route.region collected known,
              e,
            )
          ]
    ]
