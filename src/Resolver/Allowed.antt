-- ===== src/Resolver/Allowed.antt =====
-- About `dial` and `resolve` of internal/vsockproxy/routing.go: which endpoints the host dials.
use arc_remote_signer.Common.{
  true, false, not, ◌++◌, some, ◌≡◌, refl, sym, ◌∙◌, append_assoc, arith, if◌then◌else◌, Bytes,
  codes, bytes_eq, bytes_eq_iff, Bool-cases, Option-cases, ◌⊎◌, inl, inr,
}
use arc_remote_signer.GoError.{new, Result, ok, err, bind_ok, map_err-eq-ok}
use arc_remote_signer.Kms.Regions.{contains}
use arc_remote_signer.Kms.Config.{kms_hostname}
use arc_remote_signer.Route.{AwsRoute}
use arc_remote_signer.Resolver.{
  RouteResolver, endpoint_templates, lookup, replace_from, resolve, Inbound, read_route, dial,
}

pub replace-template :
    (region : Bytes)
    → replace_from 0 (codes "{region}") region (codes "kms.{region}.amazonaws.com:443")
      ≡ kms_hostname region ++ codes ":443"
unfolding replace_from
replace-template region = rw (append_assoc region (codes ".amazonaws.com") (codes ":443")) refl

-- What the host may dial for a route.
unfoldable pub IsAllowed : RouteResolver → AwsRoute → Bytes → Type 0
IsAllowed r route endpoint =
    ((r.use_localstack ≡ true) × (endpoint ≡ r.tcp_localstack_endpoint))
    ⊎ ((r.use_localstack ≡ false)
        × (contains r.allowed_regions route.region ≡ true)
        × (endpoint ≡ kms_hostname route.region ++ codes ":443"))

lookup-kms :
    (service tmpl : Bytes)
    → lookup endpoint_templates service ≡ some tmpl
    → (service ≡ codes "kms") × (tmpl ≡ codes "kms.{region}.amazonaws.com:443")
unfolding lookup
lookup-kms service tmpl eq = ground (arith, bytes_eq_iff (codes "kms") service)

found :
    (r : RouteResolver)
    → (route : AwsRoute) → (endpoint tmpl : Bytes)
    → (route.service ≡ codes "kms") × (tmpl ≡ codes "kms.{region}.amazonaws.com:443")
    → (if r.use_localstack
        then ok r.tcp_localstack_endpoint
        else if not (contains r.allowed_regions route.region)
        then err (new "vsockproxy: route region is not configured")
        else ok (replace_from 0 (codes "{region}") route.region tmpl))
      ≡ ok endpoint
    → (route.service ≡ codes "kms") × IsAllowed r route endpoint
unfolding IsAllowed
found r route endpoint tmpl (is_kms, is_template) eq = elim (Bool-cases r.use_localstack) [
  | inl on ↦ (is_kms, inl (on, ground arith))
  | inr off ↦ elim (Bool-cases (contains r.allowed_regions route.region)) [
    | inl known ↦ (
      is_kms,
      inr (off, known, ground (arith, rw is_template at eq, replace-template route.region)),
    )
    | inr unknown ↦ absurd (ground arith)
  ]
]

resolve-IsAllowed :
    (r : RouteResolver)
    → (route : AwsRoute) → (endpoint : Bytes) → resolve r route ≡ ok endpoint
    → (route.service ≡ codes "kms") × IsAllowed r route endpoint
unfolding resolve
resolve-IsAllowed r route endpoint eq =
    elim (Option-cases (lookup endpoint_templates route.service)) [
      | inl e ↦ absurd (cc (rw e at eq))
      | inr (tmpl, e) ↦ found r route endpoint tmpl (lookup-kms route.service tmpl e) (rw e at eq)
    ]

-- When `dial` succeeds, the connection has sent a header that `ReadRoute` accepts, its service is
-- that of the listener and is KMS, and the address dialled is LocalStack's where that is enabled,
-- and otherwise port 443 of the KMS host of the header's region, which is one of the configured
-- regions; that host name is the one that the enclave's TLS client asks for.
pub dial-IsAllowed :
    {C : Type 0} (dial_endpoint : Bytes → Result C) (r : RouteResolver) (service : Bytes)
    (inbound : Inbound) (c : C)
    → dial dial_endpoint r service inbound ≡ ok c
    → (route : AwsRoute) × (endpoint : Bytes) × (read_route inbound ≡ ok route)
      × (route.service ≡ service)
      × (service ≡ codes "kms")
      × IsAllowed r route endpoint
      × (dial_endpoint endpoint ≡ ok c)
unfolding dial
dial-IsAllowed dial_endpoint r service inbound c eq =
    bind_ok (read_route inbound) _ eq λ route e eq₁.
      elim (Bool-cases (bytes_eq route.service service)) [
        | inl same ↦ bind_ok (resolve r route) _ (rw same at eq₁) λ endpoint e₂ eq₂.
            let is_service = (bytes_eq_iff route.service service).0 same in
            let (is_kms, allowed) = resolve-IsAllowed r route endpoint e₂ in
            (
              route,
              endpoint,
              e,
              is_service,
              sym is_service ∙ is_kms,
              allowed,
              map_err-eq-ok _ (dial_endpoint endpoint) eq₂,
            )
        | inr differs ↦ absurd (ground (arith, rw differs at eq₁))
      ]
