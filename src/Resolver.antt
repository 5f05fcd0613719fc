-- ===== src/Resolver.antt =====
-- internal/vsockproxy/routing.go, with the endpoint templates of config.go: which AWS endpoint the
-- host dials for a routing header. `arn.Parse`, the dial and the read deadlines' errors are
-- parameters; the table of templates is the source's.
pub mod Allowed
pub mod Configured
pub mod Reachable
use arc_remote_signer.Common.{
  ℕ, zero, suc, ◌-◌, length, Bool, true, false, not, ◌&&◌, List, [], ◌∷◌, ◌++◌, Option, none, some,
  if◌then◌else◌, ◌==◌, Bytes, is_empty, codes, bytes_eq,
}
use arc_remote_signer.GoError.{Err, new, wrap, Result, ok, err, ◌>>=◌, ◌>>◌, fail_if, map_err}
use arc_remote_signer.Kms.Regions.{Arn, contains}
use arc_remote_signer.Route.{AwsRoute, read_aws_route}

pub data TransportKind : Type 0 where
  transport_vsock transport_tcp : TransportKind
  transport_other : ℕ → TransportKind

-- `byteproxy.AWSServiceNames`.
abbrev pub aws_service_names : List Bytes
aws_service_names = codes "kms" ∷ []

abbrev pub endpoint_templates : List (Bytes × Bytes)
endpoint_templates = (codes "kms", codes "kms.{region}.amazonaws.com:443") ∷ []

unfoldable pub lookup : List (Bytes × Bytes) → Bytes → Option Bytes
lookup [] key = none
lookup ((k, v) ∷ rest) key = if bytes_eq k key then some v else lookup rest key

-- `EndpointTemplate`.
unfoldable pub endpoint_template : Bytes → Result Bytes
unfolding lookup
endpoint_template service = elim (lookup endpoint_templates service) [
  | none ↦ err (new "vsockproxy: no endpoint template registered for service")
  | some t ↦ ok t
]

unfoldable pub ensure_service_parity : List Bytes → List (Bytes × Bytes) → Result (Unit {0})
unfolding lookup
ensure_service_parity [] templates = ok tt
ensure_service_parity (name ∷ names) templates = elim (lookup templates name) [
  | none ↦ err (
      new
        "vsockproxy: byteproxy.AWSServiceNames includes a service but no endpoint template is registered")
  | some t ↦ ensure_service_parity names templates
]

-- `strings.ReplaceAll(s, old, new)` for an `old` that is not empty: the first argument is how many
-- bytes of a match are still to be skipped.
starts_with : Bytes → Bytes → Bool
starts_with [] s = true
starts_with (x ∷ xs) [] = false
starts_with (x ∷ xs) (y ∷ ys) = x == y && starts_with xs ys

unfoldable pub replace_from : ℕ → Bytes → Bytes → Bytes → Bytes
unfolding starts_with
replace_from skip old by [] = []
replace_from (suc skip) old by (y ∷ ys) = replace_from skip old by ys
replace_from zero old by (y ∷ ys) =
    let found = starts_with old (y ∷ ys) in
    let rest = replace_from (if found then length old - 1 else 0) old by ys in
    if found then by ++ rest else y ∷ rest

abbrev pub replace_all : Bytes → Bytes → Bytes → Bytes
replace_all s old by = replace_from 0 old by s

-- What `newRouteResolver` reads of the configuration.
pub record Config : Type 0 where
  pub localstack_enabled : Bool
  pub arns : List Bytes

pub record RouteResolver : Type 0 where
  pub allowed_regions : List Bytes
  pub use_localstack : Bool
  pub tcp_localstack_endpoint : Bytes

is_known_transport : TransportKind → Bool
is_known_transport transport_vsock = true
is_known_transport transport_tcp = true
is_known_transport (transport_other n) = false

is_tcp : TransportKind → Bool
is_tcp transport_tcp = true
is_tcp _ = false

module _ (arn_parse : Bytes → Result Arn) where
  -- The loop over the ARNs; the map of regions is the list of its keys.
  unfoldable pub collect_regions : List Bytes → Result (List Bytes)
  collect_regions [] = ok []
  collect_regions (value ∷ values) = do
    parsed ←
        map_err (wrap "vsockproxy: provider.awskms.arns is not a valid ARN: ") (arn_parse value)
    fail_if (not (bytes_eq parsed.service (codes "kms")))
        (new "vsockproxy: provider.awskms.arns is not a KMS ARN")
    fail_if (is_empty parsed.region) (new "vsockproxy: provider.awskms.arns has no region")
    regions ← collect_regions values
    ok (parsed.region ∷ regions)

  unfoldable pub new_route_resolver : Option Config → TransportKind → Bytes → Result RouteResolver
  unfolding ensure_service_parity collect_regions is_known_transport is_tcp
  new_route_resolver none transport endpoint = err (new "vsockproxy: nil config")
  new_route_resolver (some cfg) transport endpoint = do
    ensure_service_parity aws_service_names endpoint_templates
    fail_if (not (is_known_transport transport)) (new "vsockproxy: unhandled transport kind")
    let localstack : Result RouteResolver = do
      fail_if (not (is_tcp transport)) (new "vsockproxy: LocalStack requires TCP transport")
      ok (record {
        allowed_regions = [];
        use_localstack = true;
        tcp_localstack_endpoint = endpoint;
      })
    let aws : Result RouteResolver = do
      fail_if (is_empty cfg.arns)
          (new "vsockproxy: provider.awskms.arns has no entry to derive allowed regions from")
      regions ← collect_regions cfg.arns
      ok (record {
        allowed_regions = regions;
        use_localstack = false;
        tcp_localstack_endpoint = endpoint;
      })
    if cfg.localstack_enabled then localstack else aws

unfoldable pub resolve : RouteResolver → AwsRoute → Result Bytes
unfolding lookup replace_from contains
resolve r route = elim (lookup endpoint_templates route.service) [
  | none ↦ err (new "vsockproxy: route service is not supported")
  | some tmpl ↦
      if r.use_localstack
      then ok r.tcp_localstack_endpoint
      else if not (contains r.allowed_regions route.region)
      then err (new "vsockproxy: route region is not configured")
      else ok (replace_all tmpl (codes "{region}") route.region)
]

-- An accepted connection: what its peer sends, whether setting and clearing the read deadline
-- fails, and whether the context is done before the header has been read.
pub record Inbound : Type 0 where
  pub stream : Bytes
  pub set_deadline : Option Err
  pub cancelled : Option Err
  pub clear_deadline : Option Err

after_read : Option Err → Result (AwsRoute × Bytes) → Result AwsRoute
after_read (some e) (ok t) = err (wrap "vsockproxy: clear route read deadline: " e)
after_read none (ok t) = ok t.0
after_read reset (err e) = err (wrap "vsockproxy: read route: " e)

read_unless_cancelled : Option Err → Inbound → Result AwsRoute
unfolding after_read read_aws_route
read_unless_cancelled (some e) inbound = err (wrap "vsockproxy: route read cancelled: " e)
read_unless_cancelled none inbound =
    after_read inbound.clear_deadline (read_aws_route inbound.stream)

read_after_deadline : Option Err → Inbound → Result AwsRoute
unfolding read_unless_cancelled
read_after_deadline (some e) inbound = err (wrap "vsockproxy: set route read deadline: " e)
read_after_deadline none inbound = read_unless_cancelled inbound.cancelled inbound

unfoldable pub read_route : Inbound → Result AwsRoute
unfolding read_after_deadline
read_route inbound = read_after_deadline inbound.set_deadline inbound

module _ {C : Type 0} (dial_endpoint : Bytes → Result C) where
  unfoldable pub dial : RouteResolver → Bytes → Inbound → Result C
  unfolding read_route resolve
  dial r service inbound = do
    route ← read_route inbound
    fail_if (not (bytes_eq route.service service))
        (new "vsockproxy: route service does not match listener service")
    endpoint ← resolve r route
    map_err (wrap "vsockproxy: dial: ") (dial_endpoint endpoint)
