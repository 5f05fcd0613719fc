-- ===== src/Kms/Config.antt =====
-- internal/enclave/provider/awskms/awsconfig.go and `initClients` of awskms.go: how each client of
-- the enclave reaches its KMS endpoint. `url.Parse`, and the pool of Amazon's root certificates,
-- are parameters; timeouts, retries and keep-alive settings are left out.
pub mod Endpoints
use arc_remote_signer.Common.{
  Bool, not, ◌||◌, List, [], ◌∷◌, ◌++◌, Option, none, some, if◌then◌else◌, Bytes, is_empty, codes,
  bytes_eq,
}
use arc_remote_signer.GoError.{new, wrap, Result, ok, err, ◌>>=◌, ◌>>◌, fail_if, map_err}
use arc_remote_signer.Proto.{AwsCredentials}
use arc_remote_signer.Route.{AwsRoute}
use arc_remote_signer.Kms.Regions.{
  Arn, validate_kms_region, validate_credentials_region, validate_kms_key_arns,
}

-- The parts of a `url.URL` that the code reads.
pub record Url : Type 0 where
  pub scheme : Bytes
  pub has_user : Bool
  pub host : Bytes
  pub hostname : Bytes
  pub port : Bytes
  pub fragment : Bytes

-- The HTTP client: where it dials, the header that it sends first, and the server name that it
-- wants of the TLS peer, which is checked against Amazon's roots; an empty name leaves TLS alone.
pub record HttpClient : Type 0 where
  pub proxy_address : Bytes
  pub route : Option AwsRoute
  pub tls_server_name : Bytes

pub record AwsConfig : Type 0 where
  pub region : Bytes
  pub access_key_id : Bytes
  pub secret_access_key : Bytes
  pub session_token : Bytes
  pub http_client : HttpClient
  pub base_endpoint : Option Bytes

-- A client of `initClients`, by its configuration.
pub record ClientConfig : Type 0 where
  pub arn : Bytes
  pub region : Bytes
  pub base_endpoint : Bytes
  pub http_client : HttpClient

pub record Outside : Type 0 where
  pub arn_parse : Bytes → Result Arn
  pub url_parse : Bytes → Result Url
  pub new_amazon_root_ca_pool : Result (Unit {0})

abbrev pub kms_hostname : Bytes → Bytes
kms_hostname region = codes "kms." ++ (region ++ codes ".amazonaws.com")

module _ (o : Outside) where
  unfoldable pub awsproxy_address : Bytes → Result Bytes
  awsproxy_address endpoint = do
    u ← map_err (wrap "parse awsproxy endpoint: ") (o.url_parse endpoint)
    fail_if (is_empty u.host) (new "awsproxy endpoint has no host")
    fail_if (is_empty u.port) (new "awsproxy endpoint has no port")
    ok u.host

  unfoldable pub amazon_root_cas_for_server : Bytes → Result (Unit {0})
  amazon_root_cas_for_server server_name =
      if is_empty server_name
      then ok tt
      else map_err (wrap "build Amazon root CA pool: ") o.new_amazon_root_ca_pool

  unfoldable pub new_awsproxy_http_client : Bytes → Option AwsRoute → Bytes → Result HttpClient
  unfolding awsproxy_address amazon_root_cas_for_server
  new_awsproxy_http_client endpoint route tls_server_name = do
    address ← awsproxy_address endpoint
    amazon_root_cas_for_server tls_server_name
    ok (record { proxy_address = address; route = route; tls_server_name = tls_server_name })

  unfoldable pub build_config : Option AwsCredentials → Bytes → Bool → Result AwsConfig
  unfolding validate_credentials_region new_awsproxy_http_client
  build_config none endpoint localstack_enabled = err (new "nil credentials")
  build_config (some creds) endpoint localstack_enabled = do
    validate_credentials_region creds.region
    fail_if (is_empty endpoint) (new "empty awsproxy endpoint")
    http_client ←
        map_err (wrap "build awsproxy http client: ") (new_awsproxy_http_client endpoint none [])
    ok (record {
      region = creds.region;
      access_key_id = creds.access_key_id;
      secret_access_key = creds.secret_access_key;
      session_token = creds.session_token;
      http_client = http_client;
      base_endpoint = if localstack_enabled then some endpoint else none;
    })

  -- The URL's text and its host name.
  unfoldable pub canonical_kms_endpoint : Bytes → Result (Bytes × Bytes)
  unfolding validate_kms_region
  canonical_kms_endpoint region = do
    validate_kms_region region
    let text = codes "https://" ++ kms_hostname region
    endpoint ← map_err (wrap "parse canonical KMS endpoint: ") (o.url_parse text)
    fail_if
        (not (bytes_eq endpoint.scheme (codes "https"))
          || endpoint.has_user
          || not (is_empty endpoint.fragment)
          || not (bytes_eq endpoint.hostname (kms_hostname region)))
        (new "canonical KMS endpoint has invalid URL components")
    ok (text, endpoint.hostname)

  -- The base endpoint and the TLS server name of a client.
  endpoint_of : Option Bytes → Bytes → Result (Bytes × Bytes)
  unfolding canonical_kms_endpoint
  endpoint_of (some base) region = ok (base, [])
  endpoint_of none region = map_err (wrap "build KMS endpoint: ") (canonical_kms_endpoint region)

  client_http : AwsConfig → Bytes → Bytes → Bytes → Result HttpClient
  unfolding new_awsproxy_http_client
  client_http cfg awsproxy_endpoint region tls_server_name =
      if is_empty awsproxy_endpoint
      then ok cfg.http_client
      else map_err (wrap "build awsproxy HTTP client: ") (
          new_awsproxy_http_client awsproxy_endpoint
            (some (record { service = codes "kms"; region = region })) tls_server_name)

  -- One round of the loop of `initClients`.
  unfoldable pub init_client : AwsConfig → Bytes → Bytes → Bytes → Result ClientConfig
  unfolding endpoint_of client_http
  init_client cfg awsproxy_endpoint arn region = do
    (base, tls_server_name) ← endpoint_of cfg.base_endpoint region
    http ← client_http cfg awsproxy_endpoint region tls_server_name
    ok (record { arn = arn; region = region; base_endpoint = base; http_client = http })

  unfoldable pub init_each :
      AwsConfig → Bytes → List Bytes → List Bytes → Result (List ClientConfig)
  unfolding init_client
  init_each cfg awsproxy_endpoint (arn ∷ arns) (region ∷ regions) = do
    c ← init_client cfg awsproxy_endpoint arn region
    cs ← init_each cfg awsproxy_endpoint arns regions
    ok (c ∷ cs)
  init_each cfg awsproxy_endpoint _ _ = ok []

  unfoldable pub init_clients : AwsConfig → List Bytes → Bytes → Result (List ClientConfig)
  unfolding validate_kms_key_arns init_each
  init_clients cfg arns awsproxy_endpoint = do
    regions ← validate_kms_key_arns o.arn_parse arns
    init_each cfg awsproxy_endpoint arns regions
