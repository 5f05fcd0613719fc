-- ===== src/Tests/RouteTests.antt =====
-- Runs of the enclave's KMS clients against the host's resolver, and of the enclave's vsock dial.
use arc_remote_signer.Common.{◌+◌, false, List, [], ◌∷◌, none, some, ◌≡◌, refl, codes, All, Bytes}
use arc_remote_signer.GoError.{context_deadline_exceeded, ok}
use arc_remote_signer.Kms.Regions.{Arn, is_kms_region}
use arc_remote_signer.Kms.Config.{Outside, AwsConfig, HttpClient, ClientConfig, init_clients}
use arc_remote_signer.Kms.Config.Endpoints.{arns_of}
use arc_remote_signer.Resolver.{Config, RouteResolver, transport_vsock, new_route_resolver}
use arc_remote_signer.Resolver.Reachable.{IsReachable, init_clients-IsReachable}
use arc_remote_signer.VsockDial.{
  Event, dial_returns, dialer_sends, context_done, drainer_receives, new_race, run_race, DialResult,
  abort_error,
}
use arc_remote_signer.VsockDial.Leaks.{one, count, dialled, run_race_leaks_nothing}

abbrev pub test_arn : Arn
test_arn = record { partition = codes "aws"; service = codes "kms"; region = codes "us-east-1" }

abbrev test_hostname : Bytes
test_hostname = codes "kms.us-east-1.amazonaws.com"

abbrev test_outside : Outside
test_outside = record {
  arn_parse = λ b. ok test_arn;
  url_parse = λ b. ok (record {
    scheme = codes "https";
    has_user = false;
    host = test_hostname;
    hostname = test_hostname;
    port = codes "443";
    fragment = [];
  });
  new_amazon_root_ca_pool = ok tt;
}

abbrev test_http : HttpClient
test_http = record { proxy_address = codes "proxy:1"; route = none; tls_server_name = [] }

abbrev test_config : AwsConfig
test_config = record {
  region = codes "us-east-1";
  access_key_id = [];
  secret_access_key = [];
  session_token = [];
  http_client = test_http;
  base_endpoint = none;
}

abbrev test_client_config : ClientConfig
test_client_config = record {
  arn = 1 ∷ [];
  region = codes "us-east-1";
  base_endpoint = codes "https://kms.us-east-1.amazonaws.com";
  http_client = record {
    proxy_address = test_hostname;
    route = some (record { service = codes "kms"; region = codes "us-east-1" });
    tls_server_name = test_hostname;
  };
}

abbrev pub test_host : Config
test_host = record { localstack_enabled = false; arns = (1 ∷ []) ∷ [] }

abbrev pub test_resolver : RouteResolver
test_resolver = record {
  allowed_regions = codes "us-east-1" ∷ [];
  use_localstack = false;
  tcp_localstack_endpoint = [];
}

init_clients_example :
    (arns_of (test_client_config ∷ []) ≡ (1 ∷ []) ∷ [])
    × All (IsReachable test_resolver) (test_client_config ∷ [])
unfolding init_clients new_route_resolver is_kms_region
init_clients_example =
    init_clients-IsReachable test_outside test_config (codes "http://proxy:1")
      (test_client_config ∷ []) test_host transport_vsock [] test_resolver refl refl refl refl refl

-- A dial that returns after its timeout.
abbrev test_race : List Event
test_race =
    context_done none context_deadline_exceeded
    ∷ dial_returns (record { conn = some 7; error = none })
    ∷ dialer_sends
    ∷ drainer_receives
    ∷ []

abbrev test_timeout : DialResult
unfolding abort_error
test_timeout = record { conn = none; error = some (abort_error none context_deadline_exceeded) }

run_race_example :
    one 7 test_timeout.conn + count 7 (run_race new_race test_race).closed
    ≡ one 7 (dialled test_race)
unfolding run_race
run_race_example = run_race_leaks_nothing test_race 7 test_timeout refl refl (λ e. cc)
