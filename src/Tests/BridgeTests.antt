-- ===== src/Tests/BridgeTests.antt =====
-- Runs of the host's proxy from its construction to a bridged connection, and of the enclave's proxy
-- beside it.
use mathlib.Core.List.{Memᴰ}
use arc_remote_signer.Common.{false, ◌≡◌, ℕ, ◌+◌, [], ◌∷◌, ◌++◌, some, List, refl, Bytes, codes}
use arc_remote_signer.Common.Int.{pos}
use arc_remote_signer.GoError.{Result, ok}
use arc_remote_signer.Kms.Regions.{Arn}
use arc_remote_signer.Route.{aws_route_header}
use arc_remote_signer.Resolver.{Inbound, dial}
use arc_remote_signer.Proxy.Binding.{ServiceListener, BoundProxy}
use arc_remote_signer.HostProxy.{
  proxy_name, HostConfig, Transports, ProxyOption, with_vsock_transport, binding, new_host_proxy,
}
use arc_remote_signer.HostProxy.Allowed.{IsBridged, new_host_proxy-IsBridged}
use arc_remote_signer.EnclaveProxy
use arc_remote_signer.EnclaveProxy.Meeting.{IsConnected, new_enclave_proxy-IsConnected}
use arc_remote_signer.Tests.HostTests.{test_inbound, test_dial}
use arc_remote_signer.Tests.RouteTests.{test_arn, test_host, test_resolver}

abbrev test_listen : ℕ → Result ℕ
test_listen port = ok port

abbrev test_transports : Transports ℕ Bytes
test_transports = record {
  vsock_listen = test_listen;
  vsock_dial = test_dial;
  tcp_listen = test_listen;
  tcp_dial = test_dial;
}

abbrev test_parse : Bytes → Result Arn
test_parse b = ok test_arn

abbrev test_host_config : HostConfig
test_host_config = record { base_port = 8000; max_conns = pos 5; resolver = test_host }

abbrev test_listener : ServiceListener ℕ (Inbound → Result Bytes)
test_listener = record {
  service = record {
    name = codes "kms";
    endpoint = codes "kms" ++ codes " (region resolved per connection)";
    listen = some (ok 8000);
    dial = some (dial test_dial test_resolver (codes "kms"));
  };
  ln = 8000;
  capacity = 5;
}

abbrev test_proxy : BoundProxy ℕ (Inbound → Result Bytes)
test_proxy = record { name = proxy_name; listeners = test_listener ∷ [] }

abbrev test_options : List (ProxyOption ℕ Bytes)
test_options = with_vsock_transport ∷ []

new_host_proxy_example :
    IsBridged test_transports test_parse test_host_config test_options test_inbound
      (codes "kms.us-east-1.amazonaws.com:443")
unfolding new_host_proxy binding dial aws_route_header
new_host_proxy_example =
    new_host_proxy-IsBridged test_transports test_parse test_host_config test_options test_proxy
      test_listener (dial test_dial test_resolver (codes "kms")) test_inbound
      (codes "kms.us-east-1.amazonaws.com:443") refl (Memᴰ.head refl) refl refl

abbrev enclave_transports : EnclaveProxy.Transports ℕ ℕ
enclave_transports = record {
  vsock_listen = test_listen;
  vsock_dial = λ port. ok port;
  tcp_listen = test_listen;
  tcp_dial = λ host port. ok (port + 1);
  decimal = λ n. n ∷ [];
}

abbrev enclave_config : EnclaveProxy.Config
enclave_config = record { base_port = 8000; max_conns = pos 2 }

abbrev tcp_host_transports : Transports ℕ Bytes
tcp_host_transports = record test_transports { vsock_listen = λ port. ok (port + 1) }

abbrev enclave_listener : ServiceListener ℕ (Result ℕ)
enclave_listener = record {
  service = record {
    name = codes "kms";
    endpoint = codes "tcp vsockproxy:" ++ (8000 ∷ []);
    listen = some (ok 8000);
    dial = some (ok 8001);
  };
  ln = 8000;
  capacity = 2;
}

abbrev enclave_proxy : BoundProxy ℕ (Result ℕ)
enclave_proxy = record { name = EnclaveProxy.proxy_name; listeners = enclave_listener ∷ [] }

new_enclave_proxy_example :
    (codes "kms" ≡ codes "kms")
    × ((port : ℕ) × IsConnected enclave_transports tcp_host_transports false
          enclave_listener.service test_listener.service port)
unfolding EnclaveProxy.new_enclave_proxy new_host_proxy binding dial
new_enclave_proxy_example =
    new_enclave_proxy-IsConnected enclave_transports tcp_host_transports false test_parse
      enclave_config test_host_config enclave_proxy test_proxy enclave_listener test_listener refl
      refl refl (Memᴰ.head refl) (Memᴰ.head refl)
