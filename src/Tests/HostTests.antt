-- ===== src/Tests/HostTests.antt =====
-- Runs of the host's theorems: the signer, the start of the enclave, and the proxy.
use arc_remote_signer.Common.{
  Option, ℕ, zero, suc, true, false, [], ◌∷◌, none, some, ◌≡◌, refl, Bytes, length, codes, ◌↔◌,
  ◌++◌, All, is_empty, take, drop, take-append, drop-append, subst, arith, ◌<◌,
}
use arc_remote_signer.GoError.{Err, new, status, unavailable, Result, ok, err}
use arc_remote_signer.Proto.{InitializeResponse, algorithm_bls}
use arc_remote_signer.Signer.{
  SecretsProvider, Gob, Header, KeyState, EnclaveClient, InitializeKeyFunc, initialize_key_state,
  new_key_state, refresh_attestation,
}
use arc_remote_signer.Signer.Validity.{
  Decoders, Certificate, AttestationPayload, validate_at, payload_of, parse_attestation_validity,
}
use arc_remote_signer.Signer.Restart.{GobRoundTrips, ReadsBack, restart_recovers}
use arc_remote_signer.Signer.Attestation.{HasEnd, IsCurrent, attestation_validity_iff}
use arc_remote_signer.Signer.Refresh.{IsRefreshed, refresh-IsRefreshed}
use arc_remote_signer.EnclaveInit.{
  Surroundings, AwsSettings, EnclaveKeySource, is_one_source, initialize_enclave,
}
use arc_remote_signer.EnclaveInit.Attempts.{Succeeds, initialize_enclave_iff}
use arc_remote_signer.Route.{write_aws_route, AwsRoute, aws_route_header, read_aws_route}
use arc_remote_signer.Route.Codec.{IsSendable, read_aws_route_iff, write_aws_route_iff}
use arc_remote_signer.Resolver.{RouteResolver, Inbound, dial, read_route}
use arc_remote_signer.Resolver.Allowed.{IsAllowed, dial-IsAllowed}
use arc_remote_signer.Tests.Data.{test_grpc, test_envelope, test_response, test_replay}

-- Headers as bytes: the algorithm, two lengths, and the fields.
gob_encode : Header → Result Bytes
gob_encode h = ok (
    h.algorithm
    ∷ length h.cipher_key
    ∷ length h.cipher_data
    ∷ (h.cipher_key ++ (h.cipher_data ++ h.nonce)))

gob_decode : Bytes → Result Header
gob_decode (a ∷ m ∷ n ∷ rest) = ok (record {
  algorithm = a;
  cipher_key = take m rest;
  cipher_data = take n (drop m rest);
  nonce = drop n (drop m rest);
})
gob_decode _ = err (new "truncated")

abbrev test_gob : Gob
test_gob = record { encode = gob_encode; decode = gob_decode }

gob-decode_encode : (h : Header) (bytes : Bytes) → gob_encode h ≡ ok bytes → gob_decode bytes ≡ ok h
unfolding gob_encode gob_decode
gob-decode_encode h bytes e =
    subst (λ b. gob_decode b ≡ ok h) (same e)
      (rw
        (
          take-append h.cipher_key (h.cipher_data ++ h.nonce) (length h.cipher_key) refl,
          drop-append h.cipher_key (h.cipher_data ++ h.nonce) (length h.cipher_key) refl,
          take-append h.cipher_data h.nonce (length h.cipher_data) refl,
          drop-append h.cipher_data h.nonce (length h.cipher_data) refl,
        )
        refl)
  where
    same : {a b : Bytes} → ok a ≡ ok b → a ≡ b
    same q = cc

gob-encode_nonempty :
    (h : Header) (bytes : Bytes) → gob_encode h ≡ ok bytes → is_empty bytes ≡ false
unfolding gob_encode
gob-encode_nonempty h [] e = absurd cc
gob-encode_nonempty h (x ∷ xs) e = refl

gob-GobRoundTrips : GobRoundTrips test_gob
gob-GobRoundTrips = record {
  decode_encode = gob-decode_encode;
  encode_nonempty = gob-encode_nonempty;
}

-- A decoder that knows one attestation document, with one certificate.
abbrev pub test_certificate : Certificate
test_certificate = record { not_before = 10; not_after = 50 }

abbrev pub test_payload : AttestationPayload
test_payload = record { certificate = 9 ∷ []; ca_bundle = [] }

abbrev pub test_decoders : Decoders
test_decoders = record {
  raw_tag = λ b. ok (18, b);
  is_type_error = λ e. false;
  raw_messages = λ b. ok (b ∷ b ∷ b ∷ b ∷ []);
  byte_string = λ b. ok b;
  attestation_payload = λ b. ok test_payload;
  parse_certificate = λ b. ok test_certificate;
}

-- A store of one secret.
abbrev test_store : SecretsProvider Bytes
test_store = record { get = λ s. ok s; update = λ s b. (b, ok tt) }

store-ReadsBack : ReadsBack test_store
store-ReadsBack s s' b h = cc

test_initialize : InitializeKeyFunc
test_initialize none algorithm = ok (some test_response)
test_initialize (some env) algorithm = ok (some test_replay)

restart_recovers_example :
    initialize_key_state test_decoders 30 test_store test_gob
      (1 ∷ 2 ∷ 1 ∷ 1 ∷ 2 ∷ 3 ∷ 4 ∷ [])
      1
      test_initialize
    ≡ (1 ∷ 2 ∷ 1 ∷ 1 ∷ 2 ∷ 3 ∷ 4 ∷ [], new_key_state test_decoders 30 test_replay)
unfolding test_initialize gob_encode initialize_key_state
restart_recovers_example =
    restart_recovers test_decoders test_gob test_store 20 30 [] (1 ∷ 2 ∷ 1 ∷ 1 ∷ 2 ∷ 3 ∷ 4 ∷ []) 1
      test_initialize test_initialize test_response test_replay test_envelope
      (record {
        public_key = 7 ∷ 8 ∷ [];
        attestation_document = [];
        attestation_validity = record { not_before = 0; not_after = 0 };
      })
      gob-GobRoundTrips store-ReadsBack refl refl refl refl refl refl

test-HasEnd : (data_ : Bytes) → HasEnd test_decoders data_
test-HasEnd data_ c e = subst (λ t. 0 < t) (same e) (omega arith)
  where
    same : ok test_certificate ≡ ok c → 50 ≡ c.not_after
    same q = cc

attestation_validity_example :
    (validate_at (record { not_before = 10; not_after = 50 }) 20 ≡ ok tt)
    ↔ All (IsCurrent test_decoders 20) ((9 ∷ []) ∷ [])
unfolding payload_of parse_attestation_validity
attestation_validity_example =
    attestation_validity_iff test_decoders 20 (1 ∷ []) test_payload
      (record { not_before = 10; not_after = 50 }) refl (test-HasEnd (9 ∷ []), tt) refl

abbrev pub test_key_state : ℕ → Bytes → KeyState
test_key_state end document = record {
  public_key = 7 ∷ 8 ∷ [];
  attestation_document = document;
  attestation_validity = record { not_before = 10; not_after = end };
}

abbrev pub test_client : EnclaveClient
test_client = record {
  get_public_key = ok (some (record { public_key = 7 ∷ 8 ∷ []; attestation_document = 2 ∷ [] }));
  sign_message = λ m. ok m;
}

refresh_example :
    IsRefreshed test_decoders 20 test_client
      (test_key_state 40 (1 ∷ []))
      (test_key_state 50 (2 ∷ []))
unfolding refresh_attestation
refresh_example =
    refresh-IsRefreshed test_decoders 20 test_client (test_key_state 40 (1 ∷ []))
      (test_key_state 50 (2 ∷ [])) refl

-- The first attempt meets an enclave that is not up yet.
answer_of : ℕ → Result InitializeResponse
answer_of (suc zero) = err (status unavailable "not up")
answer_of _ = ok test_response

abbrev test_surroundings : Surroundings
test_surroundings = record {
  retrieve = λ attempt. ok (record {
    access_key_id = [];
    secret_access_key = [];
    session_token = [];
    region = codes "us-east-1";
  });
  initialize = λ attempt r. answer_of attempt;
  cancelled = λ attempt. none;
}

abbrev test_settings : AwsSettings
test_settings = record { region = codes "us-east-1"; can_invalidate = true }

abbrev test_source : EnclaveKeySource
test_source = record { existing_key = none; generate_new = algorithm_bls }

initialize_enclave_example :
    ((initialize_enclave test_grpc test_surroundings test_settings
        ((1 ∷ []) ∷ [])
        false
        test_source).1
      ≡ ok test_response)
    ↔ Succeeds test_grpc test_surroundings test_settings
        ((1 ∷ []) ∷ [])
        false
        test_source
        test_response
        3
        1
unfolding is_one_source
initialize_enclave_example =
    initialize_enclave_iff test_grpc test_surroundings test_settings ((1 ∷ []) ∷ []) false
      test_source test_response refl refl

abbrev pub test_route : AwsRoute
test_route = record { service = codes "kms"; region = codes "us-east-1" }

read_aws_route_example :
    (read_aws_route (aws_route_header test_route ++ 5 ∷ []) ≡ ok (test_route, 5 ∷ [])) ↔ (
      IsSendable test_route
      × (aws_route_header test_route ++ 5 ∷ [] ≡ aws_route_header test_route ++ 5 ∷ []))
unfolding aws_route_header
read_aws_route_example =
    read_aws_route_iff (aws_route_header test_route ++ 5 ∷ []) test_route (5 ∷ []) (omega arith)

abbrev test_write : Bytes → ℕ × Option Err
test_write header = (length header, none)

write_aws_route_example : (write_aws_route test_write test_route ≡ ok tt) ↔ (
    IsSendable test_route
    × (test_write (aws_route_header test_route) ≡ (length (aws_route_header test_route), none)))
write_aws_route_example = write_aws_route_iff test_write test_route

abbrev test_resolver : RouteResolver
test_resolver = record {
  allowed_regions = codes "us-east-1" ∷ [];
  use_localstack = false;
  tcp_localstack_endpoint = [];
}

abbrev pub test_inbound : Inbound
test_inbound = record {
  stream = aws_route_header test_route;
  set_deadline = none;
  cancelled = none;
  clear_deadline = none;
}

abbrev pub test_dial : Bytes → Result Bytes
test_dial endpoint = ok endpoint

dial_example :
    (route : AwsRoute) × (endpoint : Bytes) × (read_route test_inbound ≡ ok route)
    × (route.service ≡ codes "kms")
    × (codes "kms" ≡ codes "kms")
    × IsAllowed test_resolver route endpoint
    × (test_dial endpoint ≡ ok (codes "kms.us-east-1.amazonaws.com:443"))
unfolding dial aws_route_header
dial_example =
    dial-IsAllowed test_dial test_resolver (codes "kms") test_inbound
      (codes "kms.us-east-1.amazonaws.com:443") refl
