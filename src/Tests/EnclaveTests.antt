-- ===== src/Tests/EnclaveTests.antt =====
-- Runs of the enclave's theorems: the gate, the key lifecycle, KMS failover and the recipient's
-- envelope.
use mathlib.Core.List.{Memᴰ}
use arc_remote_signer.Common.{
  ℕ, true, false, List, [], ◌∷◌, none, some, ◌≡◌, refl, Bytes, length, ◌↔◌, ◌++◌, ◌+◌, ◌≤◌,
  replicate, arith, ◌⊎◌, ap, sym, subst, ◌∙◌, ◌==◌, if◌then◌else◌,
}
use arc_remote_signer.GoError.{Err, new, wrap, Result, ok, err, NoFault}
use arc_remote_signer.Proto.{algorithm_bls, generate_new}
use arc_remote_signer.Fingerprint.{hashed_fields, fingerprint_key_source}
use arc_remote_signer.Fingerprint.Identity.{fingerprint_key_source_injective, NoCollision}
use arc_remote_signer.Gate.{
  ReadyState, Caller, Answer, Event, arrive, join, begin_run, finish, response_for_fingerprint,
  new_init_gate, run,
}
use arc_remote_signer.Gate.Agreement.{gate_agreement, gate_publishes_once}
use arc_remote_signer.Envelope.{
  KmsProvider, Environment, open_data_key, Generated, load_key_candidate,
  generate_envelope_candidate,
}
use arc_remote_signer.Envelope.Recovery.{IsRecoverable, load-generate}
use arc_remote_signer.Ber.{ber_to_der, max_ber_size, append_der_length, read_ber_length}
use arc_remote_signer.Ber.Safety.{ber_to_der-total}
use arc_remote_signer.Ber.Lengths.{read_ber_length-append_der_length}
use arc_remote_signer.Pkcs7.{unpad_pkcs7}
use arc_remote_signer.Pkcs7.Padding.{Padded, unpad_pkcs7_iff}
use arc_remote_signer.Kms.Client.{Client, call}
use arc_remote_signer.Kms.Failover.{fails, none_left, call_first_success, call_all_fail, IsReported}
use arc_remote_signer.Tests.Data.{test_grpc, test_hash, test_response, test_state}

abbrev caller : ℕ → Caller
caller n = record { id = n; fingerprint = 1 ∷ [] }

-- Two callers arrive, wait for one run, and get its answer.
abbrev test_events : List (Event ℕ)
test_events =
    arrive (caller 1)
    ∷ arrive (caller 2)
    ∷ join 1
    ∷ join 2
    ∷ begin_run
    ∷ finish (ok (some test_state))
    ∷ []

abbrev test_answer : ℕ → Answer
test_answer n = record { caller = caller n; result = ok test_response }

gate_agreement_example :
    (test_response.public_key ≡ test_response.public_key)
    × (test_response.attestation_document ≡ test_response.attestation_document)
unfolding run fingerprint_key_source response_for_fingerprint
gate_agreement_example =
    gate_agreement ℕ test_grpc test_hash test_events (test_answer 1) (test_answer 2) test_response
      test_response (Memᴰ.tail (Memᴰ.head refl)) (Memᴰ.head refl) refl refl

-- What the run of the test's events publishes.
abbrev published : ReadyState ℕ
published = record test_state {
  fingerprint = 1 ∷ [];
  generated_envelope_fingerprint = replicate 32 0;
  has_generated_envelope_fingerprint = true;
}

gate_publishes_once_example :
    ((run test_grpc test_hash (new_init_gate ℕ) (test_events ++ test_events)).ready
      ≡ some published)
    × ((run test_grpc test_hash (new_init_gate ℕ) (test_events ++ test_events)).publications ≡ 1)
unfolding run fingerprint_key_source
gate_publishes_once_example =
    gate_publishes_once test_grpc test_hash test_events test_events published refl

abbrev pub test_data_key : Bytes
test_data_key = replicate 32 6

abbrev pub test_kms : KmsProvider
test_kms = record {
  decrypt = λ b. ok (test_data_key, []);
  generate_data_key = ok (test_data_key, 9 ∷ [], []);
}

abbrev pub read_key : Bytes → Result ℕ
read_key (k ∷ []) = ok k
read_key _ = err (new "bad key")

abbrev pub test_environment : Environment ℕ
test_environment = record {
  grpc = test_grpc;
  nitro_enclave_enabled = false;
  enclave_pvd = none;
  crypto = record {
    public_key = λ k. ok (k ∷ []);
    sign_message = λ k m. ok m;
    serialize = λ k. ok (k ∷ []);
    new_secret_key = λ alg. ok 5;
    deserialize_secret_key = λ alg b. read_key b;
  };
  gcm = record { encrypt = λ k m. ok (m, 0 ∷ []); decrypt = λ k c n. ok c };
}

ok_injective : {a b : Bytes} → ok a ≡ ok b → a ≡ b
ok_injective e = cc

pub test-IsRecoverable : IsRecoverable test_environment test_kms
unfolding open_data_key
test-IsRecoverable = record {
  kms_returns = λ plain encrypted sealed opened failure e h. (test_data_key, [], refl, cc);
  gcm_opens = λ key plain cipher nonce e. cc;
  key_returns =
      λ alg k bytes public e f h. (k, subst (λ b. read_key b ≡ ok k) (ok_injective f) refl, h);
}

abbrev pub test_generated : Generated test_environment
test_generated = record {
  envelope = record {
    algorithm = algorithm_bls;
    kms_encrypted_data_key = 9 ∷ [];
    encrypted_private_key = 5 ∷ [];
    nonce = 0 ∷ [];
  };
  key = 5;
  public_key = 5 ∷ [];
}

load-generate_example :
    (k : ℕ) × (load_key_candidate test_environment (some test_kms) test_generated.envelope ≡ ok k)
    × (test_environment.crypto.public_key k ≡ ok test_generated.public_key)
unfolding generate_envelope_candidate
load-generate_example =
    load-generate test_environment test_kms algorithm_bls test_generated test-IsRecoverable refl

test-NoCollision : NoCollision test_grpc test_hash (generate_new 1) (generate_new 1)
test-NoCollision ps pt p q h = ap hashed_fields (same (sym p ∙ q))
  where
    same : {a b : List Bytes} → ok a ≡ ok b → a ≡ b
    same e = cc

test_hash-size : (x : Bytes) → length (test_hash x) ≡ 32
test_hash-size [] = refl
test_hash-size (x ∷ xs) = refl

fingerprint_example : generate_new 1 ≡ generate_new 1
unfolding fingerprint_key_source
fingerprint_example =
    fingerprint_key_source_injective test_grpc test_hash (generate_new 1) (generate_new 1)
      (replicate 32 0) test_hash-size test-NoCollision tt tt refl refl

-- A sequence of indefinite length that holds an integer.
abbrev test_ber : Bytes
test_ber = 0x30 ∷ 0x80 ∷ 0x02 ∷ 0x01 ∷ 0x05 ∷ 0x00 ∷ 0x00 ∷ []

ber_to_der-total_example :
    ((der : Bytes) × (ber_to_der test_ber ≡ ok der) × (length der ≤ max_ber_size + 13))
    ⊎ ((e : Err) × (ber_to_der test_ber ≡ err e) × NoFault e)
ber_to_der-total_example = ber_to_der-total test_ber

read_ber_length_example :
    read_ber_length ((0x04 ∷ []) ++ (append_der_length [] 300 ++ (7 ∷ []))) 1
    ≡ ok (record { length = 300; indefinite = false; next = 1 + length (append_der_length [] 300) })
read_ber_length_example = read_ber_length-append_der_length (0x04 ∷ []) (7 ∷ []) 300 (omega arith)

abbrev test_padded : Bytes
test_padded = (1 ∷ 2 ∷ 3 ∷ 4 ∷ []) ++ replicate 4 4

unpad_pkcs7_example :
    (unpad_pkcs7 test_padded 8 ≡ ok (1 ∷ 2 ∷ 3 ∷ 4 ∷ []))
    ↔ Padded test_padded 8 (1 ∷ 2 ∷ 3 ∷ 4 ∷ [])
unpad_pkcs7_example =
    unpad_pkcs7_iff test_padded (1 ∷ 2 ∷ 3 ∷ 4 ∷ []) 8 (omega arith) (omega arith) refl

abbrev client : ℕ → Client
client n = record { id = n; arn = n ∷ [] }

-- Client 1 is down, and client 2 answers.
ask_client : Client → Result ℕ
ask_client c = if c.id == 1 then err (new "down") else ok c.id

call_first_success_example :
    call test_grpc ask_client ((client 1 ∷ []) ++ (client 2 ∷ client 3 ∷ []))
    ≡ ((client 2 ∷ client 3 ∷ []) ++ (client 1 ∷ []), ok 2)
unfolding ask_client
call_first_success_example =
    call_first_success test_grpc ask_client (client 2) (client 3 ∷ []) 2 (fails refl none_left) refl

call_all_fail_example :
    (x : Err) × IsReported test_grpc ask_client (new "down" ∷ []) x
    × (call test_grpc ask_client (client 1 ∷ [])
        ≡ (client 1 ∷ [], err (wrap "all multi-region keys are invalid, error: " x)))
unfolding ask_client
call_all_fail_example = call_all_fail test_grpc ask_client (fails refl none_left)
