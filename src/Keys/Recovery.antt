-- ===== src/Keys/Recovery.antt =====
-- About the key lifecycle of internal/enclave/service/enclave/envelope.go with the program's own key
-- types and AES-GCM.
use arc_remote_signer.Common.{Option, some, ◌≡◌, Bool}
use arc_remote_signer.GoError.{Grpc, ok}
use arc_remote_signer.Proto.{Algorithm}
use arc_remote_signer.Envelope.{
  KmsProvider, EnclaveProvider, Generated, generate_envelope_candidate, load_key_candidate,
}
use arc_remote_signer.Envelope.Recovery.{ReturnsDataKeys, kms_returns_of, load-generate}
use arc_remote_signer.Keys.{Key, Libraries, real_environment}
use arc_remote_signer.Keys.RoundTrip.{IsLibraries, real_environment-IsRecoverable}

-- With the program's key types and AES-GCM, over libraries that keep what they document, and a KMS
-- and a security module that return the data keys they were asked for: whenever an envelope is
-- generated, in Nitro mode or not and for either algorithm, loading it succeeds with a key of the
-- public key that was returned beside it.
pub load_key_candidate-generate_envelope_candidate :
    {SecretKey : Type 0} (lib : Libraries SecretKey) (law : IsLibraries lib) (grpc : Grpc)
    (nitro : Bool) (enclave_pvd : Option EnclaveProvider) (pvd : KmsProvider)
    (algorithm : Algorithm) (made : Generated (real_environment lib grpc nitro enclave_pvd))
    → ReturnsDataKeys (real_environment lib grpc nitro enclave_pvd) pvd
    → generate_envelope_candidate (real_environment lib grpc nitro enclave_pvd) (some pvd) algorithm
      ≡ ok made
    → (k : Key SecretKey) × (load_key_candidate
          (real_environment lib grpc nitro enclave_pvd)
          (some pvd)
          made.envelope
        ≡ ok k)
      × ((real_environment lib grpc nitro enclave_pvd).crypto.public_key k ≡ ok made.public_key)
load_key_candidate-generate_envelope_candidate lib law grpc nitro enclave_pvd pvd algorithm made kms
      h =
    let env = real_environment lib grpc nitro enclave_pvd in
    load-generate env pvd algorithm made
      (real_environment-IsRecoverable lib law grpc nitro enclave_pvd pvd
        (kms_returns_of env pvd kms))
      h
