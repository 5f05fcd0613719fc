-- ===== src/Nitro.antt =====
-- internal/enclave/provider/enclave/enclave.go: the provider of attestation documents. A session
-- with the Nitro security module is what it answers to a request; opening one, and the encoding of
-- the public key, are parameters. The calls that a request makes are recorded in their order.
pub mod Sessions
use arc_remote_signer.Common.{
  Bool, not, List, [], ◌∷◌, Option, none, some, if◌then◌else◌, Bytes, is_empty,
}
use arc_remote_signer.GoError.{Err, new, wrap, Result, ok, err, ◌>>=◌, ◌>>◌, fail_if, map_err}
use arc_remote_signer.Cms.{Asn1, Ciphers, decrypt}
use arc_remote_signer.Envelope.{EnclaveProvider}

-- `request.Attestation`, the fields that the code sets.
pub record Request : Type 0 where
  pub public_key : Bytes
  pub user_data : Bytes

-- `response.Response`, with the document of its `Attestation`, or none for a nil pointer.
pub record Response : Type 0 where
  pub error : Bytes
  pub document : Option Bytes

abbrev pub Session : Type 0
Session = Request → Result Response

pub data Call : Type 0 where
  opens : Call
  sends : Request → Call
  closes : Call

-- `requestAttestation` behind `openSession`.
unfoldable pub document_of : Result Response → Result Bytes
document_of sent = do
  response ← map_err (wrap "request NSM attestation: ") sent
  fail_if (not (is_empty response.error)) (new "request NSM attestation: ")
  elim response.document [
    | none ↦ err (new "NSM response missing attestation document")
    | some document ↦
        if is_empty document
        then err (new "NSM response missing attestation document")
        else ok document
  ]

-- `requestAttestation`; `Close` is deferred, and its error is dropped.
unfoldable pub request_attestation : Result Session → Request → Result Bytes × List Call
unfolding document_of
request_attestation (err e) req = (err (wrap "open NSM session: " e), opens ∷ [])
request_attestation (ok session) req = (document_of (session req), opens ∷ sends req ∷ closes ∷ [])

-- `provider`; `open_session` gives the session that the next call opens.
pub record Provider (PrivateKey : Type 0) : Type 0 where
  pub private_key : Option PrivateKey
  pub public_key : Bytes
  pub open_session : Result Session

module _ {PrivateKey : Type 0} where
  -- `newProvider`, with `x509.MarshalPKIXPublicKey` of a private key's public half.
  unfoldable pub new_provider :
      (PrivateKey → Result Bytes)
      → Result Session
      → Option PrivateKey
      → Result (Provider PrivateKey)
  new_provider marshal open_session none = err (new "attestation private key is nil")
  new_provider marshal open_session (some key) = do
    public_key ← map_err (wrap "marshal attestation public key: ") (marshal key)
    ok (record { private_key = some key; public_key = public_key; open_session = open_session })

  unfoldable pub decrypt_kms_enveloped_key :
      Asn1 → Ciphers PrivateKey → Provider PrivateKey → Bytes → Result Bytes
  unfolding decrypt
  decrypt_kms_enveloped_key asn1 ciphers n ciphertext =
      decrypt asn1 ciphers n.private_key ciphertext

  unfoldable pub attest_kms_recipient : Provider PrivateKey → Result Bytes × List Call
  unfolding request_attestation
  attest_kms_recipient n =
      request_attestation n.open_session (record { public_key = n.public_key; user_data = [] })

  unfoldable pub attest : Provider PrivateKey → Bytes → Result Bytes × List Call
  unfolding request_attestation
  attest n user_data =
      request_attestation n.open_session (record { public_key = []; user_data = user_data })

  -- The provider as the service sees it.
  abbrev pub enclave_provider : Asn1 → Ciphers PrivateKey → Provider PrivateKey → EnclaveProvider
  unfolding decrypt_kms_enveloped_key attest_kms_recipient attest
  enclave_provider asn1 ciphers n = record {
    decrypt_kms_enveloped_key = decrypt_kms_enveloped_key asn1 ciphers n;
    attest_kms_recipient = (attest_kms_recipient n).0;
    attest = λ user_data. (attest n user_data).0;
  }
