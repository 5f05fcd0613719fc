-- ===== src/Nitro/Sessions.antt =====
-- About `requestAttestation`, `Attest` and `AttestKMSRecipient` of
-- internal/enclave/provider/enclave/enclave.go.
use arc_remote_signer.Common.{
  List, [], ◌∷◌, some, ◌≡◌, ◌↔◌, ap, ◌∙◌, inl, inr, refl, false, is_empty, Bytes, arith,
}
use arc_remote_signer.GoError.{Result, ok, err, Result-cases}
use arc_remote_signer.Nitro.{
  Request, Response, Session, Call, opens, sends, closes, document_of, request_attestation,
}

-- The calls that a request has to make, by whether its session opens.
abbrev pub IsBracketed : Result Session → Request → List Call → Type 0
IsBracketed (ok session) req calls = calls ≡ opens ∷ sends req ∷ closes ∷ []
IsBracketed (err e) req calls = calls ≡ opens ∷ []

-- The module answered the request, without an error, with this document.
pub record IsAnswered (opened : Result Session) (req : Request) (document : Bytes) : Type 0 where
  pub session : Session
  pub is_open : opened ≡ ok session
  pub response : Response
  pub answer : session req ≡ ok response
  pub no_error : response.error ≡ []
  pub given : response.document ≡ some document
  pub filled : is_empty document ≡ false

document_of-Is :
    (session : Session) (req : Request) (document : Bytes)
    → document_of (session req) ≡ ok document
    → IsAnswered (ok session) req document
unfolding document_of
document_of-Is session req document h = elim (Result-cases (session req)) [
  | inr (e, p) ↦ absurd (ground arith)
  | inl (response, p) ↦ record {
    session = session;
    is_open = refl;
    response = response;
    answer = p;
    no_error = ground arith;
    given = ground arith;
    filled = ground arith;
  }
]

-- A request for attestation returns a document exactly when a session opened and the module
-- answered the request on it with that document, not empty and with no error text; and a session
-- that opened is sent that one request and closed once, behind it, whatever the answer.
pub request_attestation_iff :
    (opened : Result Session) (req : Request) (document : Bytes)
    → (((request_attestation opened req).0 ≡ ok document) ↔ IsAnswered opened req document)
      × IsBracketed opened req (request_attestation opened req).1
unfolding request_attestation document_of
request_attestation_iff (err e) req document =
    ((λ h. absurd cc, λ a. absurd (let q = a.is_open in cc)), refl)
request_attestation_iff (ok session) req document = (
  (
    document_of-Is session req document,
    λ a.
        let same : session ≡ a.session = let q = a.is_open in cc in
        let answered : session req ≡ ok a.response = ap (λ (f : Session). f req) same ∙ a.answer in
        ground (arith, a.no_error, a.given, a.filled),
  ),
  refl,
)
