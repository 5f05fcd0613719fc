-- ===== src/Kms/Errors.antt =====
-- internal/enclave/provider/awskms/kmserror.go: from AWS errors to gRPC status errors. `none` is the
-- answer that returns its argument; a status error made here is never the argument itself.
use arc_remote_signer.Common.{Bool, true, false, ◌||◌, Option, none, some, String, if◌then◌else◌}
use arc_remote_signer.GoError.{
  Code, invalid_argument, permission_denied, unavailable, unauthenticated, Err, status, errors_is,
  has_invalid_ciphertext, has_limit_exceeded, has_net_error, as_api_code, Grpc, error_text,
}
use text.Mathlib.Text.{◌==◌}

-- The switch over `apiErr.ErrorCode()`.
unfoldable pub api_code_status : String → Option Code
api_code_status code =
    if code == "AccessDeniedException"
    then some permission_denied
    else if code == "ExpiredTokenException"
        || code == "InvalidClientTokenId"
        || code == "UnrecognizedClientException"
    then some unauthenticated
    else if code == "ThrottlingException" || code == "RequestLimitExceeded"
    then some unavailable
    else none

abbrev or_else {ℓ} : {A : Type ℓ} → Option A → Option A → Option A
or_else none b = b
or_else (some a) b = some a

abbrev bind_code : Option String → Option Code
bind_code none = none
bind_code (some c) = api_code_status c

-- The code that `StatusFromError` gives, if it makes a status error.
unfoldable pub status_code_of : Err → Option Code
unfolding api_code_status
status_code_of e =
    if errors_is has_invalid_ciphertext e
    then some invalid_argument
    else if errors_is has_limit_exceeded e
    then some unavailable
    else or_else (bind_code (as_api_code e))
        (if errors_is has_net_error e then some unavailable else none)

module _ (g : Grpc) where
  unfoldable pub with_text : Err → Option Code → Option Err
  with_text e none = none
  with_text e (some c) = some (status c (error_text g e))

  unfoldable pub status_from_error : Err → Option Err
  unfolding status_code_of with_text
  status_from_error e = with_text e (status_code_of e)

  is_unauthenticated : Code → Bool
  is_unauthenticated unauthenticated = true
  is_unauthenticated _ = false

  auth_of : Err → Option Err → Option Err
  unfolding is_unauthenticated
  auth_of e none = none
  auth_of e (some mapped) = if is_unauthenticated (g.code mapped) then some e else none

  unfoldable pub credential_auth_error : Err → Option Err
  unfolding status_from_error auth_of
  credential_auth_error e = auth_of e (status_from_error e)
