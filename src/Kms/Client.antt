-- ===== src/Kms/Client.antt =====
-- internal/enclave/provider/awskms/awskms.go: the provider, its list of clients and the failover
-- between them. A client is a pointer, so it is compared by its identity. What KMS answers is the
-- argument `ask`; a call takes its copy of the list before the first request.
use arc_remote_signer.Common.{
  ℕ, List, [], ◌∷◌, ◌++◌, Option, none, some, ◌==◌, if◌then◌else◌, Bytes, is_empty,
}
use arc_remote_signer.GoError.{
  Err, new, wrap, sentinel, attestation_document_required, Grpc, Result, ok, err, ◌>>◌, fail_if,
}
use arc_remote_signer.Kms.Errors.{credential_auth_error}

pub record Client : Type 0 where
  pub id : ℕ
  pub arn : Bytes

-- `recipient` is the attestation document that each request carries in Nitro mode.
pub record Provider : Type 0 where
  pub clients : List Client
  pub recipient : Option Bytes

unfoldable pub new_with_attestation : List Client → Bytes → Result Provider
new_with_attestation clients document = do
  fail_if (is_empty document) (sentinel attestation_document_required)
  ok (record { clients = clients; recipient = some document })

unfoldable pub new_for_development : List Client → Result Provider
new_for_development clients = ok (record { clients = clients; recipient = none })

-- The list with the first client of that identity removed, and whether there was one.
remove_client : List Client → ℕ → Option (List Client)
remove_client [] id = none
remove_client (c ∷ cs) id =
    let rest = remove_client cs id in
    if c.id == id then some cs else elim rest [ none ↦ none | some r ↦ some (c ∷ r) ]

unfoldable pub move_client_to_back : Client → List Client → List Client
unfolding remove_client
move_client_to_back c clients = elim (remove_client clients c.id) [
  | none ↦ clients
  | some rest ↦ rest ++ c ∷ []
]

-- The error of a call that no client answered.
unfoldable pub call_error : Option Err → Option Err → Err
call_error (some e) last = wrap "all multi-region keys are invalid, error: " e
call_error none (some e) = wrap "all multi-region keys are invalid, error: " e
call_error none none = new "all multi-region keys are invalid, error: "

-- `if authErr == nil { authErr = credentialAuthError(err) }`
unfoldable pub keep_first : Option Err → Option Err → Option Err
keep_first none e = e
keep_first (some e) _ = some e

module _ {A : Type 0} (g : Grpc) (ask : Client → Result A) where
  -- The loop over the copy; the provider's own list is the second argument and the first result.
  unfoldable pub call_loop :
      List Client → List Client → Option Err → Option Err → List Client × Result A
  unfolding move_client_to_back call_error keep_first
  call_loop [] clients auth last = (clients, err (call_error auth last))
  call_loop (c ∷ cs) clients auth last = elim (ask c) [
    | ok a ↦ (clients, ok a)
    | err e ↦
        call_loop cs (move_client_to_back c clients) (keep_first auth (credential_auth_error g e))
          (some e)
  ]

  unfoldable pub call : List Client → List Client × Result A
  unfolding call_loop
  call clients = call_loop clients clients none none

-- What KMS answers a client's request, with the recipient that it carries.
pub record Kms : Type 0 where
  pub decrypt : Client → Option Bytes → Bytes → Result (Bytes × Bytes)
  pub generate_data_key : Client → Option Bytes → Result (Bytes × Bytes × Bytes)

module _ (g : Grpc) (kms : Kms) where
  unfoldable pub decrypt : Provider → Bytes → Provider × Result (Bytes × Bytes)
  unfolding call
  decrypt p ciphertext =
      if is_empty ciphertext
      then (p, err (new "invalid ciphertext"))
      else let (clients, answer) = call g (λ c. kms.decrypt c p.recipient ciphertext) p.clients in
        (record p { clients = clients }, answer)

  unfoldable pub generate_data_key : Provider → Provider × Result (Bytes × Bytes × Bytes)
  unfolding call
  generate_data_key p =
      let (clients, answer) = call g (λ c. kms.generate_data_key c p.recipient) p.clients in
      (record p { clients = clients }, answer)
