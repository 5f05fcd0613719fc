-- ===== src/GoError.antt =====
-- Go errors as values: what the packages of the repository build with `errors.New`, `fmt.Errorf`,
-- `status.Error` and the sentinel variables, and how `errors.Is` and `errors.As` walk them.
-- A text holds the constant part of its format; formatted arguments other than errors are left out.
-- gRPC's own treatment of its status errors is the parameter `Grpc`.
use arc_remote_signer.Common.{
  Bool, true, false, ◌||◌, Option, none, some, String, ℕ, Bytes, ◌&&◌, get_elem?, slice, length,
  leb, if◌then◌else◌, ◌<◌, ◌≤◌, arith, [], ◌∷◌, zero, suc, ◌≡◌, refl, ◌⊎◌, inl, inr,
}
use Prim.Native.String.{◌++◌}

-- google.golang.org/grpc/codes, those that the repository names.
pub data Code : Type 0 where
  canceled invalid_argument deadline_exceeded permission_denied : Code
  failed_precondition internal unavailable unauthenticated unknown : Code

-- The sentinel error variables of the repository's packages.
pub data Sentinel : Type 0 where
  invalid_arn invalid_region attestation_document_required : Sentinel
  decrypt_failed invalid_algorithm invalid_nonce_length short_write : Sentinel

abbrev pub sentinel_text : Sentinel → String
sentinel_text invalid_arn = "invalid kms key arn"
sentinel_text invalid_region = "invalid AWS region"
sentinel_text attestation_document_required = "attestation document is required in Nitro mode"
sentinel_text decrypt_failed = "decrypt KMS recipient ciphertext"
sentinel_text invalid_algorithm = "invalid algorithm"
sentinel_text invalid_nonce_length = "invalid nonce length"
sentinel_text short_write = "short write"

-- An error of code outside the repository, by what `errors.As` finds in it.
pub record Foreign : Type 0 where
  pub message : String
  pub invalid_ciphertext : Bool
  pub limit_exceeded : Bool
  pub api_code : Option String
  pub net_error : Bool

-- Outcomes that are no error value: a slice or an index out of range and an argument that a library
-- does not take, which panic, and a loop of the model that ran out of fuel.
pub data Fault : Type 0 where
  out_of_range bad_argument out_of_fuel : Fault

-- `new` is `errors.New` or a `fmt.Errorf` with no `%w`; `wrap` has one `%w`, at the end of its
-- format, and `wrap_two` two of them. The two errors of package context are constructors.
pub data Err : Type 0 where
  new : String → Err
  sentinel : Sentinel → Err
  status : Code → String → Err
  context_canceled : Err
  context_deadline_exceeded : Err
  foreign : Foreign → Err
  wrap : String → Err → Err
  wrap_two : String → Err → Err → Err
  fault : Fault → Err

-- `errors.Is`: whether an error of the tree is the target.
unfoldable pub errors_is : (Err → Bool) → Err → Bool
errors_is target (wrap m e) = errors_is target e
errors_is target (wrap_two m e f) = errors_is target e || errors_is target f
errors_is target e = target e

abbrev pub is_context_canceled : Err → Bool
is_context_canceled context_canceled = true
is_context_canceled _ = false

abbrev pub is_context_deadline_exceeded : Err → Bool
is_context_deadline_exceeded context_deadline_exceeded = true
is_context_deadline_exceeded _ = false

abbrev pub is_arn_sentinel : Err → Bool
is_arn_sentinel (sentinel invalid_arn) = true
is_arn_sentinel _ = false

abbrev pub is_region_sentinel : Err → Bool
is_region_sentinel (sentinel invalid_region) = true
is_region_sentinel _ = false

-- `errors.As` with a target type that only foreign errors have. The deadline error of package
-- context is a `net.Error` too.
abbrev pub has_invalid_ciphertext : Err → Bool
has_invalid_ciphertext (foreign f) = f.invalid_ciphertext
has_invalid_ciphertext _ = false

abbrev pub has_limit_exceeded : Err → Bool
has_limit_exceeded (foreign f) = f.limit_exceeded
has_limit_exceeded _ = false

abbrev pub has_net_error : Err → Bool
has_net_error (foreign f) = f.net_error
has_net_error context_deadline_exceeded = true
has_net_error _ = false

abbrev first_code : Option String → Option String → Option String
first_code none o = o
first_code (some c) o = some c

-- `errors.As(err, &apiErr)`: the code of the first API error, depth first.
unfoldable pub as_api_code : Err → Option String
as_api_code (foreign f) = f.api_code
as_api_code (wrap m e) = as_api_code e
as_api_code (wrap_two m e f) = first_code (as_api_code e) (as_api_code f)
as_api_code _ = none

-- What the repository uses of google.golang.org/grpc/status on errors: the text of a status error,
-- `status.Code`, `status.Convert(err).Message()`, and the second result of `status.FromError`.
pub record Grpc : Type 0 where
  pub status_text : Code → String → String
  pub code : Err → Code
  pub message : Err → String
  pub is_status : Err → Bool

-- The package's documentation: a status error carries its code and message.
pub record IsGrpc (g : Grpc) : Type 0 where
  pub code-status : (c : Code) (m : String) → g.code (status c m) ≡ c
  pub message-status : (c : Code) (m : String) → g.message (status c m) ≡ m
  pub is_status-status : (c : Code) (m : String) → g.is_status (status c m) ≡ true

-- `err.Error()`.
unfoldable pub error_text : Grpc → Err → String
error_text g (new m) = m
error_text g (sentinel s) = sentinel_text s
error_text g (status c m) = g.status_text c m
error_text g context_canceled = "context canceled"
error_text g context_deadline_exceeded = "context deadline exceeded"
error_text g (foreign f) = f.message
error_text g (fault f) = ""
error_text g (wrap m e) = m ++ error_text g e
error_text g (wrap_two m e f) = m ++ error_text g e ++ ": " ++ error_text g f

-- The two results of a Go function that returns a value or an error.
pub data Result {ℓ} (A : Type ℓ) : Type ℓ where
  ok : A → Result A
  err : Err → Result A

-- `if err != nil { return err }` behind each call.
infixl 5 ◌>>=◌ ◌>>◌
abbrev pub ◌>>=◌ {ℓ κ} : {A : Type ℓ} {B : Type κ} → Result A → (A → Result B) → Result B
err failure >>= next = err failure
ok value >>= next = next value

abbrev pub ◌>>◌ {ℓ} : {B : Type ℓ} → Result (Unit {0}) → Result B → Result B
first >> next = first >>= λ _. next

-- `if test { return err }`.
abbrev pub fail_if : Bool → Err → Result (Unit {0})
fail_if true e = err e
fail_if false e = ok tt

-- `if err != nil { return f(err) }`.
abbrev pub map_err {ℓ} : {A : Type ℓ} → (Err → Err) → Result A → Result A
map_err f (ok a) = ok a
map_err f (err e) = err (f e)

-- A chain of binds that succeeds: what follows has each value as a variable.
pub bind_ok {ℓ κ μ} :
    {A : Type ℓ} {B : Type κ} {C : Type μ} (m : Result A) (f : A → Result B) {b : B}
    → (m >>= f) ≡ ok b
    → ((a : A) → m ≡ ok a → f a ≡ ok b → C)
    → C
bind_ok (ok a) f h k = k a refl h
bind_ok (err e) f h k = absurd cc

pub map_err_ok {ℓ κ μ} :
    {A : Type ℓ} {B : Type κ} {C : Type μ} (g : Err → Err) (m : Result A) (f : A → Result B) {b : B}
    → (map_err g m >>= f) ≡ ok b
    → ((a : A) → m ≡ ok a → f a ≡ ok b → C)
    → C
map_err_ok g (ok a) f h k = k a refl h
map_err_ok g (err e) f h k = absurd cc

pub map_err-eq-ok {ℓ} :
    {A : Type ℓ} (f : Err → Err) (m : Result A) {a : A} → map_err f m ≡ ok a → m ≡ ok a
map_err-eq-ok f (ok a) h = h
map_err-eq-ok f (err e) h = cc

pub Result-cases {ℓ} :
    {A : Type ℓ} (r : Result A) → ((a : A) × (r ≡ ok a)) ⊎ ((e : Err) × (r ≡ err e))
Result-cases (ok a) = inl (a, refl)
Result-cases (err e) = inr (e, refl)

-- `xs[i]` and `xs[i:j]`, which panic out of range.
abbrev to_result {ℓ} : {A : Type ℓ} → Option A → Result A
to_result none = err (fault out_of_range)
to_result (some a) = ok a

unfoldable pub index : Bytes → ℕ → Result ℕ
index xs i = to_result (get_elem? xs i)

unfoldable pub subslice : Bytes → ℕ → ℕ → Result Bytes
subslice xs i j =
    if leb i j && leb j (length xs) then ok (slice xs i j) else err (fault out_of_range)

-- A result that is no fault, and whose value, if it has one, satisfies `P`.
abbrev pub NoFault : Err → Type 0
NoFault (fault f) = ⊥
NoFault e = Unit

abbrev pub Sound {ℓ} : {A : Type ℓ} → (A → Type 0) → Result A → Type 0
Sound P (ok a) = P a
Sound P (err e) = NoFault e

pub Sound-bind {ℓ κ} :
    {A : Type ℓ} {B : Type κ} (P : A → Type 0) (Q : B → Type 0) (m : Result A) (f : A → Result B)
    → Sound P m
    → ((a : A) → P a → Sound Q (f a))
    → Sound Q (m >>= f)
Sound-bind P Q (ok a) f h k = k a h
Sound-bind P Q (err (fault x)) f h k = h
Sound-bind P Q (err e) f h k = tt

pub index-Sound :
    (xs : Bytes) (i : ℕ) → i < length xs → Sound (λ b. get_elem? xs i ≡ some b) (index xs i)
unfolding index
index-Sound [] i h = elim h [ ]
index-Sound (x ∷ xs) zero h = refl
index-Sound (x ∷ xs) (suc i) h = index-Sound xs i (omega arith)

pub subslice-Sound :
    (xs : Bytes) (i j : ℕ)
    → i ≤ j
    → j ≤ length xs
    → Sound (λ ys. ys ≡ slice xs i j) (subslice xs i j)
unfolding subslice
subslice-Sound xs i j h k = ground arith

-- A guard whose error is no fault, and what stands behind it.
pub Sound-fail_if {κ} :
    {B : Type κ} (Q : B → Type 0) (b : Bool) (e : Err) (f : Unit {0} → Result B)
    → NoFault e
    → (b ≡ false → Sound Q (f tt))
    → Sound Q (fail_if b e >>= f)
Sound-fail_if Q true (fault x) f h k = h
Sound-fail_if Q true e f h k = tt
Sound-fail_if Q false e f h k = k refl
