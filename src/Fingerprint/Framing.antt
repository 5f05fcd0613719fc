-- ===== src/Fingerprint/Framing.antt =====
-- About `hashKeySourceFields` of internal/enclave/service/enclave/envelope.go: its length prefixes.
use arc_remote_signer.Common.{
  ℕ, ◌%◌, ◌^◌, ◌<◌, List, [], ◌∷◌, ◌++◌, ◌≡◌, refl, ap, sym, ◌∙◌, arith, Bytes, All, length,
  append_assoc, drop-append, take-append, take, drop,
}
use mathlib.Core.Path.{ap₂}
use arc_remote_signer.Fingerprint.{put_uint32, hashed_fields}

-- Every field is shorter than 2^32 bytes, so that no length prefix wraps.
abbrev pub AreShort : List Bytes → Type 0
AreShort = All (λ field. length field < 2 ^ 32)

put_uint32-append :
    (m n : ℕ) (xs ys : Bytes)
    → m < 2 ^ 32
    → n < 2 ^ 32
    → put_uint32 m ++ xs ≡ put_uint32 n ++ ys
    → (m ≡ n) × (xs ≡ ys)
unfolding put_uint32
put_uint32-append m n xs ys h k e = ground arith

append-cancel :
    (xs ys us vs : Bytes) → length xs ≡ length ys → xs ++ us ≡ ys ++ vs → (xs ≡ ys) × (us ≡ vs)
append-cancel xs ys us vs h e = (
  sym (take-append xs us (length ys) h)
      ∙ ap (take (length ys)) e
      ∙ take-append ys vs (length ys) refl,
  sym (drop-append xs us (length ys) h)
      ∙ ap (drop (length ys)) e
      ∙ drop-append ys vs (length ys) refl,
)

hashed_fields-cons :
    (x : Bytes) (xs : List Bytes)
    → hashed_fields (x ∷ xs) ≡ put_uint32 (length x % 2 ^ 32) ++ (x ++ hashed_fields xs)
unfolding hashed_fields
hashed_fields-cons x xs = append_assoc (put_uint32 (length x % 2 ^ 32)) x (hashed_fields xs)

fields-cons :
    (x y : Bytes) (xs ys : List Bytes)
    → length x < 2 ^ 32
    → length y < 2 ^ 32
    → hashed_fields (x ∷ xs) ≡ hashed_fields (y ∷ ys)
    → (x ≡ y) × (hashed_fields xs ≡ hashed_fields ys)
fields-cons x y xs ys h k e =
    let m = length x % 2 ^ 32 in
    let n = length y % 2 ^ 32 in
    let (same, rest) =
      put_uint32-append m n (x ++ hashed_fields xs) (y ++ hashed_fields ys) (omega arith)
        (omega arith) (sym (hashed_fields-cons x xs) ∙ e ∙ hashed_fields-cons y ys) in
    append-cancel x y (hashed_fields xs) (hashed_fields ys) (omega arith) rest

-- Two lists of fields shorter than 2^32 bytes with the same hashed text are the same list.
pub hashed_fields_injective :
    (xs ys : List Bytes) → AreShort xs → AreShort ys → hashed_fields xs ≡ hashed_fields ys → xs ≡ ys
hashed_fields_injective [] [] h k e = refl
hashed_fields_injective [] (y ∷ ys) h k e = unfold hashed_fields put_uint32 in cc
hashed_fields_injective (x ∷ xs) [] h k e = unfold hashed_fields put_uint32 in cc
hashed_fields_injective (x ∷ xs) (y ∷ ys) (hx, hxs) (ky, kys) e =
    let (same, rest) = fields-cons x y xs ys hx ky e in
    ap₂ ◌∷◌ same (hashed_fields_injective xs ys hxs kys rest)
