-- ===== src/Pkcs7/Padding.antt =====
-- About `unpadPKCS7` of kmsrecipient/decrypt.go.
use arc_remote_signer.Common.{
  ℕ, zero, suc, ◌+◌, ◌-◌, ◌%◌, ◌≤◌, ◌<◌, bit_and, inl, inr, ◌⊎◌, ◌↔◌, Bytes, length, take, drop,
  get_or, replicate, [], ◌∷◌, ◌++◌, ◌≡◌, refl, ap, sym, ◌∙◌, arith, length-append, length-replicate,
  length-drop, get_or-drop, replicate_of_get_or, get_or-replicate_behind, take-append-drop,
  take-append, IsBytes,
}
use arc_remote_signer.GoError.{ok}
use arc_remote_signer.Pkcs7.{
  unpad_pkcs7, constant_time_select, constant_time_less_or_eq, constant_time_byte_eq,
}
use arc_remote_signer.Pkcs7.Range.{byte_at, flags, flags-zero, unpadded, unpad_pkcs7-unpadded}
use native.Mathlib.Decide.{ℕ_discrete}
use native.Mathlib.Nat.{mod-eq_of_lt}
use mathlib.Core.Path.{ap₂}

-- One round keeps the flag only if the byte is padding where it has to be.
abbrev Agrees : Bytes → ℕ → ℕ → Type 0
Agrees xs padding i = i < padding → get_or xs (length xs - 1 - i) 0 ≡ padding

-- What one round leaves of the flag 1.
abbrev flag : Bytes → ℕ → ℕ → ℕ
flag xs padding i = bit_and 1 (
    constant_time_select (constant_time_less_or_eq (i + 1) padding)
      (constant_time_byte_eq (byte_at xs i) (padding % 256)) 1)

step_flag :
    (xs : Bytes) (padding i : ℕ)
    → padding < 256
    → ((Agrees xs padding i × (flag xs padding i ≡ 1))
        ⊎ ((¬ Agrees xs padding i) × (flag xs padding i ≡ 0)))
step_flag xs padding i h = ground arith

flags-Agrees :
    (xs : Bytes) (padding rounds i : ℕ)
    → padding < 256
    → flags xs padding rounds i 1 ≡ 1
    → (j : ℕ) → i ≤ j
    → j < i + rounds
    → Agrees xs padding j
unfolding flags
flags-Agrees xs padding zero i h e j p q = absurd (omega arith)
flags-Agrees xs padding (suc rounds) i h e j p q = elim (step_flag xs padding i h) [
  | inl (a, f) ↦ elim (ℕ_discrete i j) [
    | yes same ↦ rw same at a
    | no differ ↦ flags-Agrees xs padding rounds (i + 1) h (rw f at e) j (omega arith) (omega arith)
  ]
  | inr (n, f) ↦ cc ((rw f at e), flags-zero xs padding rounds (i + 1))
]

flags_of_Agrees :
    (xs : Bytes) (padding rounds i : ℕ)
    → padding < 256
    → ((j : ℕ) → i ≤ j → j < i + rounds → Agrees xs padding j)
    → flags xs padding rounds i 1 ≡ 1
unfolding flags
flags_of_Agrees xs padding zero i h a = refl
flags_of_Agrees xs padding (suc rounds) i h a = elim (step_flag xs padding i h) [
  | inl (_, f) ↦
      rw f (flags_of_Agrees xs padding rounds (i + 1) h (λ j p q. a j (omega arith) (omega arith)))
  | inr (n, f) ↦ absurd (n (a i (omega arith) (omega arith)))
]

get_or-IsBytes : (xs : Bytes) (i : ℕ) → IsBytes xs → get_or xs i 0 < 256
get_or-IsBytes [] i h = omega arith
get_or-IsBytes (x ∷ xs) zero h = h.0
get_or-IsBytes (x ∷ xs) (suc i) h = get_or-IsBytes xs i h.1

-- `xs` is `plain` behind which `n` bytes `n` stand.
abbrev pub Padded : Bytes → ℕ → Bytes → Type 0
Padded xs block_size plain = (n : ℕ) × (1 ≤ n) × (n ≤ block_size) × (xs ≡ plain ++ replicate n n)

tail_of_Agrees :
    (xs : Bytes) (n : ℕ)
    → n ≤ length xs
    → ((j : ℕ) → j < n → get_or xs (length xs - 1 - j) 0 ≡ n)
    → drop (length xs - n) xs ≡ replicate n n
tail_of_Agrees xs n h a =
    let rest = drop (length xs - n) xs in
    let e : length rest ≡ n = omega (arith, length-drop (length xs - n) xs) in
    replicate_of_get_or rest n 0 (λ j p.
      get_or-drop (length xs - n) j xs 0
      ∙ ap (λ (i : ℕ). get_or xs i 0)
          (let q : length xs - n + j ≡ length xs - 1 - (n - 1 - j) = omega arith in q)
      ∙ a (n - 1 - j) (omega arith))
    ∙ ap (λ (k : ℕ). replicate k n) e

module _ (xs plain : Bytes) (block_size : ℕ) where
  accepted :
      unpadded xs block_size ≡ ok plain
      → let n = byte_at xs 0 in
        (1 ≤ n)
        × (n ≤ block_size)
        × (block_size ≤ length xs)
        × (flags xs n block_size 0 1 ≡ 1)
        × (plain ≡ take (length xs - n) xs)
  unfolding unpadded
  accepted h = ground (
    arith,
    flags-zero xs (byte_at xs 0) block_size 0,
    mod-eq_of_lt {n = length xs} {m = block_size},
  )

  accepted-Padded : IsBytes xs → unpadded xs block_size ≡ ok plain → Padded xs block_size plain
  accepted-Padded bytes h =
      let (low, high, long, checked, e) = accepted h in
      let n = byte_at xs 0 in
      (
        n,
        low,
        high,
        sym (take-append-drop (length xs - n) xs)
            ∙ ap₂ ◌++◌ (sym e) (
                tail_of_Agrees xs n (omega arith) (λ j p.
                  flags-Agrees xs n block_size 0 (get_or-IsBytes xs (length xs - 1 - 0) bytes)
                    checked j (omega arith) (omega arith) p)),
      )

  byte_at-Padded : (n j : ℕ) → xs ≡ plain ++ replicate n n → j < n → byte_at xs j ≡ n
  byte_at-Padded n j e h =
      let len = ap length e ∙ length-append plain (replicate n n) in
      ap (λ (l : Bytes). get_or l (length xs - 1 - j) 0) e
      ∙ get_or-replicate_behind plain n (length xs - 1 - j) n 0
          (omega (arith, len, length-replicate n n)) (omega (arith, len, length-replicate n n))

  unpadded-Padded :
      block_size < 256
      → length xs % block_size ≡ 0
      → Padded xs block_size plain
      → unpadded xs block_size ≡ ok plain
  unfolding unpadded
  unpadded-Padded small divides (n, low, high, e) =
      let len = ap length e ∙ length-append plain (replicate n n) in
      ground (
        arith,
        byte_at-Padded n 0 e,
        flags_of_Agrees xs n block_size 0 (omega arith) (λ j p q h. byte_at-Padded n j e h),
        rw (← e) at (
            take-append plain (replicate n n) (length xs - n)
              (omega (arith, len, length-replicate n n))),
        len,
        length-replicate n n,
      )

-- `unpadPKCS7` returns `plain` exactly when the input is `plain` behind which n bytes of value n
-- stand, for an n from 1 to the block size, on inputs of bytes whose length is a multiple of a
-- block size below 256.
pub unpad_pkcs7_iff :
    (xs plain : Bytes) (block_size : ℕ)
    → IsBytes xs
    → block_size < 256
    → length xs % block_size ≡ 0
    → (unpad_pkcs7 xs block_size ≡ ok plain) ↔ Padded xs block_size plain
unpad_pkcs7_iff xs plain block_size bytes small divides =
    rw (unpad_pkcs7-unpadded xs block_size)
      (accepted-Padded xs plain block_size bytes, unpadded-Padded xs plain block_size small divides)
