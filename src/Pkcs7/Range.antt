-- ===== src/Pkcs7/Range.antt =====
-- About `unpadPKCS7` of kmsrecipient/decrypt.go: it stays in range, so that it is a function of its
-- bytes alone, which is written out here.
use arc_remote_signer.Common.{
  ℕ, zero, suc, ◌+◌, ◌-◌, ◌%◌, ◌≤◌, ◌<◌, bit_and, false, Bool-cases, inl, inr, not, ◌||◌, ◌==◌, leb,
  is_empty, Bytes, length, take, get_or, ◌≡◌, refl, arith,
}
use arc_remote_signer.GoError.{new, Result, ok, ◌>>◌, fail_if}
use arc_remote_signer.Pkcs7.{
  check_padding, unpad_pkcs7, without_last, constant_time_select, constant_time_less_or_eq,
  constant_time_byte_eq, from_end,
}
use native.Mathlib.Nat.{mod-eq_of_lt}

-- The byte that stands this far from the end, and what the loop makes of the flag.
abbrev pub byte_at : Bytes → ℕ → ℕ
byte_at xs i = get_or xs (length xs - 1 - i) 0

unfoldable pub flags : Bytes → ℕ → ℕ → ℕ → ℕ → ℕ
flags xs padding zero i valid = valid
flags xs padding (suc rounds) i valid = flags xs padding rounds (i + 1) (
    bit_and valid (
      constant_time_select (constant_time_less_or_eq (i + 1) padding)
        (constant_time_byte_eq (byte_at xs i) (padding % 256)) 1))

unfoldable pub unpadded : Bytes → ℕ → Result Bytes
unfolding flags
unpadded xs block_size = do
  fail_if (leb block_size 0 || is_empty xs || not (length xs % block_size == 0))
      (new "invalid PKCS#7 input")
  let padding = byte_at xs 0
  let first =
      bit_and (constant_time_less_or_eq 1 padding) (constant_time_less_or_eq padding block_size)
  fail_if (not (flags xs padding block_size 0 first == 1)) (new "invalid PKCS#7 padding")
  ok (take (length xs - padding) xs)

from_end-byte_at : (xs : Bytes) (i : ℕ) → i < length xs → from_end xs i ≡ ok (byte_at xs i)
unfolding from_end
from_end-byte_at xs i h = ground arith

check_padding-flags :
    (xs : Bytes) (padding rounds i valid : ℕ)
    → i + rounds ≤ length xs
    → check_padding xs padding rounds i valid ≡ ok (flags xs padding rounds i valid)
unfolding check_padding flags
check_padding-flags xs padding zero i valid h = refl
check_padding-flags xs padding (suc rounds) i valid h =
    rw (from_end-byte_at xs i (omega arith))
      (check_padding-flags xs padding rounds (i + 1) _ (omega arith))

pub flags-zero : (xs : Bytes) (padding rounds i : ℕ) → flags xs padding rounds i 0 ≡ 0
unfolding flags
flags-zero xs padding zero i = refl
flags-zero xs padding (suc rounds) i = ground (arith, flags-zero xs padding rounds (i + 1))

-- Padding that the loop accepts is no longer than a block.
flags-small :
    (xs : Bytes) (padding block_size : ℕ)
    → flags xs padding block_size 0
        (bit_and (constant_time_less_or_eq 1 padding) (constant_time_less_or_eq padding block_size))
      ≡ 1
    → padding ≤ block_size
flags-small xs padding block_size h = ground (arith, flags-zero xs padding block_size 0)

without_last-take :
    (xs : Bytes) (n : ℕ) → n ≤ length xs → without_last xs n ≡ ok (take (length xs - n) xs)
unfolding without_last
without_last-take xs n h = ground arith

-- The first guard leaves only inputs that hold a block.
block-fits :
    (xs : Bytes) (block_size : ℕ)
    → (leb block_size 0 || is_empty xs || not (length xs % block_size == 0)) ≡ false
    → (0 < length xs) × (block_size ≤ length xs)
block-fits xs block_size h = ground (arith, mod-eq_of_lt {n = length xs} {m = block_size})

pub unpad_pkcs7-unpadded :
    (xs : Bytes) (block_size : ℕ) → unpad_pkcs7 xs block_size ≡ unpadded xs block_size
unfolding unpad_pkcs7 unpadded
unpad_pkcs7-unpadded xs block_size =
    elim (Bool-cases (leb block_size 0 || is_empty xs || not (length xs % block_size == 0))) [
      | inl bad ↦ rw bad refl
      | inr good ↦
          let (filled, fits) = block-fits xs block_size good in
          let n = byte_at xs 0 in
          let first =
            bit_and (constant_time_less_or_eq 1 n) (constant_time_less_or_eq n block_size) in
          rw
            (
              good,
              from_end-byte_at xs 0 filled,
              check_padding-flags xs n block_size 0 first (omega arith),
            )
            (elim (Bool-cases (flags xs n block_size 0 first == 1)) [
              | inr wrong ↦ rw wrong refl
              | inl right ↦ rw right (
                  without_last-take xs n
                    (let small = flags-small xs n block_size (ground arith) in omega arith))
            ])
    ]
