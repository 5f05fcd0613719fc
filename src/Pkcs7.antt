-- ===== src/Pkcs7.antt =====
-- internal/enclave/provider/enclave/kmsrecipient/decrypt.go: `unpadPKCS7`, with the functions of
-- crypto/subtle that it calls, which answer 1 for yes and 0 for no.
pub mod Range
pub mod Padding
use arc_remote_signer.Common.{
  ℕ, zero, suc, ◌+◌, ◌-◌, ◌%◌, bit_and, Bool, ◌||◌, not, ltb, leb, ◌==◌, if◌then◌else◌, Bytes,
  length, take, get_or, is_empty,
}
use arc_remote_signer.GoError.{fault, out_of_range, new, Result, ok, err, ◌>>=◌, ◌>>◌, fail_if}

abbrev constant_time_less_or_eq : ℕ → ℕ → ℕ
constant_time_less_or_eq x y = if leb x y then 1 else 0

abbrev constant_time_byte_eq : ℕ → ℕ → ℕ
constant_time_byte_eq x y = if x == y then 1 else 0

-- x if v is 1, and y if v is 0.
abbrev constant_time_select : ℕ → ℕ → ℕ → ℕ
constant_time_select v x y = if v == 1 then x else y

-- `data[len(data)-1-i]`, which panics where that index is out of range.
unfoldable pub from_end : Bytes → ℕ → Result ℕ
from_end xs i =
    if ltb i (length xs) then ok (get_or xs (length xs - 1 - i) 0) else err (fault out_of_range)

-- `data[:len(data)-n]`.
unfoldable pub without_last : Bytes → ℕ → Result Bytes
without_last xs n =
    if leb n (length xs) then ok (take (length xs - n) xs) else err (fault out_of_range)

-- The loop, with `rounds` rounds left from round `i` on.
unfoldable pub check_padding : Bytes → ℕ → ℕ → ℕ → ℕ → Result ℕ
unfolding from_end
check_padding xs padding zero i valid = ok valid
check_padding xs padding (suc rounds) i valid = do
  byte ← from_end xs i
  let in_padding = constant_time_less_or_eq (i + 1) padding
  let matches = constant_time_byte_eq byte (padding % 256)
  check_padding xs padding rounds (i + 1)
      (bit_and valid (constant_time_select in_padding matches 1))

unfoldable pub unpad_pkcs7 : Bytes → ℕ → Result Bytes
unfolding check_padding from_end without_last
unpad_pkcs7 xs block_size = do
  fail_if (leb block_size 0 || is_empty xs || not (length xs % block_size == 0))
      (new "invalid PKCS#7 input")
  padding ← from_end xs 0
  let first =
      bit_and (constant_time_less_or_eq 1 padding) (constant_time_less_or_eq padding block_size)
  valid ← check_padding xs padding block_size 0 first
  fail_if (not (valid == 1)) (new "invalid PKCS#7 padding")
  without_last xs padding
