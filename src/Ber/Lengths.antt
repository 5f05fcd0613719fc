-- ===== src/Ber/Lengths.antt =====
-- About `appendDERLength` and `readBERLength` of kmsrecipient/ber.go: length octets.
use arc_remote_signer.Common.{
  ℕ, zero, suc, ◌+◌, ◌*◌, ◌/◌, ◌%◌, ◌^◌, ◌≤◌, ◌<◌, [], ◌∷◌, ◌++◌, ◌≡◌, refl, ap, ◌∙◌, sym, arith,
  Bytes, length, length-append, append_assoc, ltb, Bool-cases, inl, inr, false, bit_or, IsBytes,
}
use arc_remote_signer.Common.Bits.{bit_or-shift_eight, top_bit, low_bits, or_top_bit}
use arc_remote_signer.GoError.{ok, index}
use arc_remote_signer.Ber.{
  max_ber_size, length_bytes, append_der_length, encode_der_object, read_long, read_long_length,
  read_ber_length,
}

-- Bytes in the order of the wire, the most significant first.
pub length-length_bytes :
    (k room n : ℕ) (encoded : Bytes)
    → n < 256 ^ k
    → length (length_bytes room n encoded) ≤ length encoded + k
unfolding length_bytes
length-length_bytes zero zero n encoded h = omega arith
length-length_bytes zero (suc room) n encoded h = ground arith
length-length_bytes (suc k) zero n encoded h = omega arith
length-length_bytes (suc k) (suc room) n encoded h =
    ground (arith, length-length_bytes k room (n / 256) ((n % 256) ∷ encoded) (omega arith))

pub length-encode_der_object :
    (tag content : Bytes)
    → length content ≤ max_ber_size
    → length (encode_der_object tag content) ≤ length tag + 4 + length content
unfolding encode_der_object
length-encode_der_object tag content h =
    let n = length content in
    let encoded = length_bytes 8 n [] in
    ground (
      arith,
      length-append (append_der_length tag n) content,
      length-append tag ((n % 256) ∷ []),
      length-append (tag ++ bit_or 0x80 (length encoded % 256) ∷ []) encoded,
      length-append tag (bit_or 0x80 (length encoded % 256) ∷ []),
      length-length_bytes 3 8 n [],
    )

-- The number that big-endian bytes stand for, behind the digits `n`.
abbrev value : ℕ → Bytes → ℕ
value n [] = n
value n (b ∷ bs) = value (n * 256 + b) bs

value-length_bytes :
    (room n : ℕ) (encoded : Bytes)
    → n < 256 ^ room
    → value 0 (length_bytes room n encoded) ≡ value n encoded
unfolding length_bytes
value-length_bytes zero n encoded h =
    let e : n ≡ 0 = omega arith in ap (λ (t : ℕ). value t encoded) (sym e)
value-length_bytes (suc room) n encoded h = elim (Bool-cases (ltb 0 n)) [
  | inl more ↦ rw more (
      value-length_bytes room (n / 256) ((n % 256) ∷ encoded) (omega arith)
      ∙ ap (λ (t : ℕ). value t encoded) (let e : n / 256 * 256 + n % 256 ≡ n = omega arith in e))
  | inr none_left ↦
      rw none_left (let e : n ≡ 0 = ground arith in ap (λ (t : ℕ). value t encoded) (sym e))
]

length_bytes-IsBytes :
    (room n : ℕ) (encoded : Bytes) → IsBytes encoded → IsBytes (length_bytes room n encoded)
unfolding length_bytes
length_bytes-IsBytes zero n encoded h = h
length_bytes-IsBytes (suc room) n encoded h =
    ground (arith, length_bytes-IsBytes room (n / 256) ((n % 256) ∷ encoded))

-- The leading byte is not zero.
abbrev Leads : Bytes → Type 0
Leads [] = ⊥
Leads (b ∷ bs) = 0 < b

length_bytes-Leads :
    (room n : ℕ) (encoded : Bytes)
    → n < 256 ^ room
    → (n ≡ 0 → Leads encoded)
    → Leads (length_bytes room n encoded)
unfolding length_bytes
length_bytes-Leads zero n encoded h k = k (omega arith)
length_bytes-Leads (suc room) n encoded h k = elim (Bool-cases (ltb 0 n)) [
  | inl more ↦ rw more (
      length_bytes-Leads room (n / 256) ((n % 256) ∷ encoded) (omega arith)
        (λ e. let p : 0 < n = ground arith in omega arith))
  | inr none_left ↦ rw none_left (k (ground arith))
]

index-append : (xs : Bytes) (y : ℕ) (ys : Bytes) → index (xs ++ (y ∷ ys)) (length xs) ≡ ok y
unfolding index
index-append [] y ys = refl
index-append (x ∷ xs) y ys = index-append xs y ys

read_long-value :
    (pre bs rest : Bytes) (offset count n : ℕ)
    → offset ≡ length pre
    → count ≡ length bs
    → IsBytes bs
    → read_long (pre ++ (bs ++ rest)) offset count n ≡ ok (value n bs)
unfolding read_long
read_long-value pre [] rest offset zero n e c h = refl
read_long-value pre [] rest offset (suc count) n e c h = absurd (omega arith)
read_long-value pre (b ∷ bs) rest offset zero n e c h = absurd (omega arith)
read_long-value pre (b ∷ bs) rest offset (suc count) n e c h =
    rw (e, index-append pre b (bs ++ rest), bit_or-shift_eight n b h.0)
      (ap (λ (l : Bytes). read_long l (length pre + 1) count (n * 256 + b))
          (sym (append_assoc pre (b ∷ []) (bs ++ rest)))
        ∙ read_long-value (pre ++ b ∷ []) bs rest (length pre + 1) count (n * 256 + b)
            (omega (arith, length-append pre (b ∷ []))) (omega arith) h.1)

read_long_length-value :
    (pre bs rest : Bytes) (count : ℕ)
    → count ≡ length bs
    → count ≤ 4
    → IsBytes bs
    → Leads bs
    → 128 ≤ value 0 bs
    → read_long_length (pre ++ (bs ++ rest)) (length pre) count
      ≡ ok (record { length = value 0 bs; indefinite = false; next = length pre + count })
unfolding read_long_length
read_long_length-value pre [] rest count c k h l v = absurd l
read_long_length-value pre (b ∷ bs) rest count c k h l v = ground (
  arith,
  length-append pre ((b ∷ bs) ++ rest),
  length-append bs rest,
  index-append pre b (bs ++ rest),
  read_long-value pre (b ∷ bs) rest (length pre) count 0,
)

read_ber_length_short :
    (pre rest : Bytes) (n : ℕ)
    → n < 128
    → read_ber_length (pre ++ (n ∷ rest)) (length pre)
      ≡ ok (record { length = n; indefinite = false; next = length pre + 1 })
unfolding read_ber_length
read_ber_length_short pre rest n h =
    ground (arith, length-append pre (n ∷ rest), index-append pre n rest, top_bit n)

read_ber_length_long :
    (pre bs rest : Bytes)
    → length bs ≤ 4
    → IsBytes bs
    → Leads bs
    → 128 ≤ value 0 bs
    → read_ber_length (pre ++ ((length bs + 128) ∷ (bs ++ rest))) (length pre)
      ≡ ok (record { length = value 0 bs; indefinite = false; next = length pre + suc (length bs) })
unfolding read_ber_length
read_ber_length_long pre [] rest k h l v = absurd l
read_ber_length_long pre (b ∷ bs) rest k h l v =
    let first = length (b ∷ bs) + 128 in
    ground (
      arith,
      length-append pre (first ∷ ((b ∷ bs) ++ rest)),
      index-append pre first ((b ∷ bs) ++ rest),
      top_bit first,
      low_bits first,
      read_long_length-value (pre ++ first ∷ []) (b ∷ bs) rest (length (b ∷ bs)) refl k h l v,
      length-append pre (first ∷ []),
      append_assoc pre (first ∷ []) ((b ∷ bs) ++ rest),
    )

append_der_length_short : (dst : Bytes) (n : ℕ) → n < 128 → append_der_length dst n ≡ dst ++ n ∷ []
unfolding append_der_length
append_der_length_short dst n h =
    ground (arith, ap (λ (t : ℕ). dst ++ t ∷ []) (let e : n % 256 ≡ n = omega arith in e))

abbrev digits : ℕ → Bytes
digits n = length_bytes 8 n []

append_der_length_long :
    (dst : Bytes) (n : ℕ)
    → 128 ≤ n
    → n < 2 ^ 32
    → append_der_length dst n ≡ dst ++ ((length (digits n) + 128) ∷ digits n)
unfolding append_der_length
append_der_length_long dst n h k = ground (
  arith,
  length-length_bytes 4 8 n [],
  or_top_bit (length (digits n)),
  append_assoc dst ((length (digits n) + 128) ∷ []) (digits n),
)

-- What `appendDERLength` writes for a length below 2^32, `readBERLength` reads back, whatever stands
-- before and behind it.
pub read_ber_length-append_der_length :
    (pre rest : Bytes) (n : ℕ)
    → n < 2 ^ 32
    → read_ber_length (pre ++ (append_der_length [] n ++ rest)) (length pre)
      ≡ ok (record {
        length = n;
        indefinite = false;
        next = length pre + length (append_der_length [] n);
      })
read_ber_length-append_der_length pre rest n h = elim (Bool-cases (ltb n 128)) [
  | inl short ↦
      rw (append_der_length_short [] n (ground arith))
        (read_ber_length_short pre rest n (ground arith))
  | inr long ↦ rw (append_der_length_long [] n (ground arith) h) (
      ground (
        arith,
        read_ber_length_long pre (digits n) rest,
        length-length_bytes 4 8 n [],
        value-length_bytes 8 n [],
        length_bytes-IsBytes 8 n [] tt,
        length_bytes-Leads 8 n [],
      ))
]
