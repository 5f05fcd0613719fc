-- ===== src/Ber.antt =====
-- internal/enclave/provider/enclave/kmsrecipient/ber.go: the BER-to-DER conversion.
-- A nesting level is counted down: `levels` is maxBERDepth + 1 - depth, so the test
-- `depth > maxBERDepth` is `levels` at zero. The loop over the children of an object takes the
-- reader of one level further down as an argument, and fuel.
pub mod Lengths
pub mod Safety
use arc_remote_signer.Common.{
  ℕ, zero, suc, ◌+◌, ◌-◌, ◌*◌, ◌/◌, ◌%◌, ◌^◌, bit_and, bit_or, Bool, true, false, not, ◌&&◌, ◌||◌,
  List, [], ◌∷◌, ◌++◌, ltb, leb, ◌==◌, if◌then◌else◌, Bytes, length, drop, is_empty,
}
use arc_remote_signer.GoError.{
  new, fault, out_of_fuel, Result, ok, err, ◌>>=◌, ◌>>◌, fail_if, index, subslice,
}

abbrev pub max_ber_depth : ℕ
max_ber_depth = 32

abbrev pub max_ber_size : ℕ
max_ber_size = 2 ^ 20

abbrev pub max_ber_tag_size : ℕ
max_ber_tag_size = 9

-- `appendDERLength`: the loop fills `encoded` from its end with the bytes of `length`.
unfoldable pub length_bytes : ℕ → ℕ → Bytes → Bytes
length_bytes zero n encoded = encoded
length_bytes (suc room) n encoded =
    let rest = length_bytes room (n / 256) ((n % 256) ∷ encoded) in
    if ltb 0 n then rest else encoded

unfoldable pub append_der_length : Bytes → ℕ → Bytes
unfolding length_bytes
append_der_length dst n =
    if ltb n 128
    then dst ++ (n % 256) ∷ []
    else let encoded = length_bytes 8 n [] in
      (dst ++ bit_or 0x80 (length encoded % 256) ∷ []) ++ encoded

unfoldable pub encode_der_object : Bytes → Bytes → Bytes
unfolding append_der_length
encode_der_object tag content = append_der_length tag (length content) ++ content

-- `readBERHighTagEnd`, over the bytes from `offset` on; `[]` is `offset >= len(input)`.
unfoldable pub read_high_tag_end : Bytes → ℕ → ℕ → Bool → Result ℕ
read_high_tag_end [] tag_start offset seen = err (new "truncated BER high tag")
read_high_tag_end (b ∷ rest) tag_start offset seen =
    let more = read_high_tag_end rest tag_start (offset + 1) true in
    if not seen && b == 0x80
    then err (new "invalid BER high tag")
    else if bit_and b 0x80 == 0
    then ok (offset + 1)
    else if leb max_ber_tag_size (offset + 1 - tag_start)
    then err (new "BER tag is too long")
    else more

pub record Tag : Type 0 where
  pub tag : Bytes
  pub constructed : Bool
  pub next : ℕ

unfoldable pub tag_end : Bytes → ℕ → ℕ → Result ℕ
unfolding read_high_tag_end
tag_end input offset first =
    if bit_and first 0x1f == 0x1f
    then read_high_tag_end (drop (offset + 1) input) offset (offset + 1) false
    else ok (offset + 1)

unfoldable pub read_ber_tag : Bytes → ℕ → Result Tag
unfolding tag_end index subslice
read_ber_tag input offset = do
  first ← index input offset
  next ← tag_end input offset first
  tag ← subslice input offset next
  ok (record { tag = tag; constructed = not (bit_and first 0x20 == 0); next = next })

pub record Length : Type 0 where
  pub length : ℕ
  pub indefinite : Bool
  pub next : ℕ

-- `for i := 0; i < count; i++ { length = length<<8 | int(input[offset+i]) }`
unfoldable pub read_long : Bytes → ℕ → ℕ → ℕ → Result ℕ
unfolding index
read_long input offset zero n = ok n
read_long input offset (suc count) n = do
  b ← index input offset
  read_long input (offset + 1) count (bit_or (n * 256) b)

unfoldable pub read_long_length : Bytes → ℕ → ℕ → Result Length
unfolding read_long index
read_long_length input offset count = do
  fail_if (count == 0 || ltb 4 count || ltb (length input - offset) count)
      (new "invalid BER long length")
  b ← index input offset
  fail_if (b == 0) (new "invalid BER long length")
  n ← read_long input offset count 0
  fail_if (ltb n 128) (new "non-minimal BER long length")
  ok (record { length = n; indefinite = false; next = offset + count })

unfoldable pub read_ber_length : Bytes → ℕ → Result Length
unfolding read_long_length index
read_ber_length input offset =
    if leb (length input) offset then err (new "truncated BER length") else do
      first ← index input offset
      if first == 0x80
          then ok (record { length = 0; indefinite = true; next = offset + 1 })
          else if bit_and first 0x80 == 0
          then ok (record { length = first; indefinite = false; next = offset + 1 })
          else read_long_length input (offset + 1) (bit_and first 0x7f)

-- The results of `readBERObject`: the encoding, the offset behind it, and whether it was an
-- end-of-contents mark.
pub record Object : Type 0 where
  pub encoded : Bytes
  pub next : ℕ
  pub eoc : Bool

-- The results of `readBERConstructedChild`.
pub record Child : Type 0 where
  pub child : Bytes
  pub next : ℕ
  pub done : Bool

-- What `readBERConstructedChild` does behind `readBERObject`.
unfoldable pub check_child : ℕ → Bool → Object → Result Child
check_child offset indefinite object =
    if object.eoc
    then if not indefinite
      then err (new "unexpected BER end-of-contents")
      else ok (record { child = []; next = object.next; done = true })
    else if leb object.next offset
    then err (new "BER parser made no progress")
    else ok (record { child = object.encoded; next = object.next; done = false })

unfoldable pub read_ber_child : (ℕ → Result Object) → Bytes → ℕ → ℕ → Bool → Result Child
unfolding check_child
read_ber_child read input offset content_end indefinite =
    let child = read offset >>= check_child offset indefinite in
    if indefinite
    then if leb (length input) offset then err (new "unterminated BER object") else child
    else if offset == content_end
    then ok (record { child = []; next = offset; done = true })
    else if ltb content_end offset
    then err (new "BER child exceeds parent")
    else child

-- The loop of `readBERConstructed`; the results are the content and the offset behind it.
unfoldable pub read_children :
    (ℕ → Result Object) → Bytes → ℕ → Bool → ℕ → ℕ → Bytes → Result (Bytes × ℕ)
unfolding read_ber_child
read_children read input content_end indefinite zero offset content = err (fault out_of_fuel)
read_children read input content_end indefinite (suc fuel) offset content = do
  c ← read_ber_child read input offset content_end indefinite
  let more = read_children read input content_end indefinite fuel c.next (content ++ c.child)
  if c.done
      then ok (content, c.next)
      else if ltb max_ber_size (length content + length c.child)
      then err (new "BER output is too large")
      else more

-- Each child takes at least one byte, so the length of the input is enough fuel.
unfoldable pub read_ber_constructed :
    (ℕ → Result Object) → Bytes → Bytes → ℕ → ℕ → Bool → Result Object
unfolding read_children encode_der_object
read_ber_constructed read input tag offset len indefinite = do
  fail_if (not indefinite && ltb (length input - offset) len)
      (new "truncated BER constructed object")
  let content_end = if indefinite then length input else offset + len
  (content, next) ← read_children read input content_end indefinite (suc (length input)) offset []
  ok (record { encoded = encode_der_object tag content; next = next; eoc = false })

-- The primitive case of `readBERObject`.
unfoldable pub read_ber_primitive : Bytes → Bytes → ℕ → ℕ → Result Object
unfolding subslice encode_der_object
read_ber_primitive input tag offset len = do
  fail_if (ltb (length input - offset) len) (new "truncated BER primitive")
  content ← subslice input offset (offset + len)
  ok (record { encoded = encode_der_object tag content; next = offset + len; eoc = false })

-- `len(input)-offset >= 2 && input[offset] == 0 && input[offset+1] == 0`
unfoldable pub at_end_of_contents : Bytes → Bool
at_end_of_contents (a ∷ b ∷ rest) = a == 0 && b == 0
at_end_of_contents _ = false

-- What `readBERObject` does behind its two early returns.
unfoldable pub read_ber_body : (ℕ → Result Object) → Bytes → ℕ → Result Object
unfolding read_ber_tag read_ber_length read_ber_constructed read_ber_primitive
read_ber_body read input offset = do
  t ← read_ber_tag input offset
  l ← read_ber_length input t.next
  fail_if (l.indefinite && not t.constructed) (new "indefinite primitive BER object")
  if not t.constructed
      then read_ber_primitive input t.tag l.next l.length
      else read_ber_constructed read input t.tag l.next l.length l.indefinite

unfoldable pub read_ber_object : ℕ → Bytes → ℕ → Result Object
unfolding read_ber_body at_end_of_contents
read_ber_object zero input offset = err (new "invalid BER object boundary")
read_ber_object (suc levels) input offset =
    let body = read_ber_body (read_ber_object levels input) input offset in
    if leb (length input) offset
    then err (new "invalid BER object boundary")
    else if at_end_of_contents (drop offset input)
    then ok (record { encoded = []; next = offset + 2; eoc = true })
    else body

unfoldable pub ber_to_der : Bytes → Result Bytes
unfolding read_ber_object
ber_to_der input = do
  fail_if (is_empty input || ltb max_ber_size (length input)) (new "invalid BER input size")
  object ← read_ber_object (suc max_ber_depth) input 0
  fail_if (object.eoc || not (object.next == length input)) (new "invalid BER top-level object")
  ok object.encoded
