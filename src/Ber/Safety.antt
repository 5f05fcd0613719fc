-- ===== src/Ber/Safety.antt =====
-- About `berToDER` of kmsrecipient/ber.go and the readers below it: bounds, faults and fuel.
use arc_remote_signer.Common.{
  ℕ, zero, suc, ◌+◌, ◌-◌, ◌≤◌, ◌<◌, Bool, true, false, [], ◌∷◌, ◌++◌, ◌≡◌, arith, Bytes, length,
  drop, length-drop, length-append, length-take, ap, slice, Bool-cases, inl, inr, ◌⊎◌, leb, ltb,
  ◌==◌, ◌||◌, bit_and, is_empty, not,
}
use arc_remote_signer.GoError.{
  Result, ok, err, ◌>>=◌, index, subslice, NoFault, Sound, Sound-bind, Sound-fail_if, index-Sound,
  subslice-Sound, Result-cases, Err,
}
use arc_remote_signer.Ber.{
  Tag, Length, Object, Child, max_ber_size, max_ber_depth, read_high_tag_end, tag_end, read_ber_tag,
  read_long, read_long_length, read_ber_length, check_child, read_ber_child, read_children,
  read_ber_constructed, read_ber_primitive, at_end_of_contents, read_ber_body, read_ber_object,
  ber_to_der,
}
use arc_remote_signer.Ber.Lengths.{length-encode_der_object}

abbrev EndsTag : ℕ → ℕ → ℕ → Type 0
EndsTag start size next = (start < next) × (next ≤ size) × (next ≤ start + 9)

read_high_tag_end-Sound :
    (rest : Bytes) (start offset : ℕ) (seen : Bool)
    → start < offset
    → offset ≤ start + 8
    → Sound (EndsTag start (offset + length rest)) (read_high_tag_end rest start offset seen)
unfolding read_high_tag_end
read_high_tag_end-Sound [] start offset seen h k = tt
read_high_tag_end-Sound (b ∷ rest) start offset seen h k =
    ground (arith, read_high_tag_end-Sound rest start (offset + 1) true)

tag_end-Sound :
    (input : Bytes) (offset first : ℕ)
    → offset < length input
    → Sound (EndsTag offset (length input)) (tag_end input offset first)
unfolding tag_end
tag_end-Sound input offset first h = ground (
  arith,
  length-drop (offset + 1) input,
  read_high_tag_end-Sound (drop (offset + 1) input) offset (offset + 1) false,
)

abbrev TagAt : Bytes → ℕ → Tag → Type 0
TagAt input offset t = EndsTag offset (length input) t.next × (t.tag ≡ slice input offset t.next)

read_ber_tag-Sound :
    (input : Bytes) (offset : ℕ)
    → offset < length input
    → Sound (TagAt input offset) (read_ber_tag input offset)
unfolding read_ber_tag
read_ber_tag-Sound input offset h =
    Sound-bind _ (TagAt input offset) (index input offset) _ (index-Sound input offset h) λ first _.
      Sound-bind _ (TagAt input offset) (tag_end input offset first) _
        (tag_end-Sound input offset first h)
        λ next e.
          Sound-bind _ (TagAt input offset) (subslice input offset next) _
            (subslice-Sound input offset next (omega arith) (omega arith)) (λ tag s. (e, s))

read_long-Sound :
    (input : Bytes) (offset count n : ℕ)
    → offset + count ≤ length input
    → Sound (λ _. Unit) (read_long input offset count n)
unfolding read_long
read_long-Sound input offset zero n h = tt
read_long-Sound input offset (suc count) n h =
    Sound-bind _ (λ _. Unit) (index input offset) _ (index-Sound input offset (omega arith))
      (λ b _. read_long-Sound input (offset + 1) count _ (omega arith))

abbrev LengthAt : ℕ → ℕ → Length → Type 0
LengthAt offset size l = (offset ≤ l.next) × (l.next ≤ size)

read_long_length-Sound :
    (input : Bytes) (offset count : ℕ)
    → offset ≤ length input
    → Sound (LengthAt offset (length input)) (read_long_length input offset count)
unfolding read_long_length
read_long_length-Sound input offset count h =
    ground (arith, index-Sound input offset, read_long-Sound input offset count 0)

read_ber_length-Sound :
    (input : Bytes) (offset : ℕ)
    → Sound (LengthAt offset (length input)) (read_ber_length input offset)
unfolding read_ber_length
read_ber_length-Sound input offset = elim (Bool-cases (leb (length input) offset)) [
  | inl past ↦ rw past tt
  | inr inside ↦ rw inside (
      Sound-bind _ (LengthAt offset (length input)) (index input offset) _
        (index-Sound input offset (ground arith))
        λ first _. ground (arith, read_long_length-Sound input (offset + 1) (bit_and first 0x7f)))
]

-- An object, and a child of an object, ends inside the input, and is not much longer than the
-- limit. The end of a definite-length parent takes no byte.
abbrev EncodedAt : ℕ → ℕ → Object → Type 0
EncodedAt offset size o =
    (offset ≤ o.next) × (o.next ≤ size) × (length o.encoded ≤ max_ber_size + 13)

abbrev ObjectAt : ℕ → ℕ → Object → Type 0
ObjectAt offset size o =
    (offset < o.next) × (o.next ≤ size) × (length o.encoded ≤ max_ber_size + 13)

abbrev ChildAt : ℕ → ℕ → Child → Type 0
ChildAt offset size c = (c.next ≤ size) × (offset ≤ c.next) × ((c.done ≡ false) → offset < c.next)

check_child-Sound :
    (offset : ℕ) (indefinite : Bool) (size : ℕ) (o : Object)
    → ObjectAt offset size o
    → Sound (ChildAt offset size) (check_child offset indefinite o)
unfolding check_child
check_child-Sound offset indefinite size o h = ground arith

-- A reader that ends inside the input from every offset inside it.
abbrev Reads : Bytes → (ℕ → Result Object) → Type 0
Reads input read = (offset : ℕ) → Sound (ObjectAt offset (length input)) (read offset)

read_ber_child-Sound :
    (read : ℕ → Result Object) (input : Bytes) (offset content_end : ℕ) (indefinite : Bool)
    → Reads input read
    → content_end ≤ length input
    → Sound
        (ChildAt offset (length input))
        (read_ber_child read input offset content_end indefinite)
unfolding read_ber_child
read_ber_child-Sound read input offset content_end indefinite r h = ground (arith, child)
  where
    child : Sound (ChildAt offset (length input)) (read offset >>= check_child offset indefinite)
    child =
        Sound-bind _ (ChildAt offset (length input)) (read offset) _ (r offset)
          (check_child-Sound offset indefinite (length input))

abbrev ContentAt : ℕ → ℕ → Bytes × ℕ → Type 0
ContentAt offset size p = (offset ≤ p.1) × (p.1 ≤ size) × (length p.0 ≤ max_ber_size)

read_children-Sound :
    (read : ℕ → Result Object) (input : Bytes) (content_end : ℕ) (indefinite : Bool)
    (fuel offset : ℕ) (content : Bytes)
    → Reads input read
    → content_end ≤ length input
    → offset ≤ length input
    → length input < offset + fuel
    → length content ≤ max_ber_size
    → Sound
        (ContentAt offset (length input))
        (read_children read input content_end indefinite fuel offset content)
unfolding read_children
read_children-Sound read input content_end indefinite zero offset content r h k f s =
    absurd (omega arith)
read_children-Sound read input content_end indefinite (suc fuel) offset content r h k f s =
    Sound-bind (ChildAt offset (length input)) _
      (read_ber_child read input offset content_end indefinite) _
      (read_ber_child-Sound read input offset content_end indefinite r h)
      λ c g. ground (
        arith,
        g,
        length-append content c.child,
        read_children-Sound read input content_end indefinite fuel c.next (content ++ c.child) r h,
      )

read_ber_constructed-Sound :
    (read : ℕ → Result Object) (input tag : Bytes) (offset len : ℕ) (indefinite : Bool)
    → Reads input read
    → offset ≤ length input
    → length tag ≤ 9
    → Sound
        (EncodedAt offset (length input))
        (read_ber_constructed read input tag offset len indefinite)
unfolding read_ber_constructed
read_ber_constructed-Sound read input tag offset len true r h t =
    Sound-bind (ContentAt offset (length input)) (EncodedAt offset (length input))
      (read_children read input (length input) true (suc (length input)) offset []) _
      (read_children-Sound read input (length input) true (suc (length input)) offset [] r
        (omega arith) h (omega arith) (omega arith))
      λ p g. ground (arith, length-encode_der_object tag p.0)
read_ber_constructed-Sound read input tag offset len false r h t =
    Sound-fail_if (EncodedAt offset (length input)) (ltb (length input - offset) len) _ _ tt λ k.
      Sound-bind (ContentAt offset (length input)) (EncodedAt offset (length input))
        (read_children read input (offset + len) false (suc (length input)) offset []) _
        (read_children-Sound read input (offset + len) false (suc (length input)) offset [] r
          (ground arith) h (omega arith) (omega arith))
        λ p g. ground (arith, length-encode_der_object tag p.0)

read_ber_primitive-Sound :
    (input tag : Bytes) (offset len : ℕ)
    → offset ≤ length input
    → length tag ≤ 9
    → length input ≤ max_ber_size
    → Sound (EncodedAt offset (length input)) (read_ber_primitive input tag offset len)
unfolding read_ber_primitive
read_ber_primitive-Sound input tag offset len h t fits =
    Sound-fail_if (EncodedAt offset (length input)) (ltb (length input - offset) len) _ _ tt λ k.
      Sound-bind _ (EncodedAt offset (length input)) (subslice input offset (offset + len)) _
        (subslice-Sound input offset (offset + len) (omega arith) (ground arith))
        λ content g. ground (
          arith,
          length-encode_der_object tag content,
          ap length g,
          length-take (offset + len - offset) (drop offset input),
        )

read_ber_body-Sound :
    (read : ℕ → Result Object) (input : Bytes) (offset : ℕ)
    → Reads input read
    → offset < length input
    → length input ≤ max_ber_size
    → Sound (ObjectAt offset (length input)) (read_ber_body read input offset)
unfolding read_ber_body
read_ber_body-Sound read input offset r h fits =
    Sound-bind (TagAt input offset) (ObjectAt offset (length input)) (read_ber_tag input offset) _
      (read_ber_tag-Sound input offset h)
      λ t g.
        Sound-bind (LengthAt t.next (length input)) (ObjectAt offset (length input))
          (read_ber_length input t.next) _ (read_ber_length-Sound input t.next)
          λ l k. ground (
            arith,
            ap length g.1,
            length-take (t.next - offset) (drop offset input),
            read_ber_primitive-Sound input t.tag l.next l.length,
            read_ber_constructed-Sound read input t.tag l.next l.length l.indefinite r,
          )

at_end_of_contents-length : (xs : Bytes) → at_end_of_contents xs ≡ true → 2 ≤ length xs
unfolding at_end_of_contents
at_end_of_contents-length [] h = cc
at_end_of_contents-length (a ∷ []) h = cc
at_end_of_contents-length (a ∷ b ∷ rest) h = omega arith

read_ber_object-Sound :
    (levels : ℕ) (input : Bytes)
    → length input ≤ max_ber_size
    → Reads input (read_ber_object levels input)
unfolding read_ber_object
read_ber_object-Sound zero input fits offset = tt
read_ber_object-Sound (suc levels) input fits offset = ground (
  arith,
  length-drop offset input,
  at_end_of_contents-length (drop offset input),
  read_ber_body-Sound (read_ber_object levels input) input offset
      (read_ber_object-Sound levels input fits),
)

within :
    (input : Bytes)
    → (is_empty input || ltb max_ber_size (length input)) ≡ false
    → length input ≤ max_ber_size
within [] h = omega arith
within (b ∷ bs) h = ground arith

ber_to_der-Sound :
    (input : Bytes) → Sound (λ der. length der ≤ max_ber_size + 13) (ber_to_der input)
unfolding ber_to_der
ber_to_der-Sound input =
    Sound-fail_if Short (is_empty input || ltb max_ber_size (length input)) _ _ tt λ g.
      Sound-bind (ObjectAt 0 (length input)) Short (read_ber_object (suc max_ber_depth) input 0) _
        (read_ber_object-Sound (suc max_ber_depth) input (within input g) 0)
        λ o h. Sound-fail_if Short (o.eoc || not (o.next == length input)) _ _ tt (λ _. h.2)
  where
    Short : Bytes → Type 0
    Short der = length der ≤ max_ber_size + 13

-- On every input the conversion returns an encoding of at most 13 bytes more than maxBERSize, or
-- an error value: it never indexes or slices out of range, and its loops and its nesting end.
pub ber_to_der-total :
    (input : Bytes)
    → ((der : Bytes) × (ber_to_der input ≡ ok der) × (length der ≤ max_ber_size + 13))
      ⊎ ((e : Err) × (ber_to_der input ≡ err e) × NoFault e)
ber_to_der-total input = elim (Result-cases (ber_to_der input)) [
  | inl (der, p) ↦ inl (der, p, rw p at (ber_to_der-Sound input))
  | inr (e, p) ↦ inr (e, p, rw p at (ber_to_der-Sound input))
]
