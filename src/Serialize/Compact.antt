-- ===== src/Serialize/Compact.antt =====
-- ase/aseserialize.cpp: a whole message, an array with its length in front, and the length that a
-- client finds in its first bytes.
use ase.Serialize.Arrays.{new_array_of_lem}
use ase.Serialize.Decode.{
  new_array_of, deserialize, deserialize_array, deserialize_compact, get_length, read_header, sized,
  array_tag, check_end, type_tag_of,
}
use ase.Serialize.Received.{items_length-received_items, received_items, FitsItems}
use ase.Prelude.{
  ◌≤◌, ℕ, suc, ◌+◌, ◌-◌, ◌*◌, ◌/◌, ◌%◌, ◌^◌, ◌<◌, ◌≡◌, refl, sym, ap, ◌∙◌, inl, inr, Bool, false,
  some, List, [], ◌∷◌, ◌++◌, append-nil, append_assoc, arith, bit_and, bit_or, leb, leb→le,
  Bool-cases, length, take, length-append, length-take, take-append,
}
use ase.Serialize.Encode.{
  items_length, byte_length_signed, short_form, serialize_items, array_with_length,
  byte_length_unsigned, serialize_compact, serialize_object_op, serialize_integral,
  serialize_object_ref,
}
use mathlib.Core.Path.{subst}
use ase.Serialize.Values.{deserialize-serialize_int}
use ase.Serialize.Bytes.{length-to_bytes, from_bytes, to_bytes}
use ase.Serialize.Reads.{read_ref, items_step, ou, ReadsItems}
use ase.Serialize.Steps.{deserialize_array-ended, deserialize-sized_array}
use ase.Variant.{Variant, Items, int, array, no_items, item}
use ase.Serialize.{ok, Serializer}
use ase.Prelude.Bits.{byte_and_c0, byte_and_f0, bit_and_low}
use ase.Serialize.Header.{
  read_header-short, split_data-append, read_header-long_bytes, long_tag, long_tag_low, long_tag-eq,
  length_bytes, short_tag,
}
use ase.Serialize.RoundTrip.{serialize_items-reads}

module _ (body rest : List ℕ) (small : length body < 256 ^ 7) where
  read_header-array_with_length :
      read_header (array_with_length body ++ rest) ≡ ok (sized array_tag body rest)
  unfolding array_with_length type_tag_of
  read_header-array_with_length = elim (Bool-cases (leb (length body) 31)) [
    | inl e ↦
        rw (e, array_with_length)
          (read_header-short 4 (length body) (body ++ rest) (omega arith)
              (omega (arith, leb→le _ _ e))
            ∙ split_data-append 0x80 body rest)
    | inr e ↦
        rw (e, array_with_length)
          (rw
            (append_assoc (take (byte_length_unsigned (length body)) (to_bytes 8 (length body)))
              body rest)
            (read_header-long_bytes 4 body rest (omega arith) small))
  ]

-- The length that get_length finds, for each form of the header.
get_length-short :
    (n : ℕ) (rp : List ℕ)
    → n < 32
    → get_length (bit_or 0x80 (bit_and n 0x1f) ∷ rp) ≡ some (n + 1, false)
unfolding get_length
get_length-short n rp h =
    let tag : bit_or 0x80 (bit_and n 0x1f) ≡ 0x80 + n = short_tag 4 n (omega arith) h in
    rw tag
      (ground (arith, byte_and_f0 (0x80 + n), byte_and_c0 (0x80 + n), bit_and_low 5 (0x80 + n)))

get_length-long :
    (l : ℕ) (lens rp : List ℕ)
    → l < 8
    → length lens ≡ l
    → get_length (long_tag 4 l ∷ (lens ++ rp)) ≡ some ((from_bytes lens + l + 1) % 2 ^ 64, false)
unfolding get_length
get_length-long l lens rp h e =
    let low = long_tag_low 4 l (omega arith) h in
    let front : take l (lens ++ rp) ≡ lens =
      ap (λ (t : ℕ). take t (lens ++ rp)) (sym e) ∙ take-append lens rp in
    ground (
      arith,
      byte_and_f0 (long_tag 4 l),
      byte_and_c0 (long_tag 4 l),
      low,
      front,
      length-append lens rp,
    )

body_shorter : (body : List ℕ) → length body < length (array_with_length body)
unfolding array_with_length
body_shorter body = ground (
  arith,
  length-append (take (byte_length_unsigned (length body)) (to_bytes 8 (length body))) body,
)

module _ (body rest : List ℕ) (small : length body < 256 ^ 7) where
  get_length-array_with_length :
      get_length (array_with_length body ++ rest) ≡ some (length (array_with_length body), false)
  unfolding array_with_length
  get_length-array_with_length = elim (Bool-cases (leb (length body) 31)) [
    | inl e ↦
        rw (e, array_with_length)
          (get_length-short (length body) (body ++ rest) (omega (arith, leb→le _ _ e))
            ∙ ap (λ (n : ℕ). some (n, false)) (omega arith))
    | inr e ↦ rw (e, array_with_length) long
  ]
    where
      l : ℕ
      l = byte_length_unsigned (length body)

      lens : List ℕ
      lens = take l (to_bytes 8 (length body))

      facts : (l < 8) × (length lens ≡ l) × (from_bytes lens ≡ length body)
      facts = length_bytes (length body) small

      long :
          get_length (bit_or (bit_or 0xc0 (0x80 / 4)) (bit_and l 0x07) ∷ ((lens ++ body) ++ rest))
          ≡ some (suc (length (lens ++ body)), false)
      long =
          rw (long_tag-eq 4 l (omega arith) facts.0, append_assoc lens body rest)
            (get_length-long l lens (body ++ rest) facts.0 facts.1
              ∙ ap (λ (n : ℕ). some (n, false))
                  (omega (arith, facts.0, facts.2, facts.1, small, length-append lens body)))

-- A message whose elements read back reads back as their array.
message-reads :
    (om : Serializer) (back : Bool → ℕ → Variant) (body rest : List ℕ) (es : Items)
    → length body < 256 ^ 7
    → items_length es ≤ 2 ^ 31
    → ReadsItems om back body es
    → deserialize_compact (ou om back) (array_with_length body ++ rest) ≡ ok (array es)
unfolding deserialize_compact
message-reads om back body rest es small few reads =
    let total = length (array_with_length body ++ rest) in
    let long_enough : length body < total =
      omega (arith, length-append (array_with_length body) rest, body_shorter body) in
    let elements : deserialize_array (ou om back) (suc (2 * total - 1)) false body ≡ ok (es, []) =
      rw append-nil at
        (reads false (2 * total - 1) [] [] (unfold check_end in refl) (omega arith)) in
    let fuel : suc (2 * total - 1) ≡ 2 * total = omega arith in
    let whole : deserialize (ou om back) (suc (2 * total)) (array_with_length body ++ rest)
        ≡ ok (new_array_of es, rest) =
      deserialize-sized_array (ou om back) (2 * total) _ body rest [] es
        (read_header-array_with_length body rest small) (rw fuel at elements) in
    let plus : 2 * total + 1 ≡ suc (2 * total) = omega arith in
    rw plus (rw whole (ap (λ v. ok v) (new_array_of_lem es few)))

-- A message is written for every list of at most 2^31 values that fit, when their bytes together are
-- fewer than 2^56. Whatever bytes follow it, the length found in its first bytes is its own, and it reads back
-- as the array of the values that the reader is to receive.
pub deserialize_compact-serialize_compact :
    (om : Serializer) (back : Bool → ℕ → Variant) (es : Items)
    → FitsItems om es
    → items_length es ≤ 2 ^ 31
    → ((body : List ℕ) → serialize_items om (items_length es) es ≡ ok body → length body < 256 ^ 7)
    → (bs : List ℕ) × (serialize_compact om es ≡ ok bs)
      × ((rest : List ℕ)
          → (get_length (bs ++ rest) ≡ some (length bs, false))
            × (deserialize_compact (ou om back) (bs ++ rest)
                ≡ ok (array (received_items om back es))))
deserialize_compact-serialize_compact om back es fits few small =
    let (body, done, reads) = serialize_items-reads om back es fits in
    (
      array_with_length body,
      unfold serialize_compact in rw done refl,
      λ rest. (
        get_length-array_with_length body rest (small body done),
        message-reads om back body rest _ (small body done)
            (omega (arith, few, items_length-received_items om back es)) reads,
      ),
    )

-- The elements of a call on a remote object.
module _ (om : Serializer) (back : Bool → ℕ → Variant) (op : ℕ) (is_remote : Bool) (id : ℕ) where
  abbrev op_body : List ℕ
  op_body = serialize_integral 4 op ++ serialize_object_ref is_remote id

  length-op_body : length op_body < 256 ^ 7
  unfolding serialize_integral serialize_object_ref short_form
  length-op_body =
      let op_bytes = take (byte_length_signed (to_bytes 4 op) 4) (to_bytes 4 op) in
      let id_bytes = take (byte_length_signed (to_bytes 8 id) 8) (to_bytes 8 id) in
      omega (
        arith,
        length-append (short_form 0x00 op_bytes) (serialize_object_ref is_remote id),
        length-take (byte_length_signed (to_bytes 4 op) 4) (to_bytes 4 op),
        length-take (byte_length_signed (to_bytes 8 id) 8) (to_bytes 8 id),
        length-to_bytes 4 op,
        length-to_bytes 8 id,
      )

  op_body-reads :
      op < 2 ^ 32
      → id < 2 ^ 64
      → ReadsItems om back op_body (item (int op) (item (back is_remote id) no_items))
  op_body-reads hop hid =
      let ref = serialize_object_ref is_remote id in
      let none_left : ReadsItems om back [] no_items =
        λ x f end rest stop _. deserialize_array-ended (ou om back) f x end rest stop in
      let last : ReadsItems om back (ref ++ []) (item (back is_remote id) no_items) =
        items_step om back ref [] (back is_remote id) no_items (read_ref om back is_remote id hid)
          none_left in
      items_step om back (serialize_integral 4 op) ref (int op) (item (back is_remote id) no_items)
        (λ f r _. deserialize-serialize_int (ou om back) f op r hop)
        (subst (λ (t : List ℕ). ReadsItems om back t (item (back is_remote id) no_items))
          (append-nil ref) last)

-- A call on a remote object reads back as the array of the operation and the object, whatever bytes
-- follow, for a 32-bit operation and a 64-bit object id.
pub deserialize_compact-serialize_object_op :
    (om : Serializer) (back : Bool → ℕ → Variant) (op : ℕ) (is_remote : Bool) (id : ℕ)
    (rest : List ℕ)
    → op < 2 ^ 32
    → id < 2 ^ 64
    → deserialize_compact (ou om back) (serialize_object_op op is_remote id ++ rest)
      ≡ ok (array (item (int op) (item (back is_remote id) no_items)))
unfolding serialize_object_op
deserialize_compact-serialize_object_op om back op is_remote id rest hop hid =
    message-reads om back (op_body om back op is_remote id) rest _
      (length-op_body om back op is_remote id) (unfold items_length in omega arith)
      (op_body-reads om back op is_remote id hop hid)
