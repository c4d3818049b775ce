-- ===== src/Serialize/Encode.antt =====
-- ase/aseserialize.cpp, the writing half. Each function returns the bytes that it appends to the
-- string buffer; sizes are those of a 64-bit size_t.
use ase.Prelude.{
  ℕ, zero, suc, ◌-◌, ◌/◌, ◌%◌, ◌^◌, Bool, true, false, ◌&&◌, Option, none, some, List, [], ◌∷◌,
  ◌++◌, bit_and, bit_or, leb, ◌==◌, if◌then◌else◌, length, get_or, take,
}
use ase.Variant.{
  Variant, Items, Fields, void, boolean, int, long, double, string, array, strmap, object, no_items,
  item, no_fields, field,
}
use ase.Serialize.{Result, ok, err, illegal_operation, Serializer, ◌>>=◌}
use ase.Array.{negative}
use ase.Serialize.Bytes.{to_bytes}

-- ase_serialize_compact_veryshort_form
abbrev pub veryshort_form : ℕ → List ℕ
veryshort_form typetag = typetag ∷ []

-- ase_serialize_compact_short_form
unfoldable pub short_form : ℕ → List ℕ → List ℕ
short_form typetag rp = bit_or typetag (bit_and (length rp) 0x1f) ∷ rp

-- byte_length_unsigned: the rounds of `v >>= 8` until `v` is 0. `v` rounds are always enough.
unfoldable pub byte_length_loop : ℕ → ℕ → ℕ
byte_length_loop zero v = 0
byte_length_loop (suc fuel) v = elim (v == 0) [
  | true ↦ 0
  | false ↦ suc (byte_length_loop fuel (v / 256))
]

unfoldable pub byte_length_unsigned : ℕ → ℕ
byte_length_unsigned v = byte_length_loop v v

-- Whether the byte `q` only repeats the sign bit of the byte below it.
unfoldable pub can_drop : ℕ → ℕ → Bool
can_drop high low =
    if high == 0xff && bit_and low 0x80 == 0x80
    then true
    else (high == 0x00 && bit_and low 0x80 == 0x00)

-- The loop of byte_length_signed_little_endian, over `q = blen - p - 1` down to 1.
unfoldable pub signed_length_loop : List ℕ → ℕ → ℕ
signed_length_loop buf zero = 1
signed_length_loop buf (suc q) = elim (can_drop (get_or buf (suc q) 0) (get_or buf q 0)) [
  | true ↦ signed_length_loop buf q
  | false ↦ suc (suc q)
]

-- byte_length_signed_little_endian
unfoldable pub byte_length_signed : List ℕ → ℕ → ℕ
byte_length_signed buf blen = signed_length_loop buf (blen - 1)

-- ase_serialize_compact_long_form
unfoldable pub long_form : ℕ → List ℕ → List ℕ
long_form typetag rp =
    let length_len = byte_length_unsigned (length rp) in
    bit_or (bit_or 0xc0 (typetag / 4)) (bit_and length_len 0x07)
    ∷ (take length_len (to_bytes 8 (length rp)) ++ rp)

-- ase_serialize_compact_integral, at an integer type of `size` bytes.
unfoldable pub serialize_integral : ℕ → ℕ → List ℕ
serialize_integral size v =
    let vp = to_bytes size v in short_form 0x00 (take (byte_length_signed vp size) vp)

-- ase_serialize_compact_double
unfoldable pub serialize_double : ℕ → List ℕ
serialize_double v = short_form 0x20 (to_bytes 8 v)

-- ase_serialize_compact_string
unfoldable pub serialize_string : List ℕ → List ℕ
serialize_string s = if leb (length s) 31 then short_form 0x60 s else long_form 0x60 s

-- ase_serialize_compact_object_ref
unfoldable pub serialize_object_ref : Bool → ℕ → List ℕ
serialize_object_ref is_remote id =
    let val = to_bytes 8 id in
    short_form 0x40 ((if is_remote then 0xff else 0) ∷ take (byte_length_signed val 8) val)

-- ase_serialize_compact_object: a reference if the serializer gives one, else the object's own form.
unfoldable pub serialize_object : Option (Bool × ℕ) → Result (List ℕ) → Result (List ℕ)
serialize_object (some (is_remote, id)) own = ok (serialize_object_ref is_remote id)
serialize_object none own = own

unfoldable pub items_length : Items → ℕ
items_length no_items = 0
items_length (item e es) = suc (items_length es)

-- The own form of an object: its length is an ase_int, and where it is negative the object is a map.
unfoldable pub own_form : ℕ → Result (List ℕ) → Result (List ℕ) → Result (List ℕ)
own_form len as_array as_assoc = if negative len then as_assoc else as_array

-- The brackets of ase_serialize_compact_array and ase_serialize_compact_assoc.
unfoldable pub bracketed : ℕ → ℕ → List ℕ → List ℕ
bracketed begin_tag end_tag body = veryshort_form begin_tag ++ (body ++ veryshort_form end_tag)

module _ (om : Serializer) where
  -- ase_serialize_compact_internal, ase_serialize_compact_array and ase_serialize_compact_assoc. An
  -- array has no enumerator to be written as a map with. The enumerator of a map starts behind the empty key (StrMap.Enum), so that entry is never met.
  unfoldable mutual
    pub serialize : Variant → Result (List ℕ)
    serialize void = ok (veryshort_form 0xf0)
    serialize (boolean v) = ok (veryshort_form (if v then 0xf3 else 0xf2))
    serialize (int v) = ok (serialize_integral 4 v)
    serialize (long v) = ok (serialize_integral 8 v)
    serialize (double v) = ok (serialize_double v)
    serialize (string s) = ok (serialize_string s)
    serialize (array es) =
        let len = items_length es % 2 ^ 32 in
        let own = (do body ← serialize_items len es; ok (bracketed 0xf4 0xf5 body)) in
        serialize_object (om (array es)) (own_form len own (err illegal_operation))
    serialize (strmap fs) =
        serialize_object (om (strmap fs))
          do body ← serialize_fields fs; ok (bracketed 0xf6 0xf7 body)
    serialize (object handle) = serialize_object (om (object handle)) (err illegal_operation)

    -- The elements before `len`, which is at most their number.
    pub serialize_items : ℕ → Items → Result (List ℕ)
    serialize_items len no_items = ok []
    serialize_items zero (item e es) = ok []
    serialize_items (suc len) (item e es) = do
      first ← serialize e
      rest ← serialize_items len es
      ok (first ++ rest)

    pub serialize_fields : Fields → Result (List ℕ)
    serialize_fields no_fields = ok []
    serialize_fields (field [] v fs) = serialize_fields fs
    serialize_fields (field (c ∷ k) v fs) = do
      value ← serialize v
      rest ← serialize_fields fs
      ok (serialize_string (c ∷ k) ++ (value ++ rest))

-- ase_serialize_compact_array_with_length
unfoldable pub array_with_length : List ℕ → List ℕ
array_with_length body =
    let size = length body in
    let length_len = byte_length_unsigned size in
    if leb size 31
    then bit_or 0x80 (bit_and size 0x1f) ∷ body
    else bit_or (bit_or 0xc0 (0x80 / 4)) (bit_and length_len 0x07)
      ∷ (take length_len (to_bytes 8 size) ++ body)

-- ase_serialize_compact
unfoldable pub serialize_compact : Serializer → Items → Result (List ℕ)
serialize_compact om vs = do
  body ← serialize_items om (items_length vs) vs
  ok (array_with_length body)

-- ase_serialize_compact_object_op
unfoldable pub serialize_object_op : ℕ → Bool → ℕ → List ℕ
serialize_object_op op is_remote obj_id =
    array_with_length (serialize_integral 4 op ++ serialize_object_ref is_remote obj_id)
