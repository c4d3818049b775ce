-- ===== src/Serialize/Decode.antt =====
-- ase/aseserialize.cpp, the reading half. A pair `rp`, `rp_end` is the list of the bytes between
-- them, and a function that moves `rp` returns the bytes that are left.
use ase.Prelude.{
  ℕ, zero, suc, ◌+◌, ◌-◌, ◌*◌, ◌^◌, Bool, true, false, ◌&&◌, not, ◌%◌, Option, none, some, List, [],
  ◌∷◌, ◌++◌, bit_and, ltb, leb, ◌==◌, if◌then◌else◌, length, get_or, take, drop, replicate,
}
use ase.Variant.{
  Variant, Items, Fields, void, boolean, int, long, double, string, array, strmap, no_items, item,
  no_fields, field,
}
use ase.Array.{set_element}
use ase.Serialize.{Result, Error, ok, err, out_of_fuel, Deserializer, ◌>>=◌}
use ase.Serialize.Bytes.{from_bytes}
use ase.StrMap

-- ase_deserialize_compact_integral into an integer of `size` bytes that is 0 before: memcpy, then
-- memset with 0xff if the last byte has its sign bit.
unfoldable pub deserialize_integral : ℕ → List ℕ → ℕ
deserialize_integral size bytes =
    let dlen = length bytes in
    let fill : ℕ =
      if not (dlen == size) && bit_and (get_or bytes (dlen - 1) 0) 0x80 == 0x80 then 0xff else 0 in
    from_bytes (bytes ++ replicate (size - dlen) fill)

-- ase_deserialize_compact_int
unfoldable pub deserialize_int : List ℕ → Result Variant
deserialize_int bytes =
    let dlen = length bytes in
    if ltb 8 dlen
    then err Error.int_too_large
    else if dlen == 0
    then ok (int 0)
    else if leb dlen 4
    then ok (int (deserialize_integral 4 bytes))
    else ok (long (deserialize_integral 8 bytes))

-- ase_deserialize_compact_double
unfoldable pub deserialize_double : List ℕ → Result Variant
deserialize_double bytes =
    if not (length bytes == 8)
    then err Error.real_unsupported_size
    else ok (double (from_bytes bytes))

-- ase_deserialize_compact_object, the id apart.
unfoldable pub object_id : List ℕ → Result ℕ
object_id id_bytes =
    let dlen_id = length id_bytes in
    if dlen_id == 0
    then ok 0
    else if ltb 8 dlen_id
    then err Error.object_ref_unsupported_size
    else ok (deserialize_integral 8 id_bytes)

-- ase_deserialize_compact_object
unfoldable pub deserialize_object : Deserializer → List ℕ → Result Variant
deserialize_object ou [] = err Error.object_ref_malformed
deserialize_object ou (remote ∷ id_bytes) = do id ← object_id id_bytes; ou (not (remote == 0)) id

-- The cases of the two `switch` statements of ase_deserialize_compact_internal.
pub data Immediate : Type 0 where
  imm_void imm_false imm_true imm_array imm_assoc imm_invalid : Immediate

unfoldable pub immediate_of : ℕ → Immediate
immediate_of tag =
    if tag == 0xf0
    then imm_void
    else if tag == 0xf2
    then imm_false
    else if tag == 0xf3
    then imm_true
    else if tag == 0xf4
    then imm_array
    else if tag == 0xf6
    then imm_assoc
    else imm_invalid

pub data TypeTag : Type 0 where
  int_tag real_tag obj_tag str_tag array_tag assoc_tag unknown_tag : TypeTag

unfoldable pub type_tag_of : ℕ → TypeTag
type_tag_of typetag =
    if typetag == 0x00
    then int_tag
    else if typetag == 0x20
    then real_tag
    else if typetag == 0x40
    then obj_tag
    else if typetag == 0x60
    then str_tag
    else if typetag == 0x80
    then array_tag
    else if typetag == 0xa0
    then assoc_tag
    else unknown_tag

-- What ase_deserialize_compact_internal has read before its last `switch`: the bytes that are left
-- behind an immediate tag, or the data and the bytes behind it.
pub data Header : Type 0 where
  immediate : Immediate → List ℕ → Header
  sized : TypeTag → List ℕ → List ℕ → Header

-- The data of length `data_len` off the front.
unfoldable pub split_data : ℕ → ℕ → List ℕ → Result Header
split_data typetag data_len rp =
    if ltb (length rp) data_len
    then err Error.too_short
    else ok (sized (type_tag_of typetag) (take data_len rp) (drop data_len rp))

unfoldable pub long_header : ℕ → List ℕ → Result Header
long_header tag rp =
    let datalen_len = bit_and tag 0x07 in
    if ltb 8 datalen_len
    then err Error.too_large_data
    else if ltb (length rp) datalen_len
    then err Error.too_short
    else split_data (bit_and (tag * 4) 0xe0) (from_bytes (take datalen_len rp))
        (drop datalen_len rp)

unfoldable pub read_header : List ℕ → Result Header
read_header [] = err Error.too_short
read_header (tag ∷ rp) =
    if bit_and tag 0xf0 == 0xf0
    then ok (immediate (immediate_of tag) rp)
    else if not (bit_and tag 0xc0 == 0xc0)
    then split_data (bit_and tag 0xe0) (bit_and tag 0x1f) rp
    else long_header tag rp

-- `asval.set_property(k, v)` on the entries of a map, which Fields spells out.
unfoldable pub to_entries : Fields → List (List ℕ × Variant)
to_entries no_fields = []
to_entries (field k v fs) = (k, v) ∷ to_entries fs

unfoldable pub of_entries : List (List ℕ × Variant) → Fields
of_entries [] = no_fields
of_entries ((k, v) ∷ m) = field k v (of_entries m)

unfoldable pub set_field : List ℕ → Variant → Fields → Fields
set_field k v fs = of_entries (StrMap.set_property k v (to_entries fs))

-- `kv.get_type() != ase_vtype_string`
unfoldable pub key_of : Variant → Result (List ℕ)
key_of (string s) = ok s
key_of void = err Error.wrong_assoc_key
key_of _ = err Error.wrong_assoc_key

-- The elements that `arrval.set(idx++, ev)` puts into an array, from the index `idx` on. The index is an
-- ase_int: at a negative one nothing is set (asearray.cpp).
unfoldable pub set_items : ℕ → List Variant → Items → List Variant
set_items idx arrval no_items = arrval
set_items idx arrval (item ev es) =
    set_items ((idx + 1) % 2 ^ 32) (set_element void arrval idx ev) es

unfoldable pub of_elements : List Variant → Items
of_elements [] = no_items
of_elements (e ∷ es) = item e (of_elements es)

-- The array that is made of the elements that were read.
unfoldable pub new_array_of : Items → Variant
new_array_of es = array (of_elements (set_items 0 [] es))

-- Whether the loop of an array or a map ends at `rp`, and where: at the end of the data if no end
-- tag is expected, else at the end tag.
pub data AtEnd : Type 0 where
  more : AtEnd
  ended : List ℕ → AtEnd

unfoldable pub check_end : ℕ → Error → Bool → List ℕ → Result AtEnd
check_end end_tag unexpected true [] = err Error.too_short
check_end end_tag unexpected false [] = ok (ended [])
check_end end_tag unexpected expect_end_tag (tag ∷ rp) =
    if tag == end_tag then (if expect_end_tag then ok (ended rp) else err unexpected) else ok more

module _ (ou : Deserializer) where
  -- ase_deserialize_compact_internal, ase_deserialize_compact_array and
  -- ase_deserialize_compact_assoc; the fuel bounds the depth of the calls and the rounds of the loops.
  unfoldable mutual
    pub deserialize : ℕ → List ℕ → Result (Variant × List ℕ)
    deserialize zero rp = out_of_fuel
    deserialize (suc fuel) rp = read_header rp >>= λ h. elim h [
      | immediate imm_void rest ↦ ok (void, rest)
      | immediate imm_false rest ↦ ok (boolean false, rest)
      | immediate imm_true rest ↦ ok (boolean true, rest)
      | immediate imm_array rest ↦ do
        (es, rest') ← deserialize_array fuel true rest
        ok (new_array_of es, rest')
      | immediate imm_assoc rest ↦ do
        (fs, rest') ← deserialize_assoc fuel true no_fields rest
        ok (strmap fs, rest')
      | immediate imm_invalid rest ↦ err Error.invalid_tag
      | sized int_tag bytes rest ↦ do v ← deserialize_int bytes; ok (v, rest)
      | sized real_tag bytes rest ↦ do v ← deserialize_double bytes; ok (v, rest)
      | sized obj_tag bytes rest ↦ do v ← deserialize_object ou bytes; ok (v, rest)
      | sized str_tag bytes rest ↦ ok (string bytes, rest)
      | sized array_tag bytes rest ↦ do
        (es, _) ← deserialize_array fuel false bytes
        ok (new_array_of es, rest)
      | sized assoc_tag bytes rest ↦ do
        (fs, _) ← deserialize_assoc fuel false no_fields bytes
        ok (strmap fs, rest)
      | sized unknown_tag bytes rest ↦ err Error.malformed
    ]

    -- The elements read from here to the end. No error or end of the loop depends on `arrval`, so that
    -- they are set behind it (new_array_of).
    pub deserialize_array : ℕ → Bool → List ℕ → Result (Items × List ℕ)
    deserialize_array zero expect_end_tag rp = out_of_fuel
    deserialize_array (suc fuel) expect_end_tag rp =
        check_end 0xf5 Error.unexpected_array_end_tag expect_end_tag rp >>= λ c. elim c [
          | ended rest ↦ ok (no_items, rest)
          | more ↦ do
            (ev, rest) ← deserialize fuel rp
            (es, rest') ← deserialize_array fuel expect_end_tag rest
            ok (item ev es, rest')
        ]

    pub deserialize_assoc : ℕ → Bool → Fields → List ℕ → Result (Fields × List ℕ)
    deserialize_assoc zero expect_end_tag asval rp = out_of_fuel
    deserialize_assoc (suc fuel) expect_end_tag asval rp =
        check_end 0xf7 Error.unexpected_assoc_end_tag expect_end_tag rp >>= λ c. elim c [
          | ended rest ↦ ok (asval, rest)
          | more ↦ do
            (kv, rest) ← deserialize fuel rp
            k ← key_of kv
            (ev, rest') ← deserialize fuel rest
            deserialize_assoc fuel expect_end_tag (set_field k ev asval) rest'
        ]

-- ase_deserialize_compact: what follows the value is not looked at.
unfoldable pub deserialize_compact : Deserializer → List ℕ → Result Variant
deserialize_compact ou str = do (v, _) ← deserialize ou (2 * length str + 1) str; ok v

-- ase_deserialize_compact_get_length: `none` if the length part is incomplete (the source returns
-- false), else the length and whether it overflows.
unfoldable pub get_length : List ℕ → Option (ℕ × Bool)
get_length [] = none
get_length (tag ∷ rest) =
    let datalen_len = bit_and tag 0x07 in
    if bit_and tag 0xf0 == 0xf0
    then some (1, false)
    else if not (bit_and tag 0xc0 == 0xc0)
    then some (bit_and tag 0x1f + 1, false)
    else if ltb (length rest) datalen_len
    then none
    else if ltb 8 datalen_len
    then some (0, true)
    else some ((from_bytes (take datalen_len rest) + datalen_len + 1) % 2 ^ 64, false)
