-- ===== src/Serialize/Runs.antt =====
-- ase/aseserialize.cpp: runs of the serializer and of the reader on concrete values.
use ase.Prelude.{
  ℕ, ◌+◌, ◌*◌, ◌^◌, ◌<◌, ◌≡◌, refl, sym, ap, ◌∙◌, ◌≢◌, Bool, true, false, none, some, List, [], ◌∷◌,
  ◌++◌, arith, length, take,
}
use ase.Variant.{
  Variant, Items, void, int, long, string, array, strmap, no_items, item, no_fields, field,
}
use ase.Serialize.{ok, out_of_fuel, Serializer, Deserializer}
use ase.Serialize.Bytes.{to_bytes}
use ase.Serialize.Encode.{
  items_length, serialize, serialize_items, serialize_integral, serialize_string, serialize_compact,
  serialize_object_op, byte_length_signed, signed_length_loop, can_drop, short_form,
}
use ase.Serialize.Decode.{
  deserialize, deserialize_compact, deserialize_integral, get_length, read_header, sized, str_tag,
  split_data, type_tag_of,
}
use ase.Serialize.Reads.{ok_injective, ou}
use ase.Serialize.Integers.{deserialize_integral-to_bytes}
use ase.Serialize.Received.{Fits, FitsItems, FitsObject, received, received_items}
use ase.Serialize.RoundTrip.{deserialize-serialize}
use ase.Serialize.Compact.{
  deserialize_compact-serialize_compact, deserialize_compact-serialize_object_op,
}
use ase.Serialize.Total.{Answers, deserialize_ends}
use ase.Serialize.Framing.{Counted, get_length-deserialize}

-- No object goes by reference; a reference that comes all the same stands for the void variant.
abbrev no_references : Serializer
no_references = λ v. none

abbrev void_object : Bool → ℕ → Variant
void_object is_remote id = void

abbrev answer : Deserializer
answer is_remote id = ok void

-- A map with an array in it.
abbrev sample : Variant
sample = strmap (
    field (97 ∷ []) (array (item (int 300) (item (long 70000) no_items)))
      (field (98 ∷ []) (string (99 ∷ 100 ∷ [])) no_fields))

sample-Fits : Fits no_references sample
unfolding Fits FitsObject items_length
sample-Fits =
    (omega arith, (omega arith, (omega arith, (omega arith, tt))), (omega arith, omega arith, tt))

deserialize-serialize_example :
    (bs : List ℕ) × (serialize no_references sample ≡ ok bs)
    × ((f : ℕ) (rest : List ℕ)
        → 2 * length bs < f
        → deserialize (ou no_references void_object) f (bs ++ rest)
          ≡ ok (received no_references void_object sample, rest))
deserialize-serialize_example = deserialize-serialize no_references void_object sample sample-Fits

abbrev message : Items
message = item (int 7) (item (string (104 ∷ 105 ∷ [])) no_items)

message-Fits : FitsItems no_references message
unfolding Fits
message-Fits = (omega arith, (omega arith, tt))

message-bytes : serialize_items no_references 2 message ≡ ok (1 ∷ 7 ∷ 0x62 ∷ 104 ∷ 105 ∷ [])
unfolding serialize serialize_integral serialize_string byte_length_signed signed_length_loop
    can_drop short_form to_bytes
message-bytes = refl

message-small :
    (body : List ℕ) → serialize_items no_references 2 message ≡ ok body → length body < 256 ^ 7
message-small body e = omega (arith, ap length (ok_injective (sym message-bytes ∙ e)))

deserialize_compact-serialize_compact_example :
    (bs : List ℕ) × (serialize_compact no_references message ≡ ok bs)
    × ((rest : List ℕ)
        → (get_length (bs ++ rest) ≡ some (length bs, false))
          × (deserialize_compact (ou no_references void_object) (bs ++ rest)
              ≡ ok (array (received_items no_references void_object message))))
unfolding items_length
deserialize_compact-serialize_compact_example =
    deserialize_compact-serialize_compact no_references void_object message message-Fits
      (omega arith) message-small

deserialize_compact-serialize_object_op_example :
    deserialize_compact (ou no_references void_object) (serialize_object_op 3 true 1000 ++ 9 ∷ [])
    ≡ ok (array (item (int 3) (item void no_items)))
deserialize_compact-serialize_object_op_example =
    deserialize_compact-serialize_object_op no_references void_object 3 true 1000 (9 ∷ [])
      (omega arith) (omega arith)

answer-Answers : Answers answer
answer-Answers is_remote id = ground arith

-- An array that is never closed.
deserialize_ends_example :
    (deserialize answer 9 (0xf4 ∷ 1 ∷ 5 ∷ []) ≢ out_of_fuel)
    × ((v : Variant) (rest : List ℕ)
        → deserialize answer 9 (0xf4 ∷ 1 ∷ 5 ∷ []) ≡ ok (v, rest)
        → length rest < 3)
deserialize_ends_example =
    deserialize_ends answer answer-Answers 9 (0xf4 ∷ 1 ∷ 5 ∷ []) (omega arith)

-- The text "abc", and one more byte.
abbrev abc : List ℕ
abc = 0x63 ∷ 97 ∷ 98 ∷ 99 ∷ 7 ∷ []

abc-header : read_header abc ≡ ok (sized str_tag (97 ∷ 98 ∷ 99 ∷ []) (7 ∷ []))
unfolding read_header split_data type_tag_of
abc-header = refl

abc-read : deserialize answer 1 abc ≡ ok (string (97 ∷ 98 ∷ 99 ∷ []), 7 ∷ [])
unfolding deserialize read_header split_data type_tag_of
abc-read = refl

abc-Counted : Counted (sized str_tag (97 ∷ 98 ∷ 99 ∷ []) (7 ∷ []))
unfolding Counted
abc-Counted = tt

get_length-deserialize_example : (n : ℕ) × (get_length abc ≡ some (n, false)) × (n + 1 ≡ 5)
get_length-deserialize_example =
    get_length-deserialize answer 0 abc (sized str_tag (97 ∷ 98 ∷ 99 ∷ []) (7 ∷ []))
      (string (97 ∷ 98 ∷ 99 ∷ [])) (7 ∷ [])
      (omega arith, (omega arith, (omega arith, (omega arith, (omega arith, tt))))) abc-header
      abc-Counted abc-read

deserialize_integral-to_bytes_example :
    deserialize_integral 8 (take (byte_length_signed (to_bytes 8 70000) 8) (to_bytes 8 70000))
    ≡ 70000
deserialize_integral-to_bytes_example = deserialize_integral-to_bytes 7 70000 (omega arith)
