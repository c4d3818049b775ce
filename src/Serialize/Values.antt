-- ===== src/Serialize/Values.antt =====
-- ase/aseserialize.cpp: each value that is no container reads back from what was written for it.
use ase.Prelude.{
  ℕ, suc, ◌%◌, ◌^◌, ◌≤◌, ◌<◌, ◌≡◌, refl, ◌∙◌, arith, Bool, true, false, not, List, ◌∷◌, ◌++◌,
  append_assoc, leb, ◌==◌, if◌then◌else◌, length, take, Bool-cases, inl, inr, length-take, leb→le,
}
use ase.Variant.{int, long, double, string}
use ase.Serialize.{ok, Deserializer, ◌>>=◌}
use ase.Serialize.Bytes.{to_bytes, from_bytes, length-to_bytes, from_bytes-to_bytes}
use ase.Serialize.Encode.{
  short_form, long_form, byte_length_unsigned, byte_length_signed, serialize_integral,
  serialize_double, serialize_string, serialize_object_ref,
}
use ase.Serialize.Decode.{
  deserialize, deserialize_int, deserialize_double, deserialize_object, deserialize_integral,
  object_id, read_header, sized, str_tag, type_tag_of,
}
use ase.Serialize.Integers.{
  fits_int, long_length, deserialize_integral-to_bytes, deserialize_integral-long,
  byte_length_signed_bounds,
}
use ase.Serialize.Header.{read_header-short_form, read_header-long_bytes}

leb-false : (a b : ℕ) → leb a b ≡ false → b < a
leb-false a b h = ground arith

-- The branches of the readers by the length of the data.
module _ (bytes : List ℕ) where
  deserialize_int_short :
      0 < length bytes
      → length bytes ≤ 4
      → deserialize_int bytes ≡ ok (int (deserialize_integral 4 bytes))
  unfolding deserialize_int
  deserialize_int_short lo hi = ground arith

  deserialize_int_long :
      4 < length bytes
      → length bytes ≤ 8
      → deserialize_int bytes ≡ ok (long (deserialize_integral 8 bytes))
  unfolding deserialize_int
  deserialize_int_long lo hi = ground arith

  deserialize_double_eight :
      length bytes ≡ 8 → deserialize_double bytes ≡ ok (double (from_bytes bytes))
  unfolding deserialize_double
  deserialize_double_eight e = ground arith

  object_id_kept :
      0 < length bytes → length bytes ≤ 8 → object_id bytes ≡ ok (deserialize_integral 8 bytes)
  unfolding object_id
  object_id_kept lo hi = ground arith

remote_flag : (b : Bool) → not ((if b then 0xff else 0) == 0) ≡ b
remote_flag true = refl
remote_flag false = refl

module _ (ou : Deserializer) (f : ℕ) (bytes rest : List ℕ) where
  read_int :
      length bytes < 32
      → deserialize ou (suc f) (short_form 0x00 bytes ++ rest)
        ≡ (deserialize_int bytes >>= λ v. ok (v, rest))
  unfolding deserialize type_tag_of
  read_int h = rw (read_header-short_form 0 bytes rest (omega arith) h) refl

  read_double :
      length bytes < 32
      → deserialize ou (suc f) (short_form 0x20 bytes ++ rest)
        ≡ (deserialize_double bytes >>= λ v. ok (v, rest))
  unfolding deserialize type_tag_of
  read_double h = rw (read_header-short_form 1 bytes rest (omega arith) h) refl

  read_object :
      length bytes < 32
      → deserialize ou (suc f) (short_form 0x40 bytes ++ rest)
        ≡ (deserialize_object ou bytes >>= λ v. ok (v, rest))
  unfolding deserialize type_tag_of
  read_object h = rw (read_header-short_form 2 bytes rest (omega arith) h) refl

  read_header-serialize_string :
      length bytes < 256 ^ 7
      → read_header (serialize_string bytes ++ rest) ≡ ok (sized str_tag bytes rest)
  unfolding serialize_string long_form type_tag_of
  read_header-serialize_string h = elim (Bool-cases (leb (length bytes) 31)) [
    | inl e ↦
        rw (e, serialize_string)
          (read_header-short_form 3 bytes rest (omega arith) (omega (arith, leb→le _ _ e)))
    | inr e ↦
        rw (e, serialize_string)
          (rw
            (append_assoc (take (byte_length_unsigned (length bytes)) (to_bytes 8 (length bytes)))
              bytes rest)
            (read_header-long_bytes 3 bytes rest (omega arith) h))
  ]

  -- A text of fewer than 2^56 bytes reads back whole, whatever bytes follow.
  pub deserialize-serialize_string :
      length bytes < 256 ^ 7
      → deserialize ou (suc f) (serialize_string bytes ++ rest) ≡ ok (string bytes, rest)
  unfolding deserialize
  deserialize-serialize_string h = rw (read_header-serialize_string h) refl

module _ (ou : Deserializer) (f v : ℕ) (rest : List ℕ) where
  kept_length :
      (q : ℕ)
      → length (take (byte_length_signed (to_bytes (suc q) v) (suc q)) (to_bytes (suc q) v))
        ≡ byte_length_signed (to_bytes (suc q) v) (suc q)
  kept_length q = omega (
    arith,
    length-take (byte_length_signed (to_bytes (suc q) v) (suc q)) (to_bytes (suc q) v),
    length-to_bytes (suc q) v,
    byte_length_signed_bounds q v,
  )

  -- A 32-bit integer reads back, whatever bytes follow.
  pub deserialize-serialize_int :
      v < 2 ^ 32 → deserialize ou (suc f) (serialize_integral 4 v ++ rest) ≡ ok (int v, rest)
  unfolding serialize_integral
  deserialize-serialize_int h =
      let bounds = byte_length_signed_bounds 3 v in
      let kept = take (byte_length_signed (to_bytes 4 v) 4) (to_bytes 4 v) in
      read_int ou f kept rest (omega (arith, kept_length 3, bounds.1))
      ∙ rw
          (
            deserialize_int_short kept (omega (arith, kept_length 3, bounds.0))
                (omega (arith, kept_length 3, bounds.1)),
            deserialize_integral-to_bytes 3 v h,
          )
          refl

  -- A 64-bit integer reads back, as the 32-bit one if it fits that, whatever bytes follow.
  pub deserialize-serialize_long :
      v < 2 ^ 64
      → deserialize ou (suc f) (serialize_integral 8 v ++ rest)
        ≡ ok ((if fits_int v then int (v % 2 ^ 32) else long v), rest)
  unfolding serialize_integral
  deserialize-serialize_long h =
      let bounds = byte_length_signed_bounds 7 v in
      let n = byte_length_signed (to_bytes 8 v) 8 in
      let kept = take n (to_bytes 8 v) in
      let fits : leb n 4 ≡ fits_int v = long_length v h in
      read_int ou f kept rest (omega (arith, kept_length 7, bounds.1))
      ∙ elim (Bool-cases (fits_int v)) [
        | inl e ↦ rw e (
            rw
              (
                deserialize_int_short kept (omega (arith, kept_length 7, bounds.0))
                    (omega (arith, kept_length 7, leb→le n 4 (fits ∙ e))),
                deserialize_integral-long v h e,
              )
              refl)
        | inr e ↦ rw e (
            rw
              (
                deserialize_int_long kept (omega (arith, kept_length 7, leb-false n 4 (fits ∙ e)))
                    (omega (arith, kept_length 7, bounds.1)),
                deserialize_integral-to_bytes 7 v h,
              )
              refl)
      ]

  pub deserialize-serialize_double :
      v < 2 ^ 64 → deserialize ou (suc f) (serialize_double v ++ rest) ≡ ok (double v, rest)
  unfolding serialize_double
  deserialize-serialize_double h =
      read_double ou f (to_bytes 8 v) rest (omega (arith, length-to_bytes 8 v))
      ∙ rw
          (deserialize_double_eight (to_bytes 8 v) (length-to_bytes 8 v), from_bytes-to_bytes 8 v h)
          refl

  -- A reference with a 64-bit id reads back as what the deserializer answers for it, whatever bytes
  -- follow.
  pub deserialize-serialize_object_ref :
      (is_remote : Bool)
      → v < 2 ^ 64
      → deserialize ou (suc f) (serialize_object_ref is_remote v ++ rest)
        ≡ (ou is_remote v >>= λ w. ok (w, rest))
  unfolding serialize_object_ref deserialize_object
  deserialize-serialize_object_ref is_remote h =
      let bounds = byte_length_signed_bounds 7 v in
      let kept = take (byte_length_signed (to_bytes 8 v) 8) (to_bytes 8 v) in
      let remote : ℕ = if is_remote then 0xff else 0 in
      read_object ou f (remote ∷ kept) rest (omega (arith, kept_length 7, bounds.1))
      ∙ rw
          (
            object_id_kept kept (omega (arith, kept_length 7, bounds.0))
                (omega (arith, kept_length 7, bounds.1)),
            deserialize_integral-to_bytes 7 v h,
            remote_flag is_remote,
          )
          refl
