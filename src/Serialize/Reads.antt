-- ===== src/Serialize/Reads.antt =====
-- ase/aseserialize.cpp: what it means that bytes read back as a value, and how that carries over from
-- the parts of an array or a map to the whole.
use ase.Prelude.{
  ℕ, zero, suc, ◌+◌, ◌*◌, ◌^◌, ◌≤◌, ◌<◌, ◌≡◌, refl, ap, ◌∙◌, arith, Bool, true, Option, none, some,
  List, [], ◌∷◌, ◌++◌, append_assoc, length, length-append, append-nil,
}
use mathlib.Core.Path.{subst}
use ase.Variant.{Variant, Items, Fields, string, array, strmap, item, no_fields}
use ase.Serialize.{Result, Error, ok, err, out_of_fuel, Serializer, Deserializer, ◌>>=◌}
use ase.Serialize.Arrays.{new_array_of_lem}
use ase.Serialize.Encode.{
  items_length, serialize_object, serialize_object_ref, bracketed, serialize_string,
}
use ase.Serialize.Decode.{
  deserialize, deserialize_array, deserialize_assoc, check_end, ended, set_field,
}
use ase.Serialize.Received.{received_fields, received_object, FitsObject}
use ase.Serialize.Steps.{
  deserialize-array_begin, deserialize-assoc_begin, deserialize_array-more, deserialize_assoc-more,
  deserialize-more,
}
use ase.Serialize.Values.{deserialize-serialize_string, deserialize-serialize_object_ref}

-- Inversion of a chain that succeeds.
pub chain_ok {ℓ κ} :
    {X : Type ℓ} {Y : Type κ} (r : Result X) (next : X → Result Y) {y : Y} (e : (r >>= next) ≡ ok y)
    → (x : X) × (r ≡ ok x) × (next x ≡ ok y)
chain_ok out_of_fuel next e = cc
chain_ok (err failure) next e = cc
chain_ok (ok x) next e = (x, refl, e)

pub ok_injective {ℓ} : {A : Type ℓ} {a b : A} → ok a ≡ ok b → a ≡ b
ok_injective e = cc

module _ (om : Serializer) (back : Bool → ℕ → Variant) where
  abbrev pub ou : Deserializer
  ou is_remote id = ok (back is_remote id)

  -- With enough fuel the bytes read back as `w`, whatever follows.
  abbrev pub Reads : List ℕ → Variant → Type 0
  Reads bs w =
      (f : ℕ) (rest : List ℕ)
      → 2 * length bs ≤ f
      → deserialize ou (suc f) (bs ++ rest) ≡ ok (w, rest)

  -- The elements read back up to the end that the caller set.
  abbrev pub ReadsItems : List ℕ → Items → Type 0
  ReadsItems bs es =
      (x : Bool) (f : ℕ) (end rest : List ℕ)
      → check_end 0xf5 Error.unexpected_array_end_tag x end ≡ ok (ended rest)
      → 2 * length bs + 1 ≤ f
      → deserialize_array ou (suc f) x (bs ++ end) ≡ ok (es, rest)

  abbrev pub ReadsFields : List ℕ → Fields → Type 0
  ReadsFields bs fs =
      (x : Bool) (got : Fields) (f : ℕ) (end rest : List ℕ)
      → check_end 0xf7 Error.unexpected_assoc_end_tag x end ≡ ok (ended rest)
      → 2 * length bs + 1 ≤ f
      → deserialize_assoc ou (suc f) x got (bs ++ end) ≡ ok (received_fields om back got fs, rest)

  pub read_ref :
      (is_remote : Bool) (id : ℕ)
      → id < 2 ^ 64
      → Reads (serialize_object_ref is_remote id) (back is_remote id)
  read_ref r id h f rest _ = deserialize-serialize_object_ref ou f id rest r h

  -- An object by reference or in its own form.
  pub read_object :
      (o : Option (Bool × ℕ)) (own : Result (List ℕ)) (P : Type 0) (w : Variant) (bs : List ℕ)
      → FitsObject o P
      → serialize_object o own ≡ ok bs
      → (P → own ≡ ok bs → Reads bs w)
      → Reads bs (received_object back o w)
  unfolding FitsObject serialize_object received_object
  read_object none own P w bs fits e k = k fits e
  read_object (some (r, id)) own P w bs fits e k =
      subst (λ (t : List ℕ). Reads t (back r id)) (ok_injective e) (read_ref r id fits)

  brackets : (b e : ℕ) (body rest : List ℕ) → bracketed b e body ++ rest ≡ b ∷ (body ++ (e ∷ rest))
  unfolding bracketed
  brackets b e body rest = ap (λ (t : List ℕ). b ∷ t) (append_assoc body (e ∷ []) rest)

  length-bracketed : (b e : ℕ) (body : List ℕ) → length (bracketed b e body) ≡ length body + 2
  unfolding bracketed
  length-bracketed b e body = omega (arith, length-append body (e ∷ []))

  pub read_array :
      (body : List ℕ) (es : Items)
      → items_length es ≤ 2 ^ 31
      → ReadsItems body es
      → Reads (bracketed 0xf4 0xf5 body) (array es)
  read_array body es few ih zero rest h = absurd (omega (arith, length-bracketed 0xf4 0xf5 body))
  read_array body es few ih (suc f) rest h =
      let enough : 2 * length body + 1 ≤ f = omega (arith, length-bracketed 0xf4 0xf5 body) in
      let closed = ih true f (0xf5 ∷ rest) rest (unfold check_end in refl) enough in
      rw brackets (
        deserialize-array_begin ou (suc f) (body ++ (0xf5 ∷ rest)) rest es closed
        ∙ ap (λ v. ok (v, rest)) (new_array_of_lem es few))

  pub read_assoc :
      (body : List ℕ) (fs : Fields)
      → ReadsFields body fs
      → Reads (bracketed 0xf6 0xf7 body) (strmap (received_fields om back no_fields fs))
  read_assoc body fs ih zero rest h = absurd (omega (arith, length-bracketed 0xf6 0xf7 body))
  read_assoc body fs ih (suc f) rest h =
      let enough : 2 * length body + 1 ≤ f = omega (arith, length-bracketed 0xf6 0xf7 body) in
      let closed = ih true no_fields f (0xf7 ∷ rest) rest (unfold check_end in refl) enough in
      rw brackets (deserialize-assoc_begin ou (suc f) (body ++ (0xf7 ∷ rest)) rest _ closed)

  -- At any fuel above the bound.
  pub Reads-at :
      (bs : List ℕ) (w : Variant)
      → Reads bs w
      → (f : ℕ) (rest : List ℕ) → 2 * length bs < f
      → deserialize ou f (bs ++ rest) ≡ ok (w, rest)
  Reads-at bs w r (suc f) rest h = r f rest (omega arith)
  Reads-at bs w r zero rest h = absurd (omega arith)

  Reads-whole :
      (bs : List ℕ) (w : Variant)
      → Reads bs w
      → deserialize ou (suc (2 * length bs)) bs ≡ ok (w, [])
  Reads-whole bs w r = rw append-nil at (r (2 * length bs) [] (omega arith))

  pub items_step :
      (first others : List ℕ) (e : Variant) (es : Items)
      → Reads first e
      → ReadsItems others es
      → ReadsItems (first ++ others) (item e es)
  items_step first others e es re res x zero end rest stop h = absurd (omega arith)
  items_step first others e es re res x (suc f) end rest stop h =
      let size = length-append first others in
      let some_byte =
        deserialize-more ou (2 * length first) Error.unexpected_array_end_tag x first
          (others ++ end) (Reads-whole first e re) in
      rw (append_assoc first others end) (
        deserialize_array-more ou (suc f) x _ (others ++ end) rest e es some_byte.1
          (Reads-at first e re (suc f) (others ++ end) (omega (arith, size)))
          (res x f end rest stop (omega (arith, size, some_byte.0))))

  pub fields_step :
      (k value others : List ℕ) (w : Variant) (fs fs' : Fields)
      → length k < 256 ^ 7
      → Reads value w
      → ReadsFields others fs
      → ((got : Fields)
          → received_fields om back got fs' ≡ received_fields om back (set_field k w got) fs)
      → ReadsFields (serialize_string k ++ (value ++ others)) fs'
  fields_step k value others w fs fs' hk rv rfs same x got zero end rest stop h =
      absurd (omega arith)
  fields_step k value others w fs fs' hk rv rfs same x got (suc f) end rest stop h =
      let key = serialize_string k in
      let rk : Reads key (string k) = λ g r _. deserialize-serialize_string ou g k r hk in
      let size : length (key ++ (value ++ others)) ≡ length key + (length value + length others) =
        omega (arith, length-append key (value ++ others), length-append value others) in
      let some_byte =
        deserialize-more ou (2 * length key) Error.unexpected_assoc_end_tag x key
          (value ++ (others ++ end)) (Reads-whole key (string k) rk) in
      let whole : (key ++ (value ++ others)) ++ end ≡ key ++ (value ++ (others ++ end)) =
        append_assoc key (value ++ others) end
        ∙ ap (λ (t : List ℕ). key ++ t) (append_assoc value others end) in
      rw (whole, same got)
        (deserialize_assoc-more ou (suc f) x got k _ (value ++ (others ++ end)) (others ++ end) w
            some_byte.2 (Reads-at key (string k) rk (suc f) _ (omega (arith, size)))
            (Reads-at value w rv (suc f) (others ++ end) (omega (arith, size, some_byte.0)))
          ∙ rfs x (set_field k w got) f end rest stop (omega (arith, size, some_byte.0)))
