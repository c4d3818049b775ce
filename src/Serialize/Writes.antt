-- ===== src/Serialize/Writes.antt =====
-- ase/aseserialize.cpp: the writer succeeds on every value that fits its types.
use ase.Prelude.{
  arith, false, ◌%◌, ◌^◌, ◌<◌, ℕ, ◌≡◌, refl, Bool, Option, none, some, List, [], ◌∷◌, ◌++◌,
}
use ase.Array.{negative}
use ase.Serialize.Encode.{
  own_form, items_length, serialize_string, serialize_fields, serialize_items, serialize_object_ref,
  serialize, serialize_object,
}
use ase.Serialize.Received.{FitsFields, FitsItems, Fits, FitsObject}
use ase.Variant.{Variant, Items, Fields, array, strmap, object, no_items, item, no_fields, field}
use ase.Serialize.{Result, ok, Serializer, ◌>>=◌}

total_object :
    (o : Option (Bool × ℕ)) (own : Result (List ℕ)) (P : Type 0)
    → FitsObject o P
    → (P → (bs : List ℕ) × (own ≡ ok bs))
    → (bs : List ℕ) × (serialize_object o own ≡ ok bs)
unfolding FitsObject serialize_object
total_object none own P fits k = k fits
total_object (some (r, id)) own P fits k = (serialize_object_ref r id, refl)

total_bind :
    (m : Result (List ℕ)) (g : List ℕ → List ℕ)
    → (bs : List ℕ) × (m ≡ ok bs)
    → (bs : List ℕ) × ((m >>= λ b. ok (g b)) ≡ ok bs)
total_bind m g (bs, e) = (g bs, rw e refl)

total_two :
    (m n : Result (List ℕ)) (g : List ℕ → List ℕ → List ℕ)
    → (bs : List ℕ) × (m ≡ ok bs)
    → (bs : List ℕ) × (n ≡ ok bs)
    → (bs : List ℕ) × ((m >>= λ a. n >>= λ b. ok (g a b)) ≡ ok bs)
total_two m n g (a, e) (b, e') = (g a b, rw e (rw e' refl))

-- The length of an array that fits is what it is as an ase_int, and is not negative.
pub short_array :
    (es : Items)
    → items_length es < 2 ^ 31
    → (negative (items_length es % 2 ^ 32) ≡ false) × (items_length es % 2 ^ 32 ≡ items_length es)
short_array es h = (ground (arith, h), omega (arith, h))

module _ (om : Serializer) where
  mutual
    unfolding serialize Fits items_length own_form

    pub total_value : (v : Variant) → Fits om v → (bs : List ℕ) × (serialize om v ≡ ok bs)
    total_value (array es) fits = total_object (om (array es)) _ _ fits λ own.
        let (low, same) = short_array es own.0 in
        rw (low, same) (total_bind _ _ (total_items es own.1))
    total_value (strmap fs) fits =
        total_object (om (strmap fs)) _ _ fits λ own. total_bind _ _ (total_fields fs own)
    total_value (object handle) fits = total_object (om (object handle)) _ _ fits λ own. absurd own
    total_value _ fits = (_, refl)

    pub total_items :
        (es : Items)
        → FitsItems om es
        → (bs : List ℕ) × (serialize_items om (items_length es) es ≡ ok bs)
    total_items no_items fits = ([], refl)
    total_items (item v es) fits =
        total_two _ _ (λ a b. a ++ b) (total_value v fits.0) (total_items es fits.1)

    pub total_fields :
        (fs : Fields) → FitsFields om fs → (bs : List ℕ) × (serialize_fields om fs ≡ ok bs)
    total_fields no_fields fits = ([], refl)
    total_fields (field [] v fs) fits = total_fields fs fits.2
    total_fields (field (c ∷ k) v fs) fits =
        total_two _ _ (λ a b. serialize_string (c ∷ k) ++ (a ++ b)) (total_value v fits.1)
          (total_fields fs fits.2)
