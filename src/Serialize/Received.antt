-- ===== src/Serialize/Received.antt =====
-- What the reader of a serialized value gets: the value itself, but for an integer that fits the
-- narrower type, for the objects that go by reference, and for the entry of a map at the empty key.
use ase.Prelude.{
  suc, refl, ap, ◌≡◌, ℕ, ◌%◌, ◌^◌, ◌<◌, Bool, Option, none, some, [], ◌∷◌, if◌then◌else◌, length,
}
use ase.Variant.{
  Variant, Items, Fields, void, boolean, int, long, double, string, array, strmap, object, no_items,
  item, no_fields, field,
}
use ase.Serialize.{Serializer}
use ase.Serialize.Integers.{fits_int}
use ase.Serialize.Decode.{set_field}
use ase.Serialize.Encode.{items_length}

-- An object that goes by reference, or its own form.
unfoldable pub received_object : (Bool → ℕ → Variant) → Option (Bool × ℕ) → Variant → Variant
received_object back (some (is_remote, id)) own = back is_remote id
received_object back none own = own

module _ (om : Serializer) (back : Bool → ℕ → Variant) where
  unfoldable mutual
    pub received : Variant → Variant
    received (long v) = if fits_int v then int (v % 2 ^ 32) else long v
    received (array es) = received_object back (om (array es)) (array (received_items es))
    received (strmap fs) =
        received_object back (om (strmap fs)) (strmap (received_fields no_fields fs))
    received (object handle) = received_object back (om (object handle)) void
    received void = void
    received (boolean v) = boolean v
    received (int v) = int v
    received (double v) = double v
    received (string s) = string s

    pub received_items : Items → Items
    received_items no_items = no_items
    received_items (item e es) = item (received e) (received_items es)

    pub received_fields : Fields → Fields → Fields
    received_fields got no_fields = got
    received_fields got (field [] v fs) = received_fields got fs
    received_fields got (field (c ∷ k) v fs) =
        received_fields (set_field (c ∷ k) (received v) got) fs

-- The reader gets as many elements as there are.
pub items_length-received_items :
    (om : Serializer) (back : Bool → ℕ → Variant) (es : Items)
    → items_length (received_items om back es) ≡ items_length es
unfolding received items_length
items_length-received_items om back no_items = refl
items_length-received_items om back (item e es) = ap suc (items_length-received_items om back es)

-- A reference has a 64-bit id; the own form of an object is held to `P`.
unfoldable pub FitsObject : Option (Bool × ℕ) → Type 0 → Type 0
FitsObject (some (is_remote, id)) P = id < 2 ^ 64
FitsObject none P = P

module _ (om : Serializer) where
  -- The patterns have the widths of their types, no text has 2^56 bytes, no array
  -- that is written itself 2^31 elements, and an object that is no
  -- array and no map goes by reference.
  unfoldable mutual
    pub Fits : Variant → Type 0
    Fits void = Unit
    Fits (boolean v) = Unit
    Fits (int v) = v < 2 ^ 32
    Fits (long v) = v < 2 ^ 64
    Fits (double v) = v < 2 ^ 64
    Fits (string s) = length s < 256 ^ 7
    Fits (array es) = FitsObject (om (array es)) ((items_length es < 2 ^ 31) × FitsItems es)
    Fits (strmap fs) = FitsObject (om (strmap fs)) (FitsFields fs)
    Fits (object handle) = FitsObject (om (object handle)) ⊥

    pub FitsItems : Items → Type 0
    FitsItems no_items = Unit
    FitsItems (item e es) = Fits e × FitsItems es

    pub FitsFields : Fields → Type 0
    FitsFields no_fields = Unit
    FitsFields (field k v fs) = (length k < 256 ^ 7) × Fits v × FitsFields fs
