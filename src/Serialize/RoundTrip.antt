-- ===== src/Serialize/RoundTrip.antt =====
-- ase/aseserialize.cpp: what was written for a value, of any depth, reads back.
use ase.Serialize.Received.{
  items_length-received_items, received, received_items, received_fields, Fits, FitsItems,
  FitsFields,
}
use ase.Prelude.{
  arith, ◌++◌, ◌<◌, length, ◌*◌, ℕ, ◌≡◌, refl, Bool, true, false, List, [], ◌∷◌, if◌then◌else◌,
}
use ase.Serialize.Writes.{short_array, total_items, total_value}
use ase.Serialize.Encode.{
  own_form, items_length, serialize, serialize_items, serialize_fields, bracketed, serialize_string,
  serialize_integral, serialize_double,
}
use ase.Serialize.Reads.{
  Reads-at, chain_ok, ok_injective, ou, Reads, ReadsItems, ReadsFields, read_object, read_array,
  read_assoc, items_step, fields_step,
}
use mathlib.Core.Path.{subst}
use ase.Variant.{
  Variant, Items, Fields, void, boolean, int, long, double, string, array, strmap, object, no_items,
  item, no_fields, field,
}
use ase.Serialize.{ok, Serializer}
use ase.Serialize.Decode.{deserialize, read_header, immediate_of}
use ase.Serialize.Steps.{deserialize_array-ended, deserialize_assoc-ended}
use ase.Serialize.Values.{
  deserialize-serialize_int, deserialize-serialize_long, deserialize-serialize_double,
  deserialize-serialize_string,
}

module _ (om : Serializer) (back : Bool → ℕ → Variant) where
  -- The bytes of a successful call.
  Reads-of :
      (bs bs' : List ℕ) (w : Variant) → ok bs ≡ ok bs' → Reads om back bs w → Reads om back bs' w
  Reads-of bs bs' w e = subst (λ (t : List ℕ). Reads om back t w) (ok_injective e)

  read_void : Reads om back (0xf0 ∷ []) void
  unfolding deserialize read_header immediate_of
  read_void f rest _ = refl

  read_boolean : (v : Bool) → Reads om back ((if v then 0xf3 else 0xf2) ∷ []) (boolean v)
  unfolding deserialize read_header immediate_of
  read_boolean true f rest _ = refl
  read_boolean false f rest _ = refl

  -- One induction over the value.
  mutual
    unfolding serialize Fits received items_length own_form

    read_value :
        (v : Variant) (bs : List ℕ)
        → Fits om v
        → serialize om v ≡ ok bs
        → Reads om back bs (received om back v)
    read_value void bs fits e = Reads-of (0xf0 ∷ []) bs void e read_void
    read_value (boolean v) bs fits e =
        Reads-of ((if v then 0xf3 else 0xf2) ∷ []) bs (boolean v) e (read_boolean v)
    read_value (int v) bs fits e =
        Reads-of (serialize_integral 4 v) bs (int v) e
          (λ f rest _. deserialize-serialize_int (ou om back) f v rest fits)
    read_value (long v) bs fits e =
        Reads-of (serialize_integral 8 v) bs (received om back (long v)) e
          (λ f rest _. deserialize-serialize_long (ou om back) f v rest fits)
    read_value (double v) bs fits e =
        Reads-of (serialize_double v) bs (double v) e
          (λ f rest _. deserialize-serialize_double (ou om back) f v rest fits)
    read_value (string s) bs fits e =
        Reads-of (serialize_string s) bs (string s) e
          (λ f rest _. deserialize-serialize_string (ou om back) f s rest fits)
    read_value (array es) bs fits e =
        read_object om back (om (array es)) _ _ (array (received_items om back es)) bs fits e
          λ own e'.
            let (low, same) = short_array es own.0 in
            let (body, done, whole) =
              chain_ok (serialize_items om (items_length es) es) _ (rw (low, same) at e') in
            Reads-of (bracketed 0xf4 0xf5 body) bs _ whole (
              read_array om back body (received_items om back es)
                (omega (arith, own.0, items_length-received_items om back es))
                (read_items es body own.1 done))
    read_value (strmap fs) bs fits e =
        read_object om back (om (strmap fs)) _ _ (strmap (received_fields om back no_fields fs)) bs
          fits e
          λ own e'.
            let (body, done, whole) = chain_ok (serialize_fields om fs) _ e' in
            Reads-of (bracketed 0xf6 0xf7 body) bs _ whole
              (read_assoc om back body fs (read_fields fs body own done))
    read_value (object handle) bs fits e =
        read_object om back (om (object handle)) _ _ void bs fits e λ own e'. absurd own

    read_items :
        (es : Items) (bs : List ℕ)
        → FitsItems om es
        → serialize_items om (items_length es) es ≡ ok bs
        → ReadsItems om back bs (received_items om back es)
    read_items no_items bs fits e =
        subst (λ (t : List ℕ). ReadsItems om back t no_items) (ok_injective e)
          (λ x f end rest stop _. deserialize_array-ended (ou om back) f x end rest stop)
    read_items (item v es) bs fits e =
        let (first, done, others_e) = chain_ok (serialize om v) _ e in
        let (others, dones, whole) =
          chain_ok (serialize_items om (items_length es) es) _ others_e in
        subst (λ (t : List ℕ). ReadsItems om back t (received_items om back (item v es)))
          (ok_injective whole)
          (items_step om back first others (received om back v) (received_items om back es)
            (read_value v first fits.0 done) (read_items es others fits.1 dones))

    read_fields :
        (fs : Fields) (bs : List ℕ)
        → FitsFields om fs
        → serialize_fields om fs ≡ ok bs
        → ReadsFields om back bs fs
    read_fields no_fields bs fits e =
        subst (λ (t : List ℕ). ReadsFields om back t no_fields) (ok_injective e)
          (λ x got f end rest stop _. deserialize_assoc-ended (ou om back) f x got end rest stop)
    read_fields (field [] v fs) bs fits e = read_fields fs bs fits.2 e
    read_fields (field (c ∷ k) v fs) bs fits e =
        let (value, done, others_e) = chain_ok (serialize om v) _ e in
        let (others, dones, whole) = chain_ok (serialize_fields om fs) _ others_e in
        subst (λ (t : List ℕ). ReadsFields om back t (field (c ∷ k) v fs)) (ok_injective whole)
          (fields_step om back (c ∷ k) value others (received om back v) fs (field (c ∷ k) v fs)
            fits.0 (read_value v value fits.1 done) (read_fields fs others fits.2 dones)
            (λ got. refl))

  -- Every value that fits is written, and what was written reads back as the value that the reader
  -- is to receive, whatever bytes follow, with any fuel above twice the length of what was written.
  pub deserialize-serialize :
      (v : Variant)
      → Fits om v
      → (bs : List ℕ) × (serialize om v ≡ ok bs)
        × ((f : ℕ) (rest : List ℕ)
            → 2 * length bs < f
            → deserialize (ou om back) f (bs ++ rest) ≡ ok (received om back v, rest))
  deserialize-serialize v fits =
      let (bs, e) = total_value om v fits in
      (bs, e, Reads-at om back bs (received om back v) (read_value v bs fits e))

  pub serialize_items-reads :
      (es : Items)
      → FitsItems om es
      → (bs : List ℕ) × (serialize_items om (items_length es) es ≡ ok bs)
        × ReadsItems om back bs (received_items om back es)
  serialize_items-reads es fits =
      let (bs, e) = total_items om es fits in (bs, e, read_items es bs fits e)
