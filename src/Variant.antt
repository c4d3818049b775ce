-- ===== src/Variant.antt =====
-- ase/ase/ase.hpp: the values that scripts exchange (ase_variant), as trees of plain data.
-- An integer is its two's complement bit pattern, a double the pattern of its eight bytes.
pub mod Order
use ase.Prelude.{ℕ, Bool, List, Option}

mutual
  -- The cases of ase_vtype; the objects are ase_array_varimpl, ase_strmap_varimpl, and any other.
  pub data Variant : Type 0 where
    void : Variant
    boolean : Bool → Variant
    int : ℕ → Variant
    long : ℕ → Variant
    double : ℕ → Variant
    string : List ℕ → Variant
    array : Items → Variant
    strmap : Fields → Variant
    object : ℕ → Variant

  pub data Items : Type 0 where
    no_items : Items
    item : Variant → Items → Items

  -- The entries of a std::map, in the order of its keys.
  pub data Fields : Type 0 where
    no_fields : Fields
    field : List ℕ → Variant → Fields → Fields
