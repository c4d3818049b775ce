-- ===== src/StrMap.antt =====
-- ase/asestrmap.cpp: the entries of a string map, a std::map kept in the order of its keys.
pub mod Order
pub mod Laws
pub mod Enum
mod Runs
use ase.Prelude.{
  ℕ, zero, suc, Bool, true, false, Option, none, some, List, [], ◌∷◌, ltb, if◌then◌else◌, length,
}
use ase.Variant.Order.{string_lt}

module _ {ℓ} {V : Type ℓ} where
  -- get_property: `none` where the source answers with the void variant.
  unfoldable pub get_property : List (List ℕ × V) → List ℕ → Option V
  get_property [] s = none
  get_property ((k, v) ∷ m) s =
      let rest = get_property m s in
      if string_lt k s then rest else if string_lt s k then none else some v

  -- set_property: `strmap[s] = value`.
  unfoldable pub set_property : List ℕ → V → List (List ℕ × V) → List (List ℕ × V)
  set_property s value [] = (s, value) ∷ []
  set_property s value ((k, v) ∷ m) =
      let rest = set_property s value m in
      if string_lt k s
      then (k, v) ∷ rest
      else if string_lt s k
      then (s, value) ∷ (k, v) ∷ m
      else (k, value) ∷ m

  -- std::map::upper_bound: the first entry whose key is above `key`.
  unfoldable pub upper_bound : List ℕ → List (List ℕ × V) → Option (List ℕ × V)
  upper_bound key [] = none
  upper_bound key ((k, v) ∷ m) =
      let rest = upper_bound key m in if string_lt key k then some (k, v) else rest

  -- The enumerator (ase_smenum_varimpl) is its map and the last key that it gave; enum_next moves on.
  unfoldable pub enum_next : List (List ℕ × V) → List ℕ → Option (List ℕ)
  enum_next m key = elim (upper_bound key m) [ none ↦ none | some (k, v) ↦ some k ]

  -- The loop `while (true) { enum_next … }` of a client, which collects the keys it is given.
  unfoldable pub enum_all : ℕ → List (List ℕ × V) → List ℕ → List (List ℕ)
  enum_all zero m key = []
  enum_all (suc fuel) m key = elim (enum_next m key) [ none ↦ [] | some k ↦ k ∷ enum_all fuel m k ]

  -- get_enumerator, then the loop: the enumerator's key starts as the empty string.
  unfoldable pub enumerate : List (List ℕ × V) → List (List ℕ)
  enumerate m = enum_all (suc (length m)) m []
