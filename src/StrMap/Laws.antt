-- ===== src/StrMap/Laws.antt =====
-- ase/asestrmap.cpp: what a string map answers after set_property, and the order of its entries.
use ase.Prelude.{
  ℕ, ◌≡◌, refl, ◌↔◌, inl, inr, Bool, true, false, ◌||◌, not, some, List, [], ◌∷◌, arith,
  if◌then◌else◌, Bool-cases,
}
use ase.Variant.Order.{string_lt}
use ase.StrMap.{get_property, set_property}
use ase.StrMap.Order.{string_lt_irrefl, string_lt_total, string_lt_asymm, string_lt_trans}

-- Two keys are the same when neither is below the other.
unfoldable pub same_key : List ℕ → List ℕ → Bool
same_key s j = not (string_lt s j || string_lt j s)

pub same_key_iff : (s j : List ℕ) → same_key s j ≡ true ↔ s ≡ j
unfolding same_key
same_key_iff s j = (
  λ h. string_lt_total s j (ground (arith, h)) (ground (arith, h)),
  λ e. rw e (ground (arith, string_lt_irrefl j)),
)

-- Of two keys one is below the other, or they are the same.
pub data Compared (s k : List ℕ) : Type 0 where
  before : string_lt s k ≡ true → string_lt k s ≡ false → Compared s k
  equal : s ≡ k → Compared s k
  behind : string_lt k s ≡ true → string_lt s k ≡ false → Compared s k

pub compared : (s k : List ℕ) → Compared s k
compared s k = elim (Bool-cases (string_lt s k)) [
  | inl h ↦ before h (string_lt_asymm s k h)
  | inr g ↦ elim (Bool-cases (string_lt k s)) [
    | inl h ↦ behind h g
    | inr g' ↦ equal (string_lt_total s k g g')
  ]
]

module _ {ℓ} {V : Type ℓ} where
  pub set_property-nil : (s : List ℕ) (value : V) → set_property s value [] ≡ (s, value) ∷ []
  unfolding set_property
  set_property-nil s value = refl

  pub set_property-before :
      (s : List ℕ) (value : V) (k : List ℕ) (v : V) (m : List (List ℕ × V))
      → string_lt s k ≡ true
      → set_property s value ((k, v) ∷ m) ≡ (s, value) ∷ (k, v) ∷ m
  unfolding set_property
  set_property-before s value k v m h = rw (string_lt_asymm s k h, h) refl

  pub set_property-same :
      (s : List ℕ) (value v : V) (m : List (List ℕ × V))
      → set_property s value ((s, v) ∷ m) ≡ (s, value) ∷ m
  unfolding set_property
  set_property-same s value v m = rw string_lt_irrefl refl

  pub set_property-behind :
      (s : List ℕ) (value : V) (k : List ℕ) (v : V) (m : List (List ℕ × V))
      → string_lt k s ≡ true
      → set_property s value ((k, v) ∷ m) ≡ (k, v) ∷ set_property s value m
  unfolding set_property
  set_property-behind s value k v m h = rw h refl

  unfoldable pub AllAbove : List ℕ → List (List ℕ × V) → Type 0
  AllAbove s [] = Unit
  AllAbove s ((k, v) ∷ m) = (string_lt s k ≡ true) × AllAbove s m

  -- The order that std::map keeps.
  unfoldable pub Ascending : List (List ℕ × V) → Type 0
  Ascending [] = Unit
  Ascending ((k, v) ∷ m) = AllAbove k m × Ascending m

  pub AllAbove-trans :
      (s k : List ℕ) (m : List (List ℕ × V)) → string_lt s k ≡ true → AllAbove k m → AllAbove s m
  unfolding AllAbove
  AllAbove-trans s k [] h above = tt
  AllAbove-trans s k ((j, v) ∷ m) h above =
      (string_lt_trans s k j h above.0, AllAbove-trans s k m h above.1)

  -- After set_property the key that was set has the new value, and every other key has the value that
  -- it had before.
  pub get_property-set_property :
      (s : List ℕ) (value : V) (m : List (List ℕ × V)) (j : List ℕ)
      → get_property (set_property s value m) j
        ≡ (if same_key s j then some value else get_property m j)
  unfolding get_property same_key
  get_property-set_property s value [] j =
      rw set_property-nil (ground (arith, same_key, string_lt_total s j, string_lt_irrefl j))
  get_property-set_property s value ((k, v) ∷ m) j = elim (compared s k) [
    | before below above ↦
        rw (set_property-before s value k v m below)
          (ground (arith, string_lt_trans j s k, string_lt_asymm j k, below))
    | equal e ↦ rw (e, set_property-same k value v m) (ground (arith, same_key))
    | behind above not_below ↦ rw (set_property-behind s value k v m above) (
        ground (
          arith,
          get_property-set_property s value m j,
          string_lt_trans k s j,
          string_lt_asymm k j,
          string_lt_total s j,
          above,
          string_lt_irrefl j,
        ))
  ]
