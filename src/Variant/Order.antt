-- ===== src/Variant/Order.antt =====
-- ase/ase/ase.hpp, `operator <` of ase_string: memcmp on the common length, then the shorter first.
use ase.Prelude.{ℕ, Bool, true, false, List, [], ◌∷◌, ltb, if◌then◌else◌, length, take, min}

-- The sign of memcmp over equally long blocks.
pub data Sign : Type 0 where
  below same above : Sign

unfoldable pub memcmp : List ℕ → List ℕ → Sign
memcmp [] ys = same
memcmp (x ∷ xs) [] = same
memcmp (x ∷ xs) (y ∷ ys) =
    let rest = memcmp xs ys in if ltb x y then below else if ltb y x then above else rest

-- `x < y` on ase_string.
unfoldable pub string_lt : List ℕ → List ℕ → Bool
unfolding memcmp
string_lt x y =
    let len = min (length x) (length y) in
    elim (memcmp (take len x) (take len y)) [
      | below ↦ true
      | above ↦ false
      | same ↦ ltb (length x) (length y)
    ]
