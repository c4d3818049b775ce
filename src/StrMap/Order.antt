-- ===== src/StrMap/Order.antt =====
-- ase/ase/ase.hpp, `operator <` of ase_string: it is the strict total order of a dictionary.
use ase.Prelude.{
  ℕ, suc, min, ◌≡◌, refl, true, false, List, [], ◌∷◌, arith, ltb, if◌then◌else◌, length,
}
use ase.Variant.Order.{string_lt, memcmp}

pub string_lt-nil : (ys : List ℕ) → string_lt [] ys ≡ ltb 0 (length ys)
unfolding string_lt memcmp
string_lt-nil ys =
    let none_shared : min 0 (length ys) ≡ 0 = omega arith in rw (none_shared, string_lt) refl

string_lt-cons_nil : (x : ℕ) (xs : List ℕ) → string_lt (x ∷ xs) [] ≡ false
unfolding string_lt memcmp
string_lt-cons_nil x xs =
    let none_shared : min (suc (length xs)) 0 ≡ 0 = omega arith in
    rw (none_shared, string_lt) (ground arith)

-- The first byte decides, then the rest.
pub string_lt-cons :
    (x : ℕ) (xs : List ℕ) (y : ℕ) (ys : List ℕ)
    → string_lt (x ∷ xs) (y ∷ ys)
      ≡ (if ltb x y then true else if ltb y x then false else string_lt xs ys)
unfolding string_lt memcmp
string_lt-cons x xs y ys =
    let shorter : min (suc (length xs)) (suc (length ys)) ≡ suc (min (length xs) (length ys)) =
      omega arith in
    rw (shorter, string_lt) (ground arith)

pub string_lt_irrefl : (x : List ℕ) → string_lt x x ≡ false
string_lt_irrefl [] = ground (arith, string_lt-nil [])
string_lt_irrefl (x ∷ xs) = ground (arith, string_lt-cons x xs x xs, string_lt_irrefl xs)

-- One of two different texts is below the other.
pub string_lt_total : (x y : List ℕ) → string_lt x y ≡ false → string_lt y x ≡ false → x ≡ y
string_lt_total [] [] h k = refl
string_lt_total [] (y ∷ ys) h k = ground (arith, string_lt-nil (y ∷ ys))
string_lt_total (x ∷ xs) [] h k = ground (arith, string_lt-nil (x ∷ xs))
string_lt_total (x ∷ xs) (y ∷ ys) h k =
    ground (arith, string_lt-cons x xs y ys, string_lt-cons y ys x xs, string_lt_total xs ys)

pub string_lt_asymm : (x y : List ℕ) → string_lt x y ≡ true → string_lt y x ≡ false
string_lt_asymm [] [] h = ground (arith, string_lt-nil [])
string_lt_asymm [] (y ∷ ys) h = string_lt-cons_nil y ys
string_lt_asymm (x ∷ xs) [] h = ground (arith, string_lt-cons_nil x xs)
string_lt_asymm (x ∷ xs) (y ∷ ys) h =
    ground (arith, string_lt-cons x xs y ys, string_lt-cons y ys x xs, string_lt_asymm xs ys)

-- The order of the keys is transitive.
pub string_lt_trans :
    (x y z : List ℕ) → string_lt x y ≡ true → string_lt y z ≡ true → string_lt x z ≡ true
string_lt_trans [] [] z h k = ground (arith, string_lt-nil [])
string_lt_trans (x ∷ xs) [] z h k = ground (arith, string_lt-cons_nil x xs)
string_lt_trans x (y ∷ ys) [] h k = ground (arith, string_lt-cons_nil y ys)
string_lt_trans [] (y ∷ ys) (z ∷ zs) h k = ground (arith, string_lt-nil (z ∷ zs))
string_lt_trans (x ∷ xs) (y ∷ ys) (z ∷ zs) h k = ground (
  arith,
  string_lt-cons x xs y ys,
  string_lt-cons y ys z zs,
  string_lt-cons x xs z zs,
  string_lt_trans xs ys zs,
)
