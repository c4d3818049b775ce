-- ===== src/Array.antt =====
-- ase/asearray.cpp: the array of variants. An ase_int is its 32-bit pattern, and the index of an
-- element outside the array is answered with the void variant.
pub mod Laws
mod Runs
use ase.Prelude.{
  ℕ, zero, suc, ◌+◌, ◌-◌, ◌*◌, ◌/◌, ◌%◌, ◌^◌, ◌≤◌, ◌<◌, min, ◌≡◌, refl, sym, ap, ◌∙◌, ◌≢◌, ◌↔◌, ◌⊎◌,
  inl, inr, Bool, true, false, ◌&&◌, ◌||◌, not, Option, none, some, List, [], ◌∷◌, ◌++◌, map,
  append-nil, append_assoc, arith, bit_and, bit_or, ltb, leb, ◌==◌, if◌then◌else◌, ltb→lt, lt→ltb,
  leb→le, le→leb, ==_iff, ==_self, tests, Bool-cases, Option-cases, length, get_or, get_elem?, set,
  take, drop, replicate, All, length-append, length-take, length-drop, length-replicate, length-set,
  take-append-drop, take-append, drop-append, All-append,
}

-- `idx < 0` on an ase_int.
abbrev pub negative : ℕ → Bool
negative idx = leb (2 ^ 31) idx

module _ {ℓ} {V : Type ℓ} (void : V) where
  -- std::vector::resize
  unfoldable pub resize : List V → ℕ → List V
  resize array n = take n array ++ replicate (n - length array) void

  -- ase_new_array(len)
  unfoldable pub new_array : ℕ → List V
  new_array len = replicate len void

  unfoldable pub get_element : List V → ℕ → V
  get_element array idx =
      if negative idx || leb (length array) idx then void else get_or array idx void

  unfoldable pub set_element : List V → ℕ → V → List V
  set_element array idx value =
      if negative idx
      then array
      else set (if leb (length array) idx then resize array (idx + 1) else array) idx value

  unfoldable pub get_length : List V → ℕ
  get_length array = length array % 2 ^ 32

  unfoldable pub set_length : List V → ℕ → List V
  set_length array len = resize array (if negative len then 0 else len)
