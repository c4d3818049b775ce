-- ===== src/Array/Laws.antt =====
-- ase/asearray.cpp: what an array answers after it was changed.
use ase.Prelude.{
  ℕ, zero, suc, ◌+◌, ◌-◌, ◌≤◌, ◌<◌, ◌≡◌, refl, sym, ◌∙◌, ◌≢◌, inl, inr, Bool, true, false, ◌&&◌,
  not, List, [], ◌∷◌, arith, ltb, leb, ◌==◌, if◌then◌else◌, Bool-cases, length, get_or, set, take,
  replicate, length-append, length-take, length-replicate, length-set,
}
use ase.Array.{negative, resize, get_element, set_element, set_length}

module _ {ℓ} {V : Type ℓ} (void : V) where
  get_or-set :
      (array : List V) (i j : ℕ) (value : V)
      → i < length array
      → get_or (set array i value) j void ≡ (if i == j then value else get_or array j void)
  get_or-set [] i j value h = ground arith
  get_or-set (x ∷ xs) zero zero value h = refl
  get_or-set (x ∷ xs) zero (suc j) value h = ground arith
  get_or-set (x ∷ xs) (suc i) zero value h = ground arith
  get_or-set (x ∷ xs) (suc i) (suc j) value h = ground (arith, get_or-set xs i j value)

  get_or-replicate : (n j : ℕ) → get_or (replicate n void) j void ≡ void
  get_or-replicate zero j = refl
  get_or-replicate (suc n) zero = refl
  get_or-replicate (suc n) (suc j) = get_or-replicate n j

  get_or-beyond : (array : List V) (j : ℕ) → length array ≤ j → get_or array j void ≡ void
  get_or-beyond [] j h = refl
  get_or-beyond (x ∷ xs) zero h = ground arith
  get_or-beyond (x ∷ xs) (suc j) h = get_or-beyond xs j (omega arith)

  get_or-resize :
      (array : List V) (n j : ℕ)
      → get_or (resize void array n) j void ≡ (if ltb j n then get_or array j void else void)
  unfolding resize
  get_or-resize array zero j = ground (arith, get_or-replicate (0 - length array) j)
  get_or-resize [] (suc n) j = ground (arith, get_or-replicate (suc n - 0) j)
  get_or-resize (x ∷ xs) (suc n) zero = ground arith
  get_or-resize (x ∷ xs) (suc n) (suc j) =
      let shorter : suc n - suc (length xs) ≡ n - length xs = omega arith in
      rw shorter (get_or-resize xs n j ∙ ground arith)

  length-resize : (array : List V) (n : ℕ) → length (resize void array n) ≡ n
  unfolding resize
  length-resize array n = omega (
    arith,
    length-append (take n array) (replicate (n - length array) void),
    length-take n array,
    length-replicate (n - length array) void,
  )

  -- What get_element answers, without the test of the length.
  get_element-get_or :
      (array : List V) (j : ℕ)
      → get_element void array j ≡ (if negative j then void else get_or array j void)
  unfolding get_element
  get_element-get_or array j = ground (arith, get_or-beyond array j)

  -- The test of the index and the test for the element that was set may change places.
  exchange :
      (below here : Bool) (value x y : V)
      → (below ≡ true → here ≡ false)
      → x ≡ y
      → (if below then void else if here then value else x)
        ≡ (if here then value else if below then void else y)
  exchange true true value x y apart same = absurd (true_ne_false (apart refl))
    where
      true_ne_false : true ≢ false
      true_ne_false e = cc
  exchange true false value x y apart same = refl
  exchange false true value x y apart same = refl
  exchange false false value x y apart same = same

  grown :
      (array : List V) (i j : ℕ)
      → length array ≤ i
      → (if ltb j (i + 1) then get_or array j void else void) ≡ get_or array j void
  grown array i j outside = elim (Bool-cases (ltb j (i + 1))) [
    | inl h ↦ rw h refl
    | inr h ↦ rw h (sym (get_or-beyond array j (ground arith)))
  ]

  apart : (i j : ℕ) → negative i ≡ false → negative j ≡ true → (i == j) ≡ false
  apart i j valid below = ground arith

  -- After set_element the element at the index has the new value, unless the index is negative, and
  -- every other element, those that were outside the array included, is what it was.
  pub get_element-set_element :
      (array : List V) (i : ℕ) (value : V) (j : ℕ)
      → get_element void (set_element void array i value) j
        ≡ (if not (negative i) && i == j then value else get_element void array j)
  unfolding set_element
  get_element-set_element array i value j = elim (Bool-cases (negative i)) [
    | inl below ↦ rw below refl
    | inr valid ↦
        rw
          (
            valid,
            get_element-get_or array j,
            get_element-get_or
                (set (if leb (length array) i then resize void array (i + 1) else array) i value) j,
          )
          (elim (Bool-cases (leb (length array) i)) [
            | inl outside ↦
                rw
                  (
                    outside,
                    get_or-set (resize void array (i + 1)) i j value
                        (omega (arith, length-resize array (i + 1))),
                    get_or-resize array (i + 1) j,
                  )
                  (exchange (negative j) (i == j) value _ _ (apart i j valid)
                    (grown array i j (ground arith)))
            | inr inside ↦
                rw (inside, get_or-set array i j value (ground arith))
                  (exchange (negative j) (i == j) value _ _ (apart i j valid) refl)
          ])
  ]

  -- After set_length an element below the new length is what it was, void if there was none, and
  -- there is none above it; a negative length counts as 0.
  pub get_element-set_length :
      (array : List V) (len j : ℕ)
      → get_element void (set_length void array len) j
        ≡ (if not (negative len) && ltb j len then get_element void array j else void)
  unfolding set_length
  get_element-set_length array len j = ground (
    arith,
    get_element-get_or (set_length void array len) j,
    get_element-get_or array j,
    get_or-resize array 0 j,
    get_or-resize array len j,
  )

  -- The length after set_element and after set_length.
  pub length-set_element :
      (array : List V) (i : ℕ) (value : V)
      → (length (set_element void array i value)
          ≡ (if not (negative i) && leb (length array) i then i + 1 else length array))
        × ((len : ℕ) → length (set_length void array len) ≡ (if negative len then 0 else len))
  unfolding set_element set_length
  length-set_element array i value = (
    ground (
      arith,
      length-set array i value,
      length-set (resize void array (i + 1)) i value,
      length-resize array (i + 1),
    ),
    λ len. ground (arith, length-resize array 0, length-resize array len),
  )
