-- ===== src/Search/Table.antt =====
-- ase/gtcpp/horspool.cpp: what the table of the shifts says of the needle.
use ase.Prelude.{
  ℕ, zero, suc, ◌+◌, ◌-◌, ◌≤◌, ◌<◌, ◌≡◌, refl, ◌∙◌, inl, inr, false, List, [], ◌∷◌, arith, ltb,
  ◌==◌, if◌then◌else◌, ltb→lt, lt→ltb, Bool-cases, length, get_or, set, replicate, All,
  length-replicate, length-set,
}
use ase.Search.{shift_loop, create_shift}

get_or-set :
    (xs : List ℕ) (i j v : ℕ)
    → i < length xs
    → get_or (set xs i v) j 0 ≡ (if i == j then v else get_or xs j 0)
get_or-set [] i j v h = ground arith
get_or-set (x ∷ xs) zero zero v h = refl
get_or-set (x ∷ xs) zero (suc j) v h = ground arith
get_or-set (x ∷ xs) (suc i) zero v h = ground arith
get_or-set (x ∷ xs) (suc i) (suc j) v h = ground (arith, get_or-set xs i j v)

get_or-replicate : (n a j : ℕ) → j < n → get_or (replicate n a) j 0 ≡ a
get_or-replicate zero a j h = absurd (omega arith)
get_or-replicate (suc n) a zero h = refl
get_or-replicate (suc n) a (suc j) h = get_or-replicate n a j (omega arith)

loop_steps :
    (last i b : ℕ) (bytes shift : List ℕ)
    → i < last
    → shift_loop last i (b ∷ bytes) shift ≡ shift_loop last (i + 1) bytes (set shift b (last - i))
unfolding shift_loop
loop_steps last i b bytes shift h = rw (lt→ltb i last h, shift_loop) refl

loop_stops :
    (last i b : ℕ) (bytes shift : List ℕ)
    → ltb i last ≡ false
    → shift_loop last i (b ∷ bytes) shift ≡ shift
unfolding shift_loop
loop_stops last i b bytes shift h = rw (h, shift_loop) refl

loop_nil : (last i : ℕ) (shift : List ℕ) → shift_loop last i [] shift ≡ shift
unfolding shift_loop
loop_nil last i shift = refl

module _ (last c : ℕ) where
  -- No shift is 0.
  loop_positive :
      (i : ℕ) (bytes shift : List ℕ)
      → All (λ b. b < 256) bytes
      → length shift ≡ 256
      → 1 ≤ get_or shift c 0
      → 1 ≤ get_or (shift_loop last i bytes shift) c 0
  loop_positive i [] shift all size h = rw (loop_nil last i shift) h
  loop_positive i (b ∷ bytes) shift all size h = elim (Bool-cases (ltb i last)) [
    | inl k ↦ rw (loop_steps last i b bytes shift (ltb→lt i last k)) (
        loop_positive (i + 1) bytes (set shift b (last - i)) all.1
          (length-set shift b (last - i) ∙ size)
          (ground (arith, get_or-set shift b c (last - i), all.0)))
    | inr k ↦ rw (loop_stops last i b bytes shift k) h
  ]

  -- The shifts only go down.
  loop_lower :
      (i : ℕ) (bytes shift : List ℕ)
      → All (λ b. b < 256) bytes
      → length shift ≡ 256
      → last - i ≤ get_or shift c 0
      → get_or (shift_loop last i bytes shift) c 0 ≤ get_or shift c 0
  loop_lower i [] shift all size h = rw (loop_nil last i shift) (omega arith)
  loop_lower i (b ∷ bytes) shift all size h = elim (Bool-cases (ltb i last)) [
    | inl k ↦
        let ih =
          loop_lower (i + 1) bytes (set shift b (last - i)) all.1
            (length-set shift b (last - i) ∙ size)
            (ground (arith, get_or-set shift b c (last - i), all.0)) in
        rw (loop_steps last i b bytes shift (ltb→lt i last k))
          (ground (arith, ih, get_or-set shift b c (last - i), all.0))
    | inr k ↦ rw (loop_stops last i b bytes shift k) (omega arith)
  ]

  -- The shift of a byte does not pass an occurrence of it in front of the last byte.
  loop_bounds :
      (i : ℕ) (bytes shift : List ℕ) (k : ℕ)
      → All (λ b. b < 256) bytes
      → length shift ≡ 256
      → k < length bytes
      → i + k < last
      → get_or bytes k 0 ≡ c
      → get_or (shift_loop last i bytes shift) c 0 ≤ last - (i + k)
  loop_bounds i [] shift k all size h g e = absurd (omega arith)
  loop_bounds i (b ∷ bytes) shift zero all size h g e =
      let here = get_or-set shift b c (last - i) (omega (arith, all.0, size)) in
      let later =
        loop_lower (i + 1) bytes (set shift b (last - i)) all.1
          (length-set shift b (last - i) ∙ size) (ground (arith, here)) in
      rw (loop_steps last i b bytes shift (omega arith)) (ground (arith, here, later))
  loop_bounds i (b ∷ bytes) shift (suc k) all size h g e =
      let later =
        loop_bounds (i + 1) bytes (set shift b (last - i)) k all.1
          (length-set shift b (last - i) ∙ size) (omega arith) (omega arith) e in
      rw (loop_steps last i b bytes shift (omega arith)) (omega (arith, later))

-- A shift is at least 1, at most the length of the needle, and at most the distance from an
-- occurrence of the byte to the end.
pub create_shift_bounds :
    (needle : List ℕ) (c : ℕ)
    → All (λ b. b < 256) needle
    → 1 ≤ length needle
    → c < 256
    → (1 ≤ get_or (create_shift needle) c 0)
      × (get_or (create_shift needle) c 0 ≤ length needle)
      × ((k : ℕ)
          → k < length needle - 1
          → get_or needle k 0 ≡ c
          → get_or (create_shift needle) c 0 ≤ length needle - 1 - k)
unfolding create_shift
create_shift_bounds needle c all some_byte h =
    let table = replicate 256 (length needle) in
    let size = length-replicate 256 (length needle) in
    (
      loop_positive (length needle - 1) c 0 needle table all size
          (omega (arith, get_or-replicate 256 (length needle) c h, some_byte)),
      omega (
        arith,
        loop_lower (length needle - 1) c 0 needle table all size
            (omega (arith, get_or-replicate 256 (length needle) c h)),
        get_or-replicate 256 (length needle) c h,
      ),
      λ k below e. omega (
        arith,
        loop_bounds (length needle - 1) c 0 needle table k all size
            (omega (arith, below, some_byte)) (omega (arith, below)) e,
      ),
    )
