-- ===== src/Utf/Text.antt =====
-- ase/aseutfconv.cpp: the conversions of whole texts.
use ase.Prelude.{
  ℕ, zero, suc, ◌+◌, ◌-◌, ◌*◌, ◌/◌, ◌%◌, ◌≤◌, ◌<◌, ◌≡◌, refl, ap, ◌∙◌, some, List, [], ◌∷◌, ◌++◌,
  arith, length, All, length-append,
}
use ase.Utf.{Turn, advance, success, turn_8to16, turn_16to8, uconv, write, uconv_8to16, uconv_16to8}
use ase.Utf.Scalar.{
  Scalar, utf8, utf16, utf8s, utf16s, one, two, three, four, width, utf8-one, utf8-two, utf8-three,
  utf8-four, utf16-one, utf16-two,
}
use ase.Utf.Widen.{
  turn_8to16-one, turn_8to16-two, turn_8to16-three, turn_8to16-four, two_bytes-utf8,
  three_bytes-utf8, four_bytes-utf8,
}
use ase.Utf.Narrow.{
  turn_16to8-one, turn_16to8-two, turn_16to8-three, turn_16to8-four, surrogates-utf16,
}

module _ (turn : ℕ → List ℕ → ℕ → Turn) where
  pub uconv-advance :
      (fuel c : ℕ) (r rest units : List ℕ) (room : ℕ)
      → turn c r room ≡ advance rest units
      → uconv turn (suc fuel) (c ∷ r) room
        ≡ write units (uconv turn fuel rest (room - length units))
  unfolding uconv
  uconv-advance fuel c r rest units room e = rw (e, uconv) refl

  pub uconv-nil : (fuel room : ℕ) → uconv turn fuel [] room ≡ some (success, [], [])
  unfolding uconv
  uconv-nil fuel room = refl

short_room : (u room : ℕ) → u < 65536 → length (utf16 u) ≤ room → 1 ≤ room
short_room u room h enough = omega (arith, ap length (utf16-one u h), enough)

-- One turn reads one scalar value.
pub uconv_8to16-Scalar :
    (u fuel : ℕ) (rest : List ℕ) (room : ℕ)
    → Scalar u
    → length (utf16 u) ≤ room
    → uconv turn_8to16 (suc fuel) (utf8 u ++ rest) room
      ≡ write (utf16 u) (uconv turn_8to16 fuel rest (room - length (utf16 u)))
unfolding Scalar
uconv_8to16-Scalar u fuel rest room scalar enough = elim (width u) [
  | one h ↦
      let r1 = short_room u room (omega arith) enough in
      rw (utf8-one u h, utf16-one u (omega arith))
        (uconv-advance turn_8to16 fuel _ _ _ _ room (turn_8to16-one u rest room h r1))
  | two h k ↦
      let r1 = short_room u room (omega arith) enough in
      let branch =
        turn_8to16-two (192 + u / 64) ((128 + u % 64) ∷ rest) room (omega arith) (omega arith) r1 in
      rw (utf8-two u h k, utf16-one u (omega arith))
        (uconv-advance turn_8to16 fuel _ _ _ _ room (branch ∙ two_bytes-utf8 u rest h k))
  | three h k ↦
      let r1 = short_room u room k enough in
      let branch =
        turn_8to16-three (224 + u / 4096) ((128 + u / 64 % 64) ∷ (128 + u % 64) ∷ rest) room
          (omega arith) (omega arith) r1 in
      rw (utf8-three u h k, utf16-one u k)
        (uconv-advance turn_8to16 fuel _ _ _ _ room (branch ∙ three_bytes-utf8 u rest h k scalar))
  | four h ↦
      let r2 : 2 ≤ room = omega (arith, ap length (utf16-two u h), enough) in
      let branch =
        turn_8to16-four (240 + u / 262144)
          ((128 + u / 4096 % 64) ∷ (128 + u / 64 % 64) ∷ (128 + u % 64) ∷ rest) room (omega arith)
          (omega (arith, scalar.0)) r2 in
      rw (utf8-four u h, utf16-two u h)
        (uconv-advance turn_8to16 fuel _ _ _ _ room (branch ∙ four_bytes-utf8 u rest h scalar.0))
]

pub uconv_16to8-Scalar :
    (u fuel : ℕ) (rest : List ℕ) (room : ℕ)
    → Scalar u
    → length (utf8 u) ≤ room
    → uconv turn_16to8 (suc fuel) (utf16 u ++ rest) room
      ≡ write (utf8 u) (uconv turn_16to8 fuel rest (room - length (utf8 u)))
unfolding Scalar
uconv_16to8-Scalar u fuel rest room scalar enough = elim (width u) [
  | one h ↦
      let r1 : 1 ≤ room = omega (arith, ap length (utf8-one u h), enough) in
      rw (utf8-one u h, utf16-one u (omega arith))
        (uconv-advance turn_16to8 fuel _ _ _ _ room (turn_16to8-one u rest room h r1))
  | two h k ↦
      let r2 : 2 ≤ room = omega (arith, ap length (utf8-two u h k), enough) in
      rw (utf8-two u h k, utf16-one u (omega arith))
        (uconv-advance turn_16to8 fuel _ _ _ _ room (turn_16to8-two u rest room h k r2))
  | three h k ↦
      let r3 : 3 ≤ room = omega (arith, ap length (utf8-three u h k), enough) in
      rw (utf8-three u h k, utf16-one u k)
        (uconv-advance turn_16to8 fuel _ _ _ _ room (turn_16to8-three u rest room h k scalar r3))
  | four h ↦
      let r4 : 4 ≤ room = omega (arith, ap length (utf8-four u h), enough) in
      let branch =
        turn_16to8-four (0xd800 + (u - 65536) / 1024) ((0xdc00 + (u - 65536) % 1024) ∷ rest) room
          (omega arith) (omega (arith, scalar.0)) r4 in
      rw (utf8-four u h, utf16-two u h)
        (uconv-advance turn_16to8 fuel _ _ _ _ room (branch ∙ surrogates-utf16 u rest h scalar.0))
]

-- Every encoding takes a unit, and the narrower one takes no more units than the wider.
pub utf8_some : (u : ℕ) → 1 ≤ length (utf8 u)
unfolding utf8
utf8_some u = ground arith

pub utf16_some : (u : ℕ) → 1 ≤ length (utf16 u)
unfolding utf16
utf16_some u = ground arith

pub utf16-le-utf8 : (u : ℕ) → length (utf16 u) ≤ length (utf8 u)
unfolding utf8 utf16
utf16-le-utf8 u = ground arith

pub utf8-le-utf16 : (u : ℕ) → length (utf8 u) ≤ 3 * length (utf16 u)
unfolding utf8 utf16
utf8-le-utf16 u = ground arith

write-some :
    (units rest out : List ℕ)
    → write units (some (success, rest, out)) ≡ some (success, rest, units ++ out)
unfolding write
write-some units rest out = refl

loop_8to16 :
    (us : List ℕ) (fuel room : ℕ)
    → All Scalar us
    → length (utf8s us) ≤ fuel
    → length (utf16s us) ≤ room
    → uconv turn_8to16 fuel (utf8s us) room ≡ some (success, [], utf16s us)
unfolding utf8s utf16s
loop_8to16 [] fuel room scalar enough fits = uconv-nil turn_8to16 fuel room
loop_8to16 (u ∷ us) zero room scalar enough fits =
    ground (arith, length-append (utf8 u) (utf8s us), utf8_some u)
loop_8to16 (u ∷ us) (suc fuel) room scalar enough fits =
    let rest =
      loop_8to16 us fuel (room - length (utf16 u)) scalar.1
        (omega (arith, length-append (utf8 u) (utf8s us), utf8_some u, enough))
        (omega (arith, length-append (utf16 u) (utf16s us), fits)) in
    uconv_8to16-Scalar u fuel (utf8s us) room scalar.0
      (omega (arith, length-append (utf16 u) (utf16s us), fits))
    ∙ ap (write (utf16 u)) rest
    ∙ write-some (utf16 u) [] (utf16s us)

loop_16to8 :
    (us : List ℕ) (fuel room : ℕ)
    → All Scalar us
    → length (utf16s us) ≤ fuel
    → length (utf8s us) ≤ room
    → uconv turn_16to8 fuel (utf16s us) room ≡ some (success, [], utf8s us)
unfolding utf8s utf16s
loop_16to8 [] fuel room scalar enough fits = uconv-nil turn_16to8 fuel room
loop_16to8 (u ∷ us) zero room scalar enough fits =
    ground (arith, length-append (utf16 u) (utf16s us), utf16_some u)
loop_16to8 (u ∷ us) (suc fuel) room scalar enough fits =
    let rest =
      loop_16to8 us fuel (room - length (utf8 u)) scalar.1
        (omega (arith, length-append (utf16 u) (utf16s us), utf16_some u, enough))
        (omega (arith, length-append (utf8 u) (utf8s us), fits)) in
    uconv_16to8-Scalar u fuel (utf16s us) room scalar.0
      (omega (arith, length-append (utf8 u) (utf8s us), fits))
    ∙ ap (write (utf8 u)) rest
    ∙ write-some (utf8 u) [] (utf8s us)

-- pmc_uconv_8to16 turns the UTF-8 encoding of a text of scalar values into its UTF-16 encoding,
-- reads all of it and reports success, when the output buffer has a place for each unit.
pub uconv_8to16-utf8s :
    (us : List ℕ) (room : ℕ)
    → All Scalar us
    → length (utf16s us) ≤ room
    → uconv_8to16 (utf8s us) room ≡ some (success, [], utf16s us)
unfolding uconv_8to16
uconv_8to16-utf8s us room scalar fits =
    loop_8to16 us (length (utf8s us)) room scalar (omega arith) fits

-- pmc_uconv_16to8 turns the UTF-16 encoding of a text of scalar values into its UTF-8 encoding,
-- reads all of it and reports success, when the output buffer has a place for each byte.
pub uconv_16to8-utf16s :
    (us : List ℕ) (room : ℕ)
    → All Scalar us
    → length (utf8s us) ≤ room
    → uconv_16to8 (utf16s us) room ≡ some (success, [], utf8s us)
unfolding uconv_16to8
uconv_16to8-utf16s us room scalar fits =
    loop_16to8 us (length (utf16s us)) room scalar (omega arith) fits

pub utf16s-le-utf8s : (us : List ℕ) → length (utf16s us) ≤ length (utf8s us)
unfolding utf8s utf16s
utf16s-le-utf8s [] = omega arith
utf16s-le-utf8s (u ∷ us) = omega (
  arith,
  length-append (utf8 u) (utf8s us),
  length-append (utf16 u) (utf16s us),
  utf16-le-utf8 u,
  utf16s-le-utf8s us,
)

pub utf8s-le-utf16s : (us : List ℕ) → length (utf8s us) ≤ 3 * length (utf16s us)
unfolding utf8s utf16s
utf8s-le-utf16s [] = omega arith
utf8s-le-utf16s (u ∷ us) = omega (
  arith,
  length-append (utf8 u) (utf8s us),
  length-append (utf16 u) (utf16s us),
  utf8-le-utf16 u,
  utf8s-le-utf16s us,
)
