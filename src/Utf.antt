-- ===== src/Utf.antt =====
-- ase/aseutfconv.cpp: the two conversions between UTF-8 and UTF-16, unit by unit.
-- A buffer is its list of units; of an output buffer only the room that is left is kept, and what
-- was written is the result. Shifts are products and quotients with powers of two, and a store
-- into a narrower type is a remainder.
pub mod Fields
pub mod Scalar
pub mod Widen
pub mod Narrow
pub mod Text
pub mod Valid
pub mod Buffer
mod Runs
use ase.Prelude.{
  ℕ, zero, suc, ◌+◌, ◌-◌, ◌*◌, ◌/◌, ◌%◌, ◌^◌, ◌≤◌, ◌<◌, min, ◌≡◌, refl, sym, ap, ◌∙◌, ◌≢◌, ◌↔◌, ◌⊎◌,
  inl, inr, Bool, true, false, ◌&&◌, ◌||◌, not, Option, none, some, List, [], ◌∷◌, ◌++◌, map,
  append-nil, append_assoc, arith, bit_and, bit_or, ltb, leb, ◌==◌, if◌then◌else◌, ltb→lt, lt→ltb,
  leb→le, le→leb, ==_iff, ==_self, tests, Bool-cases, Option-cases, length, get_or, get_elem?, set,
  take, drop, replicate, All, length-append, length-take, length-drop, length-replicate, length-set,
  take-append-drop, take-append, drop-append, All-append,
}

-- pmc_uconv_err_t.
pub data ConvErr : Type 0 where
  success malformed range incomplete bufferfull : ConvErr

-- One turn of a loop: it goes on behind the units that it read, with those that it wrote, or the
-- loop is left with nothing read and nothing written.
pub data Turn : Type 0 where
  advance : List ℕ → List ℕ → Turn
  stop : ConvErr → Turn

unfoldable pub wrong_trail_byte : ℕ → Bool
wrong_trail_byte c = not (bit_and c 0xc0 == 0x80)

unfoldable pub two_bytes : ℕ → List ℕ → Turn
two_bytes c [] = stop incomplete
two_bytes c (c2 ∷ r8) =
    let u = bit_or (bit_and c 0x1f * 2 ^ 6) (bit_and c2 0x3f) in
    if ltb u 128 then stop range else advance r8 (u ∷ [])

unfoldable pub three_bytes : ℕ → List ℕ → Turn
three_bytes c [] = stop incomplete
three_bytes c (c2 ∷ []) = stop incomplete
three_bytes c (c2 ∷ c3 ∷ r8) =
    let u = bit_or (bit_or (bit_and c 0x0f * 2 ^ 12) (bit_and c2 0x3f * 2 ^ 6)) (bit_and c3 0x3f) in
    if wrong_trail_byte c2 || wrong_trail_byte c3
    then stop malformed
    else if ltb u 2048 || (leb 0xd800 u && ltb u 0xe000)
    then stop range
    else advance r8 (u % 2 ^ 16 ∷ [])

unfoldable pub four_bytes : ℕ → List ℕ → Turn
four_bytes c [] = stop incomplete
four_bytes c (c2 ∷ []) = stop incomplete
four_bytes c (c2 ∷ c3 ∷ []) = stop incomplete
four_bytes c (c2 ∷ c3 ∷ c4 ∷ r8) =
    let u =
      bit_or
        (bit_or (bit_or (bit_and c 0x07 * 2 ^ 18) (bit_and c2 0x3f * 2 ^ 12))
          (bit_and c3 0x3f * 2 ^ 6))
        (bit_and c4 0x3f) in
    let v = u - 0x10000 in
    if wrong_trail_byte c2 || wrong_trail_byte c3 || wrong_trail_byte c4
    then stop malformed
    else if ltb u 0x10000 || ltb 0x10ffff u
    then stop range
    else advance r8 ((v / 2 ^ 10 + 0xd800) % 2 ^ 16 ∷ (bit_and v 0x3ff + 0xdc00) % 2 ^ 16 ∷ [])

-- The body of the loop of pmc_uconv_8to16 at the byte `c`, with `room` units left to write.
unfoldable pub turn_8to16 : ℕ → List ℕ → ℕ → Turn
turn_8to16 c r8 room =
    if leb room 0
    then stop bufferfull
    else if bit_and c 0x80 == 0
    then advance r8 (c ∷ [])
    else if bit_and c 0xe0 == 0xc0
    then two_bytes c r8
    else if bit_and c 0xf0 == 0xe0
    then three_bytes c r8
    else if bit_and c 0xf8 == 0xf0
    then (if leb room 1 then stop bufferfull else four_bytes c r8)
    else stop malformed

unfoldable pub surrogates : ℕ → List ℕ → Turn
surrogates c [] = stop incomplete
surrogates c (c2 ∷ r16) =
    let u = bit_and c 0x3ff * 2 ^ 10 + bit_and c2 0x3ff + 0x10000 in
    if ltb c2 0xdc00 || leb 0xe000 c2
    then stop malformed
    else advance r16 (
        bit_or 0xf0 (bit_and (u / 2 ^ 18) 0x7) % 2 ^ 8
        ∷ bit_or 0x80 (bit_and (u / 2 ^ 12) 0x3f) % 2 ^ 8
        ∷ bit_or 0x80 (bit_and (u / 2 ^ 6) 0x3f) % 2 ^ 8
        ∷ bit_or 0x80 (bit_and u 0x3f) % 2 ^ 8
        ∷ [])

-- The body of the loop of pmc_uconv_16to8 at the unit `c`, with `room` bytes left to write.
unfoldable pub turn_16to8 : ℕ → List ℕ → ℕ → Turn
turn_16to8 c r16 room =
    if leb room 0
    then stop bufferfull
    else if ltb c 0x80
    then advance r16 (c % 2 ^ 8 ∷ [])
    else if ltb c 0x800
    then (if leb room 1
        then stop bufferfull
        else advance r16 (
            bit_or 0xc0 (bit_and (c / 2 ^ 6) 0x1f) % 2 ^ 8
            ∷ bit_or 0x80 (bit_and c 0x3f) % 2 ^ 8
            ∷ []))
    else if leb 0xd800 c && ltb c 0xdc00
    then (if leb room 3 then stop bufferfull else surrogates c r16)
    else if leb 0xdc00 c && ltb c 0xe000
    then stop malformed
    else if leb room 2
    then stop bufferfull
    else advance r16 (
        bit_or 0xe0 (bit_and (c / 2 ^ 12) 0xf) % 2 ^ 8
        ∷ bit_or 0x80 (bit_and (c / 2 ^ 6) 0x3f) % 2 ^ 8
        ∷ bit_or 0x80 (bit_and c 0x3f) % 2 ^ 8
        ∷ [])

-- How a loop ends: its error, what is left to read, and what was written.
abbrev pub Outcome : Type 0
Outcome = ConvErr × List ℕ × List ℕ

unfoldable pub write : List ℕ → Option Outcome → Option Outcome
write units none = none
write units (some (e, rest, out)) = some (e, rest, units ++ out)

-- The loop around a body; `none` when the fuel is gone, which the program has no case for.
unfoldable pub uconv : (ℕ → List ℕ → ℕ → Turn) → ℕ → List ℕ → ℕ → Option Outcome
uconv turn fuel [] room = some (success, [], [])
uconv turn zero (c ∷ r) room = none
uconv turn (suc fuel) (c ∷ r) room = elim (turn c r room) [
  | stop e ↦ some (e, c ∷ r, [])
  | advance rest units ↦ write units (uconv turn fuel rest (room - length units))
]

-- Every turn reads a unit, so the length of the input is enough fuel (Utf.Valid).
unfoldable pub uconv_8to16 : List ℕ → ℕ → Option Outcome
uconv_8to16 r8 room = uconv turn_8to16 (length r8) r8 room

unfoldable pub uconv_16to8 : List ℕ → ℕ → Option Outcome
uconv_16to8 r16 room = uconv turn_16to8 (length r16) r16 room
