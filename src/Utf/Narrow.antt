-- ===== src/Utf/Narrow.antt =====
-- ase/aseutfconv.cpp: pmc_uconv_16to8 at the encoding of a scalar value.
use ase.Prelude.{ℕ, ◌+◌, ◌-◌, ◌*◌, ◌/◌, ◌%◌, ◌^◌, ◌≤◌, ◌<◌, ◌≡◌, sym, List, [], ◌∷◌, arith}
use ase.Utf.{advance, turn_16to8, surrogates}
use ase.Utf.Fields.{trail, lead2, lead3, lead4, low10}
use ase.Utf.Scalar.{Scalar}

pub turn_16to8-one :
    (c : ℕ) (r16 : List ℕ) (room : ℕ)
    → c < 128
    → 1 ≤ room
    → turn_16to8 c r16 room ≡ advance r16 (c ∷ [])
unfolding turn_16to8
turn_16to8-one c r16 room h some_room = ground arith

pub turn_16to8-two :
    (c : ℕ) (r16 : List ℕ) (room : ℕ)
    → 128 ≤ c
    → c < 2048
    → 2 ≤ room
    → turn_16to8 c r16 room ≡ advance r16 ((192 + c / 64) ∷ (128 + c % 64) ∷ [])
unfolding turn_16to8
turn_16to8-two c r16 room h k some_room = ground (arith, lead2 (c / 64), trail c)

pub turn_16to8-three :
    (c : ℕ) (r16 : List ℕ) (room : ℕ)
    → 2048 ≤ c
    → c < 65536
    → Scalar c
    → 3 ≤ room
    → turn_16to8 c r16 room
      ≡ advance r16 ((224 + c / 4096) ∷ (128 + c / 64 % 64) ∷ (128 + c % 64) ∷ [])
unfolding turn_16to8 Scalar
turn_16to8-three c r16 room h k scalar some_room =
    ground (arith, lead3 (c / 4096), trail (c / 64), trail c)

pub turn_16to8-four :
    (c : ℕ) (r16 : List ℕ) (room : ℕ)
    → 0xd800 ≤ c
    → c < 0xdc00
    → 4 ≤ room
    → turn_16to8 c r16 room ≡ surrogates c r16
unfolding turn_16to8
turn_16to8-four c r16 room h k some_room = ground arith

pub surrogates-pair :
    (c c2 : ℕ) (rest : List ℕ) (u : ℕ)
    → 0xd800 ≤ c
    → c < 0xdc00
    → 0xdc00 ≤ c2
    → c2 < 0xe000
    → u ≡ c % 1024 * 1024 + c2 % 1024 + 0x10000
    → surrogates c (c2 ∷ rest)
      ≡ advance rest
          ((240 + u / 262144) ∷ (128 + u / 4096 % 64) ∷ (128 + u / 64 % 64) ∷ (128 + u % 64) ∷ [])
unfolding surrogates
surrogates-pair c c2 rest u h k h2 k2 e =
    rw (low10 c, low10 c2, sym e)
      (ground (arith, lead4 (u / 2 ^ 18), trail (u / 2 ^ 12), trail (u / 2 ^ 6), trail u))

pub surrogates-utf16 :
    (u : ℕ) (rest : List ℕ)
    → 65536 ≤ u
    → u < 0x110000
    → surrogates (0xd800 + (u - 65536) / 1024) ((0xdc00 + (u - 65536) % 1024) ∷ rest)
      ≡ advance rest
          ((240 + u / 262144) ∷ (128 + u / 4096 % 64) ∷ (128 + u / 64 % 64) ∷ (128 + u % 64) ∷ [])
surrogates-utf16 u rest h k =
    surrogates-pair (0xd800 + (u - 65536) / 1024) (0xdc00 + (u - 65536) % 1024) rest u (omega arith)
      (omega arith) (omega arith) (omega arith) (omega arith)
