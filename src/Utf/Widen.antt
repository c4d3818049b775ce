-- ===== src/Utf/Widen.antt =====
-- ase/aseutfconv.cpp: pmc_uconv_8to16 at the encoding of a scalar value.
use ase.Prelude.{ℕ, ◌+◌, ◌-◌, ◌/◌, ◌%◌, ◌≤◌, ◌<◌, ◌≡◌, List, [], ◌∷◌, arith}
use ase.Prelude.Bits.{byte_and_80, byte_and_e0, byte_and_f0, byte_and_f8}
use ase.Utf.{advance, turn_8to16, two_bytes, three_bytes, four_bytes}
use ase.Utf.Fields.{two_fields, three_fields, four_fields, trail_ok, low10}
use ase.Utf.Scalar.{Scalar}

-- Which branch the first byte takes.
pub turn_8to16-one :
    (c : ℕ) (r8 : List ℕ) (room : ℕ)
    → c < 128
    → 1 ≤ room
    → turn_8to16 c r8 room ≡ advance r8 (c ∷ [])
unfolding turn_8to16
turn_8to16-one c r8 room h some_room = ground (arith, byte_and_80 c)

pub turn_8to16-two :
    (c : ℕ) (r8 : List ℕ) (room : ℕ)
    → 192 ≤ c
    → c < 224
    → 1 ≤ room
    → turn_8to16 c r8 room ≡ two_bytes c r8
unfolding turn_8to16
turn_8to16-two c r8 room h k some_room = ground (arith, byte_and_80 c, byte_and_e0 c)

pub turn_8to16-three :
    (c : ℕ) (r8 : List ℕ) (room : ℕ)
    → 224 ≤ c
    → c < 240
    → 1 ≤ room
    → turn_8to16 c r8 room ≡ three_bytes c r8
unfolding turn_8to16
turn_8to16-three c r8 room h k some_room =
    ground (arith, byte_and_80 c, byte_and_e0 c, byte_and_f0 c)

pub turn_8to16-four :
    (c : ℕ) (r8 : List ℕ) (room : ℕ)
    → 240 ≤ c
    → c < 248
    → 2 ≤ room
    → turn_8to16 c r8 room ≡ four_bytes c r8
unfolding turn_8to16
turn_8to16-four c r8 room h k some_room =
    ground (arith, byte_and_80 c, byte_and_e0 c, byte_and_f0 c, byte_and_f8 c)

pub two_bytes-utf8 :
    (u : ℕ) (rest : List ℕ)
    → 128 ≤ u
    → u < 2048
    → two_bytes (192 + u / 64) ((128 + u % 64) ∷ rest) ≡ advance rest (u ∷ [])
unfolding two_bytes
two_bytes-utf8 u rest h k = ground (arith, two_fields (192 + u / 64) (128 + u % 64))

pub three_bytes-utf8 :
    (u : ℕ) (rest : List ℕ)
    → 2048 ≤ u
    → u < 65536
    → Scalar u
    → three_bytes (224 + u / 4096) ((128 + u / 64 % 64) ∷ (128 + u % 64) ∷ rest)
      ≡ advance rest (u ∷ [])
unfolding three_bytes Scalar
three_bytes-utf8 u rest h k scalar = ground (
  arith,
  trail_ok (128 + u / 64 % 64),
  trail_ok (128 + u % 64),
  three_fields (224 + u / 4096) (128 + u / 64 % 64) (128 + u % 64),
)

pub four_bytes-utf8 :
    (u : ℕ) (rest : List ℕ)
    → 65536 ≤ u
    → u < 0x110000
    → four_bytes
        (240 + u / 262144)
        ((128 + u / 4096 % 64) ∷ (128 + u / 64 % 64) ∷ (128 + u % 64) ∷ rest)
      ≡ advance rest ((0xd800 + (u - 65536) / 1024) ∷ (0xdc00 + (u - 65536) % 1024) ∷ [])
unfolding four_bytes
four_bytes-utf8 u rest h k = ground (
  arith,
  trail_ok (128 + u / 4096 % 64),
  trail_ok (128 + u / 64 % 64),
  trail_ok (128 + u % 64),
  four_fields (240 + u / 262144) (128 + u / 4096 % 64) (128 + u / 64 % 64) (128 + u % 64),
  low10 (u - 65536),
)
