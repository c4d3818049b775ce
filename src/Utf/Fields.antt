-- ===== src/Utf/Fields.antt =====
-- ase/aseutfconv.cpp: the bit fields of a unit as arithmetic.
use ase.Prelude.{ℕ, ◌+◌, ◌*◌, ◌/◌, ◌%◌, ◌^◌, ◌<◌, ◌≡◌, not, arith, bit_and, bit_or, ◌==◌}
use ase.Prelude.Bits.{bit_and_low, bit_or_disjoint, byte_and_c0}
use ase.Utf.{wrong_trail_byte}

pub low3 : (a : ℕ) → bit_and a 0x07 ≡ a % 8
low3 = bit_and_low 3

pub low4 : (a : ℕ) → bit_and a 0x0f ≡ a % 16
low4 = bit_and_low 4

pub low5 : (a : ℕ) → bit_and a 0x1f ≡ a % 32
low5 = bit_and_low 5

pub low6 : (a : ℕ) → bit_and a 0x3f ≡ a % 64
low6 = bit_and_low 6

pub low10 : (a : ℕ) → bit_and a 0x3ff ≡ a % 1024
low10 = bit_and_low 10

pub ruleset low_fields = (low3, low4, low5, low6, low10)

-- The value of a sequence of two, of three and of four bytes.
pub two_fields :
    (c c2 : ℕ) → bit_or (bit_and c 0x1f * 2 ^ 6) (bit_and c2 0x3f) ≡ c % 32 * 64 + c2 % 64
two_fields c c2 = rw (low5 c, low6 c2) (bit_or_disjoint 6 (c % 32) (c2 % 64) (omega arith))

pub three_fields :
    (c c2 c3 : ℕ)
    → bit_or (bit_or (bit_and c 0x0f * 2 ^ 12) (bit_and c2 0x3f * 2 ^ 6)) (bit_and c3 0x3f)
      ≡ c % 16 * 4096 + c2 % 64 * 64 + c3 % 64
three_fields c c2 c3 =
    let high : bit_or (c % 16 * 2 ^ 12) (c2 % 64 * 2 ^ 6) ≡ (c % 16 * 64 + c2 % 64) * 2 ^ 6 =
      omega (arith, bit_or_disjoint 12 (c % 16) (c2 % 64 * 2 ^ 6) (omega arith)) in
    let whole = bit_or_disjoint 6 (c % 16 * 64 + c2 % 64) (c3 % 64) (omega arith) in
    rw (low4 c, low6 c2, low6 c3, high) (omega (arith, whole))

pub four_fields :
    (c c2 c3 c4 : ℕ)
    → bit_or
        (bit_or
          (bit_or (bit_and c 0x07 * 2 ^ 18) (bit_and c2 0x3f * 2 ^ 12))
          (bit_and c3 0x3f * 2 ^ 6))
        (bit_and c4 0x3f)
      ≡ c % 8 * 262144 + c2 % 64 * 4096 + c3 % 64 * 64 + c4 % 64
four_fields c c2 c3 c4 =
    let first : bit_or (c % 8 * 2 ^ 18) (c2 % 64 * 2 ^ 12) ≡ (c % 8 * 64 + c2 % 64) * 2 ^ 12 =
      omega (arith, bit_or_disjoint 18 (c % 8) (c2 % 64 * 2 ^ 12) (omega arith)) in
    let second : bit_or ((c % 8 * 64 + c2 % 64) * 2 ^ 12) (c3 % 64 * 2 ^ 6)
        ≡ ((c % 8 * 64 + c2 % 64) * 64 + c3 % 64) * 2 ^ 6 =
      omega (arith, bit_or_disjoint 12 (c % 8 * 64 + c2 % 64) (c3 % 64 * 2 ^ 6) (omega arith)) in
    let whole = bit_or_disjoint 6 ((c % 8 * 64 + c2 % 64) * 64 + c3 % 64) (c4 % 64) (omega arith) in
    rw (low3 c, low6 c2, low6 c3, low6 c4, first, second) (omega (arith, whole))

-- The bytes that 16to8 writes.
pub trail : (a : ℕ) → bit_or 0x80 (bit_and a 0x3f) % 2 ^ 8 ≡ 128 + a % 64
trail a = rw (low6 a) (omega (arith, bit_or_disjoint 6 2 (a % 64) (omega arith)))

pub lead2 : (a : ℕ) → bit_or 0xc0 (bit_and a 0x1f) % 2 ^ 8 ≡ 192 + a % 32
lead2 a = rw (low5 a) (omega (arith, bit_or_disjoint 5 6 (a % 32) (omega arith)))

pub lead3 : (a : ℕ) → bit_or 0xe0 (bit_and a 0xf) % 2 ^ 8 ≡ 224 + a % 16
lead3 a = rw (low4 a) (omega (arith, bit_or_disjoint 4 14 (a % 16) (omega arith)))

pub lead4 : (a : ℕ) → bit_or 0xf0 (bit_and a 0x7) % 2 ^ 8 ≡ 240 + a % 8
lead4 a = rw (low3 a) (omega (arith, bit_or_disjoint 3 30 (a % 8) (omega arith)))

pub ruleset written = (trail, lead2, lead3, lead4)

-- The test of a trailing byte.
pub trail_ok : (a : ℕ) → a < 256 → wrong_trail_byte a ≡ not (a / 64 == 2)
unfolding wrong_trail_byte
trail_ok a h = ground (arith, byte_and_c0 a h)
