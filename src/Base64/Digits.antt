-- ===== src/Base64/Digits.antt =====
-- ase/gtcpp/base64.cpp: the digits of the code, and the three bytes that four of them stand for.
use ase.Prelude.{
  ℕ, ◌+◌, ◌-◌, ◌*◌, ◌/◌, ◌%◌, ◌^◌, ◌<◌, ◌≡◌, refl, ◌∙◌, false, List, [], ◌∷◌, arith, bit_or, ltb,
  ◌==◌, if◌then◌else◌, lt→ltb,
}
use ase.Prelude.Bits.{bit_and_low, bit_or_disjoint}
use ase.Base64.{decode_char, digit, get_next_decode, written}

-- The digit for a value below 64.
unfoldable pub encode_char : ℕ → ℕ
encode_char v =
    if ltb v 26
    then 65 + v
    else if ltb v 52
    then 97 + (v - 26)
    else if ltb v 62
    then 48 + (v - 52)
    else if v == 62
    then 43
    else 47

pub decode_char-encode_char : (v : ℕ) → v < 64 → decode_char (encode_char v) ≡ v
unfolding decode_char encode_char
decode_char-encode_char v h = ground arith

pub encode_char-ne_pad : (v : ℕ) → v < 64 → (encode_char v == 61) ≡ false
unfolding encode_char
encode_char-ne_pad v h = ground arith

pub get_next_decode-encode_char :
    (v : ℕ) (start : List ℕ) (npad invalid_count : ℕ)
    → v < 64
    → get_next_decode (encode_char v ∷ start) npad invalid_count ≡ digit v start npad invalid_count
unfolding get_next_decode
get_next_decode-encode_char v start npad invalid_count h =
    rw (decode_char-encode_char v h, encode_char-ne_pad v h, lt→ltb v 64 h) refl

pub get_next_decode-pad :
    (start : List ℕ) (npad invalid_count : ℕ)
    → get_next_decode (61 ∷ start) npad invalid_count ≡ digit 0 start (npad + 1) invalid_count
unfolding get_next_decode decode_char
get_next_decode-pad start npad invalid_count = refl

-- The number that four digits write.
digits_value :
    (u0 u1 u2 u3 : ℕ)
    → u1 < 64
    → u2 < 64
    → u3 < 64
    → bit_or (bit_or (bit_or (u0 * 2 ^ 18) (u1 * 2 ^ 12)) (u2 * 2 ^ 6)) u3
      ≡ u0 * 262144 + u1 * 4096 + u2 * 64 + u3
digits_value u0 u1 u2 u3 h1 h2 h3 =
    let first : bit_or (u0 * 2 ^ 18) (u1 * 2 ^ 12) ≡ (u0 * 64 + u1) * 2 ^ 12 =
      omega (arith, bit_or_disjoint 18 u0 (u1 * 2 ^ 12) (omega (arith, h1))) in
    let second : bit_or ((u0 * 64 + u1) * 2 ^ 12) (u2 * 2 ^ 6)
        ≡ ((u0 * 64 + u1) * 64 + u2) * 2 ^ 6 =
      omega (arith, bit_or_disjoint 12 (u0 * 64 + u1) (u2 * 2 ^ 6) (omega (arith, h2))) in
    let whole = bit_or_disjoint 6 ((u0 * 64 + u1) * 64 + u2) u3 (omega (arith, h3)) in
    rw (first, second) (omega (arith, whole))

-- Three bytes from four values below 64.
pub written-bytes :
    (a b c : ℕ)
    → a < 256
    → b < 256
    → c < 256
    → written (a / 4) (a % 4 * 16 + b / 16) (b % 16 * 4 + c / 64) (c % 64) ≡ a ∷ b ∷ c ∷ []
unfolding written
written-bytes a b c ha hb hc =
    let value =
      digits_value (a / 4) (a % 4 * 16 + b / 16) (b % 16 * 4 + c / 64) (c % 64) (omega arith)
        (omega arith) (omega arith) in
    let val = a * 65536 + b * 256 + c in
    let same : a / 4 * 262144 + (a % 4 * 16 + b / 16) * 4096 + (b % 16 * 4 + c / 64) * 64 + c % 64
        ≡ val =
      omega arith in
    rw (value ∙ same, bit_and_low 8 (val / 256), bit_and_low 8 val) (ground arith)

pub written-one_byte : (a : ℕ) → a < 256 → written (a / 4) (a % 4 * 16) 0 0 ≡ a ∷ 0 ∷ 0 ∷ []
written-one_byte a ha =
    let same : a % 4 * 16 ≡ a % 4 * 16 + 0 / 16 = omega arith in
    rw same (written-bytes a 0 0 ha (omega arith) (omega arith))

pub written-two_bytes :
    (a b : ℕ)
    → a < 256
    → b < 256
    → written (a / 4) (a % 4 * 16 + b / 16) (b % 16 * 4) 0 ≡ a ∷ b ∷ 0 ∷ []
written-two_bytes a b ha hb =
    let same : b % 16 * 4 ≡ b % 16 * 4 + 0 / 64 = omega arith in
    rw same (written-bytes a b 0 ha hb (omega arith))
