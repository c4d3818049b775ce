-- ===== src/Serialize/Header.antt =====
-- ase/aseserialize.cpp: what ase_deserialize_compact_internal reads off the front of each form that
-- the writer has: very short, short and long.
use ase.Prelude.{ℕ, ◌+◌, ◌*◌, ◌/◌, ◌^◌, ◌≤◌, ◌<◌, ◌≡◌, refl, sym, ap, ◌∙◌, arith}
use ase.Prelude.{false, List, ◌∷◌, ◌++◌, bit_and, bit_or, ltb}
use ase.Prelude.{length, take, take-append, drop-append, length-append}
use ase.Prelude.Bits.{
  bit_or_disjoint, bit_and_low, byte_and_c0, byte_and_e0, byte_and_f0, agree, agree→eq,
}
use ase.Serialize.{ok}
use ase.Serialize.Bytes.{to_bytes, from_bytes, length-to_bytes, from_bytes-to_bytes}
use ase.Serialize.Lengths.{byte_length_unsigned_fits, byte_length_unsigned-le, take-to_bytes}
use ase.Serialize.Encode.{short_form, byte_length_unsigned}
use ase.Serialize.Decode.{sized, type_tag_of, split_data, long_header, read_header}

pub split_data-append :
    (typetag : ℕ) (bytes rest : List ℕ)
    → split_data typetag (length bytes) (bytes ++ rest)
      ≡ ok (sized (type_tag_of typetag) bytes rest)
unfolding split_data
split_data-append typetag bytes rest =
    let room : ltb (length (bytes ++ rest)) (length bytes) ≡ false =
      ground (arith, length-append bytes rest) in
    rw (room, take-append bytes rest, drop-append bytes rest) refl

-- A type tag of the short form is a multiple of 32 below 0xc0, and its length has five bits.
pub short_tag : (q n : ℕ) → q < 6 → n < 32 → (bit_or (q * 32) (bit_and n 0x1f) ≡ q * 32 + n)
unfolding short_form
short_tag q n hq hn = ground (arith, bit_and_low 5 n, bit_or_disjoint 5 q n)

pub read_header-short :
    (q n : ℕ) (rp : List ℕ)
    → q < 6
    → n < 32
    → read_header (bit_or (q * 32) (bit_and n 0x1f) ∷ rp) ≡ split_data (q * 32) n rp
unfolding read_header
read_header-short q n rp hq hn = rw (short_tag q n hq hn) (
    ground (
      arith,
      byte_and_f0 (q * 32 + n),
      byte_and_c0 (q * 32 + n),
      byte_and_e0 (q * 32 + n),
      bit_and_low 5 (q * 32 + n),
    ))

pub read_header-short_form :
    (q : ℕ) (bytes rest : List ℕ)
    → q < 6
    → length bytes < 32
    → read_header (short_form (q * 32) bytes ++ rest) ≡ ok (sized (type_tag_of (q * 32)) bytes rest)
unfolding short_form
read_header-short_form q bytes rest hq hn =
    read_header-short q (length bytes) (bytes ++ rest) hq hn ∙ split_data-append (q * 32) bytes rest

-- The tag of the long form, for the type tag q * 32 and a length of `l` bytes.
abbrev pub long_tag : ℕ → ℕ → ℕ
long_tag q l = 0xc0 + q * 8 + l

pub long_tag-eq :
    (q l : ℕ) → q < 6 → l < 8 → bit_or (bit_or 0xc0 (q * 32 / 4)) (bit_and l 0x07) ≡ long_tag q l
long_tag-eq q l hq hl =
    let low : bit_and l 0x07 ≡ l = ground (arith, bit_and_low 3 l) in
    let eight : q * 32 / 4 ≡ q * 8 = omega arith in
    let high : bit_or 0xc0 (q * 8) ≡ (24 + q) * 8 = ground (arith, bit_or_disjoint 6 3 (q * 8)) in
    rw (low, eight, high) (ground (arith, bit_or_disjoint 3 (24 + q) l))

pub read_header-long :
    (q l : ℕ) (rp : List ℕ)
    → q < 6
    → l < 8
    → read_header (long_tag q l ∷ rp) ≡ long_header (long_tag q l) rp
unfolding read_header
read_header-long q l rp hq hl =
    ground (arith, byte_and_f0 (long_tag q l), byte_and_c0 (long_tag q l))

pub long_tag_low : (q l : ℕ) → q < 6 → l < 8 → bit_and (long_tag q l) 0x07 ≡ l
long_tag_low q l hq hl = ground (arith, bit_and_low 3 (long_tag q l))

type_bits : (t : ℕ) → t < 64 → bit_and ((0xc0 + t) * 4) 0xe0 ≡ t / 8 * 32
unfolding agree
type_bits = agree→eq _ _ 64 refl

long_tag_type : (q l : ℕ) → q < 6 → l < 8 → bit_and (long_tag q l * 4) 0xe0 ≡ q * 32
long_tag_type q l hq hl =
    let regroup : long_tag q l ≡ 0xc0 + (q * 8 + l) = omega arith in
    rw regroup (omega (arith, type_bits (q * 8 + l) (omega arith)))

pub length_bytes :
    (n : ℕ)
    → n < 256 ^ 7
    → (byte_length_unsigned n < 8)
      × (length (take (byte_length_unsigned n) (to_bytes 8 n)) ≡ byte_length_unsigned n)
      × (from_bytes (take (byte_length_unsigned n) (to_bytes 8 n)) ≡ n)
length_bytes n h =
    let l = byte_length_unsigned n in
    let short : l ≤ 7 = byte_length_unsigned-le 7 n h in
    let same : take l (to_bytes 8 n) ≡ to_bytes l n = take-to_bytes l 8 n (omega arith) in
    (
      omega arith,
      ap length same ∙ length-to_bytes l n,
      ap from_bytes same ∙ from_bytes-to_bytes l n (byte_length_unsigned_fits n),
    )

-- A length and so many bytes, read by the long form.
long_header-eq :
    (q : ℕ) (lens bytes rest : List ℕ)
    → q < 6
    → length lens < 8
    → from_bytes lens ≡ length bytes
    → long_header (long_tag q (length lens)) (lens ++ (bytes ++ rest))
      ≡ ok (sized (type_tag_of (q * 32)) bytes rest)
unfolding long_header
long_header-eq q lens bytes rest hq hl e =
    let room : ltb (length (lens ++ (bytes ++ rest))) (length lens) ≡ false =
      ground (arith, length-append lens (bytes ++ rest)) in
    let small : ltb 8 (length lens) ≡ false = ground arith in
    rw
      (
        long_tag_low q (length lens) hq hl,
        small,
        room,
        take-append lens (bytes ++ rest),
        drop-append lens (bytes ++ rest),
        long_tag_type q (length lens) hq hl,
        e,
      )
      (split_data-append (q * 32) bytes rest)

pub read_header-long_bytes :
    (q : ℕ) (bytes rest : List ℕ)
    → q < 6
    → length bytes < 256 ^ 7
    → let l = byte_length_unsigned (length bytes) in
      read_header (
        bit_or (bit_or 0xc0 (q * 32 / 4)) (bit_and l 0x07)
        ∷ (take l (to_bytes 8 (length bytes)) ++ (bytes ++ rest)))
      ≡ ok (sized (type_tag_of (q * 32)) bytes rest)
read_header-long_bytes q bytes rest hq hn =
    let l = byte_length_unsigned (length bytes) in
    let lens = take l (to_bytes 8 (length bytes)) in
    let facts = length_bytes (length bytes) hn in
    rw (long_tag-eq q l hq facts.0) (
      read_header-long q l (lens ++ (bytes ++ rest)) hq facts.0
      ∙ (ap (λ (t : ℕ). long_header (long_tag q t) (lens ++ (bytes ++ rest))) (sym facts.1)
          ∙ long_header-eq q lens bytes rest hq (omega (arith, facts.0, facts.1)) facts.2))
