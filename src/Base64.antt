-- ===== src/Base64.antt =====
-- ase/gtcpp/base64.cpp: the decoder, which takes every byte that is no digit of the code for filling.
pub mod Digits
pub mod RoundTrip
pub mod Bounds
mod Runs
use ase.Prelude.{
  ℕ, zero, suc, ◌+◌, ◌-◌, ◌*◌, ◌/◌, ◌%◌, ◌^◌, ◌≤◌, ◌<◌, min, ◌≡◌, refl, sym, ap, ◌∙◌, ◌≢◌, ◌↔◌, ◌⊎◌,
  inl, inr, Bool, true, false, ◌&&◌, ◌||◌, not, Option, none, some, List, [], ◌∷◌, ◌++◌, map,
  append-nil, append_assoc, arith, bit_and, bit_or, ltb, leb, ◌==◌, if◌then◌else◌, ltb→lt, lt→ltb,
  leb→le, le→leb, ==_iff, ==_self, tests, Bool-cases, Option-cases, length, get_or, get_elem?, set,
  take, drop, replicate, All, length-append, length-take, length-drop, length-replicate, length-set,
  take-append-drop, take-append, drop-append, All-append,
}
use ase.Prelude.Bits.{
  bit_and_low, bit_or_disjoint, byte_and_80, byte_and_c0, byte_and_e0, byte_and_f0, byte_and_f8,
}

unfoldable pub is_base64_space : ℕ → Bool
is_base64_space i = leb i 32

unfoldable pub decode_char : ℕ → ℕ
decode_char i =
    if leb 65 i && leb i 90
    then i - 65
    else if leb 97 i && leb i 122
    then i - 97 + 26
    else if leb 48 i && leb i 57
    then i - 48 + 52
    else if i == 43
    then 62
    else if i == 47
    then 63
    else if i == 61
    then 0
    else 64

-- What get_next_decode leaves: the digit and the bytes behind it, or no digit and no bytes; then
-- npad and invalid_count.
pub data Next : Type 0 where
  digit : ℕ → List ℕ → ℕ → ℕ → Next
  finished : ℕ → ℕ → Next

unfoldable pub get_next_decode : List ℕ → ℕ → ℕ → Next
get_next_decode [] npad invalid_count = finished npad invalid_count
get_next_decode (c ∷ start) npad invalid_count =
    let v = decode_char c in
    let npad' = if c == 61 then npad + 1 else npad in
    let invalid_count' = if is_base64_space c then invalid_count else invalid_count + 1 in
    let skipped = get_next_decode start npad' invalid_count' in
    if ltb v 64 then digit v start npad' invalid_count else skipped

-- The bytes that are written, npad and invalid_count.
abbrev pub Decoded : Type 0
Decoded = List ℕ × ℕ × ℕ

-- A digit, and what is done with it. Behind the end the calls that the source still makes change
-- nothing.
unfoldable pub with_digit : Next → (ℕ → List ℕ → ℕ → ℕ → Decoded) → Decoded
with_digit (finished npad invalid_count) continue = ([], npad, invalid_count)
with_digit (digit v start npad invalid_count) continue = continue v start npad invalid_count

unfoldable pub written : ℕ → ℕ → ℕ → ℕ → List ℕ
written u0 u1 u2 u3 =
    let val = bit_or (bit_or (bit_or (u0 * 2 ^ 18) (u1 * 2 ^ 12)) (u2 * 2 ^ 6)) u3 in
    val / 2 ^ 16 % 2 ^ 8 ∷ bit_and (val / 2 ^ 8) 0xff ∷ bit_and val 0xff ∷ []

unfoldable pub append_written : List ℕ → Decoded → Decoded
append_written wp (out, npad, invalid_count) = (wp ++ out, npad, invalid_count)

-- The loop of base64_decode; each turn reads four bytes or ends it.
unfoldable pub decode_loop : ℕ → List ℕ → ℕ → ℕ → Decoded
decode_loop zero start npad invalid_count = ([], npad, invalid_count)
decode_loop (suc fuel) start npad invalid_count =
    with_digit (get_next_decode start npad invalid_count) λ u0 s0 n0 i0.
      with_digit (get_next_decode s0 n0 i0) λ u1 s1 n1 i1.
        with_digit (get_next_decode s1 n1 i1) λ u2 s2 n2 i2.
          with_digit (get_next_decode s2 n2 i2)
            λ u3 s3 n3 i3. append_written (written u0 u1 u2 u3) (decode_loop fuel s3 n3 i3)

-- The bytes of the padding are taken off the end.
unfoldable pub trimmed : Decoded → List ℕ × ℕ
trimmed (out, npad, invalid_count) =
    let len = length out in
    (take (if leb npad 2 && leb npad len then len - npad else len) out, invalid_count)

-- base64_decode: the bytes that it appends to the buffer, and the count of the bytes it ignored.
unfoldable pub base64_decode : List ℕ → List ℕ × ℕ
base64_decode str = trimmed (decode_loop (suc (length str)) str 0 0)
