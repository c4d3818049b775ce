-- ===== src/QuotedPr.antt =====
-- ase/gtcpp/quotedpr.cpp: the decoder of quoted-printable text.
pub mod RoundTrip
pub mod Bounds
mod Runs
use ase.Prelude.{
  ℕ, zero, suc, ◌+◌, ◌-◌, ◌*◌, ◌/◌, ◌%◌, ◌^◌, ◌≤◌, ◌<◌, min, ◌≡◌, refl, sym, ap, ◌∙◌, ◌≢◌, ◌↔◌, ◌⊎◌,
  inl, inr, Bool, true, false, ◌&&◌, ◌||◌, not, Option, none, some, List, [], ◌∷◌, ◌++◌, map,
  append-nil, append_assoc, arith, bit_and, bit_or, ltb, leb, ◌==◌, if◌then◌else◌, ltb→lt, lt→ltb,
  leb→le, le→leb, ==_iff, ==_self, tests, Bool-cases, Option-cases, length, get_or, get_elem?, set,
  take, drop, replicate, All, length-append, length-take, length-drop, length-replicate, length-set,
  take-append-drop, take-append, drop-append, All-append,
}
use ase.Prelude.Bits.{
  bit_and_low, bit_or_disjoint, byte_and_80, byte_and_c0, byte_and_e0, byte_and_f0, byte_and_f8,
}

-- read_hexadecimal_char: the digit, or `none` where the source returns false.
unfoldable pub read_hexadecimal_char : ℕ → Option ℕ
read_hexadecimal_char ch =
    if leb 48 ch && leb ch 57
    then some (ch - 48)
    else if leb 65 ch && leb ch 70
    then some (ch - 65 + 10)
    else if leb 97 ch && leb ch 102
    then some (ch - 97 + 10)
    else none

-- The byte of two hexadecimal digits, if both are.
unfoldable pub hexadecimal_pair : Option ℕ → Option ℕ → List ℕ
hexadecimal_pair (some x1) (some x2) = bit_or (x1 * 2 ^ 4) x2 % 2 ^ 8 ∷ []
hexadecimal_pair (some x1) none = []
hexadecimal_pair none x2 = []

-- What is written for `=` and the bytes behind it.
unfoldable pub escaped_byte : List ℕ → List ℕ
escaped_byte [] = []
escaped_byte (c1 ∷ []) = []
escaped_byte (c1 ∷ c2 ∷ rest) =
    hexadecimal_pair (read_hexadecimal_char c1) (read_hexadecimal_char c2)

-- The bytes that are left behind `=` and what belongs to it.
unfoldable pub behind_escape : List ℕ → List ℕ
behind_escape [] = []
behind_escape (c1 ∷ []) = []
behind_escape (c1 ∷ c2 ∷ rest) = if c1 == 10 then c2 ∷ rest else rest

-- The loop of quoted_printable_decode; each turn reads a byte, so the length of the input is enough
-- fuel (QuotedPr.Bounds).
unfoldable pub quoted_loop : ℕ → List ℕ → List ℕ
quoted_loop fuel [] = []
quoted_loop zero (ch ∷ start) = []
quoted_loop (suc fuel) (ch ∷ start) =
    let escape = quoted_loop fuel (behind_escape start) in
    let plain = quoted_loop fuel start in
    if ch == 61 then escaped_byte start ++ escape else ch ∷ plain

-- quoted_printable_decode: the bytes that it appends to the buffer.
unfoldable pub quoted_printable_decode : List ℕ → List ℕ
quoted_printable_decode str = quoted_loop (length str) str
