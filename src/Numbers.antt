-- ===== src/Numbers.antt =====
-- ase/gtcpp/string_util.cpp: the parsing of decimal and hexadecimal numbers.
pub mod Value
pub mod Print
pub mod Printed
mod Runs
use ase.Prelude.{
  ℕ, zero, suc, ◌+◌, ◌-◌, ◌*◌, ◌/◌, ◌%◌, ◌^◌, ◌≤◌, ◌<◌, min, ◌≡◌, refl, sym, ap, ◌∙◌, ◌≢◌, ◌↔◌, ◌⊎◌,
  inl, inr, Bool, true, false, ◌&&◌, ◌||◌, not, Option, none, some, List, [], ◌∷◌, ◌++◌, map,
  append-nil, append_assoc, arith, bit_and, bit_or, ltb, leb, ◌==◌, if◌then◌else◌, ltb→lt, lt→ltb,
  leb→le, le→leb, ==_iff, ==_self, tests, Bool-cases, Option-cases, length, get_or, get_elem?, set,
  take, drop, replicate, All, length-append, length-take, length-drop, length-replicate, length-set,
  take-append-drop, take-append, drop-append, All-append,
}

unfoldable pub decimal_digit : ℕ → Option ℕ
decimal_digit c = if leb 48 c && leb c 57 then some (c - 48) else none

unfoldable pub hexadecimal_digit : ℕ → Option ℕ
hexadecimal_digit c =
    if leb 48 c && leb c 57
    then some (c - 48)
    else if leb 97 c && leb c 102
    then some (c - 97 + 10)
    else if leb 65 c && leb c 70
    then some (c - 65 + 10)
    else none

-- The loop of parse_decimal_tmpl and parse_hexadecimal_tmpl, for an unsigned type of `w` bits: whether
-- every byte is a digit, and `v`.
unfoldable pub parse_loop : ℕ → ℕ → (ℕ → Option ℕ) → ℕ → List ℕ → Bool × ℕ
parse_loop w base digit_of v [] = (true, v)
parse_loop w base digit_of v (c ∷ start) = elim (digit_of c) [
  | none ↦ (false, 0)
  | some d ↦ parse_loop w base digit_of ((v * base % 2 ^ w + d) % 2 ^ w) start
]

unfoldable pub parse_decimal : List ℕ → Bool × ℕ
parse_decimal str = parse_loop 32 10 decimal_digit 0 str

unfoldable pub parse_decimal_ull : List ℕ → Bool × ℕ
parse_decimal_ull str = parse_loop 64 10 decimal_digit 0 str

unfoldable pub parse_hexadecimal : List ℕ → Bool × ℕ
parse_hexadecimal str = parse_loop 32 16 hexadecimal_digit 0 str

unfoldable pub parse_hexadecimal_ull : List ℕ → Bool × ℕ
parse_hexadecimal_ull str = parse_loop 64 16 hexadecimal_digit 0 str
