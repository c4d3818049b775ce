-- ===== src/Numbers/Runs.antt =====
-- ase/gtcpp/string_util.cpp: runs of the parsers.
use ase.Prelude.{ℕ, ◌≡◌, refl, true, none, some, List, [], ◌∷◌, ◌++◌, arith, length, replicate}
use ase.Numbers.{
  decimal_digit, parse_loop, parse_decimal, parse_decimal_ull, parse_hexadecimal,
  parse_hexadecimal_ull,
}
use ase.Numbers.Print.{
  number_loop, number_text, digit_char, printed, append_text, to_string_decimal_ull,
  to_string_hexadecimal, to_string_hexadecimal_ull,
}
use ase.Numbers.Printed.{to_string_decimal_ull-parse_decimal_ull}
use ase.Numbers.Value.{decimal_value, hexadecimal_value, digits_of, outcome, parsers_lem}

-- "4294967297" wraps in 32 bits.
wrapped : parse_decimal (52 ∷ 50 ∷ 57 ∷ 52 ∷ 57 ∷ 54 ∷ 55 ∷ 50 ∷ 57 ∷ 55 ∷ []) ≡ (true, 1)
unfolding parse_decimal parse_loop decimal_digit
wrapped = refl

parsers_lem_example :
    (parse_decimal (49 ∷ 50 ∷ []) ≡ outcome 32 10 0 (digits_of decimal_value (49 ∷ 50 ∷ [])))
    × (parse_decimal_ull (49 ∷ 50 ∷ []) ≡ outcome 64 10 0 (digits_of decimal_value (49 ∷ 50 ∷ [])))
    × (parse_hexadecimal (49 ∷ 50 ∷ [])
        ≡ outcome 32 16 0 (digits_of hexadecimal_value (49 ∷ 50 ∷ [])))
    × (parse_hexadecimal_ull (49 ∷ 50 ∷ [])
        ≡ outcome 64 16 0 (digits_of hexadecimal_value (49 ∷ 50 ∷ [])))
parsers_lem_example = parsers_lem (49 ∷ 50 ∷ [])

-- 10^15 has 16 digits: the last is lost and a 0 appended for it.
cut_off :
    to_string_decimal_ull (replicate 16 9) [] 1000000000000000
    ≡ some (49 ∷ replicate 14 48 ++ 0 ∷ [], 16)
unfolding to_string_decimal_ull append_text printed number_text number_loop digit_char
cut_off = refl

-- Of 10^19 more is appended than there is space for.
overrun : to_string_decimal_ull (replicate 16 9) [] 10000000000000000000 ≡ none
unfolding to_string_decimal_ull append_text printed number_text number_loop digit_char
overrun = refl

abbrev space : List ℕ
space = replicate 16 9

to_string_decimal_ull-parse_decimal_ull_example :
    ((text : List ℕ) × (to_string_decimal_ull space [] 10 ≡ some ([] ++ text, length text))
      × (parse_decimal_ull text ≡ (true, 10)))
    × ((text : List ℕ) × (to_string_hexadecimal space [] 255 ≡ some ([] ++ text, length text))
        × (parse_hexadecimal text ≡ (true, 255)))
    × ((text : List ℕ) × (to_string_hexadecimal_ull space [] 4294967296
          ≡ some ([] ++ text, length text))
        × (parse_hexadecimal_ull text ≡ (true, 4294967296)))
to_string_decimal_ull-parse_decimal_ull_example =
    to_string_decimal_ull-parse_decimal_ull space [] 10 255 4294967296 (omega arith) (omega arith)
      (omega arith) (omega arith)
