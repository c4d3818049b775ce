-- ===== src/Numbers/Print.antt =====
-- ase/gtcpp/string_util.cpp: the printing of unsigned numbers into a string buffer. snprintf with %llu, %x
-- and %llx writes at most 15 bytes of the number and a 0, and gives the length of the whole number.
use ase.Prelude.{
  ℕ, zero, suc, ◌+◌, ◌/◌, ◌%◌, Option, none, some, List, [], ◌∷◌, ◌++◌, ltb, leb, if◌then◌else◌,
  length, take, drop,
}

unfoldable pub digit_char : ℕ → ℕ
digit_char d = if ltb d 10 then 48 + d else 87 + d

-- The digits of `v` before `later`; 64 divisions are enough for 64 bits (Numbers.Printed).
unfoldable pub number_loop : ℕ → ℕ → ℕ → List ℕ → List ℕ
number_loop zero base v later = later
number_loop (suc fuel) base v later =
    let rest = number_loop fuel base (v / base) (digit_char (v % base) ∷ later) in
    if ltb v base then digit_char v ∷ later else rest

unfoldable pub number_text : ℕ → ℕ → List ℕ
number_text base v = number_loop 64 base v []

-- The bytes of `space` behind snprintf with a size of 16.
unfoldable pub printed : List ℕ → List ℕ → List ℕ
printed text space = let written = take 15 text ++ 0 ∷ [] in written ++ drop (length written) space

-- make_space, whose bytes are `space`, snprintf and append_done: the buffer and the length. None if more is
-- appended than there is space.
unfoldable pub append_text : List ℕ → List ℕ → List ℕ → Option (List ℕ × ℕ)
append_text text space buf =
    if leb (length text) (length space)
    then some (buf ++ take (length text) (printed text space), length text)
    else none

unfoldable pub to_string_decimal_ull : List ℕ → List ℕ → ℕ → Option (List ℕ × ℕ)
to_string_decimal_ull space buf value = append_text (number_text 10 value) space buf

unfoldable pub to_string_hexadecimal : List ℕ → List ℕ → ℕ → Option (List ℕ × ℕ)
to_string_hexadecimal space buf value = append_text (number_text 16 value) space buf

unfoldable pub to_string_hexadecimal_ull : List ℕ → List ℕ → ℕ → Option (List ℕ × ℕ)
to_string_hexadecimal_ull space buf value = append_text (number_text 16 value) space buf
