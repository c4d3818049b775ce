-- ===== src/Numbers/Value.antt =====
-- ase/gtcpp/string_util.cpp: what the parsers compute, in terms of numbers without a bound.
use ase.Prelude.{
  suc, ◌==◌, if◌then◌else◌, ℕ, ◌+◌, ◌*◌, ◌%◌, ◌^◌, ◌≡◌, refl, ◌∙◌, inl, inr, Bool, true, false,
  Option, none, some, List, [], ◌∷◌, arith, Option-cases,
}
use ase.Numbers.{
  decimal_digit, hexadecimal_digit, parse_loop, parse_decimal, parse_decimal_ull, parse_hexadecimal,
  parse_hexadecimal_ull,
}

-- The place of a character in a row, counted from `n`, or `other` if the row has not got it.
unfoldable pub place_or : Option ℕ → ℕ → List ℕ → ℕ → Option ℕ
place_or other n [] c = other
place_or other n (x ∷ row) c =
    let rest = place_or other (suc n) row c in if c == x then some n else rest

-- The values of the digits: the places in the rows "0123456789", "abcdef" and "ABCDEF", the last two
-- counted from 10.
unfoldable pub decimal_value : ℕ → Option ℕ
decimal_value c = place_or none 0 (48 ∷ 49 ∷ 50 ∷ 51 ∷ 52 ∷ 53 ∷ 54 ∷ 55 ∷ 56 ∷ 57 ∷ []) c

unfoldable pub hexadecimal_value : ℕ → Option ℕ
hexadecimal_value c =
    place_or
      (place_or (place_or none 10 (65 ∷ 66 ∷ 67 ∷ 68 ∷ 69 ∷ 70 ∷ []) c) 10
        (97 ∷ 98 ∷ 99 ∷ 100 ∷ 101 ∷ 102 ∷ []) c)
      0 (48 ∷ 49 ∷ 50 ∷ 51 ∷ 52 ∷ 53 ∷ 54 ∷ 55 ∷ 56 ∷ 57 ∷ []) c

decimal_digit-decimal_value : (c : ℕ) → decimal_digit c ≡ decimal_value c
unfolding decimal_digit decimal_value place_or
decimal_digit-decimal_value c = ground arith

hexadecimal_digit-hexadecimal_value : (c : ℕ) → hexadecimal_digit c ≡ hexadecimal_value c
unfolding hexadecimal_digit hexadecimal_value place_or
hexadecimal_digit-hexadecimal_value c = ground arith

-- The digits of a text, if it has nothing else.
unfoldable pub digits_of : (ℕ → Option ℕ) → List ℕ → Option (List ℕ)
digits_of digit_of [] = some []
digits_of digit_of (c ∷ str) = elim (digit_of c) [
  | none ↦ none
  | some d ↦ elim (digits_of digit_of str) [ none ↦ none | some ds ↦ some (d ∷ ds) ]
]

-- The number that digits write behind the number `n`.
unfoldable pub value : ℕ → ℕ → List ℕ → ℕ
value base n [] = n
value base n (d ∷ ds) = value base (n * base + d) ds

-- The number cut down to `w` bits, or false and 0.
unfoldable pub outcome : ℕ → ℕ → ℕ → Option (List ℕ) → Bool × ℕ
outcome w base n none = (false, 0)
outcome w base n (some ds) = (true, value base n ds % 2 ^ w)

module _ (w base : ℕ) (digit_of value_of : ℕ → Option ℕ) (same : (c : ℕ) → digit_of c ≡ value_of c)
    (wraps : (a d : ℕ) → (a % 2 ^ w * base % 2 ^ w + d) % 2 ^ w ≡ (a * base + d) % 2 ^ w) where
  outcome-cons :
      (n d : ℕ) (ds : Option (List ℕ))
      → outcome w base (n * base + d) ds
        ≡ outcome w base n (elim ds [ none ↦ none | some ds' ↦ some (d ∷ ds') ])
  unfolding outcome value
  outcome-cons n d none = refl
  outcome-cons n d (some ds) = refl

  parse_loop-outcome :
      (n : ℕ) (str : List ℕ)
      → parse_loop w base digit_of (n % 2 ^ w) str ≡ outcome w base n (digits_of value_of str)
  unfolding parse_loop digits_of outcome value
  parse_loop-outcome n [] = refl
  parse_loop-outcome n (c ∷ str) = elim (Option-cases (value_of c)) [
    | inl e ↦ rw (e, parse_loop, same c, e, digits_of) refl
    | inr (d, e) ↦
        rw (e, parse_loop, same c, e, digits_of, wraps n d)
          (parse_loop-outcome (n * base + d) str ∙ outcome-cons n d (digits_of value_of str))
  ]

-- Each parser accepts the texts of digits only, the empty one included and hexadecimal digits in either
-- case, and gives the number that they write, cut down to the bits of its type; for any other text it gives false and 0.
pub parsers_lem :
    (str : List ℕ)
    → (parse_decimal str ≡ outcome 32 10 0 (digits_of decimal_value str))
      × (parse_decimal_ull str ≡ outcome 64 10 0 (digits_of decimal_value str))
      × (parse_hexadecimal str ≡ outcome 32 16 0 (digits_of hexadecimal_value str))
      × (parse_hexadecimal_ull str ≡ outcome 64 16 0 (digits_of hexadecimal_value str))
unfolding parse_decimal parse_decimal_ull parse_hexadecimal parse_hexadecimal_ull
parsers_lem str = (
  parse_loop-outcome 32 10 decimal_digit decimal_value decimal_digit-decimal_value
      (λ a d. omega arith) 0 str,
  parse_loop-outcome 64 10 decimal_digit decimal_value decimal_digit-decimal_value
      (λ a d. omega arith) 0 str,
  parse_loop-outcome 32 16 hexadecimal_digit hexadecimal_value hexadecimal_digit-hexadecimal_value
      (λ a d. omega arith) 0 str,
  parse_loop-outcome 64 16 hexadecimal_digit hexadecimal_value hexadecimal_digit-hexadecimal_value
      (λ a d. omega arith) 0 str,
)
