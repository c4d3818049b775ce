-- ===== src/Numbers/Printed.antt =====
-- ase/gtcpp/string_util.cpp: what is printed is parsed to the same number.
use native.Mathlib.Nat.{pow-suc, pow-zero}
use ase.Numbers.{
  parse_loop, decimal_digit, hexadecimal_digit, parse_decimal_ull, parse_hexadecimal,
  parse_hexadecimal_ull,
}
use ase.Numbers.Print.{
  digit_char, number_loop, number_text, printed, append_text, to_string_decimal_ull,
  to_string_hexadecimal, to_string_hexadecimal_ull,
}
use ase.Prelude.{
  ℕ, zero, suc, ◌+◌, ◌*◌, ◌/◌, ◌%◌, ◌^◌, ◌≤◌, ◌<◌, ◌≡◌, refl, ap, inl, inr, true, Option, some,
  List, [], ◌∷◌, ◌++◌, append_assoc, arith, ltb, leb, ltb→lt, Bool-cases, length, take, drop,
  take-append,
}

-- A base whose digits are parsed as they are printed, and whose divisions are those of `w` bits.
record Base (w base : ℕ) (digit_of : ℕ → Option ℕ) : Type 0 where
  reads : (d : ℕ) → d < base → digit_of (digit_char d) ≡ some d
  low : (v : ℕ) → v % base < base
  high : (v p : ℕ) → v < p * base → v / base < p
  joins : (v : ℕ) → v < 2 ^ w → (v / base * base % 2 ^ w + v % base) % 2 ^ w ≡ v
  alone : (v : ℕ) → v < 2 ^ w → (0 * base % 2 ^ w + v) % 2 ^ w ≡ v
  smaller : (v : ℕ) → v < 2 ^ w → v / base < 2 ^ w

module _ (w base : ℕ) (digit_of : ℕ → Option ℕ) (b : Base w base digit_of) where
  parse_loop-number_loop :
      (fuel v : ℕ) (later : List ℕ)
      → v < base ^ fuel
      → v < 2 ^ w
      → parse_loop w base digit_of 0 (number_loop fuel base v later)
        ≡ parse_loop w base digit_of v later
  unfolding number_loop parse_loop
  parse_loop-number_loop zero v later h fits =
      let one = pow-zero base in let none_left : v ≡ 0 = omega (arith, h, one) in rw none_left refl
  parse_loop-number_loop (suc fuel) v later h fits = elim (Bool-cases (ltb v base)) [
    | inl e ↦ rw (e, parse_loop, b.reads v (ltb→lt v base e), b.alone v fits) refl
    | inr e ↦
        let below : v < base ^ fuel * base = rw (pow-suc base fuel) at h in
        rw
          (
            e,
            parse_loop-number_loop fuel (v / base) (digit_char (v % base) ∷ later)
                (b.high v (base ^ fuel) below) (b.smaller v fits),
            parse_loop,
            b.reads (v % base) (b.low v),
            b.joins v fits,
          )
          refl
  ]

  length-number_loop :
      (fuel k v : ℕ) (later : List ℕ)
      → v < base ^ suc k
      → length (number_loop fuel base v later) ≤ suc k + length later
  unfolding number_loop
  length-number_loop zero k v later h = omega arith
  length-number_loop (suc fuel) zero v later h =
      let one : v < 1 * base = rw (pow-suc base 0, pow-zero base) at h in
      let last : ltb v base ≡ true = ground (arith, one) in rw last (omega arith)
  length-number_loop (suc fuel) (suc k) v later h = elim (Bool-cases (ltb v base)) [
    | inl e ↦ rw e (omega arith)
    | inr e ↦
        let below : v < base ^ suc k * base = rw (pow-suc base (suc k)) at h in
        let rest =
          length-number_loop fuel k (v / base) (digit_char (v % base) ∷ later)
            (b.high v (base ^ suc k) below) in
        rw e (omega (arith, rest))
  ]

  parse_loop-number_text :
      (v : ℕ)
      → v < base ^ 64
      → v < 2 ^ w
      → parse_loop w base digit_of 0 (number_text base v) ≡ (true, v)
  unfolding number_text parse_loop
  parse_loop-number_text v h fits = parse_loop-number_loop 64 v [] h fits

  length-number_text : (v : ℕ) → v < base ^ 15 → length (number_text base v) ≤ 15
  unfolding number_text
  length-number_text v h = omega (arith, length-number_loop 64 14 v [] h)

take_long : {A : Type 0} → (n : ℕ) (xs : List A) → length xs ≤ n → take n xs ≡ xs
take_long zero [] h = refl
take_long zero (x ∷ xs) h = absurd (omega arith)
take_long (suc n) [] h = refl
take_long (suc n) (x ∷ xs) h = ap (λ t. x ∷ t) (take_long n xs (omega arith))

-- A text of at most 15 bytes goes whole into the buffer.
append_text-fits :
    (text space buf : List ℕ)
    → length text ≤ 15
    → 16 ≤ length space
    → append_text text space buf ≡ some (buf ++ text, length text)
unfolding append_text printed
append_text-fits text space buf short room =
    let whole : take 15 text ≡ text = take_long 15 text short in
    let enough : leb (length text) (length space) ≡ true = ground (arith, short, room) in
    rw
      (
        enough,
        whole,
        append_assoc text (0 ∷ []) (drop (length (text ++ 0 ∷ [])) space),
        take-append text (0 ∷ [] ++ drop (length (text ++ 0 ∷ [])) space),
      )
      refl

decimal_reads : (d : ℕ) → d < 10 → decimal_digit (digit_char d) ≡ some d
unfolding decimal_digit digit_char
decimal_reads d h = ground (arith, h)

hexadecimal_reads : (d : ℕ) → d < 16 → hexadecimal_digit (digit_char d) ≡ some d
unfolding hexadecimal_digit digit_char
hexadecimal_reads d h = ground (arith, h)

decimal_64-Base : Base 64 10 decimal_digit
decimal_64-Base = record {
  reads = decimal_reads;
  low = λ v. omega arith;
  high = λ v p h. omega arith;
  joins = λ v h. omega arith;
  alone = λ v h. omega arith;
  smaller = λ v h. omega arith;
}

hexadecimal_32-Base : Base 32 16 hexadecimal_digit
hexadecimal_32-Base = record {
  reads = hexadecimal_reads;
  low = λ v. omega arith;
  high = λ v p h. omega arith;
  joins = λ v h. omega arith;
  alone = λ v h. omega arith;
  smaller = λ v h. omega arith;
}

hexadecimal_64-Base : Base 64 16 hexadecimal_digit
hexadecimal_64-Base = record {
  reads = hexadecimal_reads;
  low = λ v. omega arith;
  high = λ v p h. omega arith;
  joins = λ v h. omega arith;
  alone = λ v h. omega arith;
  smaller = λ v h. omega arith;
}

-- With make_space's 16 bytes: an unsigned long long below 10^15 in decimal, an unsigned int in hexadecimal
-- and an unsigned long long below 16^15 in hexadecimal are each appended whole to the buffer, with the
-- length of the text as the result, and the text is parsed to the number.
pub to_string_decimal_ull-parse_decimal_ull :
    (space buf : List ℕ) (n int long : ℕ)
    → 16 ≤ length space
    → n < 10 ^ 15
    → int < 2 ^ 32
    → long < 16 ^ 15
    → ((text : List ℕ) × (to_string_decimal_ull space buf n ≡ some (buf ++ text, length text))
        × (parse_decimal_ull text ≡ (true, n)))
      × ((text : List ℕ) × (to_string_hexadecimal space buf int ≡ some (buf ++ text, length text))
          × (parse_hexadecimal text ≡ (true, int)))
      × ((text : List ℕ) × (to_string_hexadecimal_ull space buf long
            ≡ some (buf ++ text, length text))
          × (parse_hexadecimal_ull text ≡ (true, long)))
unfolding to_string_decimal_ull to_string_hexadecimal to_string_hexadecimal_ull parse_decimal_ull
    parse_hexadecimal parse_hexadecimal_ull
to_string_decimal_ull-parse_decimal_ull space buf n int long room small fits short = (
  (
    number_text 10 n,
    append_text-fits (number_text 10 n) space buf
        (length-number_text 64 10 decimal_digit decimal_64-Base n small) room,
    parse_loop-number_text 64 10 decimal_digit decimal_64-Base n (omega arith) (omega arith),
  ),
  (
    number_text 16 int,
    append_text-fits (number_text 16 int) space buf
        (length-number_text 32 16 hexadecimal_digit hexadecimal_32-Base int (omega arith)) room,
    parse_loop-number_text 32 16 hexadecimal_digit hexadecimal_32-Base int (omega arith)
        (omega arith),
  ),
  (
    number_text 16 long,
    append_text-fits (number_text 16 long) space buf
        (length-number_text 64 16 hexadecimal_digit hexadecimal_64-Base long short) room,
    parse_loop-number_text 64 16 hexadecimal_digit hexadecimal_64-Base long (omega arith)
        (omega arith),
  ),
)
