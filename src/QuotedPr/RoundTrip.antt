-- ===== src/QuotedPr/RoundTrip.antt =====
-- ase/gtcpp/quotedpr.cpp: what the decoder makes of an encoded text, and the space that it needs.
use ase.Prelude.{
  ℕ, zero, suc, ◌+◌, ◌-◌, ◌/◌, ◌%◌, ◌≤◌, ◌<◌, ◌≡◌, refl, false, some, List, [], ◌∷◌, ◌++◌, arith,
  ltb, ◌==◌, if◌then◌else◌, length, All,
}
use ase.Prelude.Bits.{bit_or_disjoint}
use ase.QuotedPr.{
  read_hexadecimal_char, hexadecimal_pair, escaped_byte, behind_escape, quoted_loop,
  quoted_printable_decode,
}

-- The parts of an encoded text: a byte for itself, a byte as two hexadecimal digits, and a line break
-- that is not of the text, with or without a carriage return.
pub data Piece : Type 0 where
  plain : ℕ → Piece
  escaped : ℕ → Piece
  soft_break soft_line_feed : Piece

-- A byte that stands for itself is no `=`.
unfoldable pub Proper : Piece → Type 0
Proper (plain b) = (b == 61) ≡ false
Proper (escaped b) = b < 256
Proper soft_break = Unit
Proper soft_line_feed = Unit

unfoldable pub hexadecimal_digit : ℕ → ℕ
hexadecimal_digit x = if ltb x 10 then 48 + x else 65 + (x - 10)

unfoldable pub encoded : List Piece → List ℕ
encoded [] = []
encoded (plain b ∷ ps) = b ∷ encoded ps
encoded (escaped b ∷ ps) = 61 ∷ hexadecimal_digit (b / 16) ∷ hexadecimal_digit (b % 16) ∷ encoded ps
encoded (soft_break ∷ ps) = 61 ∷ 13 ∷ 10 ∷ encoded ps
encoded (soft_line_feed ∷ ps) = 61 ∷ 10 ∷ encoded ps

unfoldable pub meant : List Piece → List ℕ
meant [] = []
meant (plain b ∷ ps) = b ∷ meant ps
meant (escaped b ∷ ps) = b ∷ meant ps
meant (soft_break ∷ ps) = meant ps
meant (soft_line_feed ∷ ps) = meant ps

read-hexadecimal_digit : (x : ℕ) → x < 16 → read_hexadecimal_char (hexadecimal_digit x) ≡ some x
unfolding read_hexadecimal_char hexadecimal_digit
read-hexadecimal_digit x h = ground arith

digit-ne_line_feed : (x : ℕ) → x < 16 → (hexadecimal_digit x == 10) ≡ false
unfolding hexadecimal_digit
digit-ne_line_feed x h = ground arith

pair-byte : (b : ℕ) → b < 256 → hexadecimal_pair (some (b / 16)) (some (b % 16)) ≡ b ∷ []
unfolding hexadecimal_pair
pair-byte b h = ground (arith, bit_or_disjoint 4 (b / 16) (b % 16) (omega arith))

loop_plain :
    (fuel b : ℕ) (rest : List ℕ)
    → (b == 61) ≡ false
    → quoted_loop (suc fuel) (b ∷ rest) ≡ b ∷ quoted_loop fuel rest
unfolding quoted_loop
loop_plain fuel b rest h = rw (h, quoted_loop) refl

loop_escape :
    (fuel : ℕ) (rest : List ℕ)
    → quoted_loop (suc fuel) (61 ∷ rest)
      ≡ escaped_byte rest ++ quoted_loop fuel (behind_escape rest)
unfolding quoted_loop
loop_escape fuel rest = refl

loop_nil : (fuel : ℕ) → quoted_loop fuel [] ≡ []
unfolding quoted_loop
loop_nil fuel = refl

escaped_hexadecimal :
    (b : ℕ) (rest : List ℕ)
    → b < 256
    → escaped_byte (hexadecimal_digit (b / 16) ∷ hexadecimal_digit (b % 16) ∷ rest) ≡ b ∷ []
unfolding escaped_byte
escaped_hexadecimal b rest h =
    rw
      (read-hexadecimal_digit (b / 16) (omega arith), read-hexadecimal_digit (b % 16) (omega arith))
      (pair-byte b h)

behind_hexadecimal :
    (b : ℕ) (rest : List ℕ)
    → b < 256
    → behind_escape (hexadecimal_digit (b / 16) ∷ hexadecimal_digit (b % 16) ∷ rest) ≡ rest
unfolding behind_escape
behind_hexadecimal b rest h = rw (digit-ne_line_feed (b / 16) (omega arith)) refl

soft_written : (rest : List ℕ) → escaped_byte (13 ∷ 10 ∷ rest) ≡ []
unfolding escaped_byte read_hexadecimal_char hexadecimal_pair
soft_written rest = refl

soft_left : (rest : List ℕ) → behind_escape (13 ∷ 10 ∷ rest) ≡ rest
unfolding behind_escape
soft_left rest = refl

line_feed_written : (rest : List ℕ) → escaped_byte (10 ∷ rest) ≡ []
unfolding escaped_byte read_hexadecimal_char hexadecimal_pair
line_feed_written [] = refl
line_feed_written (c ∷ rest) = refl

line_feed_left : (rest : List ℕ) → behind_escape (10 ∷ rest) ≡ rest
unfolding behind_escape
line_feed_left [] = refl
line_feed_left (c ∷ rest) = refl

quoted_loop-encoded :
    (fuel : ℕ) (ps : List Piece)
    → All Proper ps
    → length (encoded ps) ≤ fuel
    → quoted_loop fuel (encoded ps) ≡ meant ps
unfolding encoded meant Proper
quoted_loop-encoded fuel [] proper enough = loop_nil fuel
quoted_loop-encoded zero (plain b ∷ ps) proper enough = absurd (omega arith)
quoted_loop-encoded zero (escaped b ∷ ps) proper enough = absurd (omega arith)
quoted_loop-encoded zero (soft_break ∷ ps) proper enough = absurd (omega arith)
quoted_loop-encoded zero (soft_line_feed ∷ ps) proper enough = absurd (omega arith)
quoted_loop-encoded (suc fuel) (plain b ∷ ps) proper enough =
    rw
      (
        loop_plain fuel b (encoded ps) proper.0,
        quoted_loop-encoded fuel ps proper.1 (omega (arith, enough)),
      )
      refl
quoted_loop-encoded (suc fuel) (escaped b ∷ ps) proper enough =
    rw
      (
        loop_escape,
        escaped_hexadecimal b (encoded ps) proper.0,
        behind_hexadecimal b (encoded ps) proper.0,
        quoted_loop-encoded fuel ps proper.1 (omega (arith, enough)),
      )
      refl
quoted_loop-encoded (suc fuel) (soft_break ∷ ps) proper enough =
    rw
      (
        loop_escape,
        soft_written,
        soft_left,
        quoted_loop-encoded fuel ps proper.1 (omega (arith, enough)),
      )
      refl
quoted_loop-encoded (suc fuel) (soft_line_feed ∷ ps) proper enough =
    rw
      (
        loop_escape,
        line_feed_written,
        line_feed_left,
        quoted_loop-encoded fuel ps proper.1 (omega (arith, enough)),
      )
      refl

-- quoted_printable_decode of any encoded text gives the bytes that are meant: those that stand for
-- themselves and those that are escaped, without the soft line breaks, also where such a break is a
-- line feed alone.
pub quoted_printable_decode-encoded :
    (ps : List Piece) → All Proper ps → quoted_printable_decode (encoded ps) ≡ meant ps
unfolding quoted_printable_decode
quoted_printable_decode-encoded ps proper =
    quoted_loop-encoded (length (encoded ps)) ps proper (omega arith)
