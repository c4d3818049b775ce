-- ===== src/QuotedPr/Bounds.antt =====
-- ase/gtcpp/quotedpr.cpp: the decoder ends at every input, and stays within the space that it makes.
use ase.Prelude.{
  ℕ, zero, suc, ◌+◌, ◌≤◌, ◌≡◌, refl, inl, inr, true, Option, none, some, List, [], ◌∷◌, arith, ◌==◌,
  ==_iff, Bool-cases, length, length-append,
}
use ase.QuotedPr.{
  read_hexadecimal_char, hexadecimal_pair, escaped_byte, behind_escape, quoted_loop,
  quoted_printable_decode,
}

length-hexadecimal_pair : (x1 x2 : Option ℕ) → length (hexadecimal_pair x1 x2) ≤ 1
unfolding hexadecimal_pair
length-hexadecimal_pair (some x1) (some x2) = omega arith
length-hexadecimal_pair (some x1) none = omega arith
length-hexadecimal_pair none x2 = omega arith

line_feed_pair :
    (x2 : Option ℕ) (c : ℕ) → (c == 10) ≡ true → hexadecimal_pair (read_hexadecimal_char c) x2 ≡ []
unfolding read_hexadecimal_char hexadecimal_pair
line_feed_pair x2 c h = rw ((==_iff c 10).0 h) refl

escape_fits :
    (start : List ℕ) → length (escaped_byte start) + length (behind_escape start) ≤ length start
unfolding escaped_byte behind_escape
escape_fits [] = omega arith
escape_fits (c1 ∷ []) = omega arith
escape_fits (c1 ∷ c2 ∷ rest) = elim (Bool-cases (c1 == 10)) [
  | inl h ↦ rw (h, line_feed_pair (read_hexadecimal_char c2) c1 h) (omega arith)
  | inr h ↦
      rw h (
        omega
          (arith, length-hexadecimal_pair (read_hexadecimal_char c1) (read_hexadecimal_char c2)))
]

length-quoted_loop : (fuel : ℕ) (start : List ℕ) → length (quoted_loop fuel start) ≤ length start
unfolding quoted_loop
length-quoted_loop fuel [] = omega arith
length-quoted_loop zero (ch ∷ start) = omega arith
length-quoted_loop (suc fuel) (ch ∷ start) = elim (Bool-cases (ch == 61)) [
  | inl h ↦ rw h (
      omega (
        arith,
        length-append (escaped_byte start) (quoted_loop fuel (behind_escape start)),
        length-quoted_loop fuel (behind_escape start),
        escape_fits start,
      ))
  | inr h ↦ rw h (omega (arith, length-quoted_loop fuel start))
]

-- More fuel than bytes changes nothing.
quoted_loop_enough :
    (f g : ℕ) (start : List ℕ)
    → length start ≤ f
    → length start ≤ g
    → quoted_loop f start ≡ quoted_loop g start
unfolding quoted_loop
quoted_loop_enough f g [] hf hg = refl
quoted_loop_enough zero g (ch ∷ start) hf hg = absurd (omega arith)
quoted_loop_enough (suc f) zero (ch ∷ start) hf hg = absurd (omega arith)
quoted_loop_enough (suc f) (suc g) (ch ∷ start) hf hg =
    let left : length (behind_escape start) ≤ length start = omega (arith, escape_fits start) in
    rw
      (
        quoted_loop_enough f g (behind_escape start) (omega (arith, left, hf))
            (omega (arith, left, hg)),
        quoted_loop_enough f g start (omega (arith, hf)) (omega (arith, hg)),
      )
      refl

-- quoted_printable_decode writes at most as many bytes as it reads, which is the space that it makes;
-- and any more fuel for its loop gives the same bytes.
pub quoted_printable_decode-fits :
    (str : List ℕ)
    → (length (quoted_printable_decode str) ≤ length str)
      × ((fuel : ℕ) → length str ≤ fuel → quoted_printable_decode str ≡ quoted_loop fuel str)
unfolding quoted_printable_decode
quoted_printable_decode-fits str = (
  length-quoted_loop (length str) str,
  λ fuel h. quoted_loop_enough (length str) fuel str (omega arith) h,
)
