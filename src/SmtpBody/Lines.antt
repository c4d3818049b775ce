-- ===== src/SmtpBody/Lines.antt =====
-- ase/gtcpp/smtp_common.cpp: one line of a body, closed by a line feed.
use ase.Prelude.{
  ℕ, suc, ◌+◌, ◌≡◌, refl, ap, ◌∙◌, inl, inr, false, List, [], ◌∷◌, ◌++◌, arith, ◌==◌, if◌then◌else◌,
  Bool-cases, length, take, drop, length-append, take-append,
}
use ase.Split.{find_char}
use ase.SmtpBody.{escaped_line, escape_loop, unescape_line, is_end_line, unescape_loop}

-- A line has no line feed in it.
abbrev pub Line : List ℕ → Type 0
Line line = find_char line 10 ≡ length line

pub find_char-Line :
    (line rest : List ℕ) → Line line → find_char (line ++ 10 ∷ rest) 10 ≡ length line
unfolding find_char
find_char-Line [] rest h = refl
find_char-Line (x ∷ line) rest h = elim (Bool-cases (x == 10)) [
  | inl e ↦ ground (arith, e)
  | inr e ↦ rw e (ap suc (find_char-Line line rest (ground (arith, e))))
]

drop_line : (line rest : List ℕ) → drop (length line + 1) (line ++ 10 ∷ rest) ≡ rest
drop_line [] rest = refl
drop_line (x ∷ line) rest =
    let next : suc (length line) + 1 ≡ suc (length line + 1) = omega arith in
    rw next (drop_line line rest)

take_line : (line rest : List ℕ) → take (length line + 1) (line ++ 10 ∷ rest) ≡ line ++ 10 ∷ []
take_line [] rest = refl
take_line (x ∷ line) rest =
    let next : suc (length line) + 1 ≡ suc (length line + 1) = omega arith in
    rw next (ap (λ (t : List ℕ). x ∷ t) (take_line line rest))

-- What the loops compute at the bytes `xs`, the line in front of whose first line feed is `line`.
module _ (b : ℕ) (begin line rest : List ℕ) (e : b ∷ begin ≡ line ++ 10 ∷ rest)
    (h : Line line) where
  place : find_char (b ∷ begin) 10 ≡ length line
  place = rw e (find_char-Line line rest h)

  inside : (length line == length (b ∷ begin)) ≡ false
  inside =
      let size : length (b ∷ begin) ≡ length line + suc (length rest) =
        ap length e ∙ length-append line (10 ∷ rest) in
      ground (arith, size)

  before : take (length line) (b ∷ begin) ≡ line
  before = rw e (take-append line (10 ∷ rest))

  through : take (length line + 1) (b ∷ begin) ≡ line ++ 10 ∷ []
  through = rw e (take_line line rest)

  behind : drop (length line + 1) (b ∷ begin) ≡ rest
  behind = rw e (drop_line line rest)

  escape_at :
      (fuel : ℕ) → escape_loop (suc fuel) (b ∷ begin) ≡ escaped_line line ++ escape_loop fuel rest
  unfolding escape_loop
  escape_at fuel = rw (place, inside, before, behind) refl

  unescape_at :
      (fuel : ℕ)
      → unescape_loop (suc fuel) (b ∷ begin)
        ≡ (if is_end_line line then [] else unescape_line (line ++ 10 ∷ []))
          ++ unescape_loop fuel rest
  unfolding unescape_loop
  unescape_at fuel = rw (place, inside, before, through, behind) refl

pub escape_loop-Line :
    (fuel : ℕ) (line rest : List ℕ)
    → Line line
    → escape_loop (suc fuel) (line ++ 10 ∷ rest) ≡ escaped_line line ++ escape_loop fuel rest
escape_loop-Line fuel [] rest h = escape_at 10 rest [] rest refl h fuel
escape_loop-Line fuel (b ∷ line) rest h =
    escape_at b (line ++ 10 ∷ rest) (b ∷ line) rest refl h fuel

pub unescape_loop-Line :
    (fuel : ℕ) (line rest : List ℕ)
    → Line line
    → unescape_loop (suc fuel) (line ++ 10 ∷ rest)
      ≡ (if is_end_line line then [] else unescape_line (line ++ 10 ∷ []))
        ++ unescape_loop fuel rest
unescape_loop-Line fuel [] rest h = unescape_at 10 rest [] rest refl h fuel
unescape_loop-Line fuel (b ∷ line) rest h =
    unescape_at b (line ++ 10 ∷ rest) (b ∷ line) rest refl h fuel
