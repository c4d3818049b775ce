-- ===== src/SmtpBody/Wire.antt =====
-- ase/gtcpp/smtp_common.cpp: a sent line as the receiver reads it, up to its CRLF.
use ase.BufferedFile.Lines.{first_line, ends_cr, first_line-at, ends_cr-append}
use mathlib.Core.Path.{subst}
use ase.SmtpBody.{starts_with_period}
use ase.SmtpBody.Lines.{Line, find_char-Line}
use ase.SmtpBody.Sent.{stripped, sent, sent_other, other_period, other_first, sent-Line}
use ase.Prelude.{
  ◌+◌, ◌≤◌, ℕ, ◌≡◌, refl, sym, ap, ◌∙◌, inl, inr, Bool, true, false, ◌&&◌, some, List, [], ◌∷◌,
  ◌++◌, arith, ◌==◌, if◌then◌else◌, ==_iff, Bool-cases, length, get_or, length-append, take-append,
}

begins_with :
    (line rest : List ℕ)
    → starts_with_period (line ++ 13 ∷ []) ≡ false
    → (get_or ((line ++ 13 ∷ []) ++ rest) 0 0 == 46) ≡ false
unfolding starts_with_period
begins_with [] rest h = refl
begins_with (x ∷ line) rest h = h

abbrev GoesOn : List ℕ → Type 0
GoesOn line = ((length line == 3) && get_or line 0 0 == 46) ≡ false

longer : (line : List ℕ) → 4 ≤ length line → GoesOn line
longer line h = let size : (length line == 3) ≡ false = ground arith in rw size refl

other_GoesOn : (line : List ℕ) → (get_or line 0 0 == 46) ≡ false → GoesOn line
other_GoesOn line h = elim (Bool-cases (length line == 3)) [
  | inl e ↦ rw (e, h) refl
  | inr e ↦ rw e refl
]

nothing_GoesOn : GoesOn (sent [] ++ 10 ∷ [])
unfolding sent stripped starts_with_period
nothing_GoesOn = refl

period_GoesOn : (line : List ℕ) → GoesOn (sent (46 ∷ line) ++ 10 ∷ [])
unfolding sent stripped starts_with_period
period_GoesOn [] = refl
period_GoesOn (y ∷ line) = longer (sent (46 ∷ y ∷ line) ++ 10 ∷ []) (
    omega (
      arith,
      length-append (stripped (y ∷ line) ++ 13 ∷ []) (10 ∷ []),
      length-append (stripped (y ∷ line)) (13 ∷ []),
    ))

-- A sent line is not the line of one period, CRLF behind it.
pub sent-GoesOn : (line : List ℕ) → GoesOn (sent line ++ 10 ∷ [])
sent-GoesOn [] = nothing_GoesOn
sent-GoesOn (x ∷ line) = elim (Bool-cases (x == 46)) [
  | inl e ↦
      subst (λ (n : ℕ). GoesOn (sent (n ∷ line) ++ 10 ∷ [])) (sym ((==_iff x 46).0 e))
        (period_GoesOn line)
  | inr e ↦ other_GoesOn (sent (x ∷ line) ++ 10 ∷ []) (
      rw (sent_other (x ∷ line) (other_first x line e))
        (begins_with (stripped (x ∷ line)) (10 ∷ []) (other_period x line e)))
]

length-stripped : (line : List ℕ) → length (stripped line) ≤ length line
unfolding stripped
length-stripped [] = omega arith
length-stripped (x ∷ []) = elim (Bool-cases (x == 13)) [
  | inl e ↦ rw e (omega arith)
  | inr e ↦ rw e (omega arith)
]
length-stripped (x ∷ y ∷ line) = omega (arith, length-stripped (y ∷ line))

length-period :
    (line : List ℕ) → length {A = ℕ} (if starts_with_period line then 46 ∷ [] else []) ≤ 1
length-period line = elim (Bool-cases (starts_with_period line)) [
  | inl e ↦ rw e (omega arith)
  | inr e ↦ rw e (omega arith)
]

-- A line grows by a period, CR and LF at most.
pub length-sent : (line : List ℕ) → length (sent line ++ 10 ∷ []) ≤ length line + 3
unfolding sent
length-sent line =
    let period : List ℕ = if starts_with_period line then 46 ∷ [] else [] in
    omega (
      arith,
      length-append (period ++ (stripped line ++ 13 ∷ [])) (10 ∷ []),
      length-append period (stripped line ++ 13 ∷ []),
      length-append (stripped line) (13 ∷ []),
      length-stripped line,
      length-period line,
    )

sent-ends_cr : (cr : Bool) (line : List ℕ) → ends_cr cr (sent line) ≡ true
unfolding sent ends_cr
sent-ends_cr cr line =
    let period : List ℕ = if starts_with_period line then 46 ∷ [] else [] in
    ends_cr-append cr period (stripped line ++ 13 ∷ [])
    ∙ ends_cr-append (ends_cr cr period) (stripped line) (13 ∷ [])

-- Its line feed ends the first line of what begins with it.
pub first_line-sent :
    (cr : Bool) (line rest : List ℕ)
    → Line line
    → first_line true cr (sent line ++ 10 ∷ rest) ≡ some (length (sent line ++ 10 ∷ []))
first_line-sent cr line rest h =
    let place = find_char-Line (sent line) rest (sent-Line line h) in
    let size = length-append (sent line) (10 ∷ rest) in
    first_line-at cr (sent line ++ 10 ∷ rest) (length (sent line)) place (omega (arith, size))
    ∙ rw (take-append (sent line) (10 ∷ rest), sent-ends_cr cr line)
        (ap some (omega (arith, length-append (sent line) (10 ∷ []))))
