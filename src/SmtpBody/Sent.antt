-- ===== src/SmtpBody/Sent.antt =====
-- ase/gtcpp/smtp_common.cpp: a line that is sent comes back with CRLF behind it.
use ase.Prelude.{
  ℕ, suc, ◌≤◌, ◌≡◌, refl, sym, ap, ◌∙◌, inl, inr, false, ◌&&◌, ◌||◌, List, [], ◌∷◌, ◌++◌,
  append_assoc, arith, ◌==◌, if◌then◌else◌, ==_iff, Bool-cases, length, length-append,
}
use mathlib.Core.Path.{subst}
use ase.Split.{find_char}
use ase.SmtpBody.{last_byte, starts_with_period, escaped_line, unescape_line, is_end_line}
use ase.SmtpBody.Lines.{Line}

-- A line without the carriage return at its end, if it has one.
unfoldable pub stripped : List ℕ → List ℕ
stripped [] = []
stripped (x ∷ []) = if x == 13 then [] else x ∷ []
stripped (x ∷ y ∷ line) = x ∷ stripped (y ∷ line)

-- The line in front of the line feed of an escaped line.
unfoldable pub sent : List ℕ → List ℕ
sent line = (if starts_with_period line then 46 ∷ [] else []) ++ (stripped line ++ 13 ∷ [])

with_return :
    (line : List ℕ)
    → (if last_byte line == 13 then line ++ 10 ∷ [] else line ++ 13 ∷ 10 ∷ [])
      ≡ stripped line ++ 13 ∷ 10 ∷ []
unfolding last_byte stripped
with_return [] = refl
with_return (x ∷ []) = elim (Bool-cases (x == 13)) [
  | inl e ↦ rw ((==_iff x 13).0 e) refl
  | inr e ↦ rw e refl
]
with_return (x ∷ y ∷ line) =
    let ih = with_return (y ∷ line) in
    elim (Bool-cases (last_byte (y ∷ line) == 13)) [
      | inl e ↦ rw e (ap (λ (t : List ℕ). x ∷ t) (rw e at ih))
      | inr e ↦ rw e (ap (λ (t : List ℕ). x ∷ t) (rw e at ih))
    ]

pub escaped_line-sent : (line : List ℕ) → escaped_line line ≡ sent line ++ 10 ∷ []
unfolding escaped_line sent
escaped_line-sent line =
    let period : List ℕ = if starts_with_period line then 46 ∷ [] else [] in
    rw (with_return line) (
      sym (
        append_assoc period (stripped line ++ 13 ∷ []) (10 ∷ [])
        ∙ ap (λ (t : List ℕ). period ++ t) (append_assoc (stripped line) (13 ∷ []) (10 ∷ []))))

pub sent-crlf :
    (line : List ℕ)
    → sent line ++ 10 ∷ []
      ≡ ((if starts_with_period line then 46 ∷ [] else []) ++ stripped line) ++ 13 ∷ 10 ∷ []
unfolding sent
sent-crlf line =
    let period : List ℕ = if starts_with_period line then 46 ∷ [] else [] in
    ap (λ (t : List ℕ). t ++ 10 ∷ []) (sym (append_assoc period (stripped line) (13 ∷ [])))
    ∙ append_assoc (period ++ stripped line) (13 ∷ []) (10 ∷ [])

find_char-append : (xs ys : List ℕ) → Line xs → Line ys → Line (xs ++ ys)
unfolding find_char
find_char-append [] ys h k = k
find_char-append (x ∷ xs) ys h k = elim (Bool-cases (x == 10)) [
  | inl e ↦ ground (arith, e)
  | inr e ↦ rw e (ap suc (find_char-append xs ys (ground (arith, e)) k))
]

stripped-Line : (line : List ℕ) → Line line → Line (stripped line)
unfolding stripped find_char
stripped-Line [] h = refl
stripped-Line (x ∷ []) h = ground arith
stripped-Line (x ∷ y ∷ line) h = elim (Bool-cases (x == 10)) [
  | inl e ↦ ground (arith, e)
  | inr e ↦ rw e (ap suc (stripped-Line (y ∷ line) (ground (arith, e))))
]

return-Line : Line (13 ∷ [])
unfolding find_char
return-Line = refl

period-Line : Line (46 ∷ [])
unfolding find_char
period-Line = refl

pub sent-Line : (line : List ℕ) → Line line → Line (sent line)
unfolding sent
sent-Line line h =
    let tail = find_char-append (stripped line) (13 ∷ []) (stripped-Line line h) return-Line in
    elim (Bool-cases (starts_with_period line)) [
      | inl e ↦ rw e (find_char-append (46 ∷ []) (stripped line ++ 13 ∷ []) period-Line tail)
      | inr e ↦ rw e tail
    ]

no_period : (line : List ℕ) → starts_with_period line ≡ false → is_end_line line ≡ false
unfolding is_end_line
no_period line h =
    elim (Bool-cases (length line == 1 || (length line == 2 && last_byte line == 13))) [
      | inl e ↦ rw (e, h) refl
      | inr e ↦ rw e refl
    ]

too_long : (line : List ℕ) → 3 ≤ length line → is_end_line line ≡ false
unfolding is_end_line
too_long line h =
    let not_one : (length line == 1) ≡ false = ground arith in
    let not_two : (length line == 2) ≡ false = ground arith in rw (not_one, not_two) refl

pub sent_period :
    (y : ℕ) (line : List ℕ) → sent (46 ∷ y ∷ line) ≡ 46 ∷ 46 ∷ (stripped (y ∷ line) ++ 13 ∷ [])
unfolding sent starts_with_period stripped
sent_period y line = refl

pub sent_other :
    (line : List ℕ) → starts_with_period line ≡ false → sent line ≡ stripped line ++ 13 ∷ []
unfolding sent
sent_other line h = rw h refl

pub other_period :
    (x : ℕ) (line : List ℕ)
    → (x == 46) ≡ false
    → starts_with_period (stripped (x ∷ line) ++ 13 ∷ []) ≡ false
unfolding starts_with_period stripped
other_period x [] h = elim (Bool-cases (x == 13)) [ inl e ↦ rw e refl | inr e ↦ rw e h ]
other_period x (y ∷ line) h = h

unescape-other : (line : List ℕ) → starts_with_period line ≡ false → unescape_line line ≡ line
unfolding starts_with_period unescape_line
unescape-other [] h = refl
unescape-other (x ∷ line) h = rw h refl

period-append :
    (line : List ℕ)
    → starts_with_period (line ++ 13 ∷ []) ≡ false
    → starts_with_period ((line ++ 13 ∷ []) ++ 10 ∷ []) ≡ false
unfolding starts_with_period
period-append [] h = refl
period-append (x ∷ line) h = h

Back : List ℕ → Type 0
Back line =
    (if is_end_line (sent line) then [] else unescape_line (sent line ++ 10 ∷ []))
    ≡ stripped line ++ 13 ∷ 10 ∷ []

other-Back :
    (line : List ℕ)
    → starts_with_period line ≡ false
    → starts_with_period (stripped line ++ 13 ∷ []) ≡ false
    → Back line
unfolding Back
other-Back line h k =
    rw
      (
        sent_other line h,
        no_period (stripped line ++ 13 ∷ []) k,
        unescape-other ((stripped line ++ 13 ∷ []) ++ 10 ∷ []) (period-append (stripped line) k),
      )
      (append_assoc (stripped line) (13 ∷ []) (10 ∷ []))

nothing-Back : Back []
unfolding Back sent is_end_line unescape_line starts_with_period last_byte stripped
nothing-Back = refl

lone-Back : Back (46 ∷ [])
unfolding Back sent is_end_line unescape_line starts_with_period last_byte stripped
lone-Back = refl

period-Back : (line : List ℕ) → Back (46 ∷ line)
unfolding Back unescape_line stripped
period-Back [] = lone-Back
period-Back (y ∷ line) =
    let size : 3 ≤ length (46 ∷ 46 ∷ (stripped (y ∷ line) ++ 13 ∷ [])) =
      omega (arith, length-append (stripped (y ∷ line)) (13 ∷ [])) in
    rw (sent_period y line, too_long (46 ∷ 46 ∷ (stripped (y ∷ line) ++ 13 ∷ [])) size)
      (ap (λ (t : List ℕ). 46 ∷ t) (append_assoc (stripped (y ∷ line)) (13 ∷ []) (10 ∷ [])))

-- A line that is sent is not the end of the body, and comes back without its additional period.
pub other_first :
    (x : ℕ) (line : List ℕ) → (x == 46) ≡ false → starts_with_period (x ∷ line) ≡ false
unfolding starts_with_period
other_first x line e = e

sent-Back : (line : List ℕ) → Back line
sent-Back [] = nothing-Back
sent-Back (x ∷ line) = elim (Bool-cases (x == 46)) [
  | inl e ↦ subst (λ (n : ℕ). Back (n ∷ line)) (sym ((==_iff x 46).0 e)) (period-Back line)
  | inr e ↦ other-Back (x ∷ line) (other_first x line e) (other_period x line e)
]

pub sent_back :
    (line : List ℕ)
    → (if is_end_line (sent line) then [] else unescape_line (sent line ++ 10 ∷ []))
      ≡ stripped line ++ 13 ∷ 10 ∷ []
unfolding Back
sent_back line = sent-Back line
