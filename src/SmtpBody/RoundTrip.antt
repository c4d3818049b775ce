-- ===== src/SmtpBody/RoundTrip.antt =====
-- ase/gtcpp/smtp_common.cpp: an escaped body, unescaped, is the body with its line breaks as CRLF.
use ase.Prelude.{
  ℕ, zero, suc, ◌≤◌, ◌<◌, ◌≡◌, refl, ap, ◌∙◌, true, List, [], ◌∷◌, ◌++◌, append_assoc, arith,
  if◌then◌else◌, length, All, length-append,
}
use ase.Split.{find_char}
use ase.SmtpBody.{
  ends_with_crlf, last_byte, starts_with_period, escape_loop, is_end_line, unescape_loop, closed,
  smtp_escape_body, smtp_unescape_body,
}
use ase.SmtpBody.Lines.{Line, escape_loop-Line, unescape_loop-Line}
use ase.SmtpBody.Sent.{stripped, sent, sent-crlf, escaped_line-sent, sent-Line, sent_back}

-- The lines of a body, each closed by a line feed.
unfoldable pub body_of : List (List ℕ) → List ℕ
body_of [] = []
body_of (line ∷ lines) = line ++ 10 ∷ body_of lines

-- The lines with CRLF behind each.
unfoldable pub canonical : List (List ℕ) → List ℕ
canonical [] = []
canonical (line ∷ lines) = stripped line ++ 13 ∷ 10 ∷ canonical lines

-- The escaped lines.
unfoldable pub sent_lines : List (List ℕ) → List ℕ
sent_lines [] = []
sent_lines (line ∷ lines) = sent line ++ 10 ∷ sent_lines lines

escape_nothing : (fuel : ℕ) → escape_loop fuel [] ≡ []
unfolding escape_loop
escape_nothing fuel = refl

escape_loop-body :
    (fuel : ℕ) (lines : List (List ℕ))
    → All Line lines
    → length (body_of lines) ≤ fuel
    → escape_loop fuel (body_of lines) ≡ sent_lines lines
unfolding body_of sent_lines
escape_loop-body fuel [] all enough = escape_nothing fuel
escape_loop-body zero (line ∷ lines) all enough =
    absurd (omega (arith, length-append line (10 ∷ body_of lines), enough))
escape_loop-body (suc fuel) (line ∷ lines) all enough =
    escape_loop-Line fuel line (body_of lines) all.0
    ∙ rw
        (
          escaped_line-sent line,
          escape_loop-body fuel lines all.1
              (omega (arith, length-append line (10 ∷ body_of lines), enough)),
        )
        (append_assoc (sent line) (10 ∷ []) (sent_lines lines))

-- The end of the body, `.` CRLF.
end_line : (fuel : ℕ) → unescape_loop (suc fuel) (46 ∷ 13 ∷ 10 ∷ []) ≡ []
unfolding unescape_loop is_end_line starts_with_period last_byte find_char
end_line zero = refl
end_line (suc fuel) = refl

unescape_loop-sent :
    (fuel : ℕ) (lines : List (List ℕ))
    → All Line lines
    → length (sent_lines lines) < fuel
    → unescape_loop fuel (sent_lines lines ++ 46 ∷ 13 ∷ 10 ∷ []) ≡ canonical lines
unfolding sent_lines canonical
unescape_loop-sent zero lines all enough = absurd (omega arith)
unescape_loop-sent (suc fuel) [] all enough = end_line fuel
unescape_loop-sent (suc fuel) (line ∷ lines) all enough =
    let tail : List ℕ = sent_lines lines ++ 46 ∷ 13 ∷ 10 ∷ [] in
    rw (append_assoc (sent line) (10 ∷ sent_lines lines) (46 ∷ 13 ∷ 10 ∷ [])) (
      unescape_loop-Line fuel (sent line) tail (sent-Line line all.0)
      ∙ rw
          (
            sent_back line,
            unescape_loop-sent fuel lines all.1
                (omega (arith, length-append (sent line) (10 ∷ sent_lines lines), enough)),
          )
          (append_assoc (stripped line) (13 ∷ 10 ∷ []) (canonical lines)))

ends-append : (xs : List ℕ) → ends_with_crlf (xs ++ 13 ∷ 10 ∷ []) ≡ true
unfolding ends_with_crlf
ends-append [] = refl
ends-append (x ∷ []) = refl
ends-append (x ∷ y ∷ []) = refl
ends-append (x ∷ y ∷ z ∷ xs) = ends-append (y ∷ z ∷ xs)

ends-cons : (y : ℕ) (xs : List ℕ) → ends_with_crlf xs ≡ true → ends_with_crlf (y ∷ xs) ≡ true
unfolding ends_with_crlf
ends-cons y [] h = ground (arith, h)
ends-cons y (a ∷ []) h = ground (arith, h)
ends-cons y (a ∷ b ∷ xs) h = h

ends-behind : (ys xs : List ℕ) → ends_with_crlf xs ≡ true → ends_with_crlf (ys ++ xs) ≡ true
ends-behind [] xs h = h
ends-behind (y ∷ ys) xs h = ends-cons y (ys ++ xs) (ends-behind ys xs h)

closed-ends : (out : List ℕ) → ends_with_crlf out ≡ true → closed out ≡ out ++ 46 ∷ 13 ∷ 10 ∷ []
unfolding closed
closed-ends out h = rw h refl

-- Sent lines end with CRLF.
sent_lines-ends :
    (line : List ℕ) (lines : List (List ℕ)) → ends_with_crlf (sent_lines (line ∷ lines)) ≡ true
unfolding sent_lines
sent_lines-ends line [] =
    rw (sent-crlf line)
      (ends-append ((if starts_with_period line then 46 ∷ [] else []) ++ stripped line))
sent_lines-ends line (next ∷ lines) =
    ends-behind (sent line) (10 ∷ sent_lines (next ∷ lines))
      (ends-cons 10 (sent_lines (next ∷ lines)) (sent_lines-ends next lines))

pub smtp_escape_body-sent_lines :
    (line : List ℕ) (lines : List (List ℕ))
    → All Line (line ∷ lines)
    → smtp_escape_body [] (body_of (line ∷ lines)) ≡ sent_lines (line ∷ lines) ++ 46 ∷ 13 ∷ 10 ∷ []
unfolding smtp_escape_body
smtp_escape_body-sent_lines line lines all =
    let body = body_of (line ∷ lines) in
    ap closed (escape_loop-body (length body) (line ∷ lines) all (omega arith))
    ∙ closed-ends (sent_lines (line ∷ lines)) (sent_lines-ends line lines)

-- smtp_escape_body, then smtp_unescape_body: a body of at least one line, each closed by a line feed,
-- comes back with CRLF behind each line, and the lines that begin with a period are what they were.
pub smtp_unescape_body-smtp_escape_body :
    (line : List ℕ) (lines : List (List ℕ))
    → All Line (line ∷ lines)
    → smtp_unescape_body (smtp_escape_body [] (body_of (line ∷ lines))) ≡ canonical (line ∷ lines)
unfolding smtp_unescape_body
smtp_unescape_body-smtp_escape_body line lines all =
    rw (smtp_escape_body-sent_lines line lines all) (
      unescape_loop-sent (length (sent_lines (line ∷ lines) ++ 46 ∷ 13 ∷ 10 ∷ [])) (line ∷ lines)
        all (omega (arith, length-append (sent_lines (line ∷ lines)) (46 ∷ 13 ∷ 10 ∷ []))))
