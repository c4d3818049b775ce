-- ===== src/SmtpBody/Runs.antt =====
-- ase/gtcpp/smtp_common.cpp: runs on bodies with periods.
use ase.Prelude.{◌≡◌, refl, [], ◌∷◌, All}
use ase.Split.{find_char}
use ase.SmtpBody.{
  ends_with_crlf, last_byte, escape_loop, incomplete_line, closed, smtp_escape_body,
  smtp_unescape_body,
}
use ase.SmtpBody.Lines.{Line}
use ase.SmtpBody.RoundTrip.{body_of, canonical, smtp_unescape_body-smtp_escape_body}

-- The lines "." and "a".
dot_lines : All Line ((46 ∷ []) ∷ (97 ∷ []) ∷ [])
unfolding find_char
dot_lines = (refl, (refl, tt))

smtp_unescape_body-smtp_escape_body_example :
    smtp_unescape_body (smtp_escape_body [] (body_of ((46 ∷ []) ∷ (97 ∷ []) ∷ [])))
    ≡ canonical ((46 ∷ []) ∷ (97 ∷ []) ∷ [])
smtp_unescape_body-smtp_escape_body_example =
    smtp_unescape_body-smtp_escape_body (46 ∷ []) ((97 ∷ []) ∷ []) dot_lines

-- The period of an incomplete last line is not escaped: the body "." ends the mail at its first line.
bare_period : smtp_escape_body [] (46 ∷ []) ≡ 46 ∷ 13 ∷ 10 ∷ 46 ∷ 13 ∷ 10 ∷ []
unfolding smtp_escape_body escape_loop incomplete_line find_char last_byte closed ends_with_crlf
bare_period = refl
