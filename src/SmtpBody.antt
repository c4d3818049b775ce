-- ===== src/SmtpBody.antt =====
-- ase/gtcpp/smtp_common.cpp: the escaping of a mail's body for the DATA command, and back.
pub mod Lines
pub mod Sent
pub mod Wire
pub mod RoundTrip
mod Runs
use ase.Prelude.{
  ℕ, zero, suc, ◌+◌, ◌-◌, ◌*◌, ◌/◌, ◌%◌, ◌^◌, ◌≤◌, ◌<◌, min, ◌≡◌, refl, sym, ap, ◌∙◌, ◌≢◌, ◌↔◌, ◌⊎◌,
  inl, inr, Bool, true, false, ◌&&◌, ◌||◌, not, Option, none, some, List, [], ◌∷◌, ◌++◌, map,
  append-nil, append_assoc, arith, bit_and, bit_or, ltb, leb, ◌==◌, if◌then◌else◌, ltb→lt, lt→ltb,
  leb→le, le→leb, ==_iff, ==_self, tests, Bool-cases, Option-cases, length, get_or, get_elem?, set,
  take, drop, replicate, All, length-append, length-take, length-drop, length-replicate, length-set,
  take-append-drop, take-append, drop-append, All-append,
}
use ase.Split.{find_char}

unfoldable pub ends_with_crlf : List ℕ → Bool
ends_with_crlf [] = false
ends_with_crlf (a ∷ []) = false
ends_with_crlf (a ∷ b ∷ []) = (a == 13) && b == 10
ends_with_crlf (a ∷ b ∷ c ∷ sb) = ends_with_crlf (b ∷ c ∷ sb)

-- `s[-1]` behind a text of at least one byte.
unfoldable pub last_byte : List ℕ → ℕ
last_byte [] = 0
last_byte (x ∷ []) = x
last_byte (x ∷ y ∷ xs) = last_byte (y ∷ xs)

unfoldable pub starts_with_period : List ℕ → Bool
starts_with_period [] = false
starts_with_period (x ∷ xs) = x == 46

-- What smtp_escape_body appends for a line that is closed by a line feed.
unfoldable pub escaped_line : List ℕ → List ℕ
escaped_line line =
    (if starts_with_period line then 46 ∷ [] else [])
    ++ (if last_byte line == 13 then line ++ 10 ∷ [] else line ++ 13 ∷ 10 ∷ [])

-- What it appends for an incomplete last line.
unfoldable pub incomplete_line : List ℕ → List ℕ
incomplete_line line = line ++ (if last_byte line == 13 then 10 ∷ [] else 13 ∷ 10 ∷ [])

-- Its loop, with the length of the body as fuel: each turn reads a byte or ends it.
unfoldable pub escape_loop : ℕ → List ℕ → List ℕ
escape_loop fuel [] = []
escape_loop zero (b ∷ begin) = []
escape_loop (suc fuel) (b ∷ begin) =
    let p = find_char (b ∷ begin) 10 in
    let rest = escape_loop fuel (drop (p + 1) (b ∷ begin)) in
    if p == length (b ∷ begin)
    then incomplete_line (b ∷ begin)
    else escaped_line (take p (b ∷ begin)) ++ rest

unfoldable pub closed : List ℕ → List ℕ
closed out = (if ends_with_crlf out then out else out ++ 13 ∷ 10 ∷ []) ++ 46 ∷ 13 ∷ 10 ∷ []

-- smtp_escape_body: what `out` holds afterwards.
unfoldable pub smtp_escape_body : List ℕ → List ℕ → List ℕ
smtp_escape_body out body = closed (out ++ escape_loop (length body) body)

unfoldable pub unescape_line : List ℕ → List ℕ
unescape_line [] = []
unescape_line (x ∷ line) = if x == 46 then line else x ∷ line

-- The line `.`, closed by a line feed with or without a carriage return.
unfoldable pub is_end_line : List ℕ → Bool
is_end_line line =
    (length line == 1 || (length line == 2 && last_byte line == 13)) && starts_with_period line

unfoldable pub unescape_loop : ℕ → List ℕ → List ℕ
unescape_loop fuel [] = []
unescape_loop zero (b ∷ begin) = []
unescape_loop (suc fuel) (b ∷ begin) =
    let p = find_char (b ∷ begin) 10 in
    let line = take p (b ∷ begin) in
    let rest = unescape_loop fuel (drop (p + 1) (b ∷ begin)) in
    if p == length (b ∷ begin)
    then unescape_line (b ∷ begin)
    else (if is_end_line line then [] else unescape_line (take (p + 1) (b ∷ begin))) ++ rest

-- smtp_unescape_body: what it appends to `out`.
unfoldable pub smtp_unescape_body : List ℕ → List ℕ
smtp_unescape_body body = unescape_loop (length body) body
