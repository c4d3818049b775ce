-- ===== src/SmtpServer.antt =====
-- ase/gtcpp/smtp_server.cpp: one connection of the mail server, and the bytes that it answers with.
-- Codes are the callbacks' ints; 0 stands for each that is not positive, which the loop does not tell
-- apart. The callbacks are a parameter (smtp_server_callback is abstract), as are read(2) and write(2) on
-- the connection, of which only the sign of the result is used.
pub mod Session
pub mod Progress
pub mod Turns
pub mod Ends
pub mod Mail
pub mod Data
pub mod Ranges
mod Runs
use ase.BufferedFile.{
  BufferedFile, ReadResult, bytes, end_of_file, read_error, out_of_fuel, read_line_crlf,
  reset_cursor,
}
use ase.Split.{find_char}
use ase.Prelude.{
  ℕ, zero, suc, ◌+◌, ◌-◌, ◌*◌, ◌/◌, ◌%◌, ◌^◌, ◌≤◌, ◌<◌, min, ◌≡◌, refl, sym, ap, ◌∙◌, ◌≢◌, ◌↔◌, ◌⊎◌,
  inl, inr, Bool, true, false, ◌&&◌, ◌||◌, not, Option, none, some, List, [], ◌∷◌, ◌++◌, map,
  append-nil, append_assoc, arith, bit_and, bit_or, ltb, leb, ◌==◌, if◌then◌else◌, ltb→lt, lt→ltb,
  leb→le, le→leb, ==_iff, ==_self, tests, Bool-cases, Option-cases, length, get_or, get_elem?, set,
  take, drop, replicate, All, length-append, length-take, length-drop, length-replicate, length-set,
  take-append-drop, take-append, drop-append, All-append,
}

pub record Range : Type 0 where
  pub begin : ℕ
  pub end : ℕ

-- The sign of what write(2) and writev(2) return.
pub data Written : Type 0 where
  some_written : Written
  none_written : Written
  write_failed : Written

-- The sign of `r`, which run returns; a run out of fuel has no counterpart.
pub data RunResult : Type 0 where
  succeeded : RunResult
  ended : RunResult
  failed : RunResult
  no_fuel : RunResult

-- smtp_server_callback: each gets the connection's buffer, in which its range is.
pub record Callbacks (K : Type 0) : Type 0 where
  pub on_open_connection : K → Bool × K
  pub on_close_connection : K → K
  pub on_ehlo : List ℕ → Range → K → ℕ × K
  pub on_mail : List ℕ → Range → K → ℕ × K
  pub on_rcpt : List ℕ → Range → K → ℕ × K
  pub on_data : List ℕ → K → ℕ × K
  pub on_body : List ℕ → Range → List ℕ → K → ℕ × List ℕ × K
  pub on_rset : List ℕ → K → ℕ × K
  pub on_quit : List ℕ → K → ℕ × K

-- smtp_server_worker::impl_type
pub record Worker (S K : Type 0) : Type 0 where
  pub conn : BufferedFile S
  pub response_msg : List ℕ
  pub has_mailfrom : Bool
  pub num_rcpts : ℕ
  pub callback : K

unfoldable pub write_outcome : Written → RunResult
write_outcome some_written = succeeded
write_outcome none_written = ended
write_outcome write_failed = failed

unfoldable pub is_code_2xx : ℕ → Bool
is_code_2xx x = leb 200 x && ltb x 300

unfoldable pub is_code_3xx : ℕ → Bool
is_code_3xx x = leb 300 x && ltb x 400

unfoldable pub code_digits : ℕ → List ℕ
code_digits code = (48 + code / 10 / 10 % 10) ∷ (48 + code / 10 % 10) ∷ (48 + code % 10) ∷ []

-- What smtp_send_response writes.
unfoldable pub response : ℕ → List ℕ → List ℕ
response code [] =
    if code == 250
    then 50 ∷ 53 ∷ 48 ∷ 32 ∷ 79 ∷ 107 ∷ 13 ∷ 10 ∷ []
    else if code == 354
    then 51 ∷ 53 ∷ 52 ∷ 32 ∷ 71 ∷ 111 ∷ 32 ∷ 97 ∷ 104 ∷ 101 ∷ 97 ∷ 100 ∷ 13 ∷ 10 ∷ []
    else if code == 220
    then 50 ∷ 50 ∷ 48 ∷ 32 ∷ 65 ∷ 83 ∷ 69 ∷ 32 ∷ 69 ∷ 83 ∷ 77 ∷ 84 ∷ 80 ∷ 32 ∷ 83 ∷ 101 ∷ 114 ∷ 118
      ∷ 105 ∷ 99 ∷ 101 ∷ 32 ∷ 114 ∷ 101 ∷ 97 ∷ 100 ∷ 121 ∷ 13 ∷ 10 ∷ []
    else if code == 221
    then 50 ∷ 50 ∷ 49 ∷ 32 ∷ 66 ∷ 121 ∷ 101 ∷ 13 ∷ 10 ∷ []
    else code_digits code ++ 13 ∷ 10 ∷ []
response code (x ∷ resp) = code_digits code ++ (32 ∷ x ∷ resp) ++ 13 ∷ 10 ∷ []

unfoldable pub greeting : List ℕ
greeting =
    50 ∷ 50 ∷ 48 ∷ 32 ∷ 65 ∷ 83 ∷ 69 ∷ 32 ∷ 69 ∷ 83 ∷ 77 ∷ 84 ∷ 80 ∷ 32 ∷ 115 ∷ 101 ∷ 114 ∷ 118
    ∷ 105 ∷ 99 ∷ 101 ∷ 32 ∷ 114 ∷ 101 ∷ 97 ∷ 100 ∷ 121 ∷ 13 ∷ 10 ∷ []

unfoldable pub ehlo_response : List ℕ
ehlo_response =
    50 ∷ 53 ∷ 48 ∷ 45 ∷ 79 ∷ 107 ∷ 13 ∷ 10 ∷ 50 ∷ 53 ∷ 48 ∷ 32 ∷ 56 ∷ 66 ∷ 73 ∷ 84 ∷ 77 ∷ 73 ∷ 77
    ∷ 69 ∷ 13 ∷ 10 ∷ []

-- tolower, as strncasecmp compares.
unfoldable pub lower : ℕ → ℕ
lower c = if leb 65 c && leb c 90 then c + 32 else c

-- smtp_match_command: whether a line starts with the command, whatever the case of its letters.
unfoldable pub match_command : List ℕ → List ℕ → Bool
match_command line [] = true
match_command [] (c ∷ cmd) = false
match_command (x ∷ line) (c ∷ cmd) = (lower x == lower c) && match_command line cmd

-- The loop of find_mailaddr: the last `>` in the first `n` bytes.
unfoldable pub closing_bracket : List ℕ → ℕ → Option ℕ
closing_bracket addr zero = none
closing_bracket addr (suc n) =
    let rest = closing_bracket addr n in if get_or addr n 0 == 62 then some n else rest

unfoldable pub range_at : ℕ → Option ℕ → Range
range_at begin none = record { begin = 0; end = 0 }
range_at begin (some n) = record { begin = begin; end = begin + n }

-- find_mailaddr of the bytes `text` at the place `place` of the buffer.
unfoldable pub find_mailaddr : ℕ → List ℕ → Range
find_mailaddr place text =
    let p = find_char text 60 in
    let addr = drop (p + 1) text in
    if p == length text
    then record { begin = 0; end = 0 }
    else range_at (place + p + 1) (closing_bracket addr (find_char addr 32))

unfoldable pub skip_spaces : List ℕ → ℕ
skip_spaces [] = 0
skip_spaces (x ∷ xs) = let rest = skip_spaces xs in if not (x == 32) then 0 else suc rest

-- The first `n` bytes without the line breaks at their end.
unfoldable pub before_breaks : List ℕ → ℕ → ℕ
before_breaks text zero = 0
before_breaks text (suc n) =
    let rest = before_breaks text n in
    if (get_or text n 0 == 13) || get_or text n 0 == 10 then rest else suc n

unfoldable pub find_domainname : ℕ → List ℕ → Range
find_domainname place text =
    let p = skip_spaces text in
    let domain = drop p text in
    record { begin = place + p; end = place + p + before_breaks domain (length domain) }
