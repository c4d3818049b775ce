-- ===== src/SmtpServer/Runs.antt =====
-- ase/gtcpp/smtp_server.cpp: runs with callbacks that note what they get.
use ase.BufferedFile.Streams.{IsReady, unread}
use ase.BufferedFile.Lines.{ends_cr}
use ase.Split.{find_char}
use ase.SmtpServer.{
  Range, Written, some_written, no_fuel, Callbacks, Worker, is_code_3xx, find_mailaddr,
  find_domainname, closing_bracket,
}
use ase.SmtpServer.Session.{run, handle, body_done}
use ase.SmtpServer.Ends.{run-ends}
use ase.SmtpServer.Data.{in_range, data_line, handle-data_line}
use ase.SmtpServer.Ranges.{EmptyOrInside, Inside, ranges-Inside, find_mailaddr_lem}
use ase.SmtpBody.{
  smtp_escape_body, smtp_unescape_body, escape_loop, escaped_line, starts_with_period, last_byte,
  closed, ends_with_crlf,
}
use ase.SmtpBody.Lines.{Line}
use ase.SmtpBody.RoundTrip.{body_of, canonical}
use ase.BufferedFile.Files.{read_some, bytes_left, read_some-Streams, read_some-ne}
use ase.Prelude.{ℕ, ◌+◌, ◌≡◌, refl, ◌≢◌, true, false, none, List, [], ◌∷◌, ◌++◌, arith, length, All}

-- The callbacks of smtp_server_callback_empty, which note the bytes of their ranges.
abbrev noted : ℕ → List ℕ → Range → List (List ℕ) → ℕ × List (List ℕ)
noted code buf range k = (code, in_range buf range ∷ k)

abbrev noting : Callbacks (List (List ℕ))
noting = record {
  on_open_connection = λ k. (true, k);
  on_close_connection = λ k. k;
  on_ehlo = noted 250;
  on_mail = noted 250;
  on_rcpt = noted 250;
  on_data = λ buf k. (354, k);
  on_body = λ buf range resp k. (250, [], in_range buf range ∷ k);
  on_rset = λ buf k. (250, k);
  on_quit = λ buf k. (221, k);
}

unfoldable all_written : List ℕ → List ℕ → Written × List ℕ
all_written out s = (some_written, s)

all_written_lem : (out s : List ℕ) → bytes_left ((all_written out s).1) ≡ bytes_left s
unfolding all_written
all_written_lem out s = refl

abbrev worker_of : List ℕ → Worker (List ℕ) (List (List ℕ))
worker_of bytes_to_come = record {
  conn = record {
    buffer = [];
    cursor = 0;
    read_block_size = 1024;
    buffer_size_limit = 0;
    file = bytes_to_come;
  };
  response_msg = [];
  has_mailfrom = false;
  num_rcpts = 0;
  callback = [];
}

worker-IsReady : (s : List ℕ) → IsReady (worker_of s).conn
unfolding ends_cr
worker-IsReady s = record { in_buffer = omega arith; has_block = omega arith; at_line = refl }

-- "RSET" CRLF
abbrev rset_line : List ℕ
rset_line = 82 ∷ 83 ∷ 69 ∷ 84 ∷ 13 ∷ 10 ∷ []

run-ends_example : (run read_some all_written noting 7 rset_line (worker_of [])).0 ≢ no_fuel
run-ends_example =
    run-ends read_some all_written noting bytes_left read_some-Streams all_written_lem 7 rset_line
      (worker_of []) refl refl (omega arith) (omega arith)

-- The mail of the line ".", escaped.
dot_mail : All Line ((46 ∷ []) ∷ [])
unfolding find_char
dot_mail = (refl, tt)

abbrev wire : List ℕ
wire = 46 ∷ 46 ∷ 13 ∷ 10 ∷ 46 ∷ 13 ∷ 10 ∷ []

wire-smtp_escape_body :
    unread bytes_left (worker_of wire).conn ≡ smtp_escape_body [] (body_of ((46 ∷ []) ∷ [])) ++ []
unfolding smtp_escape_body escape_loop escaped_line starts_with_period find_char last_byte closed
    ends_with_crlf body_of
wire-smtp_escape_body = refl

is_354 : is_code_3xx 354 ≡ true
unfolding is_code_3xx
is_354 = refl

handle-data_line_example :
    (v : Worker (List ℕ) (List (List ℕ))) × (range : Range) × (handle read_some all_written noting 8
        6 data_line
        (worker_of wire)
      ≡ body_done v (noting.on_body v.conn.buffer range [] v.callback))
    × (in_range v.conn.buffer range ≡ smtp_escape_body [] (body_of ((46 ∷ []) ∷ [])))
    × (smtp_unescape_body (in_range v.conn.buffer range) ≡ canonical ((46 ∷ []) ∷ []))
    × (unread bytes_left v.conn ≡ [])
unfolding all_written
handle-data_line_example =
    handle-data_line read_some all_written noting bytes_left read_some-Streams all_written_lem
      read_some-ne 8 (worker_of wire) (46 ∷ []) [] [] dot_mail (omega arith, tt)
      (worker-IsReady wire) refl wire-smtp_escape_body (omega arith) is_354 refl

ranges-Inside_example :
    EmptyOrInside 4 (4 + length rset_line) (find_mailaddr 4 rset_line)
    × Inside 4 (4 + length rset_line) (find_domainname 4 rset_line)
ranges-Inside_example = ranges-Inside 4 rset_line

-- " FROM:<a> X" names the address "a".
abbrev from_part : List ℕ
from_part = 32 ∷ 70 ∷ 82 ∷ 79 ∷ 77 ∷ 58 ∷ []

no_bracket : find_char from_part 60 ≡ length from_part
unfolding find_char
no_bracket = refl

no_blank : find_char (97 ∷ []) 32 ≡ 1
unfolding find_char
no_blank = refl

nothing_behind : closing_bracket (32 ∷ 88 ∷ []) (find_char (32 ∷ 88 ∷ []) 32) ≡ none
unfolding closing_bracket find_char
nothing_behind = refl

find_mailaddr_lem_example :
    find_mailaddr 4 (from_part ++ 60 ∷ ((97 ∷ []) ++ 62 ∷ 32 ∷ 88 ∷ []))
    ≡ record { begin = 4 + 6 + 1; end = 4 + 6 + 1 + 1 }
find_mailaddr_lem_example =
    find_mailaddr_lem 4 from_part (97 ∷ []) (32 ∷ 88 ∷ []) no_bracket no_blank nothing_behind
