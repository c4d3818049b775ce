-- ===== src/SmtpServer/Data.antt =====
-- ase/gtcpp/smtp_server.cpp and smtp_common.cpp: a mail that a client escapes and a server receives.
use ase.BufferedFile.{shifted, BufferedFile}
use ase.BufferedFile.Streams.{Streams, IsReady, unread}
use ase.BufferedFile.Lines.{first_line}
use ase.SmtpServer.{
  match_command, lower, Range, Written, some_written, write_outcome, RunResult, succeeded, ended,
  failed, no_fuel, Callbacks, Worker, is_code_3xx, response,
}
use ase.SmtpServer.Session.{
  Handled, body_done, send, send_response, body_read, ready_for_body, handle_data, handle,
}
use ase.SmtpBody.{smtp_escape_body, smtp_unescape_body}
use ase.SmtpBody.Lines.{Line}
use ase.SmtpBody.Sent.{sent}
use ase.SmtpBody.RoundTrip.{
  body_of, sent_lines, smtp_escape_body-sent_lines, canonical, smtp_unescape_body-smtp_escape_body,
}
use ase.SmtpServer.Mail.{Short, Passed, read_body-Passed}
use ase.SmtpServer.Progress.{Later-file}
use ase.Prelude.{
  ℕ, ◌-◌, ◌<◌, ◌≡◌, refl, ap, ◌∙◌, ◌≢◌, true, false, Option, none, some, List, [], ◌∷◌, ◌++◌,
  append_assoc, arith, length, take, drop, All,
}

-- The bytes of a range of the buffer.
abbrev pub in_range : List ℕ → Range → List ℕ
in_range buffer range = take (range.end - range.begin) (drop range.begin buffer)

-- "DATA" CRLF
abbrev pub data_line : List ℕ
data_line = 68 ∷ 65 ∷ 84 ∷ 65 ∷ 13 ∷ 10 ∷ []

module _ {S K : Type 0} (read : ℕ → S → Option (List ℕ) × S) (write : List ℕ → S → Written × S)
    (sc : Callbacks K) (pending : S → List ℕ) (reader : Streams read pending)
    (writes : (out : List ℕ) (s : S) → pending ((write out s).1) ≡ pending s)
    (reads : (n : ℕ) (s : S) → (read n s).0 ≢ none) where
  -- What on_body is called with: the worker with the body read, and the range of the body.
  pub record Received (h : Handled S K) (body rest : List ℕ) : Type 0 where
    pub worker : Worker S K
    pub range : Range
    pub outcome : h ≡ body_done worker (sc.on_body worker.conn.buffer range [] worker.callback)
    pub body_in_range : in_range worker.conn.buffer range ≡ body
    pub no_response : worker.response_msg ≡ []
    pub left : unread pending worker.conn ≡ rest

  body_read-Received :
      (w : Worker S K) (r : RunResult) (bf : BufferedFile S) (body rest : List ℕ)
      → r ≡ succeeded
      → Passed read pending reader reads w.conn bf body rest
      → Received (body_read read write sc w.conn.cursor w (r, bf)) body rest
  unfolding body_read
  body_read-Received w succeeded bf body rest e p =
      let size : bf.cursor - w.conn.cursor ≡ length body = omega (arith, p.grown.moved_cursor) in
      record {
        worker = record w { conn = bf; response_msg = [] };
        range = record { begin = w.conn.cursor; end = bf.cursor };
        outcome = refl;
        body_in_range = rw size p.in_buffer;
        no_response = refl;
        left = p.left;
      }
  body_read-Received w ended bf body rest e p = absurd (ground (arith, e))
  body_read-Received w failed bf body rest e p = absurd (ground (arith, e))
  body_read-Received w no_fuel bf body rest e p = absurd (ground (arith, e))

  handle_data-Received :
      (fuel : ℕ) (w : Worker S K) (code : ℕ) (k : K) (line : List ℕ) (lines : List (List ℕ))
      (rest : List ℕ)
      → All Line (line ∷ lines)
      → All Short (line ∷ lines)
      → is_code_3xx code ≡ true
      → (write (response code w.response_msg) w.conn.file).0 ≡ some_written
      → IsReady w.conn
      → w.conn.buffer_size_limit ≡ 0
      → unread pending w.conn ≡ smtp_escape_body [] (body_of (line ∷ lines)) ++ rest
      → length (unread pending w.conn) < fuel
      → Received
          (handle_data read write sc fuel w (code, k))
          (smtp_escape_body [] (body_of (line ∷ lines)))
          rest
  unfolding handle_data send_response send ready_for_body write_outcome
  handle_data-Received fuel w code k line lines rest all short go sent ready limit stream enough =
      let out = response code w.response_msg in
      let escaped = smtp_escape_body-sent_lines line lines all in
      let v : Worker S K = record w {
        callback = k;
        conn = record w.conn { file = (write out w.conn.file).1 };
      } in
      let l = Later-file pending w.conn _ ready (writes out w.conn.file) in
      let apart = append_assoc (sent_lines (line ∷ lines)) (46 ∷ 13 ∷ 10 ∷ []) rest in
      let stream_v : unread pending v.conn ≡ sent_lines (line ∷ lines) ++ 46 ∷ 13 ∷ 10 ∷ rest =
        rw (writes out w.conn.file) (stream ∙ rw escaped apart) in
      let size = ap length stream_v in
      let (ends, passed) =
        read_body-Passed read pending reader reads write sc fuel v.conn (line ∷ lines) rest all
          short l.ready limit stream_v (omega (arith, size, l.left, enough)) in
      rw (go, sent, escaped) (body_read-Received v _ _ _ rest ends passed)

  data_command :
      (fuel : ℕ) (w : Worker S K)
      → handle read write sc fuel 6 data_line w
        ≡ handle_data read write sc fuel w (sc.on_data w.conn.buffer w.callback)
  unfolding handle match_command lower
  data_command fuel w = refl

  first_line-data : (rest : List ℕ) → first_line true false (data_line ++ rest) ≡ some 6
  unfolding first_line shifted
  first_line-data rest = refl

  -- What the server makes of the line "DATA" and a mail of at least one line that smtp_escape_body has
  -- escaped, each line short of 2^31 bytes, with `rest` behind it, on a connection where no read fails. When on_data answers with a code
  -- 3xx and its response is written, on_body gets the range of exactly the escaped mail, whatever stands
  -- in it, so that smtp_unescape_body gives the mail back, with CRLF behind its lines; and the server goes
  -- on at `rest`.
  pub handle-data_line :
      (fuel : ℕ) (w : Worker S K) (line : List ℕ) (lines : List (List ℕ)) (rest : List ℕ)
      → All Line (line ∷ lines)
      → All Short (line ∷ lines)
      → IsReady w.conn
      → w.conn.buffer_size_limit ≡ 0
      → unread pending w.conn ≡ smtp_escape_body [] (body_of (line ∷ lines)) ++ rest
      → length (unread pending w.conn) < fuel
      → is_code_3xx ((sc.on_data w.conn.buffer w.callback).0) ≡ true
      → (write (response ((sc.on_data w.conn.buffer w.callback).0) w.response_msg) w.conn.file).0
        ≡ some_written
      → (v : Worker S K) × (range : Range) × (handle read write sc fuel 6 data_line w
          ≡ body_done v (sc.on_body v.conn.buffer range [] v.callback))
        × (in_range v.conn.buffer range ≡ smtp_escape_body [] (body_of (line ∷ lines)))
        × (smtp_unescape_body (in_range v.conn.buffer range) ≡ canonical (line ∷ lines))
        × (unread pending v.conn ≡ rest)
  handle-data_line fuel w line lines rest all short ready limit stream enough go sent =
      let got =
        handle_data-Received fuel w _ _ line lines rest all short go sent ready limit stream
          enough in
      (
        got.worker,
        got.range,
        data_command fuel w ∙ got.outcome,
        got.body_in_range,
        ap smtp_unescape_body got.body_in_range
            ∙ smtp_unescape_body-smtp_escape_body line lines all,
        got.left,
      )
