-- ===== src/SmtpServer/Session.antt =====
-- ase/gtcpp/smtp_server.cpp: the loop over the commands of a connection.
use ase.BufferedFile.{
  BufferedFile, ReadResult, bytes, end_of_file, read_error, out_of_fuel, read_line_crlf,
  reset_cursor, reset_file,
}
use ase.SmtpServer.{
  Written, write_outcome, RunResult, succeeded, ended, failed, no_fuel, Callbacks, Worker,
  is_code_2xx, is_code_3xx, response, greeting, ehlo_response, match_command, find_mailaddr,
  find_domainname,
}
use ase.Array.{negative}
use ase.Prelude.{
  take, ◌%◌, ◌^◌, ℕ, zero, suc, ◌+◌, ◌-◌, Bool, true, false, ◌&&◌, ◌||◌, not, Option, List, [], ◌∷◌,
  ltb, ◌==◌, if◌then◌else◌, length, get_or, drop,
}

-- What a command comes to: a code to answer with, an answer that is sent already, or the end.
pub data Handled (S K : Type 0) : Type 0 where
  answer : ℕ → Bool → Bool → Worker S K → Handled S K
  answered : Worker S K → Handled S K
  broken_off : RunResult → Worker S K → Handled S K

pub data LoopTurn (S K : Type 0) : Type 0 where
  goes_on : Worker S K → LoopTurn S K
  stops : RunResult → Worker S K → LoopTurn S K

module _ {S : Type 0} where
  -- A line of the body: the line of one period is the last. Its length goes into an int, which is 0 or
  -- negative for some lines of 2^31 bytes and more.
  unfoldable pub after_line :
      ReadResult × BufferedFile S → RunResult × BufferedFile S → RunResult × BufferedFile S
  after_line (bytes line, bf) rest =
      let r = length line % 2 ^ 32 in
      if r == 0
      then (ended, bf)
      else if negative r
      then (failed, bf)
      else if (r == 3) && get_or line 0 0 == 46
      then (succeeded, bf)
      else rest
  after_line (end_of_file, bf) rest = (ended, bf)
  after_line (read_error, bf) rest = (failed, bf)
  after_line (out_of_fuel, bf) rest = (no_fuel, bf)

module _ {S K : Type 0} where
  unfoldable pub reset_mail_transaction : Worker S K → Worker S K
  reset_mail_transaction w = record w {
    has_mailfrom = false;
    num_rcpts = 0;
    conn = reset_cursor w.conn;
    response_msg = [];
  }

  -- The code that a callback returns.
  unfoldable pub coded : Bool → Bool → Worker S K → ℕ × K → Handled S K
  coded reset close w (code, k) = answer code reset close (record w { callback = k })

  -- The worker after on_body, and the code that it returned.
  unfoldable pub body_done : Worker S K → ℕ × List ℕ × K → Handled S K
  body_done w (code, resp, k) =
      answer code true false (record w { response_msg = resp; callback = k })

  unfoldable pub sent_ehlo : RunResult × Worker S K → Handled S K
  sent_ehlo (succeeded, w) = answered w
  sent_ehlo (ended, w) = broken_off ended w
  sent_ehlo (failed, w) = broken_off failed w
  sent_ehlo (no_fuel, w) = broken_off no_fuel w

  -- Behind the response to a command.
  unfoldable pub responded : ℕ → Bool → Bool → RunResult × Worker S K → LoopTurn S K
  responded code reset close (succeeded, w) =
      let v = if reset && is_code_2xx code then reset_mail_transaction w else w in
      if close then stops succeeded v else goes_on v
  responded code reset close (ended, w) = stops ended w
  responded code reset close (failed, w) = stops failed w
  responded code reset close (no_fuel, w) = stops no_fuel w

  unfoldable pub after_turn :
      (Worker S K → RunResult × Worker S K) → LoopTurn S K → RunResult × Worker S K
  after_turn again (goes_on w) = again w
  after_turn again (stops r w) = (r, w)

module _ {S K : Type 0} (read : ℕ → S → Option (List ℕ) × S) (write : List ℕ → S → Written × S)
    (sc : Callbacks K) where
  unfoldable pub send : List ℕ → Worker S K → RunResult × Worker S K
  send out w =
      let put = write out w.conn.file in
      (write_outcome (put.0), record w { conn = record w.conn { file = put.1 } })

  unfoldable pub send_response : ℕ → Worker S K → RunResult × Worker S K
  send_response code w = send (response code w.response_msg) w

  -- smtp_read_body: up to the line of one period.
  unfoldable pub read_body : ℕ → BufferedFile S → RunResult × BufferedFile S
  read_body zero bf = (no_fuel, bf)
  read_body (suc fuel) bf =
      let got = read_line_crlf read (suc fuel) bf in
      let rest = read_body fuel (got.1) in after_line got rest

  -- DATA with a code 3xx, once the body is read from `begin` on.
  unfoldable pub body_read : ℕ → Worker S K → RunResult × BufferedFile S → Handled S K
  body_read begin w (succeeded, bf) =
      body_done (record w { conn = bf; response_msg = [] })
        (sc.on_body bf.buffer (record { begin = begin; end = bf.cursor }) [] w.callback)
  body_read begin w (ended, bf) = broken_off ended (record w { conn = bf })
  body_read begin w (failed, bf) = broken_off failed (record w { conn = bf })
  body_read begin w (no_fuel, bf) = broken_off no_fuel (record w { conn = bf })

  unfoldable pub ready_for_body : ℕ → RunResult × Worker S K → Handled S K
  ready_for_body fuel (succeeded, w) = body_read w.conn.cursor w (read_body fuel w.conn)
  ready_for_body fuel (ended, w) = broken_off ended w
  ready_for_body fuel (failed, w) = broken_off failed w
  ready_for_body fuel (no_fuel, w) = broken_off no_fuel w

  unfoldable pub handle_data : ℕ → Worker S K → ℕ × K → Handled S K
  handle_data fuel w (code, k) =
      if is_code_3xx code
      then ready_for_body fuel (send_response code (record w { callback = k }))
      else answer code false false (record w { callback = k })

  unfoldable pub handle_ehlo : Worker S K → ℕ × K → Handled S K
  handle_ehlo w (code, k) =
      if code == 250
      then sent_ehlo (send ehlo_response (record w { callback = k }))
      else answer code true false (record w { callback = k })

  -- The command of a line that was read, with the int `r` for its length.
  unfoldable pub handle : ℕ → ℕ → List ℕ → Worker S K → Handled S K
  handle fuel r line w =
      let buf = w.conn.buffer in
      let place = w.conn.cursor - length line + 4 in
      let text = drop 4 (take r line) in
      let fifth = get_or line 4 0 in
      if ltb r 6 || (not (fifth == 13) && not (fifth == 32))
      then answer 500 false false w
      else if match_command line (82 ∷ 67 ∷ 80 ∷ 84 ∷ [])
      then coded false false w (sc.on_rcpt buf (find_mailaddr place text) w.callback)
      else if match_command line (77 ∷ 65 ∷ 73 ∷ 76 ∷ [])
      then coded false false w (sc.on_mail buf (find_mailaddr place text) w.callback)
      else if match_command line (68 ∷ 65 ∷ 84 ∷ 65 ∷ [])
      then handle_data fuel w (sc.on_data buf w.callback)
      else if match_command line (69 ∷ 72 ∷ 76 ∷ 79 ∷ [])
      then handle_ehlo w (sc.on_ehlo buf (find_domainname place text) w.callback)
      else if match_command line (72 ∷ 69 ∷ 76 ∷ 79 ∷ [])
      then coded true false w (sc.on_ehlo buf (find_domainname place text) w.callback)
      else if match_command line (82 ∷ 83 ∷ 69 ∷ 84 ∷ [])
      then coded true false w (sc.on_rset buf w.callback)
      else if match_command line (81 ∷ 85 ∷ 73 ∷ 84 ∷ [])
      then coded false true w (sc.on_quit buf w.callback)
      else answer 500 false false w

  unfoldable pub finish_command : Handled S K → LoopTurn S K
  finish_command (answer code reset close w) =
      if code == 0 then stops succeeded w else responded code reset close (send_response code w)
  finish_command (answered w) = goes_on w
  finish_command (broken_off r w) = stops r w

  unfoldable pub on_line : ℕ → Worker S K → ReadResult × BufferedFile S → LoopTurn S K
  on_line fuel w (bytes line, bf) =
      let r = length line % 2 ^ 32 in
      let v = record w { conn = bf } in
      if r == 0
      then stops ended v
      else if negative r
      then stops failed v
      else finish_command (handle fuel r line v)
  on_line fuel w (end_of_file, bf) = stops ended (record w { conn = bf })
  on_line fuel w (read_error, bf) = stops failed (record w { conn = bf })
  on_line fuel w (out_of_fuel, bf) = stops no_fuel (record w { conn = bf })

  -- One turn of the loop of run.
  unfoldable pub turn : ℕ → Worker S K → LoopTurn S K
  turn fuel w = on_line fuel w (read_line_crlf read fuel w.conn)

  unfoldable pub run_loop : ℕ → Worker S K → RunResult × Worker S K
  run_loop zero w = (no_fuel, w)
  run_loop (suc fuel) w = after_turn (run_loop fuel) (turn (suc fuel) w)

  unfoldable pub greeted : ℕ → RunResult × Worker S K → RunResult × Worker S K
  greeted fuel (succeeded, w) = run_loop fuel w
  greeted fuel (ended, w) = (ended, w)
  greeted fuel (failed, w) = (failed, w)
  greeted fuel (no_fuel, w) = (no_fuel, w)

  -- close_hook: on_open_connection before, and on_close_connection at the end, whatever it is.
  unfoldable pub connection_closed : RunResult × Worker S K → RunResult × Worker S K
  connection_closed (r, w) =
      (r, record w { callback = sc.on_close_connection w.callback; conn = reset_file w.conn })

  unfoldable pub opened : ℕ → Worker S K → Bool × K → RunResult × Worker S K
  opened fuel w (ok, k) =
      if ok
      then greeted fuel (send greeting (record w { callback = k }))
      else (failed, record w { callback = k })

  -- smtp_server_worker::run on the connection `fd`.
  unfoldable pub run : ℕ → S → Worker S K → RunResult × Worker S K
  run fuel fd w =
      let v = reset_mail_transaction w in
      let u = record v { conn = record v.conn { file = fd } } in
      connection_closed (opened fuel u (sc.on_open_connection u.callback))
