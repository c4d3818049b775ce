-- ===== src/SmtpServer/Ends.antt =====
-- ase/gtcpp/smtp_server.cpp: a connection comes to an end, and what the callbacks may rely on until then.
use ase.SmtpServer.Session.{
  Handled, answer, answered, broken_off, LoopTurn, goes_on, stops, reset_mail_transaction,
  responded, after_turn, send_response, finish_command, on_line, turn, run_loop, greeted,
  connection_closed, opened, run, handle,
}
use ase.SmtpServer.Turns.{
  IsReset, KeepsRanges, TurnKeeps, HandledLater, SentLater, either, send-SentLater,
  handle-HandledLater, ends_mail, is_over,
}
use ase.SmtpServer.Progress.{
  Extended, Later, Extended-trans, Later-Extended, Later-reset, LineRead, read_line_crlf-LineRead,
}
use ase.BufferedFile.{
  BufferedFile, ReadResult, bytes, end_of_file, read_error, out_of_fuel, reset_cursor,
  read_line_crlf,
}
use ase.BufferedFile.Streams.{Streams, IsReady, unread}
use ase.BufferedFile.Lines.{ends_cr}
use ase.SmtpServer.{
  Written, RunResult, succeeded, ended, failed, no_fuel, Callbacks, Worker, is_code_2xx, greeting,
}
use ase.Array.{negative}
use ase.Prelude.{
  ◌%◌, ◌^◌, sym, ℕ, zero, suc, ◌≤◌, ◌<◌, ◌≡◌, refl, ◌≢◌, Bool, true, false, ◌&&◌, Option, List, [],
  arith, ◌==◌, if◌then◌else◌, length,
}

module _ {S K : Type 0} (pending : S → List ℕ) where
  keeps_from :
      (over : Bool) (w u v : Worker S K)
      → Later pending w.conn u.conn
      → KeepsRanges over u v
      → KeepsRanges over w v
  keeps_from false w u v l m =
      Extended-trans pending w.conn u.conn v.conn (Later-Extended pending w.conn u.conn l) m
  keeps_from true w u v l r = r

  -- What holds behind the response to a command that the worker `w` has read.
  unfoldable Leaves : Bool → Worker S K → LoopTurn S K → Type 0
  Leaves over w (goes_on v) =
      KeepsRanges over w v
      × IsReady v.conn
      × (length (unread pending v.conn) ≤ length (unread pending w.conn))
  Leaves over w (stops r v) = Extended w.conn v.conn × (r ≢ no_fuel)

  reset_mail_transaction-IsReset : (w : Worker S K) → IsReset (reset_mail_transaction w)
  unfolding reset_mail_transaction reset_cursor
  reset_mail_transaction-IsReset w = record {
    no_mailfrom = refl;
    no_rcpts = refl;
    no_response = refl;
    at_start = refl;
  }

  -- What the turn leaves behind its response.
  succeeded-Leaves :
      (two reset close : Bool) (w u : Worker S K)
      → (reset && close) ≡ false
      → Later pending w.conn u.conn
      → let v = if reset && two then reset_mail_transaction u else u in
        Leaves (reset && two) w (if close then stops succeeded v else goes_on v)
  unfolding reset_mail_transaction Leaves
  succeeded-Leaves two false false w u stays l =
      (Later-Extended pending w.conn u.conn l, l.ready, l.left)
  succeeded-Leaves two false true w u stays l =
      (Later-Extended pending w.conn u.conn l, ground arith)
  succeeded-Leaves false true false w u stays l =
      (Later-Extended pending w.conn u.conn l, l.ready, l.left)
  succeeded-Leaves true true false w u stays l =
      let (ready, left) = Later-reset pending u.conn l.ready in
      (reset_mail_transaction-IsReset u, ready, omega (arith, left, l.left))
  succeeded-Leaves two true true w u stays l = absurd (ground (arith, stays))

  responded-Leaves :
      (code : ℕ) (reset close : Bool) (w : Worker S K) (r : RunResult) (v : Worker S K)
      → (reset && close) ≡ false
      → SentLater pending w r v
      → Leaves (reset && is_code_2xx code) w (responded code reset close (r, v))
  unfolding responded Leaves
  responded-Leaves code reset close w succeeded v stays (l, ends) =
      succeeded-Leaves (is_code_2xx code) reset close w v stays l
  responded-Leaves code reset close w ended v stays (l, ends) =
      (Later-Extended pending w.conn v.conn l, ends)
  responded-Leaves code reset close w failed v stays (l, ends) =
      (Later-Extended pending w.conn v.conn l, ends)
  responded-Leaves code reset close w no_fuel v stays (l, ends) = absurd (ends refl)

  Leaves-from :
      (over : Bool) (w v : Worker S K) (t : LoopTurn S K)
      → Later pending w.conn v.conn
      → Leaves over v t
      → Leaves over w t
  unfolding Leaves
  Leaves-from over w v (goes_on u) l (keeps, ready, left) =
      (keeps_from over w v u l keeps, ready, omega (arith, left, l.left))
  Leaves-from over w v (stops r u) l (keeps, ends) = (keeps_from false w v u l keeps, ends)

  turn_from :
      (over : Bool) (w v : Worker S K) (t : LoopTurn S K)
      → Later pending w.conn v.conn
      → length (unread pending v.conn) < length (unread pending w.conn)
      → Leaves over v t
      → TurnKeeps pending over w t
  unfolding Leaves
  turn_from over w v (goes_on u) l less (keeps, ready, left) =
      (keeps_from over w v u l keeps, ready, omega (arith, left, less))
  turn_from over w v (stops r u) l less (keeps, ends) = (keeps_from false w v u l keeps, ends)

module _ {S K : Type 0} (read : ℕ → S → Option (List ℕ) × S) (write : List ℕ → S → Written × S)
    (sc : Callbacks K) where
  -- Whether the command that was read ends the mail transaction.
  unfoldable pub read_over : ℕ → Worker S K → ReadResult × BufferedFile S → Bool
  read_over fuel w (bytes line, bf) =
      let r = length line % 2 ^ 32 in
      let v = record w { conn = bf } in
      is_over (ends_mail sc r line v) (handle read write sc fuel r line v)
  read_over fuel w (end_of_file, bf) = false
  read_over fuel w (read_error, bf) = false
  read_over fuel w (out_of_fuel, bf) = false

module _ {S K : Type 0} (read : ℕ → S → Option (List ℕ) × S) (write : List ℕ → S → Written × S)
    (sc : Callbacks K) (pending : S → List ℕ) (reader : Streams read pending)
    (writes : (out : List ℕ) (s : S) → pending ((write out s).1) ≡ pending s) where
  finish_command-Leaves :
      (ends : Bool) (w : Worker S K) (h : Handled S K)
      → HandledLater pending ends w h
      → Leaves pending (is_over ends h) w (finish_command read write sc h)
  unfolding finish_command HandledLater Leaves send_response is_over
  finish_command-Leaves ends w (answer code reset close v) (l, same, stays) = rw (sym same) (
      either (Leaves pending (reset && is_code_2xx code) w) (code == 0) _ _
        (Later-Extended pending w.conn v.conn l, ground arith)
        (Leaves-from pending (reset && is_code_2xx code) w v _ l (
          responded-Leaves pending code reset close v _ _ stays
            (send-SentLater read write sc pending reader writes _ v l.ready))))
  finish_command-Leaves ends w (answered v) l =
      (Later-Extended pending w.conn v.conn l, l.ready, l.left)
  finish_command-Leaves ends w (broken_off r v) (l, stays) = (l, stays)

  on_line-TurnKeeps :
      (fuel : ℕ) (w : Worker S K) (r : ReadResult) (bf : BufferedFile S)
      → length (unread pending w.conn) < suc fuel
      → LineRead pending read w.conn r bf
      → TurnKeeps pending
          (read_over read write sc (suc fuel) w (r, bf))
          w
          (on_line read write sc (suc fuel) w (r, bf))
  unfolding on_line read_over
  on_line-TurnKeeps fuel w (bytes line) bf enough (l, less) =
      let v = record w { conn = bf } in
      let r = length line % 2 ^ 32 in
      let over = is_over (ends_mail sc r line v) (handle read write sc (suc fuel) r line v) in
      let same = Later-Extended pending w.conn bf l in
      let P = TurnKeeps pending over w in
      either P (r == 0) _ _ (same, ground arith)
        (either P (negative r) _ _ (same, ground arith)
          (turn_from pending over w v _ l less (
            finish_command-Leaves _ v _ (
              handle-HandledLater read write sc pending reader writes (suc fuel) r line v l.ready
                (omega (arith, less, enough))))))
  on_line-TurnKeeps fuel w end_of_file bf enough l = (l, ground arith)
  on_line-TurnKeeps fuel w read_error bf enough l = (l, ground arith)
  on_line-TurnKeeps fuel w out_of_fuel bf enough l = absurd l

  pub turn-TurnKeeps :
      (fuel : ℕ) (w : Worker S K)
      → IsReady w.conn
      → length (unread pending w.conn) < suc fuel
      → TurnKeeps pending
          (read_over read write sc (suc fuel) w (read_line_crlf read (suc fuel) w.conn))
          w
          (turn read write sc (suc fuel) w)
  unfolding turn
  turn-TurnKeeps fuel w ready enough =
      on_line-TurnKeeps fuel w _ _ enough
        (read_line_crlf-LineRead pending read reader (suc fuel) w.conn ready enough)

  after_turn-ends :
      (over : Bool) (fuel : ℕ) (w : Worker S K) (t : LoopTurn S K)
      → length (unread pending w.conn) < suc fuel
      → TurnKeeps pending over w t
      → ((v : Worker S K)
          → IsReady v.conn
          → length (unread pending v.conn) < fuel
          → (run_loop read write sc fuel v).0 ≢ no_fuel)
      → (after_turn (run_loop read write sc fuel) t).0 ≢ no_fuel
  unfolding after_turn
  after_turn-ends over fuel w (goes_on v) enough (keeps, ready, less) again =
      again v ready (omega (arith, less, enough))
  after_turn-ends over fuel w (stops r v) enough (keeps, ends) again = ends

  run_loop-ends :
      (fuel : ℕ) (w : Worker S K)
      → IsReady w.conn
      → length (unread pending w.conn) < fuel
      → (run_loop read write sc fuel w).0 ≢ no_fuel
  unfolding run_loop
  run_loop-ends zero w ready enough = absurd (omega arith)
  run_loop-ends (suc fuel) w ready enough =
      after_turn-ends _ fuel w _ enough (turn-TurnKeeps fuel w ready enough) (run_loop-ends fuel)

  greeted-ends :
      (fuel : ℕ) (w : Worker S K) (r : RunResult) (v : Worker S K)
      → length (unread pending w.conn) < fuel
      → SentLater pending w r v
      → (greeted read write sc fuel (r, v)).0 ≢ no_fuel
  unfolding greeted
  greeted-ends fuel w succeeded v enough (l, ends) =
      run_loop-ends fuel v l.ready (omega (arith, l.left, enough))
  greeted-ends fuel w ended v enough (l, ends) = ends
  greeted-ends fuel w failed v enough (l, ends) = ends
  greeted-ends fuel w no_fuel v enough (l, ends) = ends

  opened-ends :
      (fuel : ℕ) (w : Worker S K) (ok : Bool) (k : K)
      → IsReady w.conn
      → length (unread pending w.conn) < fuel
      → (opened read write sc fuel w (ok, k)).0 ≢ no_fuel
  unfolding opened
  opened-ends fuel w true k ready enough =
      greeted-ends fuel (record w { callback = k }) _ _ enough
        (send-SentLater read write sc pending reader writes greeting (record w { callback = k })
          ready)
  opened-ends fuel w false k ready enough = ground arith

  -- run serves a connection to its end, for a worker whose buffer is empty as conn.reset() leaves it,
  -- with fuel for more bytes than the peer sends: each turn of its loop reads a line.
  pub run-ends :
      (fuel : ℕ) (fd : S) (w : Worker S K)
      → w.conn.buffer ≡ []
      → w.conn.cursor ≡ 0
      → 0 < w.conn.read_block_size
      → length (pending fd) < fuel
      → (run read write sc fuel fd w).0 ≢ no_fuel
  unfolding run connection_closed reset_mail_transaction reset_cursor ends_cr
  run-ends fuel fd w empty start block enough =
      opened-ends fuel _ _ _ (record { in_buffer = omega arith; has_block = block; at_line = refl })
        (rw (empty, start) enough)
