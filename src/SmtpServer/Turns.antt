-- ===== src/SmtpServer/Turns.antt =====
-- ase/gtcpp/smtp_server.cpp: what a turn of the loop does to the connection.
use ase.SmtpServer.Session.{
  Handled, answer, answered, broken_off, LoopTurn, goes_on, stops, coded, body_done, sent_ehlo,
  after_line, send, send_response, read_body, body_read, ready_for_body, handle_data, handle_ehlo,
  handle,
}
use ase.SmtpServer.Progress.{
  Later, Extended, Later-self, Extended-trans, Later-Extended, Later-trans, Later-file, LineRead,
  read_line_crlf-LineRead,
}
use ase.BufferedFile.{BufferedFile, ReadResult, bytes, end_of_file, read_error, out_of_fuel}
use ase.BufferedFile.Streams.{Streams, IsReady, unread}
use ase.SmtpServer.{
  Written, some_written, none_written, write_failed, write_outcome, RunResult, succeeded, ended,
  failed, no_fuel, Callbacks, Worker, is_code_3xx, match_command, is_code_2xx,
}
use ase.Array.{negative}
use ase.Prelude.{
  ◌%◌, ◌^◌, ℕ, zero, suc, ◌<◌, ◌≡◌, refl, ◌≢◌, Bool, true, false, ◌&&◌, ◌||◌, not, Option, List, [],
  ◌∷◌, arith, ltb, ◌==◌, if◌then◌else◌, length, get_or,
}

-- A worker between two mail transactions.
pub record IsReset {S K : Type 0} (w : Worker S K) : Type 0 where
  pub no_mailfrom : w.has_mailfrom ≡ false
  pub no_rcpts : w.num_rcpts ≡ 0
  pub no_response : w.response_msg ≡ []
  pub at_start : w.conn.cursor ≡ 0

-- Behind a command that ends the mail transaction, or, where it does not, with the places of the buffer
-- holding what they held.
abbrev pub KeepsRanges : {S K : Type 0} → Bool → Worker S K → Worker S K → Type 0
KeepsRanges true w v = IsReset v
KeepsRanges false w v = Extended w.conn v.conn

-- Whether the command of a line ends the mail transaction with a code 2xx: RSET, HELO, EHLO, and DATA
-- when on_data asks for the mail.
unfoldable pub ends_mail : {S K : Type 0} → Callbacks K → ℕ → List ℕ → Worker S K → Bool
ends_mail sc r line w =
    let fifth = get_or line 4 0 in
    if ltb r 6 || (not (fifth == 13) && not (fifth == 32))
    then false
    else if match_command line (82 ∷ 67 ∷ 80 ∷ 84 ∷ [])
    then false
    else if match_command line (77 ∷ 65 ∷ 73 ∷ 76 ∷ [])
    then false
    else if match_command line (68 ∷ 65 ∷ 84 ∷ 65 ∷ [])
    then is_code_3xx ((sc.on_data w.conn.buffer w.callback).0)
    else if match_command line (69 ∷ 72 ∷ 76 ∷ 79 ∷ [])
    then true
    else if match_command line (72 ∷ 69 ∷ 76 ∷ 79 ∷ [])
    then true
    else if match_command line (82 ∷ 83 ∷ 69 ∷ 84 ∷ [])
    then true
    else false

-- Whether it has ended: not behind an EHLO that is answered already (sent_ehlo).
unfoldable pub is_over : {S K : Type 0} → Bool → Handled S K → Bool
is_over ends (answer code reset close v) = ends && is_code_2xx code
is_over ends (answered v) = false
is_over ends (broken_off r v) = false

module _ {S K : Type 0} (pending : S → List ℕ) where
  -- What holds behind a turn at the worker `w`, by whether the mail transaction is over.
  abbrev pub TurnKeeps : Bool → Worker S K → LoopTurn S K → Type 0
  TurnKeeps over w (goes_on v) =
      KeepsRanges over w v
      × IsReady v.conn
      × (length (unread pending v.conn) < length (unread pending w.conn))
  TurnKeeps over w (stops r v) = Extended w.conn v.conn × (r ≢ no_fuel)

  unfoldable pub HandledLater : Bool → Worker S K → Handled S K → Type 0
  HandledLater ends w (answer code reset close v) =
      Later pending w.conn v.conn × (reset ≡ ends) × ((reset && close) ≡ false)
  HandledLater ends w (answered v) = Later pending w.conn v.conn
  HandledLater ends w (broken_off r v) = Extended w.conn v.conn × (r ≢ no_fuel)

  abbrev pub SentLater : Worker S K → RunResult → Worker S K → Type 0
  SentLater w r v = Later pending w.conn v.conn × (r ≢ no_fuel)

module _ {S : Type 0} (pending : S → List ℕ) where
  abbrev BodyLater : BufferedFile S → RunResult → BufferedFile S → Type 0
  BodyLater bf succeeded b = Later pending bf b
  BodyLater bf ended b = Extended bf b
  BodyLater bf failed b = Extended bf b
  BodyLater bf no_fuel b = ⊥

  body_from :
      (a b : BufferedFile S) (r : RunResult) (c : BufferedFile S)
      → Later pending a b
      → BodyLater b r c
      → BodyLater a r c
  body_from a b succeeded c l m = Later-trans pending a b c l m
  body_from a b ended c l m = Extended-trans pending a b c (Later-Extended pending a b l) m
  body_from a b failed c l m = Extended-trans pending a b c (Later-Extended pending a b l) m
  body_from a b no_fuel c l m = m

pub either {ℓ} :
    {A : Type 0} (P : A → Type ℓ) (c : Bool) (a b : A) → P a → P b → P (if c then a else b)
either P true a b p q = p
either P false a b p q = q

either_both {ℓ} :
    {A : Type 0} (P : Bool → A → Type ℓ) (c : Bool) (x y : Bool) (a b : A)
    → P x a
    → P y b
    → P (if c then x else y) (if c then a else b)
either_both P true x y a b p q = p
either_both P false x y a b p q = q

either_self {ℓ} :
    {A : Type 0} (P : Bool → A → Type ℓ) (c : Bool) (a b : A)
    → P true a
    → P false b
    → P c (if c then a else b)
either_self P true a b p q = p
either_self P false a b p q = q

write_outcome-ne : (r : Written) → write_outcome r ≢ no_fuel
unfolding write_outcome
write_outcome-ne some_written = ground arith
write_outcome-ne none_written = ground arith
write_outcome-ne write_failed = ground arith

module _ {S K : Type 0} (read : ℕ → S → Option (List ℕ) × S) (write : List ℕ → S → Written × S)
    (sc : Callbacks K) (pending : S → List ℕ) (reader : Streams read pending)
    (writes : (out : List ℕ) (s : S) → pending ((write out s).1) ≡ pending s) where
  pub send-SentLater :
      (out : List ℕ) (w : Worker S K)
      → IsReady w.conn
      → SentLater pending w ((send read write sc out w).0) ((send read write sc out w).1)
  unfolding send
  send-SentLater out w ready = (
    Later-file pending w.conn _ ready (writes out w.conn.file),
    write_outcome-ne ((write out w.conn.file).0),
  )

  after_line-BodyLater :
      (bf : BufferedFile S) (got : ReadResult × BufferedFile S) (rest : RunResult × BufferedFile S)
      → LineRead pending read bf (got.0) (got.1)
      → (IsReady (got.1)
          → length (unread pending (got.1)) < length (unread pending bf)
          → BodyLater pending (got.1) (rest.0) (rest.1))
      → BodyLater pending bf ((after_line got rest).0) ((after_line got rest).1)
  unfolding after_line
  after_line-BodyLater bf (bytes line, b) rest (l, less) next =
      let P = λ (p : RunResult × BufferedFile S). BodyLater pending bf (p.0) (p.1) in
      let r = length line % 2 ^ 32 in
      let same = Later-Extended pending bf b l in
      either P (r == 0) (ended, b) _ same
        (either P (negative r) (failed, b) _ same
          (either P ((r == 3) && get_or line 0 0 == 46) (succeeded, b) rest l
            (body_from pending bf b (rest.0) (rest.1) l (next l.ready less))))
  after_line-BodyLater bf (end_of_file, b) rest l next = l
  after_line-BodyLater bf (read_error, b) rest l next = l
  after_line-BodyLater bf (out_of_fuel, b) rest l next = l

  pub read_body-BodyLater :
      (fuel : ℕ) (bf : BufferedFile S)
      → IsReady bf
      → length (unread pending bf) < fuel
      → BodyLater pending bf
          ((read_body read write sc fuel bf).0)
          ((read_body read write sc fuel bf).1)
  unfolding read_body
  read_body-BodyLater zero bf ready enough = absurd (omega arith)
  read_body-BodyLater (suc fuel) bf ready enough =
      after_line-BodyLater bf _ _
        (read_line_crlf-LineRead pending read reader (suc fuel) bf ready enough)
        (λ r less. read_body-BodyLater fuel _ r (omega (arith, less, enough)))

  body_read-HandledLater :
      (begin : ℕ) (w : Worker S K) (r : RunResult) (bf : BufferedFile S)
      → BodyLater pending w.conn r bf
      → HandledLater pending true w (body_read read write sc begin w (r, bf))
  unfolding HandledLater body_read body_done
  body_read-HandledLater begin w succeeded bf l = (l, refl, refl)
  body_read-HandledLater begin w ended bf l = (l, ground arith)
  body_read-HandledLater begin w failed bf l = (l, ground arith)
  body_read-HandledLater begin w no_fuel bf l = absurd l

  handled_from :
      (ends : Bool) (w v : Worker S K) (h : Handled S K)
      → Later pending w.conn v.conn
      → HandledLater pending ends v h
      → HandledLater pending ends w h
  unfolding HandledLater
  handled_from ends w v (answer code reset close u) l (m, same, stays) =
      (Later-trans pending w.conn v.conn u.conn l m, same, stays)
  handled_from ends w v (answered u) l m = Later-trans pending w.conn v.conn u.conn l m
  handled_from e w v (broken_off r u) l (m, ends) =
      (Extended-trans pending w.conn v.conn u.conn (Later-Extended pending w.conn v.conn l) m, ends)

  ready_for_body-HandledLater :
      (fuel : ℕ) (w : Worker S K) (r : RunResult) (v : Worker S K)
      → length (unread pending w.conn) < fuel
      → SentLater pending w r v
      → HandledLater pending true w (ready_for_body read write sc fuel (r, v))
  unfolding HandledLater ready_for_body
  ready_for_body-HandledLater fuel w succeeded v enough (l, ends) = handled_from true w v _ l (
      body_read-HandledLater v.conn.cursor v _ _
        (read_body-BodyLater fuel v.conn l.ready (omega (arith, l.left, enough))))
  ready_for_body-HandledLater fuel w ended v enough (l, ends) =
      (Later-Extended pending w.conn v.conn l, ends)
  ready_for_body-HandledLater fuel w failed v enough (l, ends) =
      (Later-Extended pending w.conn v.conn l, ends)
  ready_for_body-HandledLater fuel w no_fuel v enough (l, ends) = absurd (ends refl)

  sent_ehlo-HandledLater :
      (e : Bool) (w : Worker S K) (r : RunResult) (v : Worker S K)
      → SentLater pending w r v
      → HandledLater pending e w (sent_ehlo (r, v))
  unfolding HandledLater sent_ehlo
  sent_ehlo-HandledLater e w succeeded v (l, ends) = l
  sent_ehlo-HandledLater e w ended v (l, ends) = (Later-Extended pending w.conn v.conn l, ends)
  sent_ehlo-HandledLater e w failed v (l, ends) = (Later-Extended pending w.conn v.conn l, ends)
  sent_ehlo-HandledLater e w no_fuel v (l, ends) = absurd (ends refl)

  answer-Later :
      (reset : Bool) (code : ℕ) (close : Bool) (w v : Worker S K)
      → Later pending w.conn v.conn
      → (reset && close) ≡ false
      → HandledLater pending reset w (answer code reset close v)
  unfolding HandledLater
  answer-Later reset code close w v l stays = (l, refl, stays)

  pub handle-HandledLater :
      (fuel r : ℕ) (line : List ℕ) (w : Worker S K)
      → IsReady w.conn
      → length (unread pending w.conn) < fuel
      → HandledLater pending (ends_mail sc r line w) w (handle read write sc fuel r line w)
  unfolding handle coded handle_data handle_ehlo send_response ends_mail
  handle-HandledLater fuel r line w ready enough =
      let l = Later-self pending w.conn ready in
      let P = λ (e : Bool). HandledLater pending e w in
      let no = λ (code : ℕ) (close : Bool) (k : K).
        answer-Later false code close w (record w { callback = k }) l refl in
      let yes =
        λ (code : ℕ) (k : K). answer-Later true code false w (record w { callback = k }) l refl in
      let fifth = get_or line 4 0 in
      let is = match_command line in
      either_both P (ltb r 6 || (not (fifth == 13) && not (fifth == 32))) _ _ _ _ (no _ _ _) (
        either_both P (is (82 ∷ 67 ∷ 80 ∷ 84 ∷ [])) _ _ _ _ (no _ _ _) (
          either_both P (is (77 ∷ 65 ∷ 73 ∷ 76 ∷ [])) _ _ _ _ (no _ _ _) (
            either_both P (is (68 ∷ 65 ∷ 84 ∷ 65 ∷ [])) _ _ _ _
              (either_self P (is_code_3xx ((sc.on_data w.conn.buffer w.callback).0)) _ _
                (ready_for_body-HandledLater fuel w _ _ enough (send-SentLater _ _ ready))
                (no _ _ _))
              (either_both P (is (69 ∷ 72 ∷ 76 ∷ 79 ∷ [])) _ _ _ _
                (either (P true) (_ == 250) _ _
                  (sent_ehlo-HandledLater true w _ _ (send-SentLater _ _ ready)) (yes _ _))
                (either_both P (is (72 ∷ 69 ∷ 76 ∷ 79 ∷ [])) _ _ _ _ (yes _ _) (
                  either_both P (is (82 ∷ 83 ∷ 69 ∷ 84 ∷ [])) _ _ _ _ (yes _ _)
                    (either (P false) (is (81 ∷ 85 ∷ 73 ∷ 84 ∷ [])) _ _ (no _ _ _) (no _ _ _))))))))
