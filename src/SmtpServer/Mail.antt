-- ===== src/SmtpServer/Mail.antt =====
-- ase/gtcpp/smtp_server.cpp and smtp_common.cpp: the body that the client escapes is the one that on_body
-- gets.
use ase.BufferedFile.{
  shifted, BufferedFile, ReadResult, bytes, end_of_file, read_error, out_of_fuel, read_line_crlf,
  at_limit,
}
use ase.BufferedFile.Streams.{Streams, IsReady, unread, Grown, Grown-trans, Reads}
use ase.BufferedFile.Reading.{read_line-Reads}
use ase.BufferedFile.Lines.{first_line}
use ase.SmtpServer.{Written, succeeded, Callbacks}
use ase.SmtpServer.Session.{after_line, read_body}
use ase.SmtpBody.Lines.{Line}
use ase.SmtpBody.Sent.{sent}
use ase.Array.{negative}
use ase.SmtpBody.Wire.{length-sent, sent-GoesOn, first_line-sent}
use ase.SmtpBody.RoundTrip.{sent_lines}
use ase.Prelude.{
  ◌+◌, ◌%◌, ◌^◌, ◌==◌, ◌&&◌, get_or, false, ℕ, zero, suc, ◌≤◌, ◌<◌, ◌≡◌, refl, sym, ap, ◌∙◌, ◌≢◌,
  inl, inr, true, Option, none, some, List, [], ◌∷◌, ◌++◌, append_assoc, arith, length, take, drop,
  All, length-append, length-drop, take_plus, drop_plus, take-within, drop-within, take-append,
  drop-append,
}

-- A line whose length, with what escaping adds, is an int.
abbrev pub Short : List ℕ → Type 0
Short line = length line + 4 ≤ 2 ^ 31

append_cancel :
    (xs ys us vs : List ℕ) → length xs ≡ length ys → xs ++ us ≡ ys ++ vs → (xs ≡ ys) × (us ≡ vs)
append_cancel xs ys us vs size e = (
  sym (take-append xs us) ∙ ap (λ (t : List ℕ). take (length xs) t) e ∙ rw size (take-append ys vs),
  sym (drop-append xs us) ∙ ap (λ (t : List ℕ). drop (length xs) t) e ∙ rw size (drop-append ys vs),
)

not_both : (o : Option ℕ) {n : ℕ} → o ≡ none → o ≡ some n → ⊥
not_both none h k = ground (arith, k)
not_both (some m) h k = ground (arith, h)

same_some : (o : Option ℕ) {n m : ℕ} → o ≡ some n → o ≡ some m → n ≡ m
same_some none h k = absurd (ground (arith, h))
same_some (some p) h k = ground (arith, h, k)

below_limit : {S : Type 0} (bf : BufferedFile S) → bf.buffer_size_limit ≡ 0 → at_limit bf ≡ true → ⊥
unfolding at_limit
below_limit bf limit full = ground (arith, limit, full)

lines_apart :
    (line : List ℕ) (lines : List (List ℕ)) (rest : List ℕ)
    → sent_lines (line ∷ lines) ++ rest ≡ (sent line ++ 10 ∷ []) ++ (sent_lines lines ++ rest)
unfolding sent_lines
lines_apart line lines rest =
    append_assoc (sent line) (10 ∷ sent_lines lines) rest
    ∙ sym (append_assoc (sent line) (10 ∷ []) (sent_lines lines ++ rest))

no_lines : sent_lines [] ≡ []
unfolding sent_lines
no_lines = refl

period_line : (rest : List ℕ) → first_line true false (46 ∷ 13 ∷ 10 ∷ rest) ≡ some 3
unfolding first_line shifted
period_line rest = refl

module _ {S : Type 0} (read : ℕ → S → Option (List ℕ) × S) (pending : S → List ℕ)
    (reader : Streams read pending) (reads : (n : ℕ) (s : S) → (read n s).0 ≢ none) where
  -- The bytes `line` are read off `bf`, and `b` is left with `rest`.
  pub record Passed (bf b : BufferedFile S) (line rest : List ℕ) : Type 0 where
    pub grown : Grown bf b (length line)
    pub in_buffer : take (length line) (drop bf.cursor b.buffer) ≡ line
    pub ready : IsReady b
    pub left : unread pending b ≡ rest

  Passed-line :
      (bf : BufferedFile S) (line rest : List ℕ) (r : ReadResult) (b : BufferedFile S)
      → bf.buffer_size_limit ≡ 0
      → unread pending bf ≡ line ++ rest
      → first_line true false (line ++ rest) ≡ some (length line)
      → Reads read pending true bf r b
      → (r ≡ bytes line) × Passed bf b line rest
  Passed-line bf line rest (bytes l) b limit stream found (first, split, here_l, grown, ready) =
      let here : first_line true false (unread pending bf) ≡ some (length line) = rw stream found in
      let size : length l ≡ length line = same_some _ first here in
      let (same, left) = append_cancel l line (unread pending b) rest size (sym split ∙ stream) in
      (
        ap bytes same,
        record {
          grown = rw (sym size) grown;
          in_buffer = rw (sym same) here_l;
          ready = ready;
          left = left;
        },
      )
  Passed-line bf line rest end_of_file b limit stream found (absent, same, grown) =
      let here : first_line true false (unread pending bf) ≡ some (length line) = rw stream found in
      absurd (not_both _ absent here)
  Passed-line bf line rest read_error b limit stream found (grown, inl full) =
      absurd (below_limit b (grown.same_limit ∙ limit) full)
  Passed-line bf line rest read_error b limit stream found (grown, inr (n, s, e)) =
      absurd (reads n s e)
  Passed-line bf line rest out_of_fuel b limit stream found r = absurd r

  pub read_line_crlf-Passed :
      (fuel : ℕ) (bf : BufferedFile S) (line rest : List ℕ)
      → IsReady bf
      → bf.buffer_size_limit ≡ 0
      → unread pending bf ≡ line ++ rest
      → first_line true false (line ++ rest) ≡ some (length line)
      → length (line ++ rest) < fuel
      → ((read_line_crlf read fuel bf).0 ≡ bytes line)
        × Passed bf ((read_line_crlf read fuel bf).1) line rest
  unfolding read_line_crlf
  read_line_crlf-Passed fuel bf line rest ready limit stream found enough =
      let size = ap length stream in
      Passed-line bf line rest _ _ limit stream found (
        read_line-Reads read pending reader fuel true bf ready
          (omega (arith, size, enough, length-append (drop bf.cursor bf.buffer) (pending bf.file))))

  Passed-from :
      (a b c : BufferedFile S) (xs ys us vs : List ℕ)
      → Passed a b xs us
      → Passed b c ys vs
      → Passed a c (xs ++ ys) vs
  Passed-from a b c xs ys us vs p q =
      let size = length-append xs ys in
      let far = p.grown.moved_cursor in
      let room : length xs ≤ length (drop a.cursor b.buffer) =
        omega (arith, p.ready.in_buffer, far, length-drop a.cursor b.buffer) in
      let front : take (length xs) (drop a.cursor c.buffer) ≡ xs =
        rw
          (
            q.grown.grown_buffer,
            drop-within a.cursor b.buffer q.grown.more (omega (arith, p.ready.in_buffer, far)),
            take-within (length xs) (drop a.cursor b.buffer) q.grown.more room,
          )
          p.in_buffer in
      let back : take (length ys) (drop (length xs) (drop a.cursor c.buffer)) ≡ ys =
        rw (sym (drop_plus a.cursor (length xs) c.buffer), sym far) q.in_buffer in
      record {
        grown = Grown-trans a b c (length xs) (length ys) _ (sym size) p.grown q.grown;
        in_buffer =
            rw (size, take_plus (length xs) (length ys) (drop a.cursor c.buffer), front, back) refl;
        ready = q.ready;
        left = q.left;
      }

  module _ {K : Type 0} (write : List ℕ → S → Written × S) (sc : Callbacks K) where
    -- The sent lines of a body and the line that ends it.
    pub read_body-Passed :
        (fuel : ℕ) (bf : BufferedFile S) (lines : List (List ℕ)) (rest : List ℕ)
        → All Line lines
        → All Short lines
        → IsReady bf
        → bf.buffer_size_limit ≡ 0
        → unread pending bf ≡ sent_lines lines ++ 46 ∷ 13 ∷ 10 ∷ rest
        → length (sent_lines lines ++ 46 ∷ 13 ∷ 10 ∷ rest) < fuel
        → ((read_body read write sc fuel bf).0 ≡ succeeded)
          × Passed bf
              ((read_body read write sc fuel bf).1)
              (sent_lines lines ++ 46 ∷ 13 ∷ 10 ∷ [])
              rest
    unfolding read_body after_line
    read_body-Passed zero bf lines rest all short ready limit stream enough = absurd (omega arith)
    read_body-Passed (suc fuel) bf [] rest all short ready limit stream enough =
        let (line, passed) =
          read_line_crlf-Passed (suc fuel) bf (46 ∷ 13 ∷ 10 ∷ []) rest ready limit
            (rw no_lines at stream) (period_line rest) (rw no_lines at enough) in
        rw (line, no_lines) (refl, passed)
    read_body-Passed (suc fuel) bf (line ∷ lines) rest all short ready limit stream enough =
        let end = 46 ∷ 13 ∷ 10 ∷ rest in
        let wire = sent line ++ 10 ∷ [] in
        let tail = sent_lines lines ++ end in
        let apart = lines_apart line lines end in
        let size = ap length apart ∙ length-append wire tail in
        let (got, passed) =
          read_line_crlf-Passed (suc fuel) bf wire tail ready limit (stream ∙ apart)
            (ap (λ (t : List ℕ). first_line true false t) (append_assoc (sent line) (10 ∷ []) tail)
              ∙ first_line-sent false line tail all.0)
            (rw (sym apart) enough) in
        let some_bytes = length-append (sent line) (10 ∷ []) in
        let r = length wire % 2 ^ 32 in
        let int : r ≡ length wire = omega (arith, length-sent line, short.0) in
        let positive : (r == 0) ≡ false = ground (arith, int, some_bytes) in
        let no_sign : negative r ≡ false = ground (arith, int, length-sent line, short.0) in
        let last : ((r == 3) && get_or wire 0 0 == 46) ≡ false = rw int (sent-GoesOn line) in
        let (ends, more) =
          read_body-Passed fuel ((read_line_crlf read (suc fuel) bf).1) lines rest (all.1) (short.1)
            passed.ready (passed.grown.same_limit ∙ limit) passed.left
            (omega (arith, size, enough, some_bytes)) in
        rw (got, positive, no_sign, last)
          (
            ends,
            rw (lines_apart line lines (46 ∷ 13 ∷ 10 ∷ []))
                (Passed-from bf _ _ _ _ _ _ passed more),
          )
