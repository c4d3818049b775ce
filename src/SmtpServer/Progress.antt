-- ===== src/SmtpServer/Progress.antt =====
-- ase/gtcpp/smtp_server.cpp: the loop ends, and the ranges that the callbacks were given stay where they
-- are in the buffer.
use ase.BufferedFile.{
  BufferedFile, ReadResult, bytes, end_of_file, read_error, out_of_fuel, read_line_crlf,
  reset_cursor,
}
use ase.BufferedFile.Lines.{ends_cr, first_line-pos}
use ase.BufferedFile.Streams.{Streams, IsReady, unread, Reads}
use ase.BufferedFile.Reading.{read_line-Reads}
use ase.Prelude.{
  ℕ, ◌≤◌, ◌<◌, ◌≡◌, refl, sym, ap, ◌∙◌, true, false, Option, List, [], ◌++◌, append-nil,
  append_assoc, arith, length, drop, length-append,
}

-- The same connection later: its buffer has grown at the end, and no more is to be read of it.
pub record Later {S : Type 0} (pending : S → List ℕ) (bf b : BufferedFile S) : Type 0 where
  pub more : List ℕ
  pub grown : b.buffer ≡ bf.buffer ++ more
  pub ready : IsReady b
  pub left : length (unread pending b) ≤ length (unread pending bf)

abbrev pub Extended : {S : Type 0} → BufferedFile S → BufferedFile S → Type 0
Extended bf b = (more : List ℕ) × (b.buffer ≡ bf.buffer ++ more)

module _ {S : Type 0} (pending : S → List ℕ) where
  pub Later-self : (bf : BufferedFile S) → IsReady bf → Later pending bf bf
  Later-self bf ready = record {
    more = [];
    grown = sym (append-nil bf.buffer);
    ready = ready;
    left = omega arith;
  }

  pub Extended-trans : (a b c : BufferedFile S) → Extended a b → Extended b c → Extended a c
  Extended-trans a b c (xs, g) (ys, h) =
      (xs ++ ys, h ∙ ap (λ (t : List ℕ). t ++ ys) g ∙ append_assoc a.buffer xs ys)

  pub Later-Extended : (a b : BufferedFile S) → Later pending a b → Extended a b
  Later-Extended a b l = (l.more, l.grown)

  pub Later-trans :
      (a b c : BufferedFile S) → Later pending a b → Later pending b c → Later pending a c
  Later-trans a b c l m =
      let (more, grown) = Extended-trans a b c (l.more, l.grown) (m.more, m.grown) in
      record { more = more; grown = grown; ready = m.ready; left = omega (arith, l.left, m.left) }

  -- Writing to the file takes nothing off what is to be read.
  pub Later-file :
      (bf : BufferedFile S) (s : S)
      → IsReady bf
      → pending s ≡ pending bf.file
      → Later pending bf (record bf { file = s })
  Later-file bf s ready same = record {
    more = [];
    grown = sym (append-nil bf.buffer);
    ready = record {
      in_buffer = ready.in_buffer;
      has_block = ready.has_block;
      at_line = ready.at_line;
    };
    left = rw same (omega arith);
  }

  pub Later-reset :
      (bf : BufferedFile S)
      → IsReady bf
      → IsReady (reset_cursor bf)
        × (length (unread pending (reset_cursor bf)) ≡ length (unread pending bf))
  unfolding reset_cursor ends_cr
  Later-reset bf ready =
      (record { in_buffer = omega arith; has_block = ready.has_block; at_line = refl }, refl)

  -- What a line's reading says of the connection: a line is at least its line break.
  module _ (read : ℕ → S → Option (List ℕ) × S) where
    abbrev pub LineRead : BufferedFile S → ReadResult → BufferedFile S → Type 0
    LineRead bf (bytes line) b =
        Later pending bf b × (length (unread pending b) < length (unread pending bf))
    LineRead bf end_of_file b = Extended bf b
    LineRead bf read_error b = Extended bf b
    LineRead bf out_of_fuel b = ⊥

    Reads-LineRead :
        (bf : BufferedFile S) (r : ReadResult) (b : BufferedFile S)
        → Reads read pending true bf r b
        → LineRead bf r b
    Reads-LineRead bf (bytes line) b (found, split, here, grown, ready) =
        let size = ap length split ∙ length-append line (unread pending b) in
        let some_byte = first_line-pos true false (unread pending bf) (length line) found in
        (
          record {
            more = grown.more;
            grown = grown.grown_buffer;
            ready = ready;
            left = omega (arith, size);
          },
          omega (arith, size, some_byte),
        )
    Reads-LineRead bf end_of_file b (absent, same, grown) = (grown.more, grown.grown_buffer)
    Reads-LineRead bf read_error b (grown, why) = (grown.more, grown.grown_buffer)
    Reads-LineRead bf out_of_fuel b r = r

    pub read_line_crlf-LineRead :
        Streams read pending
        → (fuel : ℕ) (bf : BufferedFile S) → IsReady bf
        → length (unread pending bf) < fuel
        → LineRead bf ((read_line_crlf read fuel bf).0) ((read_line_crlf read fuel bf).1)
    unfolding read_line_crlf
    read_line_crlf-LineRead reader fuel bf ready enough = Reads-LineRead bf _ _ (
        read_line-Reads read pending reader fuel true bf ready
          (omega (arith, enough, length-append (drop bf.cursor bf.buffer) (pending bf.file))))
