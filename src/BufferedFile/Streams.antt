-- ===== src/BufferedFile/Streams.antt =====
-- ase/gtcpp/buffered_file.cpp: a file that delivers a stream of bytes, and what reading a line of it
-- comes to.
use ase.BufferedFile.{
  BufferedFile, ReadResult, bytes, end_of_file, read_error, out_of_fuel, at_limit,
}
use ase.BufferedFile.Lines.{first_line, ends_cr}
use ase.Prelude.{
  ℕ, ◌+◌, ◌≤◌, ◌<◌, ◌≡◌, refl, sym, ap, ◌∙◌, ◌⊎◌, Bool, true, false, Option, none, some, List, [],
  ◌++◌, append-nil, append_assoc, arith, length, take, drop,
}

-- What the readers rely on in read(2): `pending` bytes are to come, each call takes some of them off the
-- front, and none only at their end.
pub record Streams {S : Type 0} (read : ℕ → S → Option (List ℕ) × S) (pending : S → List ℕ)
    : Type 0 where
  pub gives :
      (n : ℕ) (s : S) (xs : List ℕ)
      → (read n s).0 ≡ some xs
      → pending s ≡ xs ++ pending ((read n s).1)
  pub ends : (n : ℕ) (s : S) → 0 < n → (read n s).0 ≡ some [] → pending s ≡ []

-- A file between two reads: the last byte that was taken is no carriage return.
pub record IsReady {S : Type 0} (bf : BufferedFile S) : Type 0 where
  pub in_buffer : bf.cursor ≤ length bf.buffer
  pub has_block : 0 < bf.read_block_size
  pub at_line : ends_cr false (take bf.cursor bf.buffer) ≡ false

-- The same file with more bytes in the buffer and the cursor `n` bytes further.
pub record Grown {S : Type 0} (bf b : BufferedFile S) (n : ℕ) : Type 0 where
  pub more : List ℕ
  pub grown_buffer : b.buffer ≡ bf.buffer ++ more
  pub moved_cursor : b.cursor ≡ bf.cursor + n
  pub same_block : b.read_block_size ≡ bf.read_block_size
  pub same_limit : b.buffer_size_limit ≡ bf.buffer_size_limit

-- The bytes behind the cursor, buffered or not.
abbrev pub unread : {S : Type 0} (pending : S → List ℕ) → BufferedFile S → List ℕ
unread pending bf = drop bf.cursor bf.buffer ++ pending bf.file

module _ {S : Type 0} (read : ℕ → S → Option (List ℕ) × S) (pending : S → List ℕ) where
  -- What a result of read_line says of the file `bf` and the file `b` that it leaves.
  abbrev pub Reads : Bool → BufferedFile S → ReadResult → BufferedFile S → Type 0
  Reads crlf bf (bytes line) b =
      (first_line crlf false (unread pending bf) ≡ some (length line))
      × (unread pending bf ≡ line ++ unread pending b)
      × (take (length line) (drop bf.cursor b.buffer) ≡ line)
      × Grown bf b (length line)
      × IsReady b
  Reads crlf bf end_of_file b =
      (first_line crlf false (unread pending bf) ≡ none)
      × (unread pending bf ≡ unread pending b)
      × Grown bf b 0
  Reads crlf bf read_error b =
      Grown bf b 0 × ((at_limit b ≡ true) ⊎ ((n : ℕ) × (s : S) × ((read n s).0 ≡ none)))
  Reads crlf bf out_of_fuel b = ⊥

module _ {S : Type 0} where
  pub Grown-file : (bf : BufferedFile S) (s : S) → Grown bf (record bf { file = s }) 0
  Grown-file bf s = record {
    more = [];
    grown_buffer = sym (append-nil bf.buffer);
    moved_cursor = omega arith;
    same_block = refl;
    same_limit = refl;
  }

  pub Grown-trans :
      (a b c : BufferedFile S) (n m k : ℕ) → n + m ≡ k → Grown a b n → Grown b c m → Grown a c k
  Grown-trans a b c n m k e g h = record {
    more = g.more ++ h.more;
    grown_buffer =
        h.grown_buffer
        ∙ ap (λ (t : List ℕ). t ++ h.more) g.grown_buffer
        ∙ append_assoc a.buffer g.more h.more;
    moved_cursor = omega (arith, e, g.moved_cursor, h.moved_cursor);
    same_block = h.same_block ∙ g.same_block;
    same_limit = h.same_limit ∙ g.same_limit;
  }
