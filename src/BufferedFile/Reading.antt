-- ===== src/BufferedFile/Reading.antt =====
-- ase/gtcpp/buffered_file.cpp: read_line on a file that delivers a stream of bytes.
use ase.BufferedFile.{
  BufferedFile, ReadResult, bytes, end_of_file, read_error, out_of_fuel, shifted, find_lf, at_limit,
  read_size, line_found, next_offset, appended, read_append, after_read, line_or_more,
  read_line_loop, read_line,
}
use ase.BufferedFile.Lines.{
  first_line, ends_cr-append, first_line-le, first_line-ends, first_line-append, find_lf-first_line,
  shifted-some, shifted-none,
}
use ase.BufferedFile.Streams.{Streams, IsReady, Grown, unread, Reads, Grown-file, Grown-trans}
use ase.BufferedFile.Searching.{Searched, Searched-next}
use ase.Prelude.{
  ℕ, zero, suc, ◌+◌, ◌-◌, ◌≤◌, ◌<◌, ◌≡◌, refl, sym, ap, ◌∙◌, inl, inr, Bool, false, Option, none,
  some, List, [], ◌∷◌, ◌++◌, append-nil, append_assoc, arith, if◌then◌else◌, Bool-cases,
  Option-cases, length, take, drop, length-append, length-take, length-drop, take-append-drop,
  drop-within, take-within, drop_plus, take_plus,
}

module _ {S : Type 0} (read : ℕ → S → Option (List ℕ) × S) (pending : S → List ℕ)
    (reader : Streams read pending) where
  same_cursor : (a b : BufferedFile S) → Grown a b 0 → a.cursor ≡ b.cursor
  same_cursor a b g = omega (arith, g.moved_cursor)

  -- What holds of a file holds of it with fewer bytes in the buffer and more to come.
  earlier :
      (crlf : Bool) (a b : BufferedFile S) (r : ReadResult) (c : BufferedFile S)
      → Grown a b 0
      → unread pending a ≡ unread pending b
      → Reads read pending crlf b r c
      → Reads read pending crlf a r c
  earlier crlf a b (bytes line) c g same (found, split, here, grown, ready) = (
    ap (λ (t : List ℕ). first_line crlf false t) same ∙ found,
    same ∙ split,
    rw (same_cursor a b g) here,
    Grown-trans a b c 0 (length line) (length line) (omega arith) g grown,
    ready,
  )
  earlier crlf a b end_of_file c g same (absent, split, grown) = (
    ap (λ (t : List ℕ). first_line crlf false t) same ∙ absent,
    same ∙ split,
    Grown-trans a b c 0 0 0 (omega arith) g grown,
  )
  earlier crlf a b read_error c g same (grown, why) =
      (Grown-trans a b c 0 0 0 (omega arith) g grown, why)
  earlier crlf a b out_of_fuel c g same r = r

  line_end :
      (crlf : Bool) (offset lf : ℕ) (bf : BufferedFile S)
      → Searched crlf offset bf.cursor bf.buffer
      → find_lf crlf (drop offset bf.buffer) ≡ some lf
      → (n : ℕ) × (first_line crlf false (drop bf.cursor bf.buffer) ≡ some n)
        × (offset + lf + 1 ≡ bf.cursor + n)
  unfolding shifted
  line_end crlf offset lf bf searched found =
      let here : shifted offset (first_line crlf false (drop offset bf.buffer))
          ≡ some (offset + (1 + lf)) =
        rw (sym (find_lf-first_line crlf (drop offset bf.buffer)), found) refl in
      let there = searched [] in
      let (n, some_n, place) =
        shifted-some bf.cursor (first_line crlf false (drop bf.cursor bf.buffer))
          (offset + (1 + lf))
          (sym (
              rw
                (
                  sym (append-nil (drop offset bf.buffer)),
                  sym (append-nil (drop bf.cursor bf.buffer)),
                )
                there)
            ∙ here) in
      (n, some_n, omega (arith, place))

  not_found :
      (crlf : Bool) (offset : ℕ) (bf : BufferedFile S)
      → Searched crlf offset bf.cursor bf.buffer
      → find_lf crlf (drop offset bf.buffer) ≡ none
      → first_line crlf false (drop bf.cursor bf.buffer) ≡ none
  unfolding shifted
  not_found crlf offset bf searched e =
      let here : first_line crlf false (drop offset bf.buffer) ≡ none =
        rw (sym (find_lf-first_line crlf (drop offset bf.buffer)), e) refl in
      let there = searched [] in
      shifted-none bf.cursor _ (
        ap (λ (t : List ℕ). shifted bf.cursor (first_line crlf false t))
          (sym (append-nil (drop bf.cursor bf.buffer)))
        ∙ sym there
        ∙ ap (λ (t : List ℕ). shifted offset (first_line crlf false t))
            (append-nil (drop offset bf.buffer))
        ∙ ap (λ o. shifted offset o) here)

  line_found-Reads :
      (crlf : Bool) (offset lf : ℕ) (bf : BufferedFile S)
      → IsReady bf
      → Searched crlf offset bf.cursor bf.buffer
      → find_lf crlf (drop offset bf.buffer) ≡ some lf
      → Reads read pending crlf bf ((line_found offset lf bf).0) ((line_found offset lf bf).1)
  unfolding line_found
  line_found-Reads crlf offset lf bf ready searched found =
      let xs = drop bf.cursor bf.buffer in
      let (n, some_n, place) = line_end crlf offset lf bf searched found in
      let inside : n ≤ length xs = first_line-le crlf false xs n some_n in
      let gone : bf.cursor + n - bf.cursor ≡ n = omega arith in
      let size : length (take n xs) ≡ n = omega (arith, length-take n xs, inside) in
      rw (place, gone, size)
        (
          first_line-append crlf false xs (pending bf.file) n some_n,
          rw (drop_plus bf.cursor n bf.buffer) (
              ap (λ (t : List ℕ). t ++ pending bf.file) (sym (take-append-drop n xs))
              ∙ append_assoc (take n xs) (drop n xs) (pending bf.file)),
          refl,
          record {
            more = [];
            grown_buffer = sym (append-nil bf.buffer);
            moved_cursor = refl;
            same_block = refl;
            same_limit = refl;
          },
          record {
            in_buffer = omega (arith, length-drop bf.cursor bf.buffer, inside, ready.in_buffer);
            has_block = ready.has_block;
            at_line =
                rw
                  (
                    take_plus bf.cursor n bf.buffer,
                    ends_cr-append false (take bf.cursor bf.buffer) (take n xs),
                  )
                  (first_line-ends crlf false _ xs n some_n);
          },
        )

  read_size-pos :
      (bf : BufferedFile S)
      → 0 < bf.read_block_size
      → at_limit bf ≡ false
      → 0 < read_size bf.read_block_size bf
  unfolding read_size at_limit
  read_size-pos bf block room = ground (arith, block, room)

  -- More bytes in the buffer leave the file ready, and what was searched stays so.
  IsReady-grown :
      (bf : BufferedFile S) (xs : List ℕ) (s : S)
      → IsReady bf
      → IsReady (record bf { buffer = bf.buffer ++ xs; file = s })
  IsReady-grown bf xs s ready = record {
    in_buffer = omega (arith, ready.in_buffer, length-append bf.buffer xs);
    has_block = ready.has_block;
    at_line = rw (take-within bf.cursor bf.buffer xs ready.in_buffer) ready.at_line;
  }

  Searched-grown :
      (crlf : Bool) (bf : BufferedFile S) (xs : List ℕ)
      → IsReady bf
      → first_line crlf false (drop bf.cursor bf.buffer) ≡ none
      → Searched crlf (next_offset crlf bf) bf.cursor (bf.buffer ++ xs)
  unfolding next_offset
  Searched-grown crlf bf xs ready absent ys =
      let offset = if crlf then length bf.buffer - 1 else length bf.buffer in
      let within : offset ≤ length bf.buffer = ground arith in
      rw
        (
          drop-within offset bf.buffer xs within,
          drop-within bf.cursor bf.buffer xs ready.in_buffer,
          append_assoc (drop offset bf.buffer) xs ys,
          append_assoc (drop bf.cursor bf.buffer) xs ys,
        )
        (Searched-next crlf bf.cursor bf.buffer ready.in_buffer ready.at_line absent (xs ++ ys))

  after_read-Reads :
      (crlf : Bool) (bf : BufferedFile S) (n : ℕ) (o : Option (List ℕ))
      (again : ReadResult × BufferedFile S)
      → 0 < n
      → (read n bf.file).0 ≡ o
      → first_line crlf false (drop bf.cursor bf.buffer) ≡ none
      → bf.cursor ≤ length bf.buffer
      → ((x : ℕ) (xs : List ℕ)
          → o ≡ some (x ∷ xs)
          → Reads read pending crlf
              ((appended read bf o ((read n bf.file).1)).1)
              (again.0)
              (again.1))
      → Reads read pending crlf bf
          ((after_read (appended read bf o ((read n bf.file).1)) again).0)
          ((after_read (appended read bf o ((read n bf.file).1)) again).1)
  unfolding after_read appended
  after_read-Reads crlf bf n none again size e absent inside rest =
      (Grown-file bf ((read n bf.file).1), inr (n, bf.file, e))
  after_read-Reads crlf bf n (some []) again size e absent inside rest =
      let all = reader.ends n bf.file size e in
      let same = reader.gives n bf.file [] e in
      (
        rw (all, append-nil (drop bf.cursor bf.buffer)) absent,
        rw same refl,
        Grown-file bf ((read n bf.file).1),
      )
  after_read-Reads crlf bf n (some (x ∷ xs)) again size e absent inside rest =
      let b = record bf { buffer = bf.buffer ++ x ∷ xs; file = (read n bf.file).1 } in
      let grown : Grown bf b 0 = record {
        more = x ∷ xs;
        grown_buffer = refl;
        moved_cursor = omega arith;
        same_block = refl;
        same_limit = refl;
      } in
      earlier crlf bf b (again.0) (again.1) grown
        (rw (drop-within bf.cursor bf.buffer (x ∷ xs) inside, reader.gives n bf.file (x ∷ xs) e)
          (sym (append_assoc (drop bf.cursor bf.buffer) (x ∷ xs) _)))
        (rest x xs refl)

  fewer :
      (n : ℕ) (s : S) (x : ℕ) (xs : List ℕ) (fuel : ℕ)
      → (read n s).0 ≡ some (x ∷ xs)
      → length (pending s) < suc fuel
      → length (pending ((read n s).1)) < fuel
  fewer n s x xs fuel got enough =
      let size =
        ap length (reader.gives n s (x ∷ xs) got)
        ∙ length-append (x ∷ xs) (pending ((read n s).1)) in
      omega (arith, size, enough)

  pub read_line_loop-Reads :
      (fuel : ℕ) (crlf : Bool) (offset : ℕ) (bf : BufferedFile S)
      → IsReady bf
      → Searched crlf offset bf.cursor bf.buffer
      → length (pending bf.file) < fuel
      → Reads read pending crlf bf
          ((read_line_loop read fuel crlf offset bf).0)
          ((read_line_loop read fuel crlf offset bf).1)
  unfolding read_line_loop line_or_more read_append appended
  read_line_loop-Reads zero crlf offset bf ready searched enough = absurd (omega arith)
  read_line_loop-Reads (suc fuel) crlf offset bf ready searched enough =
      elim (Option-cases (find_lf crlf (drop offset bf.buffer))) [
        | inr (lf, e) ↦ rw e (line_found-Reads crlf offset lf bf ready searched e)
        | inl e ↦ elim (Bool-cases (at_limit bf)) [
          | inl full ↦ rw (e, full) (Grown-file bf bf.file, inl full)
          | inr room ↦
              let size : 0 < read_size bf.read_block_size bf =
                read_size-pos bf ready.has_block room in
              let absent = not_found crlf offset bf searched e in
              rw (e, room)
                (after_read-Reads crlf bf (read_size bf.read_block_size bf) _ _ size refl absent
                  ready.in_buffer
                  (λ x xs got. rw got (
                    read_line_loop-Reads fuel crlf (next_offset crlf bf) _
                      (IsReady-grown bf (x ∷ xs) _ ready)
                      (Searched-grown crlf bf (x ∷ xs) ready absent)
                      (fewer _ bf.file x xs fuel got enough))))
        ]
      ]

  -- read_line on a file that is ready, with fuel for more bytes than are to come: it ends. Its line is the
  -- first of the bytes behind the cursor, buffered or to come, however the reads cut them: it stands in
  -- the buffer, which only has grown, with the cursor behind it. There is no such line when it meets the
  -- end, and it fails only when the buffer is full or a read fails.
  pub read_line-Reads :
      (fuel : ℕ) (crlf : Bool) (bf : BufferedFile S)
      → IsReady bf
      → length (pending bf.file) < fuel
      → Reads read pending crlf bf
          ((read_line read fuel crlf bf).0)
          ((read_line read fuel crlf bf).1)
  unfolding read_line
  read_line-Reads fuel crlf bf ready enough =
      read_line_loop-Reads fuel crlf bf.cursor bf ready (λ ys. refl) enough
