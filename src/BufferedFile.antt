-- ===== src/BufferedFile.antt =====
-- ase/gtcpp/buffered_file.cpp: reading a file by lines through a buffer, and read_append of
-- ase/gtcpp/file_util.cpp. The buffer is its contents, on which the string buffer's operations act as
-- StrBuf.Contents shows of theirs. The system's read is the parameter `read`: it takes at most so many
-- bytes off the file's state, none of them at its end, or fails.
pub mod Lines
pub mod Streams
pub mod Searching
pub mod Reading
pub mod Files
mod Runs
use Prim.Native.Nat.{max}
use ase.Split.{find_char}
use ase.Prelude.{
  ℕ, zero, suc, ◌+◌, ◌-◌, ◌*◌, ◌/◌, ◌%◌, ◌^◌, ◌≤◌, ◌<◌, min, ◌≡◌, refl, sym, ap, ◌∙◌, ◌≢◌, ◌↔◌, ◌⊎◌,
  inl, inr, Bool, true, false, ◌&&◌, ◌||◌, not, Option, none, some, List, [], ◌∷◌, ◌++◌, map,
  append-nil, append_assoc, arith, bit_and, bit_or, ltb, leb, ◌==◌, if◌then◌else◌, ltb→lt, lt→ltb,
  leb→le, le→leb, ==_iff, ==_self, tests, Bool-cases, Option-cases, length, get_or, get_elem?, set,
  take, drop, replicate, All, length-append, length-take, length-drop, length-replicate, length-set,
  take-append-drop, take-append, drop-append, All-append,
}

pub record BufferedFile (S : Type 0) : Type 0 where
  pub buffer : List ℕ
  pub cursor : ℕ
  pub read_block_size : ℕ
  pub buffer_size_limit : ℕ
  pub file : S

-- What the readers return: the bytes from `line_r` (or `bytes_r`) on, 0 or -1.
pub data ReadResult : Type 0 where
  bytes : List ℕ → ReadResult
  end_of_file : ReadResult
  read_error : ReadResult
  out_of_fuel : ReadResult

-- memchr: the place of the first `c`.
unfoldable pub memchr_char : List ℕ → ℕ → Option ℕ
memchr_char xs c = let p = find_char xs c in if p == length xs then none else some p

-- A place counted from `n` bytes earlier.
unfoldable pub shifted : ℕ → Option ℕ → Option ℕ
shifted n none = none
shifted n (some p) = some (n + p)

-- find_lf<true>: the place of a line feed behind a carriage return. A turn passes a line feed, so that
-- the length of the bytes is enough fuel.
unfoldable pub find_crlf : ℕ → List ℕ → Option ℕ
find_crlf zero xs = none
find_crlf (suc fuel) xs =
    let q = find_char xs 10 in
    let rest = find_crlf fuel (drop (q + 1) xs) in
    if q == length xs
    then none
    else if not (q == 0) && get_or xs (q - 1) 0 == 13
    then some q
    else shifted (q + 1) rest

unfoldable pub find_lf : Bool → List ℕ → Option ℕ
find_lf crlf xs = if crlf then find_crlf (length xs) xs else memchr_char xs 10

module _ {S : Type 0} where
  unfoldable pub set_read_block_size : ℕ → BufferedFile S → BufferedFile S
  set_read_block_size rbs bf = record bf { read_block_size = if rbs == 0 then 1024 else rbs }

  unfoldable pub set_buffer_size_limit : ℕ → BufferedFile S → BufferedFile S
  set_buffer_size_limit bsl bf = record bf { buffer_size_limit = bsl }

  -- The constructor, on a file's state.
  unfoldable pub new_buffered_file : ℕ → ℕ → S → BufferedFile S
  new_buffered_file rbs bsl file = set_buffer_size_limit bsl (
      set_read_block_size rbs (record {
        buffer = [];
        cursor = 0;
        read_block_size = 0;
        buffer_size_limit = 0;
        file = file;
      }))

  unfoldable pub reset_cursor : BufferedFile S → BufferedFile S
  reset_cursor bf = record bf { buffer = drop bf.cursor bf.buffer; cursor = 0 }

  -- reset: the file is closed.
  unfoldable pub reset_file : BufferedFile S → BufferedFile S
  reset_file bf = record bf { buffer = []; cursor = 0 }

  unfoldable pub buffered_size : BufferedFile S → ℕ
  buffered_size bf = length bf.buffer - bf.cursor

  unfoldable pub at_limit : BufferedFile S → Bool
  at_limit bf = ltb 0 bf.buffer_size_limit && leb bf.buffer_size_limit (length bf.buffer)

  -- The size of the next read, out of `wanted` bytes.
  unfoldable pub read_size : ℕ → BufferedFile S → ℕ
  read_size wanted bf =
      if ltb 0 bf.buffer_size_limit
      then min wanted (bf.buffer_size_limit - length bf.buffer)
      else wanted

  -- The end of a line at the place `lf`, counted from `offset`.
  unfoldable pub line_found : ℕ → ℕ → BufferedFile S → ReadResult × BufferedFile S
  line_found offset lf bf =
      let n_cursor = offset + lf + 1 in
      (
        bytes (take (n_cursor - bf.cursor) (drop bf.cursor bf.buffer)),
        record bf { cursor = n_cursor },
      )

  -- Where the search goes on: it steps back in case that the last byte is a carriage return.
  unfoldable pub next_offset : Bool → BufferedFile S → ℕ
  next_offset crlf bf = if crlf then length bf.buffer - 1 else length bf.buffer

  -- The turn of a loop that has to read: on bytes it goes on, else it returns.
  unfoldable pub after_read :
      ReadResult × BufferedFile S → ReadResult × BufferedFile S → ReadResult × BufferedFile S
  after_read (bytes xs, bf) again = again
  after_read (end_of_file, bf) again = (end_of_file, bf)
  after_read (read_error, bf) again = (read_error, bf)
  after_read (out_of_fuel, bf) again = (out_of_fuel, bf)

  unfoldable pub line_or_more :
      ℕ → BufferedFile S → Option ℕ → ReadResult × BufferedFile S → ReadResult × BufferedFile S
  line_or_more offset bf none more = more
  line_or_more offset bf (some lf) more = line_found offset lf bf

module _ {S : Type 0} (read : ℕ → S → Option (List ℕ) × S) where
  unfoldable pub appended : BufferedFile S → Option (List ℕ) → S → ReadResult × BufferedFile S
  appended bf none s = (read_error, record bf { file = s })
  appended bf (some []) s = (end_of_file, record bf { file = s })
  appended bf (some (x ∷ xs)) s =
      (bytes (x ∷ xs), record bf { buffer = bf.buffer ++ x ∷ xs; file = s })

  unfoldable pub read_append : ℕ → BufferedFile S → ReadResult × BufferedFile S
  read_append len bf = let got = read len bf.file in appended bf (got.0) (got.1)

  unfoldable pub read_line_loop : ℕ → Bool → ℕ → BufferedFile S → ReadResult × BufferedFile S
  read_line_loop zero crlf offset bf = (out_of_fuel, bf)
  read_line_loop (suc fuel) crlf offset bf =
      let got = read_append (read_size bf.read_block_size bf) bf in
      let again = read_line_loop fuel crlf (next_offset crlf bf) (got.1) in
      line_or_more offset bf (find_lf crlf (drop offset bf.buffer))
        (if at_limit bf then (read_error, bf) else after_read got again)

  unfoldable pub read_line : ℕ → Bool → BufferedFile S → ReadResult × BufferedFile S
  read_line fuel crlf bf = read_line_loop fuel crlf bf.cursor bf

  unfoldable pub read_line_crlf : ℕ → BufferedFile S → ReadResult × BufferedFile S
  read_line_crlf fuel bf = read_line fuel true bf

  unfoldable pub read_line_lf : ℕ → BufferedFile S → ReadResult × BufferedFile S
  read_line_lf fuel bf = read_line fuel false bf

  unfoldable pub read_bytes : ℕ → ℕ → BufferedFile S → ReadResult × BufferedFile S
  read_bytes zero len bf = (out_of_fuel, bf)
  read_bytes (suc fuel) len bf =
      let got = read_append (read_size (max bf.read_block_size (len - buffered_size bf)) bf) bf in
      let again = read_bytes fuel len (got.1) in
      if leb len (buffered_size bf)
      then (bytes (take len (drop bf.cursor bf.buffer)), record bf { cursor = bf.cursor + len })
      else if at_limit bf
      then (read_error, bf)
      else after_read got again
