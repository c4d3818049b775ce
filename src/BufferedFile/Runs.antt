-- ===== src/BufferedFile/Runs.antt =====
-- ase/gtcpp/buffered_file.cpp: runs on a file that is a list of bytes, in reads of two bytes.
use ase.BufferedFile.{
  BufferedFile, bytes, shifted, find_crlf, find_lf, at_limit, read_size, line_found, next_offset,
  appended, read_append, after_read, line_or_more, read_line_loop, read_line, read_line_crlf,
}
use ase.BufferedFile.Streams.{IsReady, Reads}
use ase.BufferedFile.Reading.{read_line-Reads}
use ase.BufferedFile.Lines.{ends_cr}
use ase.Split.{find_char}
use ase.Prelude.{ℕ, ◌≡◌, refl, true, List, [], ◌∷◌, arith}
use ase.BufferedFile.Files.{read_some, bytes_left, read_some-Streams}

-- "a" CRLF "b" CRLF
abbrev two_lines : List ℕ
two_lines = 97 ∷ 13 ∷ 10 ∷ 98 ∷ 13 ∷ 10 ∷ []

abbrev sample_file : BufferedFile (List ℕ)
sample_file = record {
  buffer = [];
  cursor = 0;
  read_block_size = 2;
  buffer_size_limit = 0;
  file = two_lines;
}

sample_file-IsReady : IsReady sample_file
unfolding ends_cr
sample_file-IsReady = record { in_buffer = omega arith; has_block = omega arith; at_line = refl }

read_line-Reads_example :
    Reads read_some bytes_left true sample_file
      ((read_line read_some 7 true sample_file).0)
      ((read_line read_some 7 true sample_file).1)
read_line-Reads_example =
    read_line-Reads read_some bytes_left read_some-Streams 7 true sample_file sample_file-IsReady
      (omega arith)

-- The first line, which ends between two reads, and the bytes behind it that are buffered.
first_read : (read_line_crlf read_some 7 sample_file).0 ≡ bytes (97 ∷ 13 ∷ 10 ∷ [])
unfolding read_line_crlf read_line read_line_loop line_or_more find_lf find_crlf find_char
    read_append read_size appended after_read at_limit next_offset line_found read_some shifted
first_read = refl
