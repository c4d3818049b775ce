-- ===== src/StrBuf/Runs.antt =====
-- ase/asestrbuf.cpp: a run on a buffer of two bytes.
use ase.Prelude.{◌≡◌, [], ◌∷◌, ◌++◌, arith, drop}
use ase.StrBuf.{Buffer, IsValid, contents, remove_front, append}
use ase.StrBuf.Contents.{append_lem, remove_front_lem}

abbrev sample_buffer : Buffer
sample_buffer = record { mem = 5 ∷ 6 ∷ 7 ∷ []; used = 2 }

sample_buffer-IsValid : IsValid sample_buffer
unfolding IsValid
sample_buffer-IsValid = omega arith

append_lem_example :
    (contents (append 0 (8 ∷ 9 ∷ []) sample_buffer) ≡ contents sample_buffer ++ 8 ∷ 9 ∷ [])
    × IsValid (append 0 (8 ∷ 9 ∷ []) sample_buffer)
append_lem_example = append_lem 0 (8 ∷ 9 ∷ []) sample_buffer sample_buffer-IsValid

remove_front_lem_example :
    (contents (remove_front 1 sample_buffer) ≡ drop 1 (contents sample_buffer))
    × IsValid (remove_front 1 sample_buffer)
remove_front_lem_example = remove_front_lem 1 sample_buffer sample_buffer-IsValid (omega arith)
