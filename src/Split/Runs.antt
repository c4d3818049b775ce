-- ===== src/Split/Runs.antt =====
-- ase/gtcpp/string_util.cpp: runs of split and join.
use ase.Prelude.{ℕ, ◌≡◌, refl, List, [], ◌∷◌, ◌++◌}
use ase.Split.{find_char, split_loop, split, join}
use ase.Split.RoundTrip.{closing, join-split}

-- "a,,b," has three parts.
abbrev parts_text : List ℕ
parts_text = 97 ∷ 44 ∷ 44 ∷ 98 ∷ 44 ∷ []

parts_split : split parts_text 44 ≡ (97 ∷ []) ∷ [] ∷ (98 ∷ []) ∷ []
unfolding split split_loop find_char
parts_split = refl

join-split_example : join (split parts_text 44) (44 ∷ []) ++ closing parts_text 44 ≡ parts_text
join-split_example = join-split parts_text 44
