-- ===== src/Search/Runs.antt =====
-- ase/gtcpp/horspool.cpp: a run of the search.
use ase.Prelude.{ℕ, ◌<◌, ◌≡◌, refl, some, List, [], ◌∷◌, arith, All}
use ase.Search.{starts, moved, search_mem, shift_loop, create_shift, horspool_loop, horspool_search}
use ase.Search.Horspool.{horspool_search-search_mem}

-- "aba" in "abcaba".
abbrev aba : List ℕ
aba = 97 ∷ 98 ∷ 97 ∷ []

abbrev abcaba : List ℕ
abcaba = 97 ∷ 98 ∷ 99 ∷ 97 ∷ 98 ∷ 97 ∷ []

found_at : horspool_search aba abcaba ≡ some 3
unfolding horspool_search horspool_loop create_shift shift_loop starts moved
found_at = refl

aba-bytes : All (λ b. b < 256) aba
aba-bytes = (omega arith, (omega arith, (omega arith, tt)))

abcaba-bytes : All (λ b. b < 256) abcaba
abcaba-bytes = (omega arith, (omega arith, (omega arith, aba-bytes)))

horspool_search-search_mem_example : horspool_search aba abcaba ≡ search_mem aba abcaba
horspool_search-search_mem_example =
    horspool_search-search_mem aba abcaba aba-bytes abcaba-bytes (omega arith)
