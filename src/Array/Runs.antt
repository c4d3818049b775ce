-- ===== src/Array/Runs.antt =====
-- ase/asearray.cpp: runs on an array of three elements.
use ase.Prelude.{ℕ, ◌≡◌, refl, ◌&&◌, not, List, [], ◌∷◌, ltb, ◌==◌, if◌then◌else◌}
use ase.Array.{negative, resize, get_element, set_element, set_length}
use ase.Array.Laws.{get_element-set_element, get_element-set_length}

abbrev three : List ℕ
three = 5 ∷ 6 ∷ 7 ∷ []

-- An element beyond the end: the array grows, and the gap is void.
grown_array : set_element 0 three 4 9 ≡ 5 ∷ 6 ∷ 7 ∷ 0 ∷ 9 ∷ []
unfolding set_element resize
grown_array = refl

get_element-set_element_example :
    get_element 0 (set_element 0 three 4 9) 3
    ≡ (if not (negative 4) && 4 == 3 then 9 else get_element 0 three 3)
get_element-set_element_example = get_element-set_element 0 three 4 9 3

get_element-set_length_example :
    get_element 0 (set_length 0 three 2) 1
    ≡ (if not (negative 2) && ltb 1 2 then get_element 0 three 1 else 0)
get_element-set_length_example = get_element-set_length 0 three 2 1
