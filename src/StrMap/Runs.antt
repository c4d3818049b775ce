-- ===== src/StrMap/Runs.antt =====
-- ase/asestrmap.cpp: runs on a map of two entries, one of them at the empty key.
use ase.Prelude.{ℕ, ◌≡◌, refl, ◌∙◌, true, some, List, [], ◌∷◌, if◌then◌else◌}
use ase.Variant.Order.{string_lt, memcmp}
use ase.StrMap.{get_property, set_property, enumerate}
use ase.StrMap.Laws.{same_key, Ascending, AllAbove, get_property-set_property}
use ase.StrMap.Enum.{named_keys, enumerate-Ascending}

abbrev two_entries : List (List ℕ × ℕ)
two_entries = ([], 10) ∷ (98 ∷ [], 20) ∷ []

two_entries-Ascending : Ascending two_entries
unfolding Ascending AllAbove string_lt memcmp
two_entries-Ascending = ((refl, tt), (tt, tt))

two_entries-named : named_keys two_entries ≡ (98 ∷ []) ∷ []
unfolding named_keys
two_entries-named = refl

-- The empty key is left out.
two_entries-enumerated : enumerate two_entries ≡ (98 ∷ []) ∷ []
two_entries-enumerated = enumerate-Ascending two_entries two_entries-Ascending ∙ two_entries-named

get_property-set_property_example :
    get_property (set_property (97 ∷ []) 30 two_entries) (98 ∷ [])
    ≡ (if same_key (97 ∷ []) (98 ∷ []) then some 30 else get_property two_entries (98 ∷ []))
get_property-set_property_example = get_property-set_property (97 ∷ []) 30 two_entries (98 ∷ [])

enumerate-Ascending_example : enumerate two_entries ≡ named_keys two_entries
enumerate-Ascending_example = enumerate-Ascending two_entries two_entries-Ascending

first_below : string_lt (97 ∷ []) (97 ∷ 0 ∷ []) ≡ true
unfolding string_lt memcmp
first_below = refl

second_below : string_lt (97 ∷ 0 ∷ []) (98 ∷ []) ≡ true
unfolding string_lt memcmp
second_below = refl
