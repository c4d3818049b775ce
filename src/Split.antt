-- ===== src/Split.antt =====
-- ase/gtcpp/string_util.cpp and string_util.hpp: find_char, split and join. A pair of pointers is the
-- list of the bytes between them.
pub mod RoundTrip
mod Runs
use ase.Prelude.{
  ℕ, zero, suc, ◌+◌, ◌-◌, ◌*◌, ◌/◌, ◌%◌, ◌^◌, ◌≤◌, ◌<◌, min, ◌≡◌, refl, sym, ap, ◌∙◌, ◌≢◌, ◌↔◌, ◌⊎◌,
  inl, inr, Bool, true, false, ◌&&◌, ◌||◌, not, Option, none, some, List, [], ◌∷◌, ◌++◌, map,
  append-nil, append_assoc, arith, bit_and, bit_or, ltb, leb, ◌==◌, if◌then◌else◌, ltb→lt, lt→ltb,
  leb→le, le→leb, ==_iff, ==_self, tests, Bool-cases, Option-cases, length, get_or, get_elem?, set,
  take, drop, replicate, All, length-append, length-take, length-drop, length-replicate, length-set,
  take-append-drop, take-append, drop-append, All-append,
}

-- find_char: how many bytes stand in front of the first `c`, or all of them.
unfoldable pub find_char : List ℕ → ℕ → ℕ
find_char [] c = 0
find_char (x ∷ xs) c = let rest = find_char xs c in if x == c then 0 else suc rest

-- split: a delimiter at the very end begins no further part. Each turn reads a byte, so the length of
-- the input is enough fuel (Split.RoundTrip).
unfoldable pub split_loop : ℕ → List ℕ → ℕ → List (List ℕ)
split_loop fuel [] delim = []
split_loop zero (x ∷ xs) delim = []
split_loop (suc fuel) (x ∷ xs) delim =
    let p = find_char (x ∷ xs) delim in
    let rest = split_loop fuel (drop (p + 1) (x ∷ xs)) delim in
    take p (x ∷ xs) ∷ (if p == length (x ∷ xs) then [] else rest)

unfoldable pub split : List ℕ → ℕ → List (List ℕ)
split str delim = split_loop (length str) str delim

-- join
unfoldable pub join : List (List ℕ) → List ℕ → List ℕ
join [] delim = []
join (part ∷ []) delim = part
join (part ∷ next ∷ parts) delim = part ++ (delim ++ join (next ∷ parts) delim)
