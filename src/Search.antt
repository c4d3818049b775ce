-- ===== src/Search.antt =====
-- ase/gtcpp/string_util.cpp and horspool.cpp: the search for a text in another. A pointer into the
-- haystack is its offset, and the null pointer `none`.
pub mod Table
pub mod Horspool
mod Runs
use ase.Prelude.{
  ℕ, zero, suc, ◌+◌, ◌-◌, ◌*◌, ◌/◌, ◌%◌, ◌^◌, ◌≤◌, ◌<◌, min, ◌≡◌, refl, sym, ap, ◌∙◌, ◌≢◌, ◌↔◌, ◌⊎◌,
  inl, inr, Bool, true, false, ◌&&◌, ◌||◌, not, Option, none, some, List, [], ◌∷◌, ◌++◌, map,
  append-nil, append_assoc, arith, bit_and, bit_or, ltb, leb, ◌==◌, if◌then◌else◌, ltb→lt, lt→ltb,
  leb→le, le→leb, ==_iff, ==_self, tests, Bool-cases, Option-cases, length, get_or, get_elem?, set,
  take, drop, replicate, All, length-append, length-take, length-drop, length-replicate, length-set,
  take-append-drop, take-append, drop-append, All-append,
}

-- `memcmp(haystack, needle, needle_len) == 0`
unfoldable pub starts : List ℕ → List ℕ → Bool
starts [] haystack = true
starts (n ∷ needle) [] = false
starts (n ∷ needle) (h ∷ haystack) = (n == h) && starts needle haystack

unfoldable pub moved : ℕ → Option ℕ → Option ℕ
moved n none = none
moved n (some i) = some (n + i)

-- search_mem
unfoldable pub search_mem : List ℕ → List ℕ → Option ℕ
search_mem needle [] = if length needle == 0 then some 0 else none
search_mem needle (h ∷ haystack) =
    let rest = search_mem needle haystack in
    if leb (length needle) (length (h ∷ haystack))
    then (if starts needle (h ∷ haystack) then some 0 else moved 1 rest)
    else none

-- The loop of horspool_create_shift that goes over the needle but for its last byte: `i` is the
-- index of the first byte of `bytes`.
unfoldable pub shift_loop : ℕ → ℕ → List ℕ → List ℕ → List ℕ
shift_loop last i [] shift = shift
shift_loop last i (c ∷ bytes) shift =
    let shift' = set shift c (last - i) in
    elim (ltb i last) [ true ↦ shift_loop last (i + 1) bytes shift' | false ↦ shift ]

-- horspool_create_shift, at a needle of at least one byte: the source reads behind an empty one.
unfoldable pub create_shift : List ℕ → List ℕ
create_shift needle = shift_loop (length needle - 1) 0 needle (replicate 256 (length needle))

-- The loop of horspool_search; a shift is at least 1, so the length of the haystack, plus one, is
-- enough fuel (Search.Horspool).
unfoldable pub horspool_loop : ℕ → List ℕ → List ℕ → List ℕ → Option ℕ
horspool_loop zero needle shift haystack = none
horspool_loop (suc fuel) needle shift haystack =
    let last = length needle - 1 in
    let haystack_last = get_or haystack last 0 in
    let s = get_or shift haystack_last 0 in
    let rest = horspool_loop fuel needle shift (drop s haystack) in
    if leb (length needle) (length haystack)
    then (if (get_or needle last 0 == haystack_last) && starts (take last needle) haystack
        then some 0
        else moved s rest)
    else none

-- horspool_search
unfoldable pub horspool_search : List ℕ → List ℕ → Option ℕ
horspool_search needle haystack =
    horspool_loop (suc (length haystack)) needle (create_shift needle) haystack
