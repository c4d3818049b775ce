-- ===== src/KarpRabin/Naive.antt =====
-- ase/gtcpp/karp_rabin.hpp: a search for the needles that the constructor is given, against one that
-- compares every needle at every place.
use ase.KarpRabin.{KarpRabin, FoundNeedle, found, not_found}
use ase.KarpRabin.Finding.{Matches, matched, no_match}
use ase.KarpRabin.Prevs.{total}
use ase.KarpRabin.Buckets.{IsLinked}
use ase.KarpRabin.Windows.{window_hash}
use ase.Search.{starts}
use ase.Prelude.{
  ℕ, zero, suc, ◌+◌, ◌-◌, ◌^◌, ◌≤◌, ◌≡◌, refl, Option, none, some, List, [], ◌∷◌, arith, leb,
  if◌then◌else◌, length, get_or, replicate, length-replicate,
}

-- The last of the needles `strarr`, from the id `i` on, that the bytes begin with, or `before`.
unfoldable pub last_needle : ℕ → List (List ℕ) → List ℕ → FoundNeedle → FoundNeedle
last_needle i [] s before = before
last_needle i (str ∷ strarr) s before =
    last_needle (suc i) strarr s (if starts str s then found i else before)

-- The first place of the haystack where a needle stands.
unfoldable pub naive_matches : ℕ → ℕ → List (List ℕ) → ℕ → List ℕ → Option Matches
naive_matches needle_len mul strarr offset [] =
    some (no_match offset (window_hash needle_len mul []) [])
naive_matches needle_len mul strarr offset (s0 ∷ s) =
    let later = naive_matches needle_len mul strarr (offset + 1) s in
    let hv = window_hash needle_len mul (s0 ∷ s) in
    matched offset hv (s0 ∷ s) (last_needle 0 strarr (s0 ∷ s) not_found)
      (if leb (length (s0 ∷ s)) needle_len then some (no_match offset hv (s0 ∷ s)) else later)

get_or-replicate : (n b : ℕ) → get_or (replicate {A = Option ℕ} n none) b none ≡ none
get_or-replicate zero b = refl
get_or-replicate (suc n) zero = refl
get_or-replicate (suc n) (suc b) = get_or-replicate n b

total-none : (n : ℕ) → total n (λ b. []) + 0 ≤ 0
unfolding total
total-none zero = omega arith
total-none (suc n) = omega (arith, total-none n)

-- The empty automaton.
abbrev pub empty_of : ℕ → KarpRabin
empty_of bits = record {
  hash_table_size_mask = 2 ^ bits - 1;
  table = replicate (2 ^ bits) none;
  needlearr = [];
  needle_freelist = none;
}

pub empty_of-IsLinked : (bits : ℕ) → IsLinked (empty_of bits)
empty_of-IsLinked bits = record {
  bits = bits;
  mask = refl;
  size = length-replicate (2 ^ bits) none;
  ids = λ b. [];
  free = [];
  chained = λ b. get_or-replicate (2 ^ bits) b;
  freed = refl;
  distinct = tt;
  apart = λ b. tt;
  prevs = λ b. tt;
  unique = λ b. tt;
  placed = λ b. tt;
  counted = total-none (2 ^ bits);
}
