-- ===== src/KarpRabin/Runs.antt =====
-- ase/gtcpp/karp_rabin.hpp: runs with needles of two bytes.
use ase.KarpRabin.{
  KarpRabin, found, pow, stream_hash, stream_hash_diff, find_needle, insert_needle, needle_at,
  entpos, first_needle, unregister_needle,
}
use ase.KarpRabin.Finding.{search, new_matches}
use ase.KarpRabin.Hash.{stream_hash_diff-stream_hash}
use ase.KarpRabin.Windows.{windows, next_window, search-windows}
use ase.KarpRabin.Buckets.{IsLinked, Distinct}
use ase.KarpRabin.Register.{insert_needle-find_needle}
use ase.KarpRabin.Chains.{Chain, Apart}
use ase.KarpRabin.Prevs.{Prevs, total}
use ase.KarpRabin.Unlink.{lists, without}
use ase.KarpRabin.Unregister.{unregister_needle-find_needle}
use ase.KarpRabin.Naive.{empty_of, empty_of-IsLinked}
use ase.Search.{starts}
use ase.Prelude.{
  ℕ, zero, suc, ◌≡◌, refl, Bool, ◌&&◌, none, some, List, [], ◌∷◌, arith, ◌==◌, if◌then◌else◌,
  get_or, All,
}

stream_hash_diff-stream_hash_example :
    stream_hash_diff 101 (pow 101 2) (stream_hash 101 (97 ∷ 98 ∷ [])) 97 99
    ≡ stream_hash 101 (98 ∷ 99 ∷ [])
stream_hash_diff-stream_hash_example = stream_hash_diff-stream_hash 101 97 99 (98 ∷ [])

-- "abc"
abbrev haystack : List ℕ
haystack = 97 ∷ 98 ∷ 99 ∷ []

search-windows_example :
    ((search_dup : Bool)
      → search 2 101 search_dup (empty_of 1) haystack
        ≡ windows 2 101 search_dup (empty_of 1) 0 haystack)
    × (new_matches 2 101 (empty_of 1) haystack ≡ next_window 2 101 (empty_of 1) 0 haystack)
search-windows_example = search-windows 1 101 (empty_of 1) haystack (omega arith)

insert_needle-find_needle_example :
    IsLinked ((insert_needle 7 (97 ∷ 98 ∷ []) (empty_of 1)).1)
    × ((hv : ℕ) (s : List ℕ)
        → find_needle ((insert_needle 7 (97 ∷ 98 ∷ []) (empty_of 1)).1) hv s ≡ (
            if (7 == hv) && starts (97 ∷ 98 ∷ []) s
            then found ((insert_needle 7 (97 ∷ 98 ∷ []) (empty_of 1)).0)
            else find_needle (empty_of 1) hv s))
insert_needle-find_needle_example =
    insert_needle-find_needle (empty_of 1) 7 (97 ∷ 98 ∷ []) (empty_of-IsLinked 1)

-- The needles "bc" and "ab".
abbrev needles : List (List ℕ)
needles = (98 ∷ 99 ∷ []) ∷ (97 ∷ 98 ∷ []) ∷ []

-- Two needles in one bucket.
abbrev pair : KarpRabin
pair = record {
  hash_table_size_mask = 0;
  table = some 0 ∷ [];
  needlearr =
      record { next = some 1; prev = none; hashval = 7; buffer = 97 ∷ 98 ∷ [] }
      ∷ record { next = none; prev = some 0; hashval = 9; buffer = 99 ∷ 100 ∷ [] }
      ∷ [];
  needle_freelist = none;
}

abbrev pair_ids : ℕ → List ℕ
pair_ids zero = 0 ∷ 1 ∷ []
pair_ids (suc b) = []

pair-Chain : (b : ℕ) → Chain pair.needlearr (get_or pair.table b none) (pair_ids b)
unfolding needle_at
pair-Chain zero = (refl, omega arith, (refl, omega arith, refl))
pair-Chain (suc b) = refl

pair-Prevs : (b : ℕ) → Prevs pair.needlearr none (pair_ids b)
unfolding needle_at
pair-Prevs zero = (refl, (refl, tt))
pair-Prevs (suc b) = tt

pair-Apart : (b : ℕ) → All (λ i. Apart i []) (pair_ids b)
pair-Apart zero = (tt, (tt, tt))
pair-Apart (suc b) = tt

pair_unique : (b : ℕ) → Distinct (pair_ids b)
pair_unique zero = ((refl, tt), (tt, tt))
pair_unique (suc b) = tt

pair_placed :
    (b : ℕ) → All (λ i. entpos ((needle_at pair.needlearr i).hashval) pair ≡ b) (pair_ids b)
unfolding needle_at entpos
pair_placed zero = (refl, (refl, tt))
pair_placed (suc b) = tt

pair-IsLinked : IsLinked pair
unfolding needle_at entpos total
pair-IsLinked = record {
  bits = 0;
  mask = refl;
  size = refl;
  ids = pair_ids;
  free = [];
  chained = pair-Chain;
  freed = refl;
  distinct = tt;
  apart = pair-Apart;
  prevs = pair-Prevs;
  unique = pair_unique;
  placed = pair_placed;
  counted = omega arith;
}

unregister_needle-find_needle_example :
    IsLinked (unregister_needle 1 pair)
    × ((hv : ℕ) (s : List ℕ)
        → (find_needle pair hv s ≡ first_needle pair hv s (pair_ids (entpos hv pair)))
          × (find_needle (unregister_needle 1 pair) hv s
              ≡ first_needle pair hv s (without 1 (pair_ids (entpos hv pair)))))
unfolding pair-IsLinked needle_at entpos lists
unregister_needle-find_needle_example = unregister_needle-find_needle pair pair-IsLinked 1 refl
