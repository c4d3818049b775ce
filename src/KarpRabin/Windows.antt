-- ===== src/KarpRabin/Windows.antt =====
-- ase/gtcpp/karp_rabin.hpp: the searches against one that hashes each window anew.
use ase.KarpRabin.{KarpRabin, pow, stream_hash, stream_hash_diff, find_needle}
use ase.KarpRabin.Hash.{take-snoc, stream_hash_diff-stream_hash}
use ase.KarpRabin.Finding.{
  joined, calls_at, Matches, matched, no_match, next_hash, search_loop, search, next_match,
  new_matches,
}
use ase.Prelude.{
  ℕ, suc, ◌+◌, ◌≤◌, ◌≡◌, refl, sym, ap, ◌∙◌, inl, inr, Bool, false, Option, some, List, [], ◌∷◌,
  arith, ltb, leb, if◌then◌else◌, Bool-cases, length, get_or, take, length-take,
}

-- The hash that the loops go on with is that of the window there.
next_hash-window :
    (k mul s0 : ℕ) (s : List ℕ)
    → suc k ≤ length s
    → next_hash (suc k) mul (stream_hash mul (take (suc k) (s0 ∷ s))) s0 s
      ≡ stream_hash mul (take (suc k) s)
unfolding next_hash
next_hash-window k mul s0 s h =
    let size : length (s0 ∷ take k s) ≡ suc k = omega (arith, length-take k s, h) in
    let roll = stream_hash_diff-stream_hash mul s0 (get_or s k 0) (take k s) in
    ap (λ n. stream_hash_diff mul (pow mul n) (stream_hash mul (s0 ∷ take k s)) s0 (get_or s k 0))
      (sym size)
    ∙ roll
    ∙ ap (λ (t : List ℕ). stream_hash mul t) (sym (take-snoc k s h))

module _ (needle_len mul : ℕ) where
  -- The search that hashes each window anew.
  unfoldable pub window_hash : List ℕ → ℕ
  window_hash s = stream_hash mul (take needle_len s)

  unfoldable pub windows : Bool → KarpRabin → ℕ → List ℕ → Option (List (ℕ × ℕ))
  windows search_dup kr offset [] = calls_at search_dup kr offset (window_hash []) []
  windows search_dup kr offset (s0 ∷ s) =
      let later = windows search_dup kr (offset + 1) s in
      joined (calls_at search_dup kr offset (window_hash (s0 ∷ s)) (s0 ∷ s))
        (if leb (length (s0 ∷ s)) needle_len then some [] else later)

  unfoldable pub next_window : KarpRabin → ℕ → List ℕ → Option Matches
  next_window kr offset [] =
      matched offset (window_hash []) [] (find_needle kr (window_hash []) [])
        (some (no_match offset (window_hash []) []))
  next_window kr offset (s0 ∷ s) =
      let later = next_window kr (offset + 1) s in
      let hv = window_hash (s0 ∷ s) in
      matched offset hv (s0 ∷ s) (find_needle kr hv (s0 ∷ s))
        (if leb (length (s0 ∷ s)) needle_len then some (no_match offset hv (s0 ∷ s)) else later)

search_loop-windows :
    (k mul : ℕ) (search_dup : Bool) (kr : KarpRabin) (offset : ℕ) (s : List ℕ)
    → search_loop (suc k) mul search_dup kr offset (window_hash (suc k) mul s) s
      ≡ windows (suc k) mul search_dup kr offset s
unfolding search_loop windows window_hash
search_loop-windows k mul search_dup kr offset [] = refl
search_loop-windows k mul search_dup kr offset (s0 ∷ s) =
    elim (Bool-cases (leb (length (s0 ∷ s)) (suc k))) [
      | inl e ↦ rw e refl
      | inr e ↦
          let more : suc k ≤ length s = ground (arith, e) in
          rw
            (
              e,
              next_hash-window k mul s0 s more,
              search_loop-windows k mul search_dup kr (offset + 1) s,
            )
            refl
    ]

next_match-windows :
    (k mul : ℕ) (kr : KarpRabin) (offset : ℕ) (s : List ℕ)
    → next_match (suc k) mul kr offset (window_hash (suc k) mul s) s
      ≡ next_window (suc k) mul kr offset s
unfolding next_match next_window window_hash
next_match-windows k mul kr offset [] = refl
next_match-windows k mul kr offset (s0 ∷ s) = elim (Bool-cases (leb (length (s0 ∷ s)) (suc k))) [
  | inl e ↦ rw e refl
  | inr e ↦
      let more : suc k ≤ length s = ground (arith, e) in
      rw (e, next_hash-window k mul s0 s more, next_match-windows k mul kr (offset + 1) s) refl
]

-- For needles of at least one byte, search and the iterator over matches find, with their rolling hash,
-- what a search finds that hashes each window of the haystack anew.
pub search-windows :
    (k mul : ℕ) (kr : KarpRabin) (haystack : List ℕ)
    → suc k ≤ length haystack
    → ((search_dup : Bool)
        → search (suc k) mul search_dup kr haystack ≡ windows (suc k) mul search_dup kr 0 haystack)
      × (new_matches (suc k) mul kr haystack ≡ next_window (suc k) mul kr 0 haystack)
unfolding search new_matches window_hash
search-windows k mul kr haystack h = (
  λ search_dup.
      let room : ltb (length haystack) (suc k) ≡ false = ground (arith, h) in
      rw room (search_loop-windows k mul search_dup kr 0 haystack),
  next_match-windows k mul kr 0 haystack,
)
