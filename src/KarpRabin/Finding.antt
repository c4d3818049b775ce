-- ===== src/KarpRabin/Finding.antt =====
-- ase/gtcpp/karp_rabin.hpp: search, and the class matches, which finds one match after the other.
use ase.KarpRabin.{
  KarpRabin, FoundNeedle, found, not_found, endless, pow, stream_hash, stream_hash_diff, is_needle,
  bucket, find_needle,
}
use ase.Prelude.{
  ℕ, ◌+◌, Bool, Option, none, some, List, [], ◌∷◌, ◌++◌, ltb, leb, if◌then◌else◌, length, get_or,
  take,
}

unfoldable pub joined : {A : Type 0} → Option (List A) → Option (List A) → Option (List A)
joined none ys = none
joined (some xs) none = none
joined (some xs) (some ys) = some (xs ++ ys)

-- The calls of fobj at an offset, as search makes them with `search_dup`.
unfoldable pub calls : Bool → KarpRabin → ℕ → ℕ → List ℕ → List ℕ → List (ℕ × ℕ)
calls search_dup kr offset hv s [] = []
calls search_dup kr offset hv s (i ∷ ids) =
    let rest = calls search_dup kr offset hv s ids in
    if is_needle kr hv s i then (offset, i) ∷ (if search_dup then [] else rest) else rest

unfoldable pub calls_in :
    Bool → KarpRabin → ℕ → ℕ → List ℕ → Option (List ℕ) → Option (List (ℕ × ℕ))
calls_in search_dup kr offset hv s none = none
calls_in search_dup kr offset hv s (some ids) = some (calls search_dup kr offset hv s ids)

unfoldable pub calls_at : Bool → KarpRabin → ℕ → ℕ → List ℕ → Option (List (ℕ × ℕ))
calls_at search_dup kr offset hv s = calls_in search_dup kr offset hv s (bucket hv kr)

-- matches: the bytes of the haystack at cur_offset are `rest`.
pub record Matches : Type 0 where
  pub cur_offset : ℕ
  pub rest : List ℕ
  pub cur_hashval : ℕ
  pub cur_match_id : Option ℕ

unfoldable pub matched : ℕ → ℕ → List ℕ → FoundNeedle → Option Matches → Option Matches
matched offset hv s (found i) next =
    some (record { cur_offset = offset; rest = s; cur_hashval = hv; cur_match_id = some i })
matched offset hv s not_found next = next
matched offset hv s endless next = none

unfoldable pub no_match : ℕ → ℕ → List ℕ → Matches
no_match offset hv s = record {
  cur_offset = offset;
  rest = s;
  cur_hashval = hv;
  cur_match_id = none;
}

module _ (needle_len mul : ℕ) where
  unfoldable pub next_hash : ℕ → ℕ → List ℕ → ℕ
  next_hash hv s0 s = stream_hash_diff mul (pow mul needle_len) hv s0 (get_or (s0 ∷ s) needle_len 0)

  -- The loop of search, at the bytes of the haystack from `offset` on.
  unfoldable pub search_loop : Bool → KarpRabin → ℕ → ℕ → List ℕ → Option (List (ℕ × ℕ))
  search_loop search_dup kr offset hv [] = calls_at search_dup kr offset hv []
  search_loop search_dup kr offset hv (s0 ∷ s) =
      let later = search_loop search_dup kr (offset + 1) (next_hash hv s0 s) s in
      joined (calls_at search_dup kr offset hv (s0 ∷ s))
        (if leb (length (s0 ∷ s)) needle_len then some [] else later)

  unfoldable pub search : Bool → KarpRabin → List ℕ → Option (List (ℕ × ℕ))
  search search_dup kr haystack =
      if ltb (length haystack) needle_len
      then some []
      else search_loop search_dup kr 0 (stream_hash mul (take needle_len haystack)) haystack

  -- next_match: the loop that goes on with advance_offset.
  unfoldable pub next_match : KarpRabin → ℕ → ℕ → List ℕ → Option Matches
  next_match kr offset hv [] =
      matched offset hv [] (find_needle kr hv []) (some (no_match offset hv []))
  next_match kr offset hv (s0 ∷ s) =
      let later = next_match kr (offset + 1) (next_hash hv s0 s) s in
      matched offset hv (s0 ∷ s) (find_needle kr hv (s0 ∷ s))
        (if leb (length (s0 ∷ s)) needle_len then some (no_match offset hv (s0 ∷ s)) else later)

  unfoldable pub new_matches : KarpRabin → List ℕ → Option Matches
  new_matches kr haystack = next_match kr 0 (stream_hash mul (take needle_len haystack)) haystack

  -- operator ++
  unfoldable pub advance : KarpRabin → ℕ → ℕ → List ℕ → Option Matches
  advance kr offset hv [] = some (no_match offset hv [])
  advance kr offset hv (s0 ∷ s) =
      let later = next_match kr (offset + 1) (next_hash hv s0 s) s in
      if leb (length (s0 ∷ s)) needle_len then some (no_match offset hv (s0 ∷ s)) else later

  unfoldable pub next : KarpRabin → Matches → Option Matches
  next kr m = advance kr m.cur_offset m.cur_hashval m.rest
