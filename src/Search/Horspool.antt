-- ===== src/Search/Horspool.antt =====
-- ase/gtcpp/horspool.cpp: the search with shifts finds what the plain search finds.
use ase.Prelude.{
  ℕ, zero, suc, ◌+◌, ◌-◌, ◌≤◌, ◌<◌, ◌≡◌, refl, sym, ap, ◌∙◌, inl, inr, true, false, ◌&&◌, Option,
  none, some, List, [], ◌∷◌, arith, leb, ◌==◌, if◌then◌else◌, leb→le, Bool-cases, length, get_or,
  take, drop, All, length-drop,
}
use ase.Search.{starts, moved, search_mem, create_shift, horspool_loop, horspool_search}
use ase.Search.Table.{create_shift_bounds}

-- Where the needle stands, the haystack has its bytes.
starts-get_or :
    (needle haystack : List ℕ) (i : ℕ)
    → starts needle haystack ≡ true
    → i < length needle
    → get_or needle i 0 ≡ get_or haystack i 0
unfolding starts
starts-get_or [] haystack i e h = absurd (omega arith)
starts-get_or (n ∷ needle) [] i e h = ground arith
starts-get_or (n ∷ needle) (x ∷ haystack) zero e h = ground arith
starts-get_or (n ∷ needle) (x ∷ haystack) (suc i) e h =
    starts-get_or needle haystack i (ground arith) (omega arith)

get_or-drop : (j : ℕ) (xs : List ℕ) (i : ℕ) → get_or (drop j xs) i 0 ≡ get_or xs (j + i) 0
get_or-drop zero xs i = let same : 0 + i ≡ i = omega arith in rw same refl
get_or-drop (suc j) [] i = refl
get_or-drop (suc j) (x ∷ xs) i =
    let shifted : suc j + i ≡ suc (j + i) = omega arith in rw shifted (get_or-drop j xs i)

get_or-Byte : (xs : List ℕ) (i : ℕ) → All (λ b. b < 256) xs → get_or xs i 0 < 256
get_or-Byte [] i all = omega arith
get_or-Byte (x ∷ xs) zero all = all.0
get_or-Byte (x ∷ xs) (suc i) all = get_or-Byte xs i all.1

moved_zero : (o : Option ℕ) → moved 0 o ≡ o
unfolding moved
moved_zero none = refl
moved_zero (some i) = ap some (omega arith)

moved-none : (n : ℕ) (o : Option ℕ) → o ≡ none → moved n o ≡ none
unfolding moved
moved-none n o e = rw e refl

moved-moved : (n : ℕ) (o : Option ℕ) → moved 1 (moved n o) ≡ moved (suc n) o
unfolding moved
moved-moved n none = refl
moved-moved n (some i) = ap some (omega arith)

search_mem-short :
    (needle hay : List ℕ) → leb (length needle) (length hay) ≡ false → search_mem needle hay ≡ none
unfolding search_mem
search_mem-short needle [] h = ground arith
search_mem-short needle (x ∷ hay) h = rw (h, search_mem) refl

search_mem-here :
    (needle hay : List ℕ)
    → leb (length needle) (length hay) ≡ true
    → starts needle hay ≡ true
    → search_mem needle hay ≡ some 0
unfolding search_mem starts
search_mem-here [] [] h e = refl
search_mem-here (n ∷ needle) [] h e = ground arith
search_mem-here needle (x ∷ hay) h e = rw (h, e, search_mem) refl

search_mem-next :
    (needle : List ℕ) (x : ℕ) (hay : List ℕ)
    → leb (length needle) (length (x ∷ hay)) ≡ true
    → starts needle (x ∷ hay) ≡ false
    → search_mem needle (x ∷ hay) ≡ moved 1 (search_mem needle hay)
unfolding search_mem
search_mem-next needle x hay h e = rw (h, e, search_mem) refl

-- The plain search may leave out places where the needle does not stand.
search_mem-skip :
    (needle : List ℕ) (s : ℕ) (hay : List ℕ)
    → 1 ≤ length needle
    → ((j : ℕ) → j < s → j + length needle ≤ length hay → starts needle (drop j hay) ≡ false)
    → s ≤ length hay
    → search_mem needle hay ≡ moved s (search_mem needle (drop s hay))
search_mem-skip needle zero hay positive none_here within = sym (moved_zero (search_mem needle hay))
search_mem-skip needle (suc s) [] positive none_here within = absurd (omega arith)
search_mem-skip needle (suc s) (x ∷ hay) positive none_here within =
    let ih =
      search_mem-skip needle s hay positive
        (λ j h k. none_here (suc j) (omega (arith, h)) (omega (arith, k))) (omega arith) in
    elim (Bool-cases (leb (length needle) (length (x ∷ hay)))) [
      | inl fits ↦
          rw
            (
              search_mem-next needle x hay fits (none_here 0 (omega arith) (ground (arith, fits))),
              ih,
            )
            (moved-moved s (search_mem needle (drop s hay)))
      | inr short ↦ rw (search_mem-short needle (x ∷ hay) short) (
          sym (
            moved-none (suc s) _
              (search_mem-short needle (drop s hay) (ground (arith, short, length-drop s hay)))))
    ]

module _ (needle hay : List ℕ) (bytes : All (λ b. b < 256) needle)
    (hay_bytes : All (λ b. b < 256) hay) (some_byte : 1 ≤ length needle)
    (fits : length needle ≤ length hay) where
  abbrev step_size : ℕ
  step_size = get_or (create_shift needle) (get_or hay (length needle - 1) 0) 0

  -- The needle stands at none of the places that a shift passes over but the first.
  not_passed : (j : ℕ) → 1 ≤ j → j < step_size → starts needle (drop j hay) ≡ false
  not_passed j positive below = elim (Bool-cases (starts needle (drop j hay))) [
    | inr h ↦ h
    | inl h ↦
        let last = length needle - 1 in
        let c = get_or hay last 0 in
        let (_, small, bound) =
          create_shift_bounds needle c bytes some_byte (get_or-Byte hay last hay_bytes) in
        let same = starts-get_or needle (drop j hay) (last - j) h (omega (arith, some_byte)) in
        let place : j + (last - j) ≡ last = omega (arith, below, small, positive, some_byte) in
        let e : get_or needle (last - j) 0 ≡ c =
          same ∙ get_or-drop j hay (last - j) ∙ ap (λ (n : ℕ). get_or hay n 0) place in
        absurd (
          omega (
            arith,
            bound (last - j) (omega (arith, below, small, positive, some_byte)) e,
            below,
            small,
            positive,
          ))
  ]

  passed_over :
      starts needle hay ≡ false
      → (j : ℕ) → j < step_size
      → j + length needle ≤ length hay
      → starts needle (drop j hay) ≡ false
  passed_over here zero below within = here
  passed_over here (suc j) below within = not_passed (suc j) (omega arith) below

-- The last byte and the bytes in front of it.
starts-last :
    (needle hay : List ℕ) (last : ℕ)
    → length needle ≡ suc last
    → length needle ≤ length hay
    → ((get_or needle last 0 == get_or hay last 0) && starts (take last needle) hay)
      ≡ starts needle hay
unfolding starts
starts-last [] hay last size h = absurd (omega (arith, size))
starts-last (n ∷ needle) [] last size h = absurd (omega arith)
starts-last (n ∷ []) (x ∷ hay) zero size h = refl
starts-last (n ∷ []) (x ∷ hay) (suc last) size h = absurd (omega (arith, size))
starts-last (n ∷ m ∷ needle) (x ∷ hay) zero size h = absurd (omega (arith, size))
starts-last (n ∷ m ∷ needle) (x ∷ hay) (suc last) size h =
    ground (arith, starts-last (m ∷ needle) hay last (omega (arith, size)) (omega (arith, h)))

loop_short :
    (fuel : ℕ) (needle shift hay : List ℕ)
    → leb (length needle) (length hay) ≡ false
    → horspool_loop (suc fuel) needle shift hay ≡ none
unfolding horspool_loop
loop_short fuel needle shift hay h = rw (h, horspool_loop) refl

loop_fits :
    (fuel : ℕ) (needle shift hay : List ℕ)
    → leb (length needle) (length hay) ≡ true
    → 1 ≤ length needle
    → horspool_loop (suc fuel) needle shift hay ≡ (
        if starts needle hay
        then some 0
        else moved (get_or shift (get_or hay (length needle - 1) 0) 0) (
            horspool_loop fuel needle shift
              (drop (get_or shift (get_or hay (length needle - 1) 0) 0) hay)))
unfolding horspool_loop
loop_fits fuel needle shift hay h some_byte =
    rw (h, starts-last needle hay (length needle - 1) (omega (arith, some_byte)) (leb→le _ _ h))
      refl

drop-Byte : (n : ℕ) (xs : List ℕ) → All (λ b. b < 256) xs → All (λ b. b < 256) (drop n xs)
drop-Byte zero xs all = all
drop-Byte (suc n) [] all = all
drop-Byte (suc n) (x ∷ xs) all = drop-Byte n xs all.1

horspool_loop-search_mem :
    (fuel : ℕ) (needle hay : List ℕ)
    → All (λ b. b < 256) needle
    → All (λ b. b < 256) hay
    → 1 ≤ length needle
    → length hay < fuel
    → horspool_loop fuel needle (create_shift needle) hay ≡ search_mem needle hay
horspool_loop-search_mem zero needle hay bytes hay_bytes some_byte enough = absurd (omega arith)
horspool_loop-search_mem (suc fuel) needle hay bytes hay_bytes some_byte enough =
    elim (Bool-cases (leb (length needle) (length hay))) [
      | inr short ↦
          rw (loop_short fuel needle (create_shift needle) hay short)
            (sym (search_mem-short needle hay short))
      | inl fits ↦ elim (Bool-cases (starts needle hay)) [
        | inl here ↦
            rw (loop_fits fuel needle (create_shift needle) hay fits some_byte, here)
              (sym (search_mem-here needle hay fits here))
        | inr elsewhere ↦
            let le = leb→le (length needle) (length hay) fits in
            let s = get_or (create_shift needle) (get_or hay (length needle - 1) 0) 0 in
            let (steps, small, _) =
              create_shift_bounds needle (get_or hay (length needle - 1) 0) bytes some_byte
                (get_or-Byte hay (length needle - 1) hay_bytes) in
            let later =
              horspool_loop-search_mem fuel needle (drop s hay) bytes (drop-Byte s hay hay_bytes)
                some_byte (omega (arith, length-drop s hay, steps, small, le, enough)) in
            let skipped =
              search_mem-skip needle s hay some_byte
                (passed_over needle hay bytes hay_bytes some_byte le elsewhere)
                (omega (arith, small, le)) in
            rw (loop_fits fuel needle (create_shift needle) hay fits some_byte, elsewhere)
              (ap (moved s) later ∙ sym skipped)
      ]
    ]

-- The search with shifts finds the first place at which the needle stands, as the plain search does,
-- for a needle of at least one byte; the length of the haystack, plus one, is enough fuel.
pub horspool_search-search_mem :
    (needle haystack : List ℕ)
    → All (λ b. b < 256) needle
    → All (λ b. b < 256) haystack
    → 1 ≤ length needle
    → horspool_search needle haystack ≡ search_mem needle haystack
unfolding horspool_search
horspool_search-search_mem needle haystack bytes hay_bytes some_byte =
    horspool_loop-search_mem (suc (length haystack)) needle haystack bytes hay_bytes some_byte
      (omega arith)
