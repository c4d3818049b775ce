-- ===== src/Split/RoundTrip.antt =====
-- ase/gtcpp/string_util.cpp: split and join undo each other.
use ase.Prelude.{
  ℕ, zero, suc, ◌+◌, ◌≤◌, ◌<◌, ◌≡◌, refl, sym, ap, ◌∙◌, inl, inr, false, List, [], ◌∷◌, ◌++◌,
  append-nil, append_assoc, arith, ltb, ◌==◌, if◌then◌else◌, ltb→lt, ==_iff, ==_self, Bool-cases,
  length, take, drop, length-drop,
}
use ase.Split.{find_char, split_loop, split, join}

-- The delimiter at the end of a text, which split drops.
unfoldable pub closing : List ℕ → ℕ → List ℕ
closing [] delim = []
closing (x ∷ []) delim = if x == delim then delim ∷ [] else []
closing (x ∷ y ∷ xs) delim = closing (y ∷ xs) delim

find_char-le : (xs : List ℕ) (c : ℕ) → find_char xs c ≤ length xs
unfolding find_char
find_char-le [] c = omega arith
find_char-le (x ∷ xs) c = ground (arith, find_char-le xs c)

-- The byte at the place that find_char gives.
found :
    (xs : List ℕ) (c : ℕ)
    → find_char xs c < length xs
    → xs ≡ take (find_char xs c) xs ++ c ∷ drop (find_char xs c + 1) xs
unfolding find_char
found [] c h = absurd (omega arith)
found (x ∷ xs) c h = elim (Bool-cases (x == c)) [
  | inl e ↦ rw e (ap (λ (n : ℕ). n ∷ xs) ((==_iff x c).0 e))
  | inr e ↦
      rw e
        let next : suc (find_char xs c) + 1 ≡ suc (find_char xs c + 1) = omega arith in
          rw next (ap (λ (t : List ℕ). x ∷ t) (found xs c (ground arith)))
]

take_all : (xs : List ℕ) → take (length xs) xs ≡ xs
take_all [] = refl
take_all (x ∷ xs) = ap (λ (t : List ℕ). x ∷ t) (take_all xs)

closing-none : (xs : List ℕ) (d : ℕ) → find_char xs d ≡ length xs → closing xs d ≡ []
unfolding closing find_char
closing-none [] d h = refl
closing-none (x ∷ []) d h = elim (Bool-cases (x == d)) [
  | inl e ↦ ground (arith, e)
  | inr e ↦ rw e refl
]
closing-none (x ∷ y ∷ xs) d h = closing-none (y ∷ xs) d (ground arith)

closing-last : (ys : List ℕ) (d : ℕ) → closing (ys ++ d ∷ []) d ≡ d ∷ []
unfolding closing
closing-last [] d = rw ==_self refl
closing-last (y ∷ []) d = closing-last [] d
closing-last (y ∷ z ∷ ys) d = closing-last (z ∷ ys) d

closing-more :
    (ys : List ℕ) (d z : ℕ) (zs : List ℕ) → closing (ys ++ d ∷ z ∷ zs) d ≡ closing (z ∷ zs) d
unfolding closing
closing-more [] d z zs = refl
closing-more (y ∷ []) d z zs = refl
closing-more (y ∷ y' ∷ ys) d z zs = closing-more (y' ∷ ys) d z zs

split_loop-last :
    (fuel x : ℕ) (xs : List ℕ) (d : ℕ)
    → find_char (x ∷ xs) d ≡ length (x ∷ xs)
    → split_loop (suc fuel) (x ∷ xs) d ≡ (x ∷ xs) ∷ []
unfolding split_loop
split_loop-last fuel x xs d h = rw (h, ==_self) (ap (λ (t : List ℕ). t ∷ []) (take_all (x ∷ xs)))

split_loop-more :
    (fuel x : ℕ) (xs : List ℕ) (d : ℕ)
    → find_char (x ∷ xs) d < length (x ∷ xs)
    → split_loop (suc fuel) (x ∷ xs) d
      ≡ take (find_char (x ∷ xs) d) (x ∷ xs)
        ∷ split_loop fuel (drop (find_char (x ∷ xs) d + 1) (x ∷ xs)) d
unfolding split_loop
split_loop-more fuel x xs d h =
    let differs : (find_char (x ∷ xs) d == length (x ∷ xs)) ≡ false = ground arith in
    rw differs refl

split_loop-cons :
    (fuel : ℕ) (x : ℕ) (xs : List ℕ) (d : ℕ)
    → (part : List ℕ) × (parts : List (List ℕ)) × (split_loop (suc fuel) (x ∷ xs) d ≡ part ∷ parts)
unfolding split_loop
split_loop-cons fuel x xs d = (_, _, refl)

join-last : (fuel : ℕ) (ys : List ℕ) (d : ℕ) → join (ys ∷ split_loop fuel [] d) (d ∷ []) ≡ ys
unfolding join split_loop
join-last fuel ys d = refl

join-more :
    (ys part : List ℕ) (parts : List (List ℕ)) (d : ℕ)
    → join (ys ∷ part ∷ parts) (d ∷ []) ≡ ys ++ d ∷ join (part ∷ parts) (d ∷ [])
unfolding join
join-more ys part parts d = refl

-- One part, the delimiter, and the parts of what follows.
joined :
    (fuel : ℕ) (ys zs : List ℕ) (d : ℕ)
    → length zs ≤ fuel
    → join (split_loop fuel zs d) (d ∷ []) ++ closing zs d ≡ zs
    → join (ys ∷ split_loop fuel zs d) (d ∷ []) ++ closing (ys ++ d ∷ zs) d ≡ ys ++ d ∷ zs
joined fuel ys [] d enough h = rw (join-last fuel ys d, closing-last ys d) refl
joined zero ys (z ∷ zs) d enough h = absurd (omega arith)
joined (suc fuel) ys (z ∷ zs) d enough h =
    let (part, parts, e) = split_loop-cons fuel z zs d in
    let inner : join (part ∷ parts) (d ∷ []) ++ closing (z ∷ zs) d ≡ z ∷ zs = rw (sym e) h in
    rw (e, join-more ys part parts d, closing-more ys d z zs)
      (append_assoc ys (d ∷ join (part ∷ parts) (d ∷ [])) (closing (z ∷ zs) d)
        ∙ ap (λ (t : List ℕ). ys ++ d ∷ t) inner)

joined_nothing : (fuel d : ℕ) → join (split_loop fuel [] d) (d ∷ []) ++ closing [] d ≡ []
unfolding join split_loop closing
joined_nothing fuel d = refl

join-one : (xs : List ℕ) (d : ℕ) → join (xs ∷ []) (d ∷ []) ≡ xs
unfolding join
join-one xs d = refl

split_loop-join :
    (fuel : ℕ) (xs : List ℕ) (d : ℕ)
    → length xs ≤ fuel
    → join (split_loop fuel xs d) (d ∷ []) ++ closing xs d ≡ xs
split_loop-join fuel [] d enough = joined_nothing fuel d
split_loop-join zero (x ∷ xs) d enough = absurd (omega arith)
split_loop-join (suc fuel) (x ∷ xs) d enough =
    elim (Bool-cases (ltb (find_char (x ∷ xs) d) (length (x ∷ xs)))) [
      | inl h ↦
          let p = find_char (x ∷ xs) d in
          let tail = drop (p + 1) (x ∷ xs) in
          let parted : x ∷ xs ≡ take p (x ∷ xs) ++ d ∷ tail = found (x ∷ xs) d (ltb→lt _ _ h) in
          let short : length tail ≤ fuel = omega (arith, length-drop (p + 1) (x ∷ xs), enough) in
          rw (split_loop-more fuel x xs d (ltb→lt _ _ h)) (
            ap
              (λ (t : List ℕ).
                join (take p (x ∷ xs) ∷ split_loop fuel tail d) (d ∷ []) ++ closing t d)
              parted
            ∙ joined fuel (take p (x ∷ xs)) tail d short (split_loop-join fuel tail d short)
            ∙ sym parted)
      | inr h ↦
          let all : find_char (x ∷ xs) d ≡ length (x ∷ xs) =
            ground (arith, find_char-le (x ∷ xs) d) in
          rw (split_loop-last fuel x xs d all, closing-none (x ∷ xs) d all)
            (rw (join-one (x ∷ xs) d) (append-nil (x ∷ xs)))
    ]

-- Joining the parts of a text with the delimiter gives the text back, but for one delimiter at its
-- very end.
pub join-split :
    (str : List ℕ) (delim : ℕ) → join (split str delim) (delim ∷ []) ++ closing str delim ≡ str
unfolding split
join-split str delim = split_loop-join (length str) str delim (omega arith)
