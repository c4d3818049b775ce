-- ===== src/BufferedFile/Lines.antt =====
-- ase/gtcpp/buffered_file.cpp: where the first line of some bytes ends, and find_lf.
use ase.BufferedFile.{shifted, find_crlf, find_lf, memchr_char}
use ase.Split.{find_char}
use ase.Prelude.{
  ℕ, zero, suc, ◌+◌, ◌-◌, ◌≤◌, ◌<◌, ◌≡◌, refl, sym, ap, ◌∙◌, inl, inr, Bool, true, false, ◌&&◌,
  ◌||◌, not, Option, none, some, List, [], ◌∷◌, ◌++◌, arith, ◌==◌, if◌then◌else◌, Bool-cases,
  length, get_or, take, drop, length-drop,
}

-- How many bytes the first line has with its line feed. For `crlf` a carriage return has to stand in
-- front of that; `cr` says whether one stands in front of the bytes.
unfoldable pub first_line : Bool → Bool → List ℕ → Option ℕ
first_line crlf cr [] = none
first_line crlf cr (x ∷ xs) =
    let rest = first_line crlf (x == 13) xs in
    if (x == 10) && (not crlf || cr) then some 1 else shifted 1 rest

-- Whether a carriage return stands at the end.
unfoldable pub ends_cr : Bool → List ℕ → Bool
ends_cr cr [] = cr
ends_cr cr (x ∷ xs) = ends_cr (x == 13) xs

pub shifted-shifted : (n m k : ℕ) (o : Option ℕ) → n + m ≡ k → shifted n (shifted m o) ≡ shifted k o
unfolding shifted
shifted-shifted n m k none h = refl
shifted-shifted n m k (some p) h = ap some (omega arith)

pub shifted_zero : (o : Option ℕ) → shifted 0 o ≡ o
unfolding shifted
shifted_zero none = refl
shifted_zero (some p) = ap some (omega arith)

pub shifted-some :
    (n : ℕ) (o : Option ℕ) (m : ℕ) → shifted n o ≡ some m → (p : ℕ) × (o ≡ some p) × (m ≡ n + p)
unfolding shifted
shifted-some n none m h = absurd (ground (arith, h))
shifted-some n (some p) m h = (p, refl, ground (arith, h))

pub shifted-none : (n : ℕ) (o : Option ℕ) → shifted n o ≡ none → o ≡ none
unfolding shifted
shifted-none n none h = refl
shifted-none n (some p) h = absurd (ground (arith, h))

-- A line feed that ends no line, or another byte, is passed.
pub first_line-pass :
    (crlf cr : Bool) (x : ℕ) (xs : List ℕ)
    → ((x == 10) && (not crlf || cr)) ≡ false
    → first_line crlf cr (x ∷ xs) ≡ shifted 1 (first_line crlf (x == 13) xs)
unfolding first_line
first_line-pass crlf cr x xs h = rw h refl

-- find_lf with memchr.
memchr_char-first_line :
    (cr : Bool) (xs : List ℕ) → shifted 1 (memchr_char xs 10) ≡ first_line false cr xs
unfolding memchr_char first_line find_char shifted
memchr_char-first_line cr [] = refl
memchr_char-first_line cr (x ∷ xs) =
    let rest = memchr_char-first_line (x == 13) xs in
    elim (Bool-cases (x == 10)) [ inl e ↦ ground (arith, e) | inr e ↦ ground (arith, e, rest) ]

first_line-absent :
    (cr : Bool) (xs : List ℕ) → find_char xs 10 ≡ length xs → first_line true cr xs ≡ none
unfolding first_line find_char shifted
first_line-absent cr [] h = refl
first_line-absent cr (x ∷ xs) h = elim (Bool-cases (x == 10)) [
  | inl e ↦ absurd (ground (arith, e, h))
  | inr e ↦ rw (e, first_line-absent (x == 13) xs (ground (arith, e, h))) refl
]

pub first_line-at :
    (cr : Bool) (xs : List ℕ) (q : ℕ)
    → find_char xs 10 ≡ q
    → q < length xs
    → first_line true cr xs ≡ (
        if ends_cr cr (take q xs)
        then some (q + 1)
        else shifted (q + 1) (first_line true false (drop (q + 1) xs)))
unfolding first_line find_char ends_cr shifted
first_line-at cr [] q e h = absurd (omega arith)
first_line-at cr (x ∷ xs) zero e h = ground (arith, e)
first_line-at cr (x ∷ xs) (suc q) e h = elim (Bool-cases (x == 10)) [
  | inl f ↦ absurd (ground (arith, e, f))
  | inr f ↦
      let rest = first_line-at (x == 13) xs q (ground (arith, e, f)) (omega arith) in
      let next : suc q + 1 ≡ suc (q + 1) = omega arith in
      rw (f, rest, next)
        (elim (Bool-cases (ends_cr (x == 13) (take q xs))) [
          | inl g ↦ rw g (ap some (omega arith))
          | inr g ↦ rw g (shifted-shifted 1 (q + 1) (suc (q + 1)) _ (omega arith))
        ])
]

ends_cr-take :
    (cr : Bool) (xs : List ℕ) (q : ℕ)
    → q < length xs
    → ends_cr cr (take (suc q) xs) ≡ (get_or xs q 0 == 13)
unfolding ends_cr
ends_cr-take cr [] q h = absurd (omega arith)
ends_cr-take cr (x ∷ xs) zero h = refl
ends_cr-take cr (x ∷ xs) (suc q) h = ends_cr-take (x == 13) xs q (omega arith)

ends_cr-get_or :
    (xs : List ℕ) (q : ℕ)
    → q ≤ length xs
    → ends_cr false (take q xs) ≡ (not (q == 0) && get_or xs (q - 1) 0 == 13)
unfolding ends_cr
ends_cr-get_or xs zero h = refl
ends_cr-get_or xs (suc q) h =
    let back : suc q - 1 ≡ q = omega arith in
    rw back (ends_cr-take false xs q (omega arith) ∙ ground arith)

find_char-le : (xs : List ℕ) (c : ℕ) → find_char xs c ≤ length xs
unfolding find_char
find_char-le [] c = omega arith
find_char-le (x ∷ xs) c = ground (arith, find_char-le xs c)

find_crlf-first_line :
    (fuel : ℕ) (xs : List ℕ)
    → length xs ≤ fuel
    → shifted 1 (find_crlf fuel xs) ≡ first_line true false xs
unfolding find_crlf first_line shifted
find_crlf-first_line zero [] h = refl
find_crlf-first_line zero (x ∷ xs) h = absurd (omega arith)
find_crlf-first_line (suc fuel) xs h =
    let q = find_char xs 10 in
    elim (Bool-cases (q == length xs)) [
      | inl e ↦ rw (e, first_line-absent false xs (ground (arith, e))) refl
      | inr e ↦
          let inside : q < length xs = ground (arith, find_char-le xs 10, e) in
          let at = first_line-at false xs q refl inside in
          let rest =
            find_crlf-first_line fuel (drop (q + 1) xs) (omega (arith, length-drop (q + 1) xs)) in
          rw (e, at, ends_cr-get_or xs q (omega arith), sym rest)
            (elim (Bool-cases (not (q == 0) && get_or xs (q - 1) 0 == 13)) [
              | inl f ↦ rw f (ap some (omega arith))
              | inr f ↦ rw f (
                  shifted-shifted 1 (q + 1) (q + 2) _ (omega arith)
                  ∙ sym (shifted-shifted (q + 1) 1 (q + 2) _ (omega arith)))
            ])
    ]

pub find_lf-first_line :
    (crlf : Bool) (xs : List ℕ) → shifted 1 (find_lf crlf xs) ≡ first_line crlf false xs
unfolding find_lf
find_lf-first_line true xs = find_crlf-first_line (length xs) xs (omega arith)
find_lf-first_line false xs = memchr_char-first_line false xs

-- What comes behind the bytes of a first line does not change it.
pub first_line-append :
    (crlf cr : Bool) (xs ys : List ℕ) (n : ℕ)
    → first_line crlf cr xs ≡ some n
    → first_line crlf cr (xs ++ ys) ≡ some n
unfolding first_line shifted
first_line-append crlf cr [] ys n h = absurd (ground (arith, h))
first_line-append crlf cr (x ∷ xs) ys n h = elim (Bool-cases ((x == 10) && (not crlf || cr))) [
  | inl e ↦ rw e (sym (rw e refl) ∙ h)
  | inr e ↦
      let pass = first_line-pass crlf cr x xs e in
      let (p, some_p, n_p) = shifted-some 1 _ n (sym pass ∙ h) in
      first_line-pass crlf cr x (xs ++ ys) e
      ∙ rw (first_line-append crlf (x == 13) xs ys p some_p, n_p) refl
]

-- Bytes in which no line ends are passed.
pub first_line-passed :
    (crlf cr : Bool) (xs ys : List ℕ)
    → first_line crlf cr xs ≡ none
    → first_line crlf cr (xs ++ ys) ≡ shifted (length xs) (first_line crlf (ends_cr cr xs) ys)
unfolding first_line ends_cr
first_line-passed crlf cr [] ys h = sym (shifted_zero _)
first_line-passed crlf cr (x ∷ xs) ys h = elim (Bool-cases ((x == 10) && (not crlf || cr))) [
  | inl e ↦ absurd (ground (arith, e, h))
  | inr e ↦
      let pass = first_line-pass crlf cr x xs e in
      let rest = first_line-passed crlf (x == 13) xs ys (shifted-none 1 _ (sym pass ∙ h)) in
      first_line-pass crlf cr x (xs ++ ys) e
      ∙ rw rest (shifted-shifted 1 (length xs) (suc (length xs)) _ (omega arith))
]

pub first_line-le :
    (crlf cr : Bool) (xs : List ℕ) (n : ℕ) → first_line crlf cr xs ≡ some n → n ≤ length xs
unfolding first_line
first_line-le crlf cr [] n h = absurd (ground (arith, h))
first_line-le crlf cr (x ∷ xs) n h = elim (Bool-cases ((x == 10) && (not crlf || cr))) [
  | inl e ↦ ground (arith, e, h)
  | inr e ↦
      let (p, some_p, n_p) = shifted-some 1 _ n (sym (first_line-pass crlf cr x xs e) ∙ h) in
      omega (arith, first_line-le crlf (x == 13) xs p some_p, n_p)
]

-- A line ends with its line feed, no carriage return.
pub first_line-ends :
    (crlf cr c : Bool) (xs : List ℕ) (n : ℕ)
    → first_line crlf cr xs ≡ some n
    → ends_cr c (take n xs) ≡ false
unfolding first_line ends_cr
first_line-ends crlf cr c [] n h = absurd (ground (arith, h))
first_line-ends crlf cr c (x ∷ xs) n h = elim (Bool-cases ((x == 10) && (not crlf || cr))) [
  | inl e ↦
      let one : n ≡ 1 = ground (arith, e, h) in
      let feed : (x == 13) ≡ false = ground (arith, e) in rw one feed
  | inr e ↦
      let (p, some_p, n_p) = shifted-some 1 _ n (sym (first_line-pass crlf cr x xs e) ∙ h) in
      let next : n ≡ suc p = omega (arith, n_p) in
      rw next (first_line-ends crlf (x == 13) (x == 13) xs p some_p)
]

pub ends_cr-append : (c : Bool) (xs ys : List ℕ) → ends_cr c (xs ++ ys) ≡ ends_cr (ends_cr c xs) ys
unfolding ends_cr
ends_cr-append c [] ys = refl
ends_cr-append c (x ∷ xs) ys = ends_cr-append (x == 13) xs ys

-- Without `crlf` it does not matter what stands in front.
pub first_line-lf : (c d : Bool) (xs : List ℕ) → first_line false c xs ≡ first_line false d xs
unfolding first_line
first_line-lf c d [] = refl
first_line-lf c d (x ∷ xs) = refl

last_view :
    (c : Bool) (n : ℕ) (xs : List ℕ)
    → length xs ≡ suc n
    → (z : ℕ) × (drop n xs ≡ z ∷ []) × (ends_cr c xs ≡ (z == 13))
unfolding ends_cr
last_view c n [] h = absurd (omega arith)
last_view c zero (x ∷ []) h = (x, refl, refl)
last_view c zero (x ∷ y ∷ xs) h = absurd (omega arith)
last_view c (suc n) (x ∷ xs) h = last_view (x == 13) n xs (omega arith)

-- A search from the last byte on finds what one that has passed that byte does.
pub first_line-last :
    (n : ℕ) (xs ys : List ℕ)
    → length xs ≡ suc n
    → first_line true false (drop n xs ++ ys) ≡ shifted 1 (first_line true (ends_cr false xs) ys)
first_line-last n xs ys h =
    let (z, last, cr) = last_view false n xs h in
    rw (last, cr) (first_line-pass true false z ys (ground arith))

pub first_line-pos : (crlf cr : Bool) (xs : List ℕ) (n : ℕ) → first_line crlf cr xs ≡ some n → 0 < n
unfolding first_line
first_line-pos crlf cr [] n h = absurd (ground (arith, h))
first_line-pos crlf cr (x ∷ xs) n h = elim (Bool-cases ((x == 10) && (not crlf || cr))) [
  | inl e ↦ ground (arith, e, h)
  | inr e ↦
      let (p, some_p, n_p) = shifted-some 1 _ n (sym (first_line-pass crlf cr x xs e) ∙ h) in
      omega (arith, n_p)
]
