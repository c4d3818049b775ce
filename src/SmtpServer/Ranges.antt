-- ===== src/SmtpServer/Ranges.antt =====
-- ase/gtcpp/smtp_server.cpp: the ranges that the callbacks get.
use ase.SmtpServer.{
  Range, find_mailaddr, find_domainname, range_at, closing_bracket, skip_spaces, before_breaks,
}
use ase.Split.{find_char}
use ase.Prelude.{
  ℕ, zero, suc, ◌+◌, ◌≤◌, ◌<◌, ◌≡◌, refl, sym, ap, ◌∙◌, ◌⊎◌, inl, inr, false, Option, none, some,
  List, [], ◌∷◌, ◌++◌, arith, ◌==◌, ==_self, Bool-cases, length, get_or, drop, length-append,
  length-drop, drop_plus, drop-append,
}

closing_bracket-lt : (addr : List ℕ) (n k : ℕ) → closing_bracket addr n ≡ some k → k < n
unfolding closing_bracket
closing_bracket-lt addr zero k h = absurd (ground (arith, h))
closing_bracket-lt addr (suc n) k h = elim (Bool-cases (get_or addr n 0 == 62)) [
  | inl e ↦ ground (arith, e, h)
  | inr e ↦
      let rest : closing_bracket addr n ≡ some k = sym (rw e refl) ∙ h in
      omega (arith, closing_bracket-lt addr n k rest)
]

find_char-le : (xs : List ℕ) (c : ℕ) → find_char xs c ≤ length xs
unfolding find_char
find_char-le [] c = omega arith
find_char-le (x ∷ xs) c = ground (arith, find_char-le xs c)

skip_spaces-le : (xs : List ℕ) → skip_spaces xs ≤ length xs
unfolding skip_spaces
skip_spaces-le [] = omega arith
skip_spaces-le (x ∷ xs) = ground (arith, skip_spaces-le xs)

before_breaks-le : (text : List ℕ) (n : ℕ) → before_breaks text n ≤ n
unfolding before_breaks
before_breaks-le text zero = omega arith
before_breaks-le text (suc n) = ground (arith, before_breaks-le text n)

-- A range inside the bytes from `first` to `last`.
abbrev pub Inside : ℕ → ℕ → Range → Type 0
Inside first last range = (first ≤ range.begin) × (range.begin ≤ range.end) × (range.end ≤ last)

-- An empty range or one inside the bytes.
abbrev pub EmptyOrInside : ℕ → ℕ → Range → Type 0
EmptyOrInside first last range = (range.begin ≡ range.end) ⊎ Inside first last range

range_at-Inside :
    (first begin last : ℕ) (o : Option ℕ)
    → first ≤ begin
    → ((k : ℕ) → o ≡ some k → begin + k ≤ last)
    → EmptyOrInside first last (range_at begin o)
unfolding range_at
range_at-Inside first begin last none f h = inl refl
range_at-Inside first begin last (some k) f h = inr (f, omega arith, h k refl)

-- Of every line, at every place of the buffer, find_mailaddr gives an empty range or one inside the line,
-- and find_domainname one inside it.
pub ranges-Inside :
    (place : ℕ) (text : List ℕ)
    → EmptyOrInside place (place + length text) (find_mailaddr place text)
      × Inside place (place + length text) (find_domainname place text)
unfolding find_mailaddr find_domainname
ranges-Inside place text = (mail, domain)
  where
    addr : List ℕ
    addr = drop (find_char text 60 + 1) text

    domain : Inside place (place + length text) (find_domainname place text)
    domain =
        let behind =
          before_breaks-le (drop (skip_spaces text) text) (length (drop (skip_spaces text) text)) in
        let left = length-drop (skip_spaces text) text in
        let skipped = skip_spaces-le text in
        (omega arith, omega arith, omega (arith, behind, left, skipped))

    mail : EmptyOrInside place (place + length text) (find_mailaddr place text)
    mail = elim (Bool-cases (find_char text 60 == length text)) [
      | inl e ↦ rw e (inl refl)
      | inr e ↦ rw e (
          range_at-Inside place (place + find_char text 60 + 1) (place + length text)
            (closing_bracket addr (find_char addr 32)) (omega arith)
            (λ k h. omega (
              arith,
              closing_bracket-lt addr (find_char addr 32) k h,
              find_char-le addr 32,
              length-drop (find_char text 60 + 1) text,
              find_char-le text 60,
            )))
    ]

get_or_behind : (xs ys : List ℕ) (j : ℕ) → get_or (xs ++ ys) (length xs + j) 0 ≡ get_or ys j 0
get_or_behind [] ys j = let same : 0 + j ≡ j = omega arith in rw same refl
get_or_behind (x ∷ xs) ys j =
    let same : length (x ∷ xs) + j ≡ suc (length xs + j) = omega arith in
    rw same (get_or_behind xs ys j)

last_bracket :
    (addr post : List ℕ) (m : ℕ)
    → closing_bracket post m ≡ none
    → closing_bracket (addr ++ 62 ∷ post) (length addr + suc m) ≡ some (length addr)
unfolding closing_bracket
last_bracket addr post zero h =
    let same : length addr + 1 ≡ suc (length addr) = omega arith in
    let start : length addr ≡ length addr + 0 = omega arith in
    let here : get_or (addr ++ 62 ∷ post) (length addr) 0 ≡ 62 =
      ap (λ n. get_or (addr ++ 62 ∷ post) n 0) start ∙ get_or_behind addr (62 ∷ post) 0 in
    rw (same, here) refl
last_bracket addr post (suc m) h =
    let same : length addr + suc (suc m) ≡ suc (length addr + suc m) = omega arith in
    let here = get_or_behind addr (62 ∷ post) (suc m) in
    elim (Bool-cases (get_or post m 0 == 62)) [
      | inl e ↦ absurd (ground (arith, e, h))
      | inr e ↦ rw (same, here, e) (last_bracket addr post m (sym (rw e refl) ∙ h))
    ]

find_char-past :
    (xs ys : List ℕ) (c : ℕ)
    → find_char xs c ≡ length xs
    → find_char (xs ++ ys) c ≡ length xs + find_char ys c
unfolding find_char
find_char-past [] ys c h = omega arith
find_char-past (x ∷ xs) ys c h = elim (Bool-cases (x == c)) [
  | inl e ↦ absurd (ground (arith, e, h))
  | inr e ↦ rw e (ap suc (find_char-past xs ys c (ground (arith, e, h))) ∙ omega arith)
]

find_char-here : (x : ℕ) (xs : List ℕ) → find_char (x ∷ xs) x ≡ 0
unfolding find_char
find_char-here x xs = rw (==_self x) refl

find_char-bracket : (xs : List ℕ) → find_char (62 ∷ xs) 32 ≡ suc (find_char xs 32)
unfolding find_char
find_char-bracket xs = refl

drop_past : (pre : List ℕ) (x : ℕ) (xs : List ℕ) → drop (length pre + 1) (pre ++ x ∷ xs) ≡ xs
drop_past pre x xs = drop_plus (length pre) 1 (pre ++ x ∷ xs) ∙ rw (drop-append pre (x ∷ xs)) refl

-- find_mailaddr gives the address between `<` and the last `>` in front of a space, for a line whose
-- first `<` is that one, and whose address has no space.
pub find_mailaddr_lem :
    (place : ℕ) (pre addr post : List ℕ)
    → find_char pre 60 ≡ length pre
    → find_char addr 32 ≡ length addr
    → closing_bracket post (find_char post 32) ≡ none
    → find_mailaddr place (pre ++ 60 ∷ (addr ++ 62 ∷ post))
      ≡ record { begin = place + length pre + 1; end = place + length pre + 1 + length addr }
unfolding find_mailaddr range_at
find_mailaddr_lem place pre addr post first no_space last =
    let text : List ℕ = pre ++ 60 ∷ (addr ++ 62 ∷ post) in
    let at : find_char text 60 ≡ length pre =
      find_char-past pre (60 ∷ (addr ++ 62 ∷ post)) 60 first
      ∙ rw (find_char-here 60 (addr ++ 62 ∷ post)) (omega arith) in
    let behind = drop_past pre 60 (addr ++ 62 ∷ post) in
    let inside : (length pre == length text) ≡ false =
      ground (arith, length-append pre (60 ∷ (addr ++ 62 ∷ post))) in
    let space : find_char (addr ++ 62 ∷ post) 32 ≡ length addr + suc (find_char post 32) =
      find_char-past addr (62 ∷ post) 32 no_space ∙ rw (find_char-bracket post) refl in
    rw (at, behind, inside, space, last_bracket addr post (find_char post 32) last) refl
