-- ===== src/BufferedFile/Searching.antt =====
-- ase/gtcpp/buffered_file.cpp: where the search of read_line goes on when more bytes have come.
use ase.BufferedFile.{shifted}
use ase.BufferedFile.Lines.{
  first_line, ends_cr, first_line-passed, ends_cr-append, shifted-shifted, first_line-lf,
  first_line-last,
}
use ase.Prelude.{
  ℕ, ◌-◌, ◌≤◌, ◌≡◌, refl, sym, ap, ◌∙◌, Bool, true, false, none, List, [], ◌∷◌, ◌++◌, arith,
  if◌then◌else◌, length, take, drop, length-drop, take-append-drop,
}

-- From `offset` on the search finds what it would from `cursor` on.
abbrev pub Searched : Bool → ℕ → ℕ → List ℕ → Type 0
Searched crlf offset cursor xs =
    (ys : List ℕ)
    → shifted offset (first_line crlf false (drop offset xs ++ ys))
      ≡ shifted cursor (first_line crlf false (drop cursor xs ++ ys))

drop_all : (xs : List ℕ) → drop (length xs) xs ≡ []
drop_all [] = refl
drop_all (x ∷ xs) = drop_all xs

-- Behind the first line's absence.
pub Searched-past :
    (crlf : Bool) (cursor : ℕ) (xs ys : List ℕ)
    → cursor ≤ length xs
    → ends_cr false (take cursor xs) ≡ false
    → first_line crlf false (drop cursor xs) ≡ none
    → shifted cursor (first_line crlf false (drop cursor xs ++ ys))
      ≡ shifted (length xs) (first_line crlf (ends_cr false xs) ys)
Searched-past crlf cursor xs ys inside ready absent =
    let cr : ends_cr false xs ≡ ends_cr false (drop cursor xs) =
      ap (λ (t : List ℕ). ends_cr false t) (sym (take-append-drop cursor xs))
      ∙ ends_cr-append false (take cursor xs) (drop cursor xs)
      ∙ ap (λ b. ends_cr b (drop cursor xs)) ready in
    rw (first_line-passed crlf false (drop cursor xs) ys absent, cr)
      (shifted-shifted cursor (length (drop cursor xs)) (length xs) _
        (omega (arith, length-drop cursor xs, inside)))

pub Searched-next :
    (crlf : Bool) (cursor : ℕ) (xs : List ℕ)
    → cursor ≤ length xs
    → ends_cr false (take cursor xs) ≡ false
    → first_line crlf false (drop cursor xs) ≡ none
    → Searched crlf (if crlf then length xs - 1 else length xs) cursor xs
Searched-next false cursor xs inside ready absent ys = rw (drop_all xs) (
    ap (λ o. shifted (length xs) o) (first_line-lf false (ends_cr false xs) ys)
    ∙ sym (Searched-past false cursor xs ys inside ready absent))
Searched-next true cursor [] inside ready absent ys =
    let none_yet : cursor ≡ 0 = omega arith in rw none_yet refl
Searched-next true cursor (x ∷ xs) inside ready absent ys =
    let back : length (x ∷ xs) - 1 ≡ length xs = omega arith in
    rw (back, first_line-last (length xs) (x ∷ xs) ys refl)
      (shifted-shifted (length xs) 1 (length (x ∷ xs)) _ (omega arith)
        ∙ sym (Searched-past true cursor (x ∷ xs) ys inside ready absent))
