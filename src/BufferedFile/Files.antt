-- ===== src/BufferedFile/Files.antt =====
-- A file that is a list of bytes, as an instance of what the readers rely on.
use ase.BufferedFile.Streams.{Streams}
use ase.Prelude.{
  ℕ, zero, suc, ◌<◌, ◌≡◌, refl, sym, ap, ◌∙◌, ◌≢◌, Option, none, some, List, [], ◌∷◌, ◌++◌, arith,
  take, drop, take-append-drop,
}

-- read(2) of a file of which the bytes are left.
unfoldable pub read_some : ℕ → List ℕ → Option (List ℕ) × List ℕ
read_some n s = (some (take n s), drop n s)

abbrev pub bytes_left : List ℕ → List ℕ
bytes_left s = s

take-empty : (n : ℕ) (s : List ℕ) → 0 < n → take n s ≡ [] → s ≡ []
take-empty zero s h e = absurd (omega arith)
take-empty (suc n) [] h e = refl
take-empty (suc n) (x ∷ s) h e = absurd (ground (arith, e))

given : (o : Option (List ℕ)) (xs ys : List ℕ) → o ≡ some ys → o ≡ some xs → ys ≡ xs
given none xs ys h k = absurd (ground (arith, h))
given (some zs) xs ys h k = ground (arith, h, k)

pub read_some-Streams : Streams read_some bytes_left
unfolding read_some
read_some-Streams = record {
  gives = λ n s xs h.
      sym (take-append-drop n s)
      ∙ ap (λ (t : List ℕ). t ++ drop n s) (given _ xs (take n s) refl h);
  ends = λ n s h e. take-empty n s h (given _ [] (take n s) refl e);
}

pub read_some-ne : (n : ℕ) (s : List ℕ) → (read_some n s).0 ≢ none
unfolding read_some
read_some-ne n s = ground arith
