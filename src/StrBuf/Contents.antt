-- ===== src/StrBuf/Contents.antt =====
-- ase/asestrbuf.cpp: every operation of a string buffer keeps it valid, and does to its contents what
-- the operation of a list does.
use ase.Prelude.{
  take-within, ℕ, zero, suc, ◌+◌, ◌-◌, ◌≤◌, ◌≡◌, refl, sym, ap, ◌∙◌, inl, inr, List, [], ◌∷◌, ◌++◌,
  append_assoc, arith, leb, leb→le, Bool-cases, length, take, drop, replicate, length-append,
  length-take, length-drop, length-replicate, take-append,
}
use ase.StrBuf.{
  Buffer, IsValid, contents, copy_to, new_buffer, clear, reset, remove_front, truncate, make_space,
  append_done, append,
}

take-take : (n m : ℕ) (xs : List ℕ) → n ≤ m → take n (take m xs) ≡ take n xs
take-take zero m xs h = refl
take-take (suc n) zero xs h = absurd (omega arith)
take-take (suc n) (suc m) [] h = refl
take-take (suc n) (suc m) (x ∷ xs) h = ap (λ (t : List ℕ). x ∷ t) (take-take n m xs (omega arith))

take-front : (n : ℕ) (xs ys : List ℕ) → length xs ≡ n → take n (xs ++ ys) ≡ xs
take-front n xs ys e = rw (sym e) (take-append xs ys)

take_nil : (n : ℕ) → take {A = ℕ} n [] ≡ []
take_nil zero = refl
take_nil (suc n) = refl

take-drop : (n m : ℕ) (xs : List ℕ) → take (n - m) (drop m xs) ≡ drop m (take n xs)
take-drop n zero xs = let same : n - 0 ≡ n = omega arith in rw same refl
take-drop zero (suc m) [] = take_nil (0 - suc m)
take-drop zero (suc m) (x ∷ xs) = let same : 0 - suc m ≡ 0 = omega arith in rw same refl
take-drop (suc n) (suc m) [] = take_nil (suc n - suc m)
take-drop (suc n) (suc m) (x ∷ xs) =
    let same : suc n - suc m ≡ n - m = omega arith in rw same (take-drop n m xs)

length-copy_to :
    (mem : List ℕ) (i : ℕ) (str : List ℕ)
    → i + length str ≤ length mem
    → length (copy_to mem i str) ≡ length mem
unfolding copy_to
length-copy_to mem i str h = omega (
  arith,
  length-append (take i mem) (str ++ drop (i + length str) mem),
  length-append str (drop (i + length str) mem),
  length-take i mem,
  length-drop (i + length str) mem,
)

take_over : (n : ℕ) (xs : List ℕ) → length xs ≤ n → take n xs ≡ xs
take_over n [] h = take_nil n
take_over zero (x ∷ xs) h = absurd (omega arith)
take_over (suc n) (x ∷ xs) h = ap (λ (t : List ℕ). x ∷ t) (take_over n xs (omega arith))

take-copy_to :
    (mem : List ℕ) (i : ℕ) (str : List ℕ)
    → i + length str ≤ length mem
    → take (i + length str) (copy_to mem i str) ≡ take i mem ++ str
unfolding copy_to
take-copy_to mem i str h =
    let rest = drop (i + length str) mem in
    rw (sym (append_assoc (take i mem) str rest)) (
      take-front (i + length str) (take i mem ++ str) rest
        (omega (arith, length-append (take i mem) str, length-take i mem, h)))

-- make_space of a valid buffer keeps the contents, and leaves room for `len` more bytes.
pub make_space_lem :
    (junk len : ℕ) (b : Buffer)
    → IsValid b
    → (contents (make_space junk len b) ≡ contents b)
      × (b.used + len ≤ length (make_space junk len b).mem)
unfolding IsValid make_space contents
make_space_lem junk len b valid = elim (Bool-cases (leb (b.used + len) (length b.mem))) [
  | inl h ↦ rw h (refl, leb→le _ _ h)
  | inr h ↦
      let more = replicate (b.used + len - length b.mem) junk in
      let size = length-append b.mem more in
      rw h (
        take-within b.used b.mem more valid,
        omega (arith, size, length-replicate (b.used + len - length b.mem) junk),
      )
]

-- append of a valid buffer puts the bytes behind its contents, and the buffer stays valid.
pub append_lem :
    (junk : ℕ) (str : List ℕ) (b : Buffer)
    → IsValid b
    → (contents (append junk str b) ≡ contents b ++ str) × IsValid (append junk str b)
unfolding append append_done IsValid contents make_space
append_lem junk str b valid =
    let p = make_space junk (length str) b in
    let (kept, room) = make_space_lem junk (length str) b valid in
    let size = length-copy_to p.mem p.used str room in
    (take-copy_to p.mem p.used str room ∙ ap (λ (t : List ℕ). t ++ str) kept, rw size room)

-- remove_front of a valid buffer takes the first `len` bytes off its contents, when it has as many,
-- and the buffer stays valid.
pub remove_front_lem :
    (len : ℕ) (b : Buffer)
    → IsValid b
    → len ≤ b.used
    → (contents (remove_front len b) ≡ drop len (contents b)) × IsValid (remove_front len b)
unfolding remove_front IsValid contents
remove_front_lem len b valid h =
    let s = b.used - len in
    let str = take s (drop len b.mem) in
    let size : length str ≡ s =
      omega (arith, length-take s (drop len b.mem), length-drop len b.mem, valid, h) in
    let fits : 0 + length str ≤ length b.mem = omega (arith, size, valid) in
    let first : 0 + length str ≡ s = omega (arith, size) in
    let moved = rw first at (take-copy_to b.mem 0 str fits) in
    (moved ∙ take-drop b.used len b.mem, omega (arith, length-copy_to b.mem 0 str fits, valid))

-- truncate of a valid buffer keeps the first `len` bytes of its contents, or all if there are fewer,
-- and the buffer stays valid.
pub truncate_lem :
    (len : ℕ) (b : Buffer)
    → IsValid b
    → (contents (truncate len b) ≡ take len (contents b)) × IsValid (truncate len b)
unfolding truncate IsValid contents
truncate_lem len b valid = elim (Bool-cases (leb b.used len)) [
  | inl h ↦ rw h (
    sym (
        take_over len (take b.used b.mem)
          (omega (arith, length-take b.used b.mem, leb→le b.used len h))),
    valid,
  )
  | inr h ↦ rw h (sym (take-take len b.used b.mem (ground arith)), ground (arith, valid))
]

-- A new buffer, a cleared one and a reset one are valid and have no contents.
pub empty_contents :
    (junk size : ℕ) (b : Buffer)
    → ((contents (new_buffer junk size) ≡ []) × IsValid (new_buffer junk size))
      × ((contents (clear b) ≡ []) × IsValid (clear b))
      × ((contents (reset junk size b) ≡ []) × IsValid (reset junk size b))
unfolding new_buffer clear reset IsValid contents
empty_contents junk size b = ((refl, omega arith), (refl, omega arith), (refl, omega arith))
