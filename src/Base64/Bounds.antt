-- ===== src/Base64/Bounds.antt =====
-- ase/gtcpp/base64.cpp: the decoder ends at every input, and stays within the space that it makes.
use ase.Prelude.{
  ℕ, zero, suc, ◌+◌, ◌-◌, ◌≤◌, ◌<◌, ◌≡◌, refl, ap, inl, inr, ◌&&◌, List, [], ◌∷◌, arith, ltb, leb,
  if◌then◌else◌, Bool-cases, length, length-take,
}
use ase.Base64.{
  get_next_decode, with_digit, written, append_written, Decoded, decode_loop, trimmed,
  base64_decode, decode_char,
}

-- What holds of every digit that comes with fewer bytes behind it, and of the end, holds of the next
-- digit.
with_digit-holds {ℓ} :
    (P : Decoded → Type ℓ) (start : List ℕ) (npad i : ℕ) (k : ℕ → List ℕ → ℕ → ℕ → Decoded)
    → ((n j : ℕ) → P ([], n, j))
    → ((v : ℕ) (s : List ℕ) (n j : ℕ) → length s < length start → P (k v s n j))
    → P (with_digit (get_next_decode start npad i) k)
unfolding get_next_decode with_digit
with_digit-holds P [] npad i k ends goes = ends npad i
with_digit-holds P (c ∷ start) npad i k ends goes = elim (Bool-cases (ltb (decode_char c) 64)) [
  | inl h ↦ rw h (goes _ start _ _ (omega arith))
  | inr h ↦
      rw h (with_digit-holds P start _ _ k ends (λ v s n j k'. goes v s n j (omega (arith, k'))))
]

with_digit-agrees :
    (start : List ℕ) (npad i : ℕ) (k k' : ℕ → List ℕ → ℕ → ℕ → Decoded)
    → ((v : ℕ) (s : List ℕ) (n j : ℕ) → length s < length start → k v s n j ≡ k' v s n j)
    → with_digit (get_next_decode start npad i) k ≡ with_digit (get_next_decode start npad i) k'
unfolding get_next_decode with_digit
with_digit-agrees [] npad i k k' same = refl
with_digit-agrees (c ∷ start) npad i k k' same = elim (Bool-cases (ltb (decode_char c) 64)) [
  | inl h ↦ rw h (same _ start _ _ (omega arith))
  | inr h ↦ rw h (with_digit-agrees start _ _ k k' (λ v s n j l. same v s n j (omega (arith, l))))
]

length-append_written :
    (u0 u1 u2 u3 m : ℕ) (d : Decoded)
    → length d.0 + 3 ≤ m
    → length (append_written (written u0 u1 u2 u3) d).0 ≤ m
unfolding append_written written
length-append_written u0 u1 u2 u3 m (out, npad, i) h = omega (arith, h)

length-decode_loop :
    (fuel : ℕ) (start : List ℕ) (npad i : ℕ)
    → length (decode_loop fuel start npad i).0 ≤ length start
unfolding decode_loop
length-decode_loop zero start npad i = omega arith
length-decode_loop (suc fuel) start npad i =
    let P : Decoded → Type 0 = λ d. length d.0 ≤ length start in
    with_digit-holds P start npad i _ (λ n j. omega arith)
      λ u0 s0 n0 i0 h0.
        with_digit-holds P s0 n0 i0 _ (λ n j. omega arith)
          λ u1 s1 n1 i1 h1.
            with_digit-holds P s1 n1 i1 _ (λ n j. omega arith)
              λ u2 s2 n2 i2 h2.
                with_digit-holds P s2 n2 i2 _ (λ n j. omega arith)
                  λ u3 s3 n3 i3 h3.
                    length-append_written u0 u1 u2 u3 (length start) (decode_loop fuel s3 n3 i3)
                      (omega (arith, length-decode_loop fuel s3 n3 i3, h0, h1, h2, h3))

-- More fuel than bytes changes nothing.
pub decode_loop_enough :
    (f g : ℕ) (start : List ℕ) (npad i : ℕ)
    → length start < f
    → length start < g
    → decode_loop f start npad i ≡ decode_loop g start npad i
unfolding decode_loop
decode_loop_enough zero g start npad i hf hg = absurd (omega arith)
decode_loop_enough (suc f) zero start npad i hf hg = absurd (omega arith)
decode_loop_enough (suc f) (suc g) start npad i hf hg =
    with_digit-agrees start npad i _ _ λ u0 s0 n0 i0 h0.
      with_digit-agrees s0 n0 i0 _ _ λ u1 s1 n1 i1 h1.
        with_digit-agrees s1 n1 i1 _ _ λ u2 s2 n2 i2 h2.
          with_digit-agrees s2 n2 i2 _ _ λ u3 s3 n3 i3 h3.
            ap (append_written (written u0 u1 u2 u3)) (
              decode_loop_enough f g s3 n3 i3 (omega (arith, h0, h1, h2, h3, hf))
                (omega (arith, h0, h1, h2, h3, hg)))

length-trimmed : (d : Decoded) → length (trimmed d).0 ≤ length d.0
unfolding trimmed
length-trimmed (out, npad, i) = omega (
  arith,
  length-take (if leb npad 2 && leb npad (length out) then length out - npad else length out) out,
)

-- base64_decode writes at most as many bytes as it reads, before and after the padding is taken off,
-- so three bytes of the space that it makes stay free; and any more fuel for its loop gives the same
-- bytes and counts.
pub base64_decode-fits :
    (str : List ℕ)
    → (length (decode_loop (suc (length str)) str 0 0).0 ≤ length str)
      × (length (base64_decode str).0 ≤ length str)
      × ((fuel : ℕ) → length str < fuel → base64_decode str ≡ trimmed (decode_loop fuel str 0 0))
unfolding base64_decode
base64_decode-fits str =
    let loop = length-decode_loop (suc (length str)) str 0 0 in
    (
      loop,
      omega (arith, loop, length-trimmed (decode_loop (suc (length str)) str 0 0)),
      λ fuel h. ap trimmed (decode_loop_enough (suc (length str)) fuel str 0 0 (omega arith) h),
    )
