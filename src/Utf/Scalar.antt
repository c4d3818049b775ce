-- ===== src/Utf/Scalar.antt =====
-- The encodings UTF-8 and UTF-16 of a Unicode scalar value, which ase/aseutfconv.cpp converts
-- between.
use ase.Prelude.{
  ℕ, ◌+◌, ◌-◌, ◌/◌, ◌%◌, ◌≤◌, ◌<◌, ◌≡◌, refl, ◌⊎◌, inl, inr, List, [], ◌∷◌, ◌++◌, arith, ltb,
  if◌then◌else◌, ltb→lt, lt→ltb, Bool-cases,
}

-- The code points but for the surrogates.
unfoldable pub Scalar : ℕ → Type 0
Scalar u = (u < 0x110000) × ((u < 0xd800) ⊎ (0xe000 ≤ u))

unfoldable pub utf8 : ℕ → List ℕ
utf8 u =
    if ltb u 128
    then u ∷ []
    else if ltb u 2048
    then (192 + u / 64) ∷ (128 + u % 64) ∷ []
    else if ltb u 65536
    then (224 + u / 4096) ∷ (128 + u / 64 % 64) ∷ (128 + u % 64) ∷ []
    else (240 + u / 262144) ∷ (128 + u / 4096 % 64) ∷ (128 + u / 64 % 64) ∷ (128 + u % 64) ∷ []

unfoldable pub utf16 : ℕ → List ℕ
utf16 u =
    if ltb u 65536
    then u ∷ []
    else (0xd800 + (u - 65536) / 1024) ∷ (0xdc00 + (u - 65536) % 1024) ∷ []

-- The encodings of a text.
unfoldable pub utf8s : List ℕ → List ℕ
utf8s [] = []
utf8s (u ∷ us) = utf8 u ++ utf8s us

unfoldable pub utf16s : List ℕ → List ℕ
utf16s [] = []
utf16s (u ∷ us) = utf16 u ++ utf16s us

-- The bytes that a scalar value takes.
pub data Width (u : ℕ) : Type 0 where
  one : u < 128 → Width u
  two : 128 ≤ u → u < 2048 → Width u
  three : 2048 ≤ u → u < 65536 → Width u
  four : 65536 ≤ u → Width u

pub width : (u : ℕ) → Width u
width u = elim (Bool-cases (ltb u 128)) [
  | inl h ↦ one (ltb→lt u 128 h)
  | inr h ↦ elim (Bool-cases (ltb u 2048)) [
    | inl k ↦ two (ground arith) (ltb→lt u 2048 k)
    | inr k ↦ elim (Bool-cases (ltb u 65536)) [
      | inl l ↦ three (ground arith) (ltb→lt u 65536 l)
      | inr l ↦ four (ground arith)
    ]
  ]
]

pub utf8-one : (u : ℕ) → u < 128 → utf8 u ≡ u ∷ []
unfolding utf8
utf8-one u h = rw (lt→ltb u 128 h) refl

pub utf8-two : (u : ℕ) → 128 ≤ u → u < 2048 → utf8 u ≡ (192 + u / 64) ∷ (128 + u % 64) ∷ []
unfolding utf8
utf8-two u h k = ground arith

pub utf8-three :
    (u : ℕ)
    → 2048 ≤ u
    → u < 65536
    → utf8 u ≡ (224 + u / 4096) ∷ (128 + u / 64 % 64) ∷ (128 + u % 64) ∷ []
unfolding utf8
utf8-three u h k = ground arith

pub utf8-four :
    (u : ℕ)
    → 65536 ≤ u
    → utf8 u
      ≡ (240 + u / 262144) ∷ (128 + u / 4096 % 64) ∷ (128 + u / 64 % 64) ∷ (128 + u % 64) ∷ []
unfolding utf8
utf8-four u h = ground arith

pub utf16-one : (u : ℕ) → u < 65536 → utf16 u ≡ u ∷ []
unfolding utf16
utf16-one u h = rw (lt→ltb u 65536 h) refl

pub utf16-two :
    (u : ℕ)
    → 65536 ≤ u
    → utf16 u ≡ (0xd800 + (u - 65536) / 1024) ∷ (0xdc00 + (u - 65536) % 1024) ∷ []
unfolding utf16
utf16-two u h = ground arith
