-- ===== src/Serialize/Lengths.antt =====
-- ase/aseserialize.cpp: the lengths that byte_length_unsigned and byte_length_signed_little_endian
-- find, and what the bytes that are left out hold.
use ase.Prelude.{ℕ, zero, suc, ◌-◌, ◌/◌, ◌^◌, ◌≤◌, ◌<◌, ◌≡◌, refl, sym, ap, ◌∙◌, arith, ◌%◌}
use ase.Prelude.{true, List, [], ◌∷◌, ◌++◌, append_assoc, append-nil, bit_and}
use ase.Prelude.{◌==◌, if◌then◌else◌, length, get_or, take, replicate, All, Bool-cases, inl, inr}
use ase.Prelude.Bits.{byte_and_80}
use ase.Serialize.Bytes.{to_bytes}
use ase.Serialize.Encode.{byte_length_loop, byte_length_unsigned, can_drop, signed_length_loop}
use native.Mathlib.Nat.{pow-suc, sub_self}

byte_length_loop_fits : (fuel v : ℕ) → v ≤ fuel → v < 256 ^ byte_length_loop fuel v
unfolding byte_length_loop
byte_length_loop_fits zero v h = omega arith
byte_length_loop_fits (suc fuel) v h = elim (Bool-cases (v == 0)) [
  | inl e ↦ rw (e, byte_length_loop) (ground arith)
  | inr e ↦
      rw (e, byte_length_loop)
        (ground (
          arith,
          byte_length_loop_fits fuel (v / 256),
          pow-suc 256 (byte_length_loop fuel (v / 256)),
        ))
]

byte_length_loop-le : (k fuel v : ℕ) → v < 256 ^ k → byte_length_loop fuel v ≤ k
unfolding byte_length_loop
byte_length_loop-le k zero v h = omega arith
byte_length_loop-le zero (suc fuel) v h = ground arith
byte_length_loop-le (suc k) (suc fuel) v h = elim (Bool-cases (v == 0)) [
  | inl e ↦ rw (e, byte_length_loop) (omega arith)
  | inr e ↦
      rw (e, byte_length_loop) (ground (arith, pow-suc 256 k, byte_length_loop-le k fuel (v / 256)))
]

-- The number fits its byte length.
pub byte_length_unsigned_fits : (v : ℕ) → v < 256 ^ byte_length_unsigned v
unfolding byte_length_unsigned
byte_length_unsigned_fits v = byte_length_loop_fits v v (omega arith)

-- byte_length_unsigned gives the least length: a number below 256^k has at most `k` bytes.
pub byte_length_unsigned-le : (k v : ℕ) → v < 256 ^ k → byte_length_unsigned v ≤ k
unfolding byte_length_unsigned
byte_length_unsigned-le k v h = byte_length_loop-le k v v h

pub take-to_bytes : (n w v : ℕ) → n ≤ w → take n (to_bytes w v) ≡ to_bytes n v
unfolding to_bytes
take-to_bytes zero w v h = refl
take-to_bytes (suc n) zero v h = absurd (omega arith)
take-to_bytes (suc n) (suc w) v h =
    ap (λ (t : List ℕ). (v % 256) ∷ t) (take-to_bytes n w (v / 256) (omega arith))

-- The byte that continues the sign of `b`.
abbrev pub sign_fill : ℕ → ℕ
sign_fill b = if bit_and b 0x80 == 0x80 then 0xff else 0

sign_fill-sign_fill : (b : ℕ) → sign_fill (sign_fill b) ≡ sign_fill b
sign_fill-sign_fill b = elim (Bool-cases (bit_and b 0x80 == 0x80)) [ inl e ↦ rw e | inr e ↦ rw e ]

can_drop-sign_fill : (high low : ℕ) → low < 256 → can_drop high low ≡ true → high ≡ sign_fill low
unfolding can_drop
can_drop-sign_fill high low hl h = ground (arith, byte_and_80 low)

module _ {ℓ} {A : Type ℓ} where
  take-suc :
      (i : ℕ) (xs : List A) (d : A)
      → i < length xs
      → take (suc i) xs ≡ take i xs ++ (get_or xs i d ∷ [])
  take-suc i [] d h = absurd (omega arith)
  take-suc zero (x ∷ xs) d h = refl
  take-suc (suc i) (x ∷ xs) d h = ap (λ (t : List A). x ∷ t) (take-suc i xs d (omega arith))

  replicate_snoc : (k : ℕ) (a : A) → replicate k a ++ (a ∷ []) ≡ replicate (suc k) a
  replicate_snoc zero a = refl
  replicate_snoc (suc k) a = ap (λ (t : List A). a ∷ t) (replicate_snoc k a)

  pub get_or-take :
      (n : ℕ) (xs : List A) (i : ℕ) (d : A) → i < n → get_or (take n xs) i d ≡ get_or xs i d
  get_or-take zero xs i d h = absurd (omega arith)
  get_or-take (suc n) [] i d h = refl
  get_or-take (suc n) (x ∷ xs) zero d h = refl
  get_or-take (suc n) (x ∷ xs) (suc i) d h = get_or-take n xs i d (omega arith)

get_or-All : (xs : List ℕ) (i : ℕ) → All (λ b. b < 256) xs → get_or xs i 0 < 256
get_or-All [] i h = omega arith
get_or-All (x ∷ xs) zero h = h.0
get_or-All (x ∷ xs) (suc i) h = get_or-All xs i h.1

pub suc-sub-one : (q : ℕ) → suc q - 1 ≡ q
suc-sub-one q = omega arith

-- What the loop keeps of the bytes up to `q`: the front of length `n`, which the sign continues.
pub record Shortened (buf : List ℕ) (q n : ℕ) : Type 0 where
  pub positive : 0 < n
  pub within : n ≤ suc q
  pub sign : sign_fill (get_or buf q 0) ≡ sign_fill (get_or buf (n - 1) 0)
  pub front :
      take (suc q) buf ≡ take n buf ++ replicate (suc q - n) (sign_fill (get_or buf (n - 1) 0))

shorten_step :
    (buf : List ℕ) (q n : ℕ)
    → suc q < length buf
    → get_or buf (suc q) 0 ≡ sign_fill (get_or buf q 0)
    → Shortened buf q n
    → Shortened buf (suc q) n
shorten_step buf q n hq e s = record {
  positive = s.positive;
  within = omega (arith, s.within);
  sign = ap sign_fill e ∙ (sign_fill-sign_fill (get_or buf q 0) ∙ s.sign);
  front = grow;
}
  where
    fill : ℕ
    fill = sign_fill (get_or buf (n - 1) 0)

    longer : suc (suc q) - n ≡ suc (suc q - n)
    longer = omega (arith, s.within)

    grow : take (suc (suc q)) buf ≡ take n buf ++ replicate (suc (suc q) - n) fill
    grow =
        take-suc (suc q) buf 0 hq
        ∙ (ap (λ (t : List ℕ). t ++ (get_or buf (suc q) 0 ∷ [])) s.front
            ∙ (append_assoc (take n buf) (replicate (suc q - n) fill) (get_or buf (suc q) 0 ∷ [])
                ∙ ap (λ (t : List ℕ). take n buf ++ t)
                    (ap (λ (t : ℕ). replicate (suc q - n) fill ++ (t ∷ [])) (e ∙ s.sign)
                      ∙ (replicate_snoc (suc q - n) fill
                          ∙ ap (λ (t : ℕ). replicate t fill) (sym longer)))))

nothing_dropped : (buf : List ℕ) (q : ℕ) → Shortened buf q (suc q)
nothing_dropped buf q = record {
  positive = omega arith;
  within = omega arith;
  sign = rw suc-sub-one refl;
  front = rw sub_self (sym (append-nil (take (suc q) buf)));
}

pub signed_length_loop-Shortened :
    (buf : List ℕ) (q : ℕ)
    → All (λ b. b < 256) buf
    → q < length buf
    → Shortened buf q (signed_length_loop buf q)
unfolding signed_length_loop
signed_length_loop-Shortened buf zero hb hq = record {
  positive = omega arith;
  within = omega arith;
  sign = refl;
  front = sym (append-nil (take 1 buf));
}
signed_length_loop-Shortened buf (suc q) hb hq =
    elim (Bool-cases (can_drop (get_or buf (suc q) 0) (get_or buf q 0))) [
      | inl e ↦
          rw (e, signed_length_loop)
            (shorten_step buf q (signed_length_loop buf q) hq
              (can_drop-sign_fill (get_or buf (suc q) 0) (get_or buf q 0) (get_or-All buf q hb) e)
              (signed_length_loop-Shortened buf q hb (omega arith)))
      | inr e ↦ rw (e, signed_length_loop) (nothing_dropped buf (suc q))
    ]
