-- ===== src/Serialize/Integers.antt =====
-- ase/aseserialize.cpp: integers read back from the bytes that the writer kept of them.
use ase.Prelude.{
  ℕ, zero, suc, ◌+◌, ◌-◌, ◌*◌, ◌/◌, ◌^◌, ◌≤◌, ◌<◌, ◌≡◌, refl, sym, ap, ◌∙◌, arith, ◌%◌,
}
use ase.Prelude.{
  Bool, true, List, [], ◌∷◌, ◌++◌, append_assoc, leb, ltb, leb→le, All-append, length-replicate,
}
use ase.Prelude.{◌==◌, length, get_or, take, replicate, ◌&&◌, All, Bool-cases, inl, inr, ==_iff}
use ase.Prelude.{length-take, length-append, ◌||◌}
use ase.Prelude.Bits.{byte_and_80}
use ase.Serialize.Bytes.{to_bytes, from_bytes, length-to_bytes, from_bytes-to_bytes, to_bytes-All}
use ase.Serialize.Encode.{can_drop, signed_length_loop, byte_length_signed}
use ase.Serialize.Lengths.{
  sign_fill, Shortened, suc-sub-one, signed_length_loop-Shortened, get_or-take,
}
use ase.Serialize.Decode.{deserialize_integral}
use native.Mathlib.Nat.{pow-suc}

-- The fill of deserialize_integral, without its test on the length.
deserialize_integral_fill :
    (size : ℕ) (bytes : List ℕ)
    → deserialize_integral size bytes
      ≡ from_bytes
          (bytes ++ replicate (size - length bytes) (sign_fill (get_or bytes (length bytes - 1) 0)))
unfolding deserialize_integral
deserialize_integral_fill size bytes = elim (Bool-cases (length bytes == size)) [
  | inl e ↦
      let whole : size - length bytes ≡ 0 = omega (arith, (==_iff (length bytes) size).0 e) in
      rw (e, whole) refl
  | inr e ↦ rw e refl
]

-- The same of the bytes that byte_length_signed_little_endian keeps, for any size that holds them.
deserialize_integral-take :
    (size : ℕ) (buf : List ℕ) (q n : ℕ)
    → length buf ≡ suc q
    → n ≤ suc q
    → 0 < n
    → deserialize_integral size (take n buf)
      ≡ from_bytes (take n buf ++ replicate (size - n) (sign_fill (get_or buf (n - 1) 0)))
deserialize_integral-take size buf q n hl hn pos =
    let kept : length (take n buf) ≡ n = omega (arith, length-take n buf) in
    let top : get_or (take n buf) (n - 1) 0 ≡ get_or buf (n - 1) 0 =
      get_or-take n buf (n - 1) 0 (omega arith) in
    rw (deserialize_integral_fill size (take n buf), kept, top) refl

take_all {ℓ} : {A : Type ℓ} (xs : List A) → take (length xs) xs ≡ xs
take_all [] = refl
take_all {A} (x ∷ xs) = ap (λ (t : List A). x ∷ t) (take_all xs)

-- An integer of `q + 1` bytes is what deserialize_integral reads, at that size, from the bytes that
-- byte_length_signed keeps of it.
pub deserialize_integral-to_bytes :
    (q v : ℕ)
    → v < 256 ^ suc q
    → deserialize_integral
        (suc q)
        (take (byte_length_signed (to_bytes (suc q) v) (suc q)) (to_bytes (suc q) v))
      ≡ v
unfolding byte_length_signed
deserialize_integral-to_bytes q v h =
    let buf = to_bytes (suc q) v in
    let n = signed_length_loop buf q in
    let size : length buf ≡ suc q = length-to_bytes (suc q) v in
    let s : Shortened buf q n =
      signed_length_loop-Shortened buf q (to_bytes-All (suc q) v) (omega arith) in
    let all : take (suc q) buf ≡ buf = ap (λ (t : ℕ). take t buf) (sym size) ∙ take_all buf in
    rw suc-sub-one (
      deserialize_integral-take (suc q) buf q n size s.within s.positive
      ∙ (ap from_bytes (sym s.front) ∙ (ap from_bytes all ∙ from_bytes-to_bytes (suc q) v h)))

-- A 64-bit pattern whose signed value has 32 bits.
abbrev pub fits_int : ℕ → Bool
fits_int v = ltb v (2 ^ 31) || leb (2 ^ 64 - 2 ^ 31) v

can_drop_sign :
    (high low : ℕ) → high < 256 → low < 256 → can_drop high low ≡ (high == low / 128 * 255)
unfolding can_drop
can_drop_sign high low hh hl = ground (arith, byte_and_80 low)

signed_length_loop-le : (buf : List ℕ) (q : ℕ) → signed_length_loop buf q ≤ suc q
unfolding signed_length_loop
signed_length_loop-le buf zero = omega arith
signed_length_loop-le buf (suc q) = ground (arith, signed_length_loop-le buf q)

signed_length_loop-leb :
    (buf : List ℕ) (q k : ℕ)
    → k < suc (suc q)
    → leb (signed_length_loop buf (suc q)) k
      ≡ (can_drop (get_or buf (suc q) 0) (get_or buf q 0) && leb (signed_length_loop buf q) k)
unfolding signed_length_loop
signed_length_loop-leb buf q k h = ground arith

-- The loop over eight bytes ends among the lowest four exactly if each higher byte can be dropped.
eight_bytes :
    (buf : List ℕ)
    → leb (signed_length_loop buf 7) 4 ≡ (
        can_drop (get_or buf 7 0) (get_or buf 6 0)
        && (can_drop (get_or buf 6 0) (get_or buf 5 0)
            && (can_drop (get_or buf 5 0) (get_or buf 4 0)
                && can_drop (get_or buf 4 0) (get_or buf 3 0))))
eight_bytes buf = ground (
  arith,
  signed_length_loop-leb buf 6 4,
  signed_length_loop-leb buf 5 4,
  signed_length_loop-leb buf 4 4,
  signed_length_loop-leb buf 3 4,
  signed_length_loop-le buf 3,
)

high_bytes :
    (v b6 b5 b4 b3 : ℕ)
    → v < 2 ^ 64
    → b3 ≡ v / 256 / 256 / 256
    → b4 ≡ b3 / 256
    → b5 ≡ b4 / 256
    → b6 ≡ b5 / 256
    → (b6 / 256 % 256 == b6 % 256 / 128 * 255
        && (b6 % 256 == b5 % 256 / 128 * 255
            && (b5 % 256 == b4 % 256 / 128 * 255 && b4 % 256 == b3 % 256 / 128 * 255)))
      ≡ fits_int v
high_bytes v b6 b5 b4 b3 h e3 e4 e5 e6 = ground arith

pub long_length : (v : ℕ) → v < 2 ^ 64 → leb (byte_length_signed (to_bytes 8 v) 8) 4 ≡ fits_int v
unfolding byte_length_signed to_bytes
long_length v h =
    let b3 = v / 256 / 256 / 256 in
    let b4 = b3 / 256 in
    let b5 = b4 / 256 in
    let b6 = b5 / 256 in
    eight_bytes (to_bytes 8 v)
    ∙ rw
        (
          can_drop_sign (b6 / 256 % 256) (b6 % 256) (omega arith) (omega arith),
          can_drop_sign (b6 % 256) (b5 % 256) (omega arith) (omega arith),
          can_drop_sign (b5 % 256) (b4 % 256) (omega arith) (omega arith),
          can_drop_sign (b4 % 256) (b3 % 256) (omega arith) (omega arith),
        )
        (high_bytes v b6 b5 b4 b3 h refl refl refl refl)

from_bytes-append :
    (xs ys : List ℕ) → from_bytes (xs ++ ys) ≡ from_bytes xs + 256 ^ length xs * from_bytes ys
unfolding from_bytes
from_bytes-append [] ys = omega arith
from_bytes-append (x ∷ xs) ys =
    omega
      (arith, from_bytes-append xs ys, ap (λ (t : ℕ). t * from_bytes ys) (pow-suc 256 (length xs)))

pub from_bytes-lt : (xs : List ℕ) → All (λ b. b < 256) xs → from_bytes xs < 256 ^ length xs
unfolding from_bytes
from_bytes-lt [] h = omega arith
from_bytes-lt (x ∷ xs) h = omega (arith, h.0, from_bytes-lt xs h.1, pow-suc 256 (length xs))

module _ {ℓ} {A : Type ℓ} where
  replicate-add : (m k : ℕ) (a : A) → replicate m a ++ replicate k a ≡ replicate (m + k) a
  replicate-add zero k a = ap (λ (t : ℕ). replicate t a) (omega arith)
  replicate-add (suc m) k a =
      let grown : suc m + k ≡ suc (m + k) = omega arith in
      rw grown (ap (λ (t : List A). a ∷ t) (replicate-add m k a))

replicate-All : (k a : ℕ) → a < 256 → All (λ b. b < 256) (replicate k a)
replicate-All zero a h = tt
replicate-All (suc k) a h = (h, replicate-All k a h)

pub take-All : (k : ℕ) (xs : List ℕ) → All (λ b. b < 256) xs → All (λ b. b < 256) (take k xs)
take-All zero xs h = tt
take-All (suc k) [] h = tt
take-All (suc k) (x ∷ xs) h = (h.0, take-All k xs h.1)

sign_fill-lt : (b : ℕ) → sign_fill b < 256
sign_fill-lt b = ground arith

-- Eight bytes of which the sign repeats from the fourth on.
low_half :
    (v n : ℕ)
    → v < 2 ^ 64
    → n ≤ 4
    → Shortened (to_bytes 8 v) 7 n
    → from_bytes
        (take n (to_bytes 8 v) ++ replicate (4 - n) (sign_fill (get_or (to_bytes 8 v) (n - 1) 0)))
      ≡ v % 2 ^ 32
low_half v n h n4 s =
    let buf = to_bytes 8 v in
    let f = sign_fill (get_or buf (n - 1) 0) in
    let low = take n buf ++ replicate (4 - n) f in
    let size : length buf ≡ 8 = length-to_bytes 8 v in
    let all : take 8 buf ≡ buf = ap (λ (t : ℕ). take t buf) (sym size) ∙ take_all buf in
    let pieces : replicate (8 - n) f ≡ replicate (4 - n) f ++ replicate 4 f =
      ap (λ (t : ℕ). replicate t f) (omega arith) ∙ sym (replicate-add (4 - n) 4 f) in
    let split : buf ≡ low ++ replicate 4 f =
      sym all
      ∙ (s.front
          ∙ (ap (λ (t : List ℕ). take n buf ++ t) pieces
              ∙ sym (append_assoc (take n buf) (replicate (4 - n) f) (replicate 4 f)))) in
    let size4 : length low ≡ 4 = omega (
      arith,
      length-append (take n buf) (replicate (4 - n) f),
      length-take n buf,
      length-replicate (4 - n) f,
    ) in
    let value : v ≡ from_bytes low + 256 ^ length low * from_bytes (replicate 4 f) =
      sym (from_bytes-to_bytes 8 v h)
      ∙ (ap from_bytes split ∙ from_bytes-append low (replicate 4 f)) in
    let value4 : v ≡ from_bytes low + 256 ^ 4 * from_bytes (replicate 4 f) =
      value ∙ ap (λ (t : ℕ). from_bytes low + 256 ^ t * from_bytes (replicate 4 f)) size4 in
    let small : from_bytes low < 256 ^ length low = from_bytes-lt low (
      All-append _ (take n buf) (replicate (4 - n) f) (take-All n buf (to_bytes-All 8 v))
        (replicate-All (4 - n) f (sign_fill-lt (get_or buf (n - 1) 0)))) in
    let small4 : from_bytes low < 256 ^ 4 = rw size4 at small in omega (arith, value4, small4)

signed_eight : (buf : List ℕ) → byte_length_signed buf 8 ≡ signed_length_loop buf 7
unfolding byte_length_signed
signed_eight buf = refl

-- A 64-bit integer that fits 32 bits is read back as the 32-bit one.
pub deserialize_integral-long :
    (v : ℕ)
    → v < 2 ^ 64
    → fits_int v ≡ true
    → deserialize_integral 4 (take (byte_length_signed (to_bytes 8 v) 8) (to_bytes 8 v))
      ≡ v % 2 ^ 32
deserialize_integral-long v h fits =
    let buf = to_bytes 8 v in
    let n = signed_length_loop buf 7 in
    let s : Shortened buf 7 n =
      signed_length_loop-Shortened buf 7 (to_bytes-All 8 v) (omega (arith, length-to_bytes 8 v)) in
    let n4 : n ≤ 4 = leb→le n 4 (rw signed_eight at (long_length v h ∙ fits)) in
    rw signed_eight (
      deserialize_integral-take 4 buf 7 n (length-to_bytes 8 v) s.within s.positive
      ∙ low_half v n h n4 s)

-- Between 1 and `size` bytes are kept.
pub byte_length_signed_bounds :
    (q v : ℕ)
    → (0 < byte_length_signed (to_bytes (suc q) v) (suc q))
      × (byte_length_signed (to_bytes (suc q) v) (suc q) ≤ suc q)
unfolding byte_length_signed
byte_length_signed_bounds q v =
    let s : Shortened (to_bytes (suc q) v) q (signed_length_loop (to_bytes (suc q) v) q) =
      signed_length_loop-Shortened (to_bytes (suc q) v) q (to_bytes-All (suc q) v)
        (omega (arith, length-to_bytes (suc q) v)) in
    rw suc-sub-one (s.positive, s.within)
