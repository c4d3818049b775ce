-- ===== src/KarpRabin/Sizes.antt =====
-- ase/gtcpp/karp_rabin.hpp: align_pow2, the size of the hash table.
use ase.Prelude.{
  ℕ, zero, suc, ◌+◌, ◌*◌, ◌%◌, ◌^◌, ◌≤◌, ◌<◌, ◌≡◌, refl, inl, inr, true, false, some, arith, ltb,
  leb, leb→le, Bool-cases,
}
use native.Mathlib.Nat.{pow-suc, pow-le-pow_right}
use ase.KarpRabin.{align_loop, align_pow2, word}

below : (j x : ℕ) → ltb (2 ^ j) x ≡ true → x ≤ 2147483648 → j < 31
below j x e small = elim (Bool-cases (leb 31 j)) [
  | inl f ↦
      let top : 2 ^ 31 ≤ 2 ^ j = pow-le-pow_right (omega arith) (leb→le 31 j f) in
      absurd (ground (arith, top, e, small))
  | inr f ↦ ground (arith, f)
]

align_loop-some :
    (fuel j x : ℕ)
    → 31 ≤ j + fuel
    → j ≤ 31
    → x ≤ 2147483648
    → (k : ℕ) × (align_loop fuel (2 ^ j) x ≡ some (2 ^ k)) × (x ≤ 2 ^ k)
unfolding align_loop
align_loop-some zero j x enough h small =
    let last : j ≡ 31 = omega arith in
    let stop : ltb (2 ^ 31) x ≡ false = ground (arith, small) in
    rw last (31, rw stop refl, omega (arith, small))
align_loop-some (suc fuel) j x enough h small = elim (Bool-cases (ltb (2 ^ j) x)) [
  | inl e ↦
      let early : j < 31 = below j x e small in
      let top : 2 ^ suc j ≤ 2 ^ 31 =
        pow-le-pow_right {n = 2} (omega arith) {i = suc j} {j = 31} (omega arith) in
      let step : 2 ^ suc j ≡ 2 ^ j * 2 = pow-suc 2 j in
      let fits : 2 ^ j * 2 % word ≡ 2 ^ suc j = omega (arith, top, step) in
      rw (e, fits) (align_loop-some fuel (suc j) x (omega arith) (omega arith) small)
  | inr e ↦ rw e (j, refl, ground (arith, e))
]

-- align_pow2 gives a power of 2 that is at least the size wanted, up to 2^31; beyond that its loop has no
-- end.
pub align_pow2_lem :
    (x : ℕ) → x ≤ 2147483648 → (k : ℕ) × (align_pow2 x ≡ some (2 ^ k)) × (x ≤ 2 ^ k)
unfolding align_pow2
align_pow2_lem x small = align_loop-some 32 0 x (omega arith) (omega arith) small
