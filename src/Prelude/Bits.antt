-- ===== src/Prelude/Bits.antt =====
-- The bitwise operations of C as arithmetic: low masks at every width, disjoint fields at every
-- width, and the high masks of one byte by a table of its 256 values.
use Prim.Native.Nat.{
  ℕ, zero, suc, ◌+◌, ◌-◌, ◌*◌, ◌/◌, ◌%◌, ◌^◌, ◌≤◌, ◌<◌, min, max, bit_and, bit_or, digits,
  bit_and-bitwise, bit_or-bitwise,
}
use mathlib.Core.Path.{◌≡◌, refl, ap}
use mathlib.Core.Bool.{Bool, true, false}
use native.Mathlib.Nat.{pow-suc, one-le-pow}
use native.Mathlib.Omega.{arith}
use ase.Prelude.Tests.{◌==◌, if◌then◌else◌}
use ase.Prelude.Order.{lt_wf}
use mathlib.Core.WellFounded

-- The digit recursion does not depend on how much fuel is left over.
module _ (rest : ℕ → ℕ) (op : ℕ → ℕ → ℕ) where
  digits_enough : (a n m b : ℕ) → a ≤ m → a ≤ n → digits rest op n a b ≡ digits rest op m a b
  digits_enough (suc a) zero m b low high = absurd (omega arith)
  digits_enough (suc a) (suc n) zero b low high = absurd (omega arith)
  digits_enough (suc a) (suc n) (suc m) b low high =
      let below = digits_enough (suc a / 2) n m (b / 2) (omega arith) (omega arith) in
      omega (arith, below)
  digits_enough zero zero zero b low high = refl
  digits_enough zero (suc n) zero b low high = refl
  digits_enough zero zero (suc m) b low high = refl
  digits_enough zero (suc n) (suc m) b low high = refl

-- The lowest digit of a conjunction and of a disjunction.
pub bit_and_step : (a b : ℕ) → bit_and a b ≡ bit_and (a / 2) (b / 2) * 2 + min (a % 2) (b % 2)
bit_and_step zero b = omega (arith, bit_and-bitwise 0 b, bit_and-bitwise 0 (b / 2))
bit_and_step (suc a) b =
    let same : digits (λ _. 0) min a (suc a / 2) (b / 2)
        ≡ digits (λ _. 0) min (suc a / 2) (suc a / 2) (b / 2) =
      digits_enough (λ _. 0) min (suc a / 2) a (suc a / 2) (b / 2) (omega arith) (omega arith) in
    omega (arith, bit_and-bitwise (suc a) b, bit_and-bitwise (suc a / 2) (b / 2), same)

pub bit_or_step : (a b : ℕ) → bit_or a b ≡ bit_or (a / 2) (b / 2) * 2 + max (a % 2) (b % 2)
bit_or_step zero b = omega (arith, bit_or-bitwise 0 b, bit_or-bitwise 0 (b / 2))
bit_or_step (suc a) b =
    let same : digits (λ y. y) max a (suc a / 2) (b / 2)
        ≡ digits (λ y. y) max (suc a / 2) (suc a / 2) (b / 2) =
      digits_enough (λ y. y) max (suc a / 2) a (suc a / 2) (b / 2) (omega arith) (omega arith) in
    omega (arith, bit_or-bitwise (suc a) b, bit_or-bitwise (suc a / 2) (b / 2), same)

halving {ℓ} : (P : ℕ → Type ℓ) → P 0 → ((n : ℕ) → P (suc n / 2) → P (suc n)) → (a : ℕ) → P a
halving P base step a = WellFounded.induction lt_wf {C = P} a go
  where
    go : (n : ℕ) → ((m : ℕ) → m < n → P m) → P n
    go zero ih = base
    go (suc n) ih = step n (ih (suc n / 2) (omega arith))

bit_and-zero : (a : ℕ) → bit_and a 0 ≡ 0
bit_and-zero = halving (λ a. bit_and a 0 ≡ 0) refl (λ n ih. omega (arith, bit_and_step (suc n) 0))

bit_or-zero : (a : ℕ) → bit_or a 0 ≡ a
bit_or-zero = halving (λ a. bit_or a 0 ≡ a) refl (λ n ih. omega (arith, bit_or_step (suc n) 0))

double_pow : (q k : ℕ) → q * 2 ^ suc k ≡ 2 * (q * 2 ^ k)
double_pow q k = omega (arith, ap (λ (t : ℕ). q * t) (pow-suc 2 k))

-- `x & (2^k - 1)` is the remainder.
pub bit_and_low : (k a : ℕ) → bit_and a (2 ^ k - 1) ≡ a % 2 ^ k
bit_and_low k a = ground (arith, one-le-pow k 2, fields k (a / 2 ^ k) (a % 2 ^ k))
  where
    fields : (k q r : ℕ) → r < 2 ^ k → bit_and (q * 2 ^ k + r) (2 ^ k - 1) ≡ r
    fields zero q r fits = ground (arith, bit_and-zero (q * 1 + r))
    fields (suc k) q r fits = ground (
      arith,
      double_pow q k,
      pow-suc 2 k,
      bit_and_step (q * 2 ^ suc k + r) (2 ^ suc k - 1),
      fields k q (r / 2),
    )

-- `(q << k) | r` is a sum when `r` has at most `k` digits.
pub bit_or_disjoint : (k q r : ℕ) → r < 2 ^ k → bit_or (q * 2 ^ k) r ≡ q * 2 ^ k + r
bit_or_disjoint zero q r fits = ground (arith, bit_or-zero q)
bit_or_disjoint (suc k) q r fits =
    ground (
      arith,
      double_pow q k,
      pow-suc 2 k,
      bit_or_step (q * 2 ^ suc k) r,
      bit_or_disjoint k q (r / 2),
    )

-- Two functions that agree on every value below a bound, checked by evaluation.
module _ (f g : ℕ → ℕ) where
  unfoldable pub agree : ℕ → Bool
  agree zero = true
  agree (suc n) = if f n == g n then agree n else false

  pub agree→eq : (n : ℕ) → agree n ≡ true → (i : ℕ) → i < n → f i ≡ g i
  unfolding agree
  agree→eq zero e i h = absurd (omega arith)
  agree→eq (suc n) e i h = ground (arith, agree→eq n (ground arith) i)

-- The high masks of a byte.
pub byte_and_80 : (b : ℕ) → b < 256 → bit_and b 0x80 ≡ b / 128 * 128
unfolding agree
byte_and_80 = agree→eq _ _ 256 refl

pub byte_and_c0 : (b : ℕ) → b < 256 → bit_and b 0xc0 ≡ b / 64 * 64
unfolding agree
byte_and_c0 = agree→eq _ _ 256 refl

pub byte_and_e0 : (b : ℕ) → b < 256 → bit_and b 0xe0 ≡ b / 32 * 32
unfolding agree
byte_and_e0 = agree→eq _ _ 256 refl

pub byte_and_f0 : (b : ℕ) → b < 256 → bit_and b 0xf0 ≡ b / 16 * 16
unfolding agree
byte_and_f0 = agree→eq _ _ 256 refl

pub byte_and_f8 : (b : ℕ) → b < 256 → bit_and b 0xf8 ≡ b / 8 * 8
unfolding agree
byte_and_f8 = agree→eq _ _ 256 refl
