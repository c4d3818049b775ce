-- ===== src/KarpRabin/Hash.antt =====
-- ase/gtcpp/karp_rabin.hpp: the rolling hash.
use native.Mathlib.Nat.{add-mul, mul_assoc, mul_comm, pow-suc, pow-zero, zero-mul}
use ase.KarpRabin.{word, pow, stream_hash, stream_hash_loop, stream_hash_diff}
use ase.Prelude.{
  ℕ, zero, suc, ◌+◌, ◌*◌, ◌/◌, ◌%◌, ◌^◌, ◌<◌, ◌≡◌, refl, sym, ap, ◌∙◌, List, [], ◌∷◌, ◌++◌, arith,
  length, get_or, take,
}

-- The number that a hash stands for, without the wrap-around.
value : ℕ → ℕ → List ℕ → ℕ
value mul v [] = v
value mul v (c ∷ s) = value mul (v * mul + c) s

mod_mul : (a b : ℕ) → a % word * b % word ≡ a * b % word
mod_mul a b =
    let parts : a ≡ word * (a / word) + a % word = omega arith in
    let product : a * b ≡ word * (a / word * b) + a % word * b =
      ap (λ t. t * b) parts
      ∙ add-mul (word * (a / word)) (a % word) b
      ∙ ap (λ t. t + a % word * b) (mul_assoc word (a / word) b) in
    omega (arith, product)

mod_step : (v mul c : ℕ) → (v % word * mul % word + c) % word ≡ (v * mul + c) % word
mod_step v mul c = omega (arith, mod_mul v mul)

stream_hash_loop-value :
    (mul v : ℕ) (s : List ℕ) → stream_hash_loop mul (v % word) s ≡ value mul v s % word
unfolding stream_hash_loop value
stream_hash_loop-value mul v [] = refl
stream_hash_loop-value mul v (c ∷ s) =
    rw (mod_step v mul c) (stream_hash_loop-value mul (v * mul + c) s)

stream_hash-value : (mul : ℕ) (s : List ℕ) → stream_hash mul s ≡ value mul 0 s % word
unfolding stream_hash
stream_hash-value mul s = stream_hash_loop-value mul 0 s

pow_mod : (x n : ℕ) → pow x n ≡ x ^ n % word
unfolding pow
pow_mod x zero = rw (pow-zero x) (omega arith)
pow_mod x (suc n) = rw (pow_mod x n, pow-suc x n) (mod_mul (x ^ n) x)

value_from : (mul v : ℕ) (s : List ℕ) → value mul v s ≡ v * mul ^ length s + value mul 0 s
unfolding value
value_from mul v [] = rw (pow-zero mul) (omega arith)
value_from mul v (c ∷ s) =
    let later = value_from mul (v * mul + c) s in
    let start = value_from mul (0 * mul + c) s in
    let spread = add-mul (v * mul) c (mul ^ length s) in
    let power : v * mul ^ suc (length s) ≡ v * mul * mul ^ length s =
      ap (λ t. v * t) (pow-suc mul (length s) ∙ mul_comm (mul ^ length s) mul)
      ∙ sym (mul_assoc v mul (mul ^ length s)) in
    let zero_times : 0 * mul + c ≡ c = omega (arith, zero-mul mul) in
    let begun = rw zero_times at start in omega (arith, later, begun, spread, power, zero_times)

value-snoc : (mul v : ℕ) (s : List ℕ) (c : ℕ) → value mul v (s ++ c ∷ []) ≡ value mul v s * mul + c
unfolding value
value-snoc mul v [] c = refl
value-snoc mul v (x ∷ s) c = value-snoc mul (v * mul + x) s c

-- A window without its first byte and with the byte behind it.
rolled :
    (mul s0 sn : ℕ) (xs : List ℕ)
    → stream_hash_diff mul (pow mul (suc (length xs))) (value mul 0 (s0 ∷ xs) % word) s0 sn
      ≡ (value mul 0 xs * mul + sn) % word
unfolding value stream_hash_diff
rolled mul s0 sn xs =
    let power = mul ^ length xs in
    let zero_times : 0 * mul + s0 ≡ s0 = omega (arith, zero-mul mul) in
    let first : value mul (0 * mul + s0) xs ≡ s0 * power + value mul 0 xs =
      value_from mul (0 * mul + s0) xs ∙ ap (λ t. t * power + value mul 0 xs) zero_times in
    let times : value mul (0 * mul + s0) xs * mul
        ≡ s0 * mul ^ suc (length xs) + value mul 0 xs * mul =
      ap (λ t. t * mul) first
      ∙ add-mul (s0 * power) (value mul 0 xs) mul
      ∙ ap (λ t. t + value mul 0 xs * mul)
          (mul_assoc s0 power mul ∙ ap (λ t. s0 * t) (sym (pow-suc mul (length xs)))) in
    let out : pow mul (suc (length xs)) * s0 % word ≡ s0 * mul ^ suc (length xs) % word =
      ap (λ t. t * s0 % word) (pow_mod mul (suc (length xs)))
      ∙ mod_mul (mul ^ suc (length xs)) s0
      ∙ ap (λ t. t % word) (mul_comm (mul ^ suc (length xs)) s0) in
    omega (arith, mod_mul (value mul (0 * mul + s0) xs) mul, times, out)

-- stream_hash_diff makes the hash of a window's bytes that of the next window's, the first byte taken
-- off and the byte behind them put on, for any multiplier and any length.
pub stream_hash_diff-stream_hash :
    (mul s0 sn : ℕ) (xs : List ℕ)
    → stream_hash_diff mul (pow mul (length (s0 ∷ xs))) (stream_hash mul (s0 ∷ xs)) s0 sn
      ≡ stream_hash mul (xs ++ sn ∷ [])
stream_hash_diff-stream_hash mul s0 sn xs =
    rw (stream_hash-value mul (s0 ∷ xs)) (rolled mul s0 sn xs)
    ∙ sym (stream_hash-value mul (xs ++ sn ∷ []) ∙ ap (λ t. t % word) (value-snoc mul 0 xs sn))

pub take-snoc : (k : ℕ) (s : List ℕ) → k < length s → take (suc k) s ≡ take k s ++ get_or s k 0 ∷ []
take-snoc k [] h = absurd (omega arith)
take-snoc zero (x ∷ s) h = refl
take-snoc (suc k) (x ∷ s) h = ap (λ (t : List ℕ). x ∷ t) (take-snoc k s (omega arith))
