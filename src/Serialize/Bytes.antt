-- ===== src/Serialize/Bytes.antt =====
-- ase/aseserialize.cpp: the object representation of an integer (memcpy on a little-endian machine).
use ase.Prelude.{
  ℕ, zero, suc, ◌+◌, ◌*◌, ◌/◌, ◌%◌, ◌^◌, ◌<◌, ◌≡◌, refl, List, [], ◌∷◌, arith, length, All,
}
use native.Mathlib.Nat.{pow-suc}

-- The first `w` bytes of an integer, the lowest first.
unfoldable pub to_bytes : ℕ → ℕ → List ℕ
to_bytes zero v = []
to_bytes (suc w) v = (v % 256) ∷ to_bytes w (v / 256)

unfoldable pub from_bytes : List ℕ → ℕ
from_bytes [] = 0
from_bytes (b ∷ bs) = b + 256 * from_bytes bs

pub length-to_bytes : (w v : ℕ) → length (to_bytes w v) ≡ w
unfolding to_bytes
length-to_bytes zero v = refl
length-to_bytes (suc w) v = omega (arith, length-to_bytes w (v / 256))

pub from_bytes-to_bytes : (w v : ℕ) → v < 256 ^ w → from_bytes (to_bytes w v) ≡ v
unfolding to_bytes from_bytes
from_bytes-to_bytes zero v h = omega arith
from_bytes-to_bytes (suc w) v h =
    omega (arith, pow-suc 256 w, from_bytes-to_bytes w (v / 256) (ground (arith, pow-suc 256 w)))

pub to_bytes-All : (w v : ℕ) → All (λ b. b < 256) (to_bytes w v)
unfolding to_bytes
to_bytes-All zero v = tt
to_bytes-All (suc w) v = (omega arith, to_bytes-All w (v / 256))
