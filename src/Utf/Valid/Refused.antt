-- ===== src/Utf/Valid/Refused.antt =====
-- ase/aseutfconv.cpp: where a loop stands at its end, it could not go on.
use ase.Utf.{Turn, ConvErr, advance, stop, uconv, write, Outcome}
use ase.Utf.Scalar.{Scalar}
use ase.Utf.Text.{uconv-advance}
use ase.Prelude.{
  ℕ, zero, suc, ◌+◌, ◌-◌, ◌≤◌, ◌≡◌, refl, sym, ap, ◌∙◌, ◌≢◌, Option, none, some, List, [], ◌∷◌,
  ◌++◌, arith, length, length-append,
}

-- What is left to read does not begin with the units `t` of a scalar value `u` for which the output buffer
-- has the places that `enc u` takes.
abbrev pub Refused : (ℕ → List ℕ → Type 0) → (ℕ → List ℕ) → ℕ → List ℕ → List ℕ → Type 0
Refused Taken enc room rest out = ¬ (
    (u : ℕ) × (t : List ℕ) × (more : List ℕ) × Scalar u
    × Taken u t
    × (rest ≡ t ++ more)
    × (length out + length (enc u) ≤ room))

module _ (turn : ℕ → List ℕ → ℕ → Turn) where
  unfoldable Stuck : ℕ → Option Outcome → Type 0
  Stuck room none = Unit
  Stuck room (some (e, [], out)) = Unit
  Stuck room (some (e, c ∷ r, out)) = turn c r (room - length out) ≡ stop e

  Stuck-write :
      (room : ℕ) (units : List ℕ) (o : Option Outcome)
      → Stuck (room - length units) o
      → Stuck room (write units o)
  unfolding Stuck write
  Stuck-write room units none h = tt
  Stuck-write room units (some (e, [], out)) h = tt
  Stuck-write room units (some (e, c ∷ r, out)) h =
      let left : room - length (units ++ out) ≡ room - length units - length out =
        omega (arith, length-append units out) in
      rw left h

  stopped_here :
      (fuel c : ℕ) (r : List ℕ) (room : ℕ) (e : ConvErr)
      → turn c r room ≡ stop e
      → uconv turn (suc fuel) (c ∷ r) room ≡ some (e, c ∷ r, [])
  unfolding uconv
  stopped_here fuel c r room e h = rw (h, uconv) refl

  step-Stuck :
      (fuel c : ℕ) (r : List ℕ) (room : ℕ) (t : Turn)
      → turn c r room ≡ t
      → ((rest : List ℕ) (room' : ℕ) → Stuck room' (uconv turn fuel rest room'))
      → Stuck room (uconv turn (suc fuel) (c ∷ r) room)
  unfolding Stuck
  step-Stuck fuel c r room (stop e) h ih =
      let whole : room - 0 ≡ room = omega arith in rw (stopped_here fuel c r room e h, whole) h
  step-Stuck fuel c r room (advance rest units) h ih =
      rw (uconv-advance turn fuel c r rest units room h) (Stuck-write room units _ (ih rest _))

  uconv-Stuck : (fuel : ℕ) (r : List ℕ) (room : ℕ) → Stuck room (uconv turn fuel r room)
  unfolding Stuck uconv
  uconv-Stuck fuel [] room = tt
  uconv-Stuck zero (c ∷ r) room = tt
  uconv-Stuck (suc fuel) (c ∷ r) room =
      step-Stuck fuel c r room (turn c r room) refl (uconv-Stuck fuel)

  not_nothing :
      (e : ConvErr) (rest units : List ℕ) (o : Option Outcome)
      → 1 ≤ length units
      → some (e, rest, []) ≢ write units o
  unfolding write
  not_nothing e rest units none some_unit h = ground (arith, h)
  not_nothing e rest units (some (e', rest', out)) some_unit h =
      let same : [] ≡ units ++ out = cc in
      omega (arith, ap length same, length-append units out, some_unit)

  module _ (Taken : ℕ → List ℕ → Type 0) (enc : ℕ → List ℕ)
      (some_taken : (u : ℕ) (t : List ℕ) → Taken u t → 1 ≤ length t)
      (some_enc : (u : ℕ) → 1 ≤ length (enc u))
      (reads : (u : ℕ) (t more : List ℕ) (room : ℕ)
        → Scalar u
        → Taken u t
        → length (enc u) ≤ room
        → uconv turn 1 (t ++ more) room
          ≡ write (enc u) (uconv turn 0 more (room - length (enc u)))) where
    Stuck-Refused :
        (room : ℕ) (e : ConvErr) (rest out : List ℕ)
        → Stuck room (some (e, rest, out))
        → Refused Taken enc room rest out
    unfolding Stuck
    Stuck-Refused room e [] out stuck (u, t, more, scalar, taken, whole, fits) =
        omega (arith, ap length whole, length-append t more, some_taken u t taken)
    Stuck-Refused room e (c ∷ r) out stuck (u, t, more, scalar, taken, whole, fits) =
        not_nothing e (c ∷ r) (enc u) _ (some_enc u) (
          sym (stopped_here 0 c r (room - length out) e stuck)
          ∙ ap (λ (xs : List ℕ). uconv turn 1 xs (room - length out)) whole
          ∙ reads u t more (room - length out) scalar taken (omega (arith, fits)))

    pub uconv-Refused :
        (fuel : ℕ) (r : List ℕ) (room : ℕ) (e : ConvErr) (rest out : List ℕ)
        → uconv turn fuel r room ≡ some (e, rest, out)
        → Refused Taken enc room rest out
    uconv-Refused fuel r room e rest out h =
        Stuck-Refused room e rest out (rw h at (uconv-Stuck fuel r room))
