-- ===== src/Utf/Valid.antt =====
-- ase/aseutfconv.cpp: what a loop around a sound body reads and writes, at any input.
pub mod Refused
pub mod Accepted8
pub mod Accepted16
use ase.Prelude.{
  ℕ, zero, suc, ◌+◌, ◌-◌, ◌*◌, ◌/◌, ◌%◌, ◌^◌, ◌≤◌, ◌<◌, min, ◌≡◌, refl, sym, ap, ◌∙◌, ◌≢◌, ◌↔◌, ◌⊎◌,
  inl, inr, Bool, true, false, ◌&&◌, ◌||◌, not, Option, none, some, List, [], ◌∷◌, ◌++◌, map,
  append-nil, append_assoc, arith, bit_and, bit_or, ltb, leb, ◌==◌, if◌then◌else◌, ltb→lt, lt→ltb,
  leb→le, le→leb, ==_iff, ==_self, tests, Bool-cases, Option-cases, length, get_or, get_elem?, set,
  take, drop, replicate, All, length-append, length-take, length-drop, length-replicate, length-set,
  take-append-drop, take-append, drop-append, All-append,
}
use mathlib.Core.Path.{subst}
use ase.Utf.{Turn, ConvErr, advance, stop, success, bufferfull, uconv, write, Outcome}
use ase.Utf.Scalar.{Scalar}
use ase.Utf.Text.{uconv-advance}

pub if_ok {ℓ} :
    (Q : Turn → Type ℓ) (b : Bool) {t f : Turn}
    → (b ≡ true → Q t)
    → (b ≡ false → Q f)
    → Q (if b then t else f)
if_ok Q true {t} {f} h k = h refl
if_ok Q false {t} {f} h k = k refl

pub All-behind {ℓ} : (P : ℕ → Type ℓ) (t rest : List ℕ) → All P (t ++ rest) → All P rest
All-behind P [] rest h = h
All-behind P (x ∷ t) rest h = All-behind P t rest h.1

-- A conversion has read everything, or it stands at a unit that it does not read; the output buffer
-- is then full for that unit, or it has a place left.
unfoldable pub Ended : ℕ → ConvErr → List ℕ → List ℕ → Type 0
Ended room e rest out =
    ((e ≡ success) × (rest ≡ []))
    ⊎ ((e ≢ success) × (1 ≤ length rest) × ((e ≡ bufferfull) ⊎ (length out < room)))

Ended-write :
    (room : ℕ) (e : ConvErr) (left units out : List ℕ)
    → Ended (room - length units) e left out
    → length units ≤ room
    → Ended room e left (units ++ out)
unfolding Ended
Ended-write room e left units out (inl h) fits = inl h
Ended-write room e left units out (inr (failed, some_unit, inl full)) fits =
    inr (failed, some_unit, inl full)
Ended-write room e left units out (inr (failed, some_unit, inr place)) fits =
    inr (failed, some_unit, inr (omega (arith, length-append units out, place, fits)))

-- `P` bounds the units that are read, `Taken u t` says that `t` is read as `u`, and `enc u` is
-- what is written for it.
module _ (turn : ℕ → List ℕ → ℕ → Turn) (P : ℕ → Type 0) (Taken : ℕ → List ℕ → Type 0)
    (enc : ℕ → List ℕ) where
  unfoldable pub AllTaken : List ℕ → List ℕ → Type 0
  AllTaken [] t = t ≡ []
  AllTaken (u ∷ us) t = (t1 : List ℕ) × (t2 : List ℕ) × (t ≡ t1 ++ t2) × Taken u t1 × AllTaken us t2

  unfoldable pub encs : List ℕ → List ℕ
  encs [] = []
  encs (u ∷ us) = enc u ++ encs us

  unfoldable pub TurnOk : ℕ → List ℕ → ℕ → Turn → Type 0
  TurnOk c r room (stop e) = (e ≢ success) × ((e ≡ bufferfull) ⊎ (1 ≤ room))
  TurnOk c r room (advance rest units) =
      (u : ℕ) × (t : List ℕ) × Scalar u
      × Taken u t
      × (c ∷ r ≡ t ++ rest)
      × (1 ≤ length t)
      × (units ≡ enc u)
      × (length units ≤ room)

  unfoldable pub OutcomeOk : List ℕ → ℕ → Option Outcome → Type 0
  OutcomeOk r room none = ⊥
  OutcomeOk r room (some (e, rest, out)) =
      (us : List ℕ) × (taken : List ℕ) × All Scalar us
      × AllTaken us taken
      × (r ≡ taken ++ rest)
      × (out ≡ encs us)
      × (length out ≤ room)
      × Ended room e rest out

  write-ok :
      (c : ℕ) (r : List ℕ) (room : ℕ) (rest units : List ℕ) (o : Option Outcome)
      → TurnOk c r room (advance rest units)
      → OutcomeOk rest (room - length units) o
      → OutcomeOk (c ∷ r) room (write units o)
  unfolding TurnOk OutcomeOk AllTaken encs write
  write-ok c r room rest units none now later = later
  write-ok c r room rest units (some (e, left, out))
        (u, t, scalar, taken, whole, some_unit, same, fits)
        (us, ts, scalars, takens, whole', same', fits', stopped) =
      (
        u ∷ us,
        t ++ ts,
        (scalar, scalars),
        (t, ts, refl, taken, takens),
        rw (whole, whole') (sym (append_assoc t ts left)),
        rw (same, same') refl,
        omega (arith, length-append units out, fits, fits'),
        Ended-write room e left units out stopped fits,
      )

  uconv-stop :
      (c : ℕ) (r : List ℕ) (room fuel : ℕ) (e : ConvErr)
      → turn c r room ≡ stop e
      → uconv turn (suc fuel) (c ∷ r) room ≡ some (e, c ∷ r, [])
  unfolding uconv
  uconv-stop c r room fuel e h = rw (h, uconv) refl

  stop-ok :
      (c : ℕ) (r : List ℕ) (room : ℕ) (e : ConvErr)
      → TurnOk c r room (stop e)
      → OutcomeOk (c ∷ r) room (some (e, c ∷ r, []))
  unfolding TurnOk OutcomeOk AllTaken encs Ended
  stop-ok c r room e failed =
      ([], [], tt, refl, refl, refl, omega arith, inr (failed.0, omega arith, failed.1))

  rest-ok :
      (fuel c : ℕ) (r : List ℕ) (room : ℕ) (rest units : List ℕ)
      → All P (c ∷ r)
      → length r ≤ fuel
      → TurnOk c r room (advance rest units)
      → All P rest × (length rest ≤ fuel)
  unfolding TurnOk
  rest-ok fuel c r room rest units all enough (u, t, scalar, taken, whole, some_unit, same, fits) =
      (
        All-behind P t rest (subst (λ (xs : List ℕ). All P xs) whole all),
        omega (arith, ap length whole, length-append t rest, some_unit, enough),
      )

  step-ok :
      (fuel c : ℕ) (r : List ℕ) (room : ℕ)
      → All P (c ∷ r)
      → length r ≤ fuel
      → ((rest : List ℕ) (room' : ℕ)
          → All P rest
          → length rest ≤ fuel
          → OutcomeOk rest room' (uconv turn fuel rest room'))
      → (t : Turn) → turn c r room ≡ t
      → TurnOk c r room t
      → OutcomeOk (c ∷ r) room (uconv turn (suc fuel) (c ∷ r) room)
  step-ok fuel c r room all enough ih (stop e) h now =
      rw (uconv-stop c r room fuel e h) (stop-ok c r room e now)
  step-ok fuel c r room all enough ih (advance rest units) h now =
      let behind = rest-ok fuel c r room rest units all enough now in
      rw (uconv-advance turn fuel c r rest units room h)
        (write-ok c r room rest units _ now (ih rest _ behind.0 behind.1))

  module _
      (turn_ok : (c : ℕ) (r : List ℕ) (room : ℕ)
        → All P (c ∷ r)
        → TurnOk c r room (turn c r room)) where
    pub uconv-ok :
        (fuel : ℕ) (r : List ℕ) (room : ℕ)
        → All P r
        → length r ≤ fuel
        → OutcomeOk r room (uconv turn fuel r room)
    unfolding OutcomeOk uconv AllTaken encs Ended
    uconv-ok fuel [] room all enough = ([], [], tt, refl, refl, refl, omega arith, inl (refl, refl))
    uconv-ok zero (c ∷ r) room all enough = absurd (omega arith)
    uconv-ok (suc fuel) (c ∷ r) room all enough =
        step-ok fuel c r room all (omega arith) (λ rest room' h k. uconv-ok fuel rest room' h k)
          (turn c r room) refl (turn_ok c r room all)
