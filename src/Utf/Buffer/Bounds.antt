-- ===== src/Utf/Buffer/Bounds.antt =====
-- ase/aseutf16.cpp: create_u16buffer ends, stays within its buffer, and writes well-formed UTF-16.
use ase.Prelude.{
  ℕ, zero, suc, ◌-◌, ◌≤◌, ◌<◌, ◌≡◌, refl, sym, ap, ◌∙◌, ◌≢◌, inl, inr, Bool, true, false, Option,
  none, some, List, [], ◌∷◌, ◌++◌, append_assoc, arith, if◌then◌else◌, Bool-cases, length, drop,
  All, length-append, All-append,
}
use ase.Utf.{ConvErr, Outcome, success, malformed, range, incomplete, bufferfull, uconv_8to16}
use ase.Utf.Scalar.{Scalar, utf16, utf16s, utf16-one}
use mathlib.Core.Path.{subst}
use ase.Utf.Valid.{Ended, All-behind}
use ase.Utf.Valid.Accepted8.{Byte, Accepted8, uconv_8to16-Accepted8}
use ase.Utf.Buffer.{
  is_trailing_byte, skip_trailing, leaves, replace, u16buffer_loop, create_u16buffer,
}

pub utf16s-append : (us vs : List ℕ) → utf16s (us ++ vs) ≡ utf16s us ++ utf16s vs
unfolding utf16s
utf16s-append [] vs = refl
utf16s-append (u ∷ us) vs =
    ap (λ (t : List ℕ). utf16 u ++ t) (utf16s-append us vs)
    ∙ sym (append_assoc (utf16 u) (utf16s us) (utf16s vs))

skip_trailing-le : (r8 : List ℕ) → length (skip_trailing r8) ≤ length r8
unfolding skip_trailing
skip_trailing-le [] = omega arith
skip_trailing-le (c ∷ r8) = ground (arith, skip_trailing-le r8)

skip_trailing-Byte : (r8 : List ℕ) → All Byte r8 → All Byte (skip_trailing r8)
unfolding skip_trailing
skip_trailing-Byte [] h = tt
skip_trailing-Byte (c ∷ r8) h =
    elim (is_trailing_byte c) as (λ b. All Byte (if b then skip_trailing r8 else c ∷ r8)) [
      | true ↦ skip_trailing-Byte r8 h.1
      | false ↦ h
    ]

-- What a run of create_u16buffer's loop leaves in the buffer.
unfoldable pub WellFormed16 : ℕ → Option (ConvErr × List ℕ) → Type 0
WellFormed16 room none = ⊥
WellFormed16 room (some (e, out)) =
    (us : List ℕ) × All Scalar us × (out ≡ utf16s us) × (length out ≤ room)

replaced : (us vs : List ℕ) → utf16s (us ++ 0xfffd ∷ vs) ≡ utf16s us ++ 0xfffd ∷ utf16s vs
unfolding utf16s
replaced us vs =
    utf16s-append us (0xfffd ∷ vs) ∙ ap (λ (t : List ℕ). utf16s us ++ t) (utf16s-cons vs)
  where
    utf16s-cons : (vs : List ℕ) → utf16s (0xfffd ∷ vs) ≡ 0xfffd ∷ utf16s vs
    utf16s-cons vs = ap (λ (t : List ℕ). t ++ utf16s vs) (utf16-one 0xfffd (omega arith))

place_left :
    (room : ℕ) (e : ConvErr) (rest out : List ℕ)
    → Ended room e rest out
    → e ≢ success
    → e ≢ bufferfull
    → (1 ≤ length rest) × (length out < room)
unfolding Ended
place_left room e rest out (inl (h, all)) failed not_full = absurd (failed h)
place_left room e rest out (inr (h, some_unit, inl full)) failed not_full = absurd (not_full full)
place_left room e rest out (inr (h, some_unit, inr place)) failed not_full = (some_unit, place)

-- The loop goes on only behind an error at a byte, with a place for the replacement.
goes_on :
    (permissive : Bool) (room : ℕ) (e : ConvErr) (rest out : List ℕ)
    → leaves permissive e ≡ false
    → Ended room e rest out
    → (1 ≤ length rest) × (length out < room)
unfolding leaves
goes_on false room e rest out stays ended = ground arith
goes_on true room success rest out stays ended = ground arith
goes_on true room bufferfull rest out stays ended = ground arith
goes_on true room malformed rest out stays ended =
    place_left room malformed rest out ended (ground arith) (ground arith)
goes_on true room range rest out stays ended =
    place_left room range rest out ended (ground arith) (ground arith)
goes_on true room incomplete rest out stays ended =
    place_left room incomplete rest out ended (ground arith) (ground arith)

rest_fits :
    (r8 : List ℕ) (fuel : ℕ) (taken rest : List ℕ)
    → All Byte r8
    → length r8 < suc fuel
    → r8 ≡ taken ++ rest
    → 1 ≤ length rest
    → All Byte (skip_trailing (drop 1 rest)) × (length (skip_trailing (drop 1 rest)) < fuel)
rest_fits r8 fuel taken [] all enough whole some_byte = absurd (omega arith)
rest_fits r8 fuel taken (b ∷ rest) all enough whole some_byte = (
  skip_trailing-Byte rest
      (All-behind Byte taken (b ∷ rest) (subst (λ (xs : List ℕ). All Byte xs) whole all)).1,
  omega (arith, skip_trailing-le rest, ap length whole, length-append taken (b ∷ rest), enough),
)

replace-WellFormed16 :
    (us out : List ℕ) (room : ℕ) (o : Option (ConvErr × List ℕ))
    → All Scalar us
    → out ≡ utf16s us
    → length out < room
    → WellFormed16 (room - length out - 1) o
    → WellFormed16 room (replace out o)
unfolding WellFormed16 replace Scalar
replace-WellFormed16 us out room none scalar same place later = later
replace-WellFormed16 us out room (some (e, out')) scalar same place (vs, scalars, same', fits) = (
  us ++ 0xfffd ∷ vs,
  All-append Scalar us (0xfffd ∷ vs) scalar ((omega arith, inr (omega arith)), scalars),
  rw (same, same') (sym (replaced us vs)),
  omega (arith, length-append out (0xfffd ∷ out'), place, fits),
)

pub loop-ends :
    (fuel : ℕ) (permissive : Bool) (r8 : List ℕ) (room : ℕ) (e : ConvErr) (rest out : List ℕ)
    → uconv_8to16 r8 room ≡ some (e, rest, out)
    → leaves permissive e ≡ true
    → u16buffer_loop (suc fuel) permissive r8 room ≡ some (e, out)
unfolding u16buffer_loop
loop-ends fuel permissive r8 room e rest out h k = rw (h, k, u16buffer_loop) refl

loop-goes_on :
    (fuel : ℕ) (permissive : Bool) (r8 : List ℕ) (room : ℕ) (e : ConvErr) (rest out : List ℕ)
    → uconv_8to16 r8 room ≡ some (e, rest, out)
    → leaves permissive e ≡ false
    → u16buffer_loop (suc fuel) permissive r8 room
      ≡ replace out
          (u16buffer_loop fuel permissive (skip_trailing (drop 1 rest)) (room - length out - 1))
unfolding u16buffer_loop
loop-goes_on fuel permissive r8 room e rest out h k = rw (h, k, u16buffer_loop) refl

turn-WellFormed16 :
    (fuel : ℕ) (permissive : Bool) (r8 : List ℕ) (room : ℕ)
    → All Byte r8
    → length r8 < suc fuel
    → ((rest : List ℕ) (room' : ℕ)
        → All Byte rest
        → length rest < fuel
        → WellFormed16 room' (u16buffer_loop fuel permissive rest room'))
    → (o : Option Outcome) → uconv_8to16 r8 room ≡ o
    → Accepted8 r8 room o
    → WellFormed16 room (u16buffer_loop (suc fuel) permissive r8 room)
unfolding Accepted8 WellFormed16
turn-WellFormed16 fuel permissive r8 room all enough ih none h now = absurd now
turn-WellFormed16 fuel permissive r8 room all enough ih (some (e, rest, out)) h
      (us, taken, scalar, read, whole, same, fits, ended, refused) =
    elim (Bool-cases (leaves permissive e)) [
      | inl k ↦ rw (loop-ends fuel permissive r8 room e rest out h k) (us, scalar, same, fits)
      | inr k ↦
          let now = goes_on permissive room e rest out k ended in
          let left = rest_fits r8 fuel taken rest all enough whole now.0 in
          rw (loop-goes_on fuel permissive r8 room e rest out h k) (
            replace-WellFormed16 us out room _ scalar same now.1
              (ih (skip_trailing (drop 1 rest)) (room - length out - 1) left.0 left.1))
    ]

u16buffer_loop-WellFormed16 :
    (fuel : ℕ) (permissive : Bool) (r8 : List ℕ) (room : ℕ)
    → All Byte r8
    → length r8 < fuel
    → WellFormed16 room (u16buffer_loop fuel permissive r8 room)
u16buffer_loop-WellFormed16 zero permissive r8 room all enough = absurd (omega arith)
u16buffer_loop-WellFormed16 (suc fuel) permissive r8 room all enough =
    turn-WellFormed16 fuel permissive r8 room all enough
      (λ rest room' h k. u16buffer_loop-WellFormed16 fuel permissive rest room' h k)
      (uconv_8to16 r8 room) refl (uconv_8to16-Accepted8 r8 room all)

-- create_u16buffer ends at every input, in both modes: the units that it leaves in the buffer are
-- the UTF-16 encoding of some scalar values, and they are at most as many as the input has bytes,
-- so the closing zero fits as well.
pub create_u16buffer-WellFormed16 :
    (permissive : Bool) (str : List ℕ)
    → All Byte str
    → WellFormed16 (length str) (create_u16buffer permissive str)
unfolding create_u16buffer
create_u16buffer-WellFormed16 permissive str all =
    u16buffer_loop-WellFormed16 (suc (length str)) permissive str (length str) all (omega arith)
