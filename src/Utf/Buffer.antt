-- ===== src/Utf/Buffer.antt =====
-- ase/aseutf16.cpp and ase/asestr.cpp: the buffers of a conversion, and its exceptions.
pub mod Bounds
pub mod Strings
use ase.Prelude.{
  ℕ, zero, suc, ◌+◌, ◌-◌, ◌*◌, ◌/◌, ◌%◌, ◌^◌, ◌≤◌, ◌<◌, min, ◌≡◌, refl, sym, ap, ◌∙◌, ◌≢◌, ◌↔◌, ◌⊎◌,
  inl, inr, Bool, true, false, ◌&&◌, ◌||◌, not, Option, none, some, List, [], ◌∷◌, ◌++◌, map,
  append-nil, append_assoc, arith, bit_and, bit_or, ltb, leb, ◌==◌, if◌then◌else◌, ltb→lt, lt→ltb,
  leb→le, le→leb, ==_iff, ==_self, tests, Bool-cases, Option-cases, length, get_or, get_elem?, set,
  take, drop, replicate, All, length-append, length-take, length-drop, length-replicate, length-set,
  take-append-drop, take-append, drop-append, All-append,
}
use ase.Utf.{
  ConvErr, Outcome, success, malformed, range, incomplete, bufferfull, uconv_8to16, uconv_16to8,
}

unfoldable pub is_trailing_byte : ℕ → Bool
is_trailing_byte c = bit_and c 0xc0 == 0x80

-- The inner loop of create_u16buffer.
unfoldable pub skip_trailing : List ℕ → List ℕ
skip_trailing [] = []
skip_trailing (c ∷ r8) = let rest = skip_trailing r8 in if is_trailing_byte c then rest else c ∷ r8

-- The condition on which the loop of create_u16buffer is left.
unfoldable pub leaves : Bool → ConvErr → Bool
leaves false e = true
leaves true success = true
leaves true bufferfull = true
leaves true malformed = false
leaves true range = false
leaves true incomplete = false

-- What was written, the replacement character, and what the later turns of the loop write.
unfoldable pub replace : List ℕ → Option (ConvErr × List ℕ) → Option (ConvErr × List ℕ)
replace out none = none
replace out (some (e, out')) = some (e, out ++ 0xfffd ∷ out')

-- The loop of create_u16buffer at the input `r8` with `room` units left: its error and what it
-- writes from there on. `none` when the fuel is gone, which the program has no case for.
unfoldable pub u16buffer_loop : ℕ → Bool → List ℕ → ℕ → Option (ConvErr × List ℕ)
u16buffer_loop zero permissive r8 room = none
u16buffer_loop (suc fuel) permissive r8 room = elim (uconv_8to16 r8 room) [
  | none ↦ none
  | some (e, rest, out) ↦ elim (leaves permissive e) [
    | true ↦ some (e, out)
    | false ↦
        replace out
          (u16buffer_loop fuel permissive (skip_trailing (drop 1 rest)) (room - length out - 1))
  ]
]

-- create_u16buffer: the buffer has a place for every byte, and one for the closing zero.
unfoldable pub create_u16buffer : Bool → List ℕ → Option (ConvErr × List ℕ)
create_u16buffer permissive str = u16buffer_loop (suc (length str)) permissive str (length str)

-- The string, or the exception with the error of the conversion.
pub data Made : Type 0 where
  made : List ℕ → Made
  thrown : ConvErr → Made

unfoldable pub finish : ConvErr → List ℕ → Made
finish success out = made out
finish malformed out = thrown malformed
finish range out = thrown range
finish incomplete out = thrown incomplete
finish bufferfull out = thrown bufferfull

-- In permissive mode every error but a full buffer is forgotten.
unfoldable pub forgive : Bool → ConvErr → ConvErr
forgive false e = e
forgive true bufferfull = bufferfull
forgive true success = success
forgive true malformed = success
forgive true range = success
forgive true incomplete = success

-- ase_utf16_string::init, behind the call of create_u16buffer.
unfoldable pub made_16 : Bool → Option (ConvErr × List ℕ) → Option Made
made_16 permissive none = none
made_16 permissive (some (e, out)) = some (finish (forgive permissive e) out)

unfoldable pub utf16_string_init : List ℕ → Bool → Option Made
utf16_string_init str permissive = made_16 permissive (create_u16buffer permissive str)

-- ase_string::init_16, whose buffer has three bytes for every unit.
unfoldable pub made_8 : Option Outcome → Option Made
made_8 none = none
made_8 (some (e, rest, out)) = some (finish e out)

unfoldable pub init_16 : List ℕ → Option Made
init_16 str = made_8 (uconv_16to8 str (length str * 3))
