-- ===== src/Serialize.antt =====
-- ase/aseserialize.cpp: the compact serialization of variants, and its errors.
mod Bytes
pub mod Lengths
pub mod Integers
pub mod Header
pub mod Received
pub mod Values
pub mod Steps
pub mod Reads
pub mod Writes
pub mod RoundTrip
pub mod Arrays
pub mod Compact
pub mod Total
pub mod Framing
pub mod Encode
pub mod Decode
mod Runs
use ase.Variant.{Variant}
use ase.Prelude.{ℕ, Bool, Option}

-- The exceptions by their names in the source; `illegal_operation` is thrown by enum_next of what
-- has no enumerator.
pub data Error : Type 0 where
  too_short int_too_large real_unsupported_size : Error
  object_ref_malformed object_ref_unsupported_size : Error
  unexpected_array_end_tag unexpected_assoc_end_tag wrong_assoc_key : Error
  invalid_tag too_large_data malformed illegal_operation : Error

-- `out_of_fuel` has no counterpart in the program.
pub data Result {ℓ} (T : Type ℓ) : Type ℓ where
  out_of_fuel : Result T
  ok : (value : T) → Result T
  err : (thrown : Error) → Result T

-- What follows in the source runs only behind a value.
infixl 5 ◌>>=◌
abbrev pub ◌>>=◌ {ℓ κ} : {S : Type ℓ} {T : Type κ} → Result S → (S → Result T) → Result T
out_of_fuel >>= next = out_of_fuel
err thrown >>= next = err thrown
ok value >>= next = next value

-- ase_object_serializer: whether an object is sent as a reference, and which. No serializer is
-- `λ _. none`.
abbrev pub Serializer : Type 0
Serializer = Variant → Option (Bool × ℕ)

-- ase_object_deserializer: the object that a reference stands for.
abbrev pub Deserializer : Type 0
Deserializer = Bool → ℕ → Result Variant
