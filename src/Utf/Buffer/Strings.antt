-- ===== src/Utf/Buffer/Strings.antt =====
-- ase/aseutf16.cpp and ase/asestr.cpp: the strings that the conversions make.
use ase.Prelude.{
  ℕ, ◌*◌, ◌≤◌, ◌≡◌, refl, ap, ◌∙◌, ◌≢◌, inl, inr, Bool, true, false, Option, none, some, List, [],
  ◌++◌, append-nil, arith, length, All,
}
use ase.Utf.{ConvErr, Outcome, success, malformed, range, incomplete, bufferfull, uconv_8to16}
use ase.Utf.Scalar.{Scalar, utf8s, utf16s}
use ase.Utf.Text.{uconv_8to16-utf8s, uconv_16to8-utf16s, utf16s-le-utf8s, utf8s-le-utf16s}
use ase.Utf.Valid.{Ended}
use ase.Utf.Valid.Accepted8.{Byte, Accepted8, AllTaken8, uconv_8to16-Accepted8}
use ase.Utf.Valid.Accepted16.{Unit16, Accepted16, uconv_16to8-Accepted16}
use ase.Utf.Buffer.{
  Made, made, thrown, finish, forgive, leaves, create_u16buffer, made_16, made_8, utf16_string_init,
  init_16,
}
use ase.Utf.Buffer.Bounds.{loop-ends, WellFormed16, create_u16buffer-WellFormed16}

leaves-success : (permissive : Bool) → leaves permissive success ≡ true
unfolding leaves
leaves-success false = refl
leaves-success true = refl

made_16-success :
    (permissive : Bool) (out : List ℕ) → made_16 permissive (some (success, out)) ≡ some (made out)
unfolding made_16 finish forgive
made_16-success false out = refl
made_16-success true out = refl

create_u16buffer-utf8s :
    (permissive : Bool) (us : List ℕ)
    → All Scalar us
    → create_u16buffer permissive (utf8s us) ≡ some (success, utf16s us)
unfolding create_u16buffer
create_u16buffer-utf8s permissive us scalar =
    loop-ends (length (utf8s us)) permissive (utf8s us) (length (utf8s us)) success [] (utf16s us)
      (uconv_8to16-utf8s us (length (utf8s us)) scalar (utf16s-le-utf8s us))
      (leaves-success permissive)

-- ase_utf16_string of the UTF-8 encoding of a text of scalar values is its UTF-16 encoding, in both
-- modes.
pub utf16_string_init-utf8s :
    (us : List ℕ) (permissive : Bool)
    → All Scalar us
    → utf16_string_init (utf8s us) permissive ≡ some (made (utf16s us))
unfolding utf16_string_init
utf16_string_init-utf8s us permissive scalar =
    ap (made_16 permissive) (create_u16buffer-utf8s permissive us scalar)
    ∙ made_16-success permissive (utf16s us)

-- ase_string of the UTF-16 encoding of a text of scalar values is its UTF-8 encoding.
pub init_16-utf16s : (us : List ℕ) → All Scalar us → init_16 (utf16s us) ≡ some (made (utf8s us))
unfolding init_16 made_8 finish
init_16-utf16s us scalar =
    ap made_8
      (uconv_16to8-utf16s us (length (utf16s us) * 3) scalar (omega (arith, utf8s-le-utf16s us)))

-- What a conversion to UTF-16 makes: never a fuel error.
unfoldable pub Made16 : Bool → List ℕ → Option Made → Type 0
Made16 permissive str none = ⊥
Made16 false str (some (made s)) =
    (us : List ℕ) × All Scalar us × AllTaken8 us str × (s ≡ utf16s us)
Made16 false str (some (thrown e)) = e ≢ success
Made16 true str (some (made s)) =
    (us : List ℕ) × (e : ConvErr) × All Scalar us
    × (s ≡ utf16s us)
    × (length s ≤ length str)
    × (create_u16buffer true str ≡ some (e, s))
    × (e ≢ bufferfull)
Made16 true str (some (thrown e)) = e ≡ bufferfull

permissive-Made16 :
    (str : List ℕ) (o : Option (ConvErr × List ℕ))
    → create_u16buffer true str ≡ o
    → WellFormed16 (length str) o
    → Made16 true str (made_16 true o)
unfolding WellFormed16 Made16 made_16 finish forgive
permissive-Made16 str none k h = h
permissive-Made16 str (some (success, out)) k (us, scalar, same, fits) =
    (us, success, scalar, same, fits, k, ground arith)
permissive-Made16 str (some (malformed, out)) k (us, scalar, same, fits) =
    (us, malformed, scalar, same, fits, k, ground arith)
permissive-Made16 str (some (range, out)) k (us, scalar, same, fits) =
    (us, range, scalar, same, fits, k, ground arith)
permissive-Made16 str (some (incomplete, out)) k (us, scalar, same, fits) =
    (us, incomplete, scalar, same, fits, k, ground arith)
permissive-Made16 str (some (bufferfull, out)) k h = refl

-- Without the permissive mode the string is what one conversion accepts, and that is all of the input.
strict-Made16 :
    (str : List ℕ) (room : ℕ) (e : ConvErr) (rest out : List ℕ)
    → Accepted8 str room (some (e, rest, out))
    → Made16 false str (made_16 false (some (e, out)))
unfolding Accepted8 Made16 made_16 finish forgive Ended
strict-Made16 str room success rest out
      (us, taken, scalar, read, whole, same, fits, inl (_, all), refused) =
    let every : str ≡ taken = whole ∙ ap (λ (t : List ℕ). taken ++ t) all ∙ append-nil taken in
    (us, scalar, rw every read, same)
strict-Made16 str room success rest out
      (us, taken, scalar, read, whole, same, fits, inr (failed, _, _), refused) =
    absurd (failed refl)
strict-Made16 str room malformed rest out h = ground arith
strict-Made16 str room range rest out h = ground arith
strict-Made16 str room incomplete rest out h = ground arith
strict-Made16 str room bufferfull rest out h = ground arith

leaves-strict : (e : ConvErr) → leaves false e ≡ true
unfolding leaves
leaves-strict e = refl

strict_mode :
    (str : List ℕ) (o : Option Outcome)
    → uconv_8to16 str (length str) ≡ o
    → Accepted8 str (length str) o
    → Made16 false str (made_16 false (create_u16buffer false str))
unfolding create_u16buffer Accepted8
strict_mode str none h accepted = absurd accepted
strict_mode str (some (e, rest, out)) h accepted =
    rw (loop-ends (length str) false str (length str) e rest out h (leaves-strict e))
      (strict-Made16 str (length str) e rest out accepted)

-- A string that ase_utf16_string makes is the UTF-16 encoding of some scalar values. Without the
-- permissive mode the whole input is read as these values, as pmc_uconv_8to16 reads them, and of any
-- other input an exception is thrown; in permissive mode the string is the buffer, with at most as
-- many units as the input has bytes, and an exception is thrown for a full buffer and no other error.
pub utf16_string_init-Made16 :
    (str : List ℕ) (permissive : Bool)
    → All Byte str
    → Made16 permissive str (utf16_string_init str permissive)
unfolding utf16_string_init
utf16_string_init-Made16 str false all =
    strict_mode str (uconv_8to16 str (length str)) refl (uconv_8to16-Accepted8 str (length str) all)
utf16_string_init-Made16 str true all =
    permissive-Made16 str _ refl (create_u16buffer-WellFormed16 true str all)

-- What a conversion to UTF-8 makes.
unfoldable pub Made8 : List ℕ → Option Made → Type 0
Made8 str none = ⊥
Made8 str (some (made s)) = (us : List ℕ) × All Scalar us × (str ≡ utf16s us) × (s ≡ utf8s us)
Made8 str (some (thrown e)) = e ≢ success

made_8-Made8 :
    (str : List ℕ) (room : ℕ) (o : Option Outcome) → Accepted16 str room o → Made8 str (made_8 o)
unfolding Accepted16 Made8 made_8 finish Ended
made_8-Made8 str room none h = h
made_8-Made8 str room (some (success, rest, out))
      (us, scalar, whole, same, fits, inl (_, all), refused) =
    (us, scalar, whole ∙ ap (λ (t : List ℕ). utf16s us ++ t) all ∙ append-nil (utf16s us), same)
made_8-Made8 str room (some (success, rest, out))
      (us, scalar, whole, same, fits, inr (failed, _, _), refused) =
    absurd (failed refl)
made_8-Made8 str room (some (malformed, rest, out)) h = ground arith
made_8-Made8 str room (some (range, rest, out)) h = ground arith
made_8-Made8 str room (some (incomplete, rest, out)) h = ground arith
made_8-Made8 str room (some (bufferfull, rest, out)) h = ground arith

-- ase_string makes a string only of well-formed UTF-16: of the encoding of some scalar values, and
-- it is the UTF-8 encoding of the same values; of any other units an exception is thrown.
pub init_16-Made8 : (str : List ℕ) → All Unit16 str → Made8 str (init_16 str)
unfolding init_16
init_16-Made8 str all = made_8-Made8 str _ _ (uconv_16to8-Accepted16 str (length str * 3) all)
