-- ===== src/Utf/Runs.antt =====
-- ase/aseutfconv.cpp, ase/aseutf16.cpp and ase/asestr.cpp: runs on concrete texts.
use ase.Prelude.{ℕ, ◌≤◌, ◌≡◌, refl, inl, inr, true, false, some, List, [], ◌∷◌, arith, length, All}
use ase.Utf.{
  success, bufferfull, uconv_8to16, uconv_16to8, uconv, write, turn_8to16, two_bytes, three_bytes,
  wrong_trail_byte,
}
use ase.Utf.Scalar.{Scalar, utf8s, utf16s, utf8, utf16}
use ase.Utf.Valid.Accepted8.{Byte, Accepted8, uconv_8to16-Accepted8}
use ase.Utf.Valid.Accepted16.{Unit16, Accepted16, uconv_16to8-Accepted16}
use ase.Utf.Buffer.{
  made, thrown, finish, forgive, leaves, replace, skip_trailing, is_trailing_byte, u16buffer_loop,
  create_u16buffer, made_16, utf16_string_init, init_16,
}
use ase.Utf.Buffer.Bounds.{WellFormed16, create_u16buffer-WellFormed16}
use ase.Utf.Buffer.Strings.{
  utf16_string_init-utf8s, init_16-utf16s, Made16, Made8, utf16_string_init-Made16, init_16-Made8,
}

-- One scalar value of each width.
abbrev text : List ℕ
text = 0x41 ∷ 0xe9 ∷ 0x3042 ∷ 0x1f600 ∷ []

text-Scalar : All Scalar text
unfolding Scalar
text-Scalar = (
  (omega arith, inl (omega arith)),
  (
    (omega arith, inl (omega arith)),
    ((omega arith, inl (omega arith)), ((omega arith, inr (omega arith)), tt)),
  ),
)

text-room : length (utf16s text) ≤ 5
unfolding utf16s utf16
text-room = omega arith

text-room8 : length (utf8s text) ≤ 10
unfolding utf8s utf8
text-room8 = omega arith

-- The second byte of a sequence of two is not tested: a quotation mark passes for a trailing byte.
loose_trail : uconv_8to16 (0xc3 ∷ 0x22 ∷ []) 2 ≡ some (success, [], 0xe2 ∷ [])
unfolding uconv_8to16 uconv turn_8to16 two_bytes write
loose_trail = refl

abbrev broken : List ℕ
broken = 0x41 ∷ 0xe3 ∷ 0x81 ∷ 0x41 ∷ []

broken-Byte : All Byte broken
broken-Byte = (omega arith, (omega arith, (omega arith, (omega arith, tt))))

uconv_8to16-Accepted8_example : Accepted8 broken 4 (uconv_8to16 broken 4)
uconv_8to16-Accepted8_example = uconv_8to16-Accepted8 broken 4 broken-Byte

abbrev lone : List ℕ
lone = 0x41 ∷ 0xd801 ∷ []

lone-Unit16 : All Unit16 lone
lone-Unit16 = (omega arith, (omega arith, tt))

uconv_16to8-Accepted16_example : Accepted16 lone 6 (uconv_16to8 lone 6)
uconv_16to8-Accepted16_example = uconv_16to8-Accepted16 lone 6 lone-Unit16

create_u16buffer-WellFormed16_example : WellFormed16 4 (create_u16buffer true broken)
create_u16buffer-WellFormed16_example = create_u16buffer-WellFormed16 true broken broken-Byte

broken-replaced : create_u16buffer true broken ≡ some (success, 0x41 ∷ 0xfffd ∷ 0x41 ∷ [])
unfolding create_u16buffer u16buffer_loop replace leaves skip_trailing uconv_8to16 uconv turn_8to16
    three_bytes wrong_trail_byte write is_trailing_byte
broken-replaced = refl

-- In permissive mode an incomplete sequence at the end is an exception when its first byte asks for
-- two units and only one place is left.
lone_lead : utf16_string_init (0xf0 ∷ []) true ≡ some (thrown bufferfull)
unfolding utf16_string_init made_16 finish forgive create_u16buffer u16buffer_loop leaves
    uconv_8to16 uconv turn_8to16
lone_lead = refl

utf16_string_init-utf8s_example : utf16_string_init (utf8s text) false ≡ some (made (utf16s text))
utf16_string_init-utf8s_example = utf16_string_init-utf8s text false text-Scalar

init_16-utf16s_example : init_16 (utf16s text) ≡ some (made (utf8s text))
init_16-utf16s_example = init_16-utf16s text text-Scalar

utf16_string_init-Made16_example : Made16 true broken (utf16_string_init broken true)
utf16_string_init-Made16_example = utf16_string_init-Made16 broken true broken-Byte

init_16-Made8_example : Made8 lone (init_16 lone)
init_16-Made8_example = init_16-Made8 lone lone-Unit16
