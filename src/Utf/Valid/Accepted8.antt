-- ===== src/Utf/Valid/Accepted8.antt =====
-- ase/aseutfconv.cpp: what pmc_uconv_8to16 accepts.
use ase.Prelude.{
  ℕ, ◌+◌, ◌-◌, ◌*◌, ◌/◌, ◌%◌, ◌≤◌, ◌<◌, ◌≡◌, refl, sym, ap, ◌∙◌, ◌≢◌, ◌⊎◌, inl, inr, ◌&&◌, ◌||◌,
  Option, none, some, List, [], ◌∷◌, ◌++◌, arith, bit_and, ltb, leb, ◌==◌, length, All,
}
use ase.Prelude.Bits.{byte_and_80, byte_and_e0, byte_and_f0, byte_and_f8}
use ase.Utf.{
  Turn, ConvErr, Outcome, advance, stop, success, malformed, range, incomplete, bufferfull,
  turn_8to16, wrong_trail_byte, two_bytes, three_bytes, four_bytes, uconv_8to16, uconv, write,
}
use ase.Utf.Scalar.{
  Scalar, utf8, utf16, utf16s, utf8-one, utf8-three, utf8-four, utf16-one, utf16-two,
}
use ase.Utf.Fields.{low10, two_fields, three_fields, four_fields, trail_ok}
use ase.Utf.Valid.Refused.{Refused, uconv-Refused}
use ase.Utf.Text.{uconv-advance, uconv_8to16-Scalar, utf8_some, utf16_some}
use ase.Utf.Widen.{turn_8to16-two}
use ase.Utf.Valid.{if_ok, AllTaken, encs, Ended, TurnOk, OutcomeOk, uconv-ok}

abbrev pub Byte : ℕ → Type 0
Byte c = c < 256

-- The bytes that are read as `u`: its encoding, or two bytes of which the second has the low six
-- bits of the trailing byte, and may have any two bits above them.
unfoldable pub Taken8 : ℕ → List ℕ → Type 0
Taken8 u t =
    (t ≡ utf8 u)
    ⊎ ((c2 : ℕ) × (128 ≤ u) × (u < 2048) × (t ≡ (192 + u / 64) ∷ c2 ∷ []) × (c2 % 64 ≡ u % 64))

abbrev Ok : ℕ → List ℕ → ℕ → Turn → Type 0
Ok c r room t = TurnOk turn_8to16 Byte Taken8 utf16 c r room t

stopped :
    (c : ℕ) (r : List ℕ) (room : ℕ) (e : ConvErr)
    → e ≢ success
    → (e ≡ bufferfull) ⊎ (1 ≤ room)
    → Ok c r room (stop e)
unfolding TurnOk
stopped c r room e h k = (h, k)

one-Ok : (c : ℕ) (r : List ℕ) (room : ℕ) → c < 128 → 1 ≤ room → Ok c r room (advance r (c ∷ []))
unfolding TurnOk Scalar Taken8
one-Ok c r room h enough = (
  c,
  c ∷ [],
  (omega arith, inl (omega arith)),
  inl (sym (utf8-one c h)),
  refl,
  omega arith,
  sym (utf16-one c (omega arith)),
  enough,
)

two-Ok :
    (c : ℕ) (r : List ℕ) (room : ℕ)
    → 192 ≤ c
    → c < 224
    → 1 ≤ room
    → All Byte r
    → Ok c r room (two_bytes c r)
unfolding two_bytes Scalar TurnOk Taken8
two-Ok c [] room h k enough all =
    stopped c [] room incomplete (ground arith) (inr (omega (arith, enough)))
two-Ok c (c2 ∷ r) room h k enough all = rw (two_fields c c2) (
    if_ok (Ok c (c2 ∷ r) room) (ltb (c % 32 * 64 + c2 % 64) 128)
      (λ _. stopped c (c2 ∷ r) room range (ground arith) (inr (omega (arith, enough))))
      (λ g. (
        c % 32 * 64 + c2 % 64,
        c ∷ c2 ∷ [],
        (omega arith, inl (omega arith)),
        inr (c2, ground arith, omega arith, ground arith, omega arith),
        refl,
        omega arith,
        sym (utf16-one _ (omega arith)),
        enough,
      )))

three-Ok :
    (c : ℕ) (r : List ℕ) (room : ℕ)
    → 224 ≤ c
    → c < 240
    → 1 ≤ room
    → All Byte r
    → Ok c r room (three_bytes c r)
unfolding three_bytes Scalar TurnOk Taken8
three-Ok c [] room h k enough all =
    stopped c [] room incomplete (ground arith) (inr (omega (arith, enough)))
three-Ok c (c2 ∷ []) room h k enough all =
    stopped c (c2 ∷ []) room incomplete (ground arith) (inr (omega (arith, enough)))
three-Ok c (c2 ∷ c3 ∷ r) room h k enough all =
    let u = c % 16 * 4096 + c2 % 64 * 64 + c3 % 64 in
    let Q = Ok c (c2 ∷ c3 ∷ r) room in
    rw (three_fields c c2 c3) (
      if_ok Q (wrong_trail_byte c2 || wrong_trail_byte c3)
        (λ _. stopped c (c2 ∷ c3 ∷ r) room malformed (ground arith) (inr (omega (arith, enough))))
        (λ trails.
          if_ok Q (ltb u 2048 || (leb 0xd800 u && ltb u 0xe000))
            (λ _. stopped c (c2 ∷ c3 ∷ r) room range (ground arith) (inr (omega (arith, enough))))
            (λ g. (
              u,
              c ∷ c2 ∷ c3 ∷ [],
              (omega arith, ground arith),
              inl (ground (arith, trail_ok c2, trail_ok c3, utf8-three u)),
              refl,
              omega arith,
              ground (arith, utf16-one u),
              enough,
            ))))

four-Ok :
    (c : ℕ) (r : List ℕ) (room : ℕ)
    → 240 ≤ c
    → c < 248
    → 2 ≤ room
    → All Byte r
    → Ok c r room (four_bytes c r)
unfolding four_bytes Scalar TurnOk Taken8
four-Ok c [] room h k enough all =
    stopped c [] room incomplete (ground arith) (inr (omega (arith, enough)))
four-Ok c (c2 ∷ []) room h k enough all =
    stopped c (c2 ∷ []) room incomplete (ground arith) (inr (omega (arith, enough)))
four-Ok c (c2 ∷ c3 ∷ []) room h k enough all =
    stopped c (c2 ∷ c3 ∷ []) room incomplete (ground arith) (inr (omega (arith, enough)))
four-Ok c (c2 ∷ c3 ∷ c4 ∷ r) room h k enough all =
    let u = c % 8 * 262144 + c2 % 64 * 4096 + c3 % 64 * 64 + c4 % 64 in
    let Q = Ok c (c2 ∷ c3 ∷ c4 ∷ r) room in
    rw (four_fields c c2 c3 c4) (
      if_ok Q (wrong_trail_byte c2 || wrong_trail_byte c3 || wrong_trail_byte c4)
        (λ _.
          stopped c (c2 ∷ c3 ∷ c4 ∷ r) room malformed (ground arith) (inr (omega (arith, enough))))
        (λ trails.
          if_ok Q (ltb u 0x10000 || ltb 0x10ffff u)
            (λ _.
              stopped c (c2 ∷ c3 ∷ c4 ∷ r) room range (ground arith) (inr (omega (arith, enough))))
            (λ g. (
              u,
              c ∷ c2 ∷ c3 ∷ c4 ∷ [],
              (ground arith, inr (ground arith)),
              inl (ground (arith, trail_ok c2, trail_ok c3, trail_ok c4, utf8-four u)),
              refl,
              omega arith,
              ground (arith, low10 (u - 0x10000), utf16-two u),
              enough,
            ))))

turn_8to16-Ok :
    (c : ℕ) (r : List ℕ) (room : ℕ) → All Byte (c ∷ r) → Ok c r room (turn_8to16 c r room)
unfolding turn_8to16
turn_8to16-Ok c r room all =
    let Q = Ok c r room in
    if_ok Q (leb room 0) (λ _. stopped c r room bufferfull (ground arith) (inl refl))
      (λ some_room.
        if_ok Q (bit_and c 0x80 == 0)
          (λ h. one-Ok c r room (ground (arith, byte_and_80 c, all.0)) (ground arith))
          (λ h1.
            if_ok Q (bit_and c 0xe0 == 0xc0)
              (λ h.
                two-Ok c r room (ground (arith, byte_and_e0 c, all.0))
                  (ground (arith, byte_and_e0 c, all.0)) (ground arith) all.1)
              (λ h2.
                if_ok Q (bit_and c 0xf0 == 0xe0)
                  (λ h.
                    three-Ok c r room (ground (arith, byte_and_f0 c, all.0))
                      (ground (arith, byte_and_f0 c, all.0)) (ground arith) all.1)
                  (λ h3.
                    if_ok Q (bit_and c 0xf8 == 0xf0)
                      (λ h.
                        if_ok Q (leb room 1)
                          (λ _. stopped c r room bufferfull (ground arith) (inl refl))
                          (λ g.
                            four-Ok c r room (ground (arith, byte_and_f8 c, all.0))
                              (ground (arith, byte_and_f8 c, all.0)) (ground arith) all.1))
                      (λ h4. stopped c r room malformed (ground arith) (inr (ground arith)))))))

unfoldable pub AllTaken8 : List ℕ → List ℕ → Type 0
AllTaken8 [] t = t ≡ []
AllTaken8 (u ∷ us) t =
    (t1 : List ℕ) × (t2 : List ℕ) × (t ≡ t1 ++ t2) × Taken8 u t1 × AllTaken8 us t2

takens : (us t : List ℕ) → AllTaken turn_8to16 Byte Taken8 utf16 us t → AllTaken8 us t
unfolding AllTaken AllTaken8
takens [] t h = h
takens (u ∷ us) t (t1, t2, whole, first, others) = (t1, t2, whole, first, takens us t2 others)

encs-utf16s : (us : List ℕ) → encs turn_8to16 Byte Taken8 utf16 us ≡ utf16s us
unfolding encs utf16s
encs-utf16s [] = refl
encs-utf16s (u ∷ us) = ap (λ (t : List ℕ). utf16 u ++ t) (encs-utf16s us)

-- What 8to16 did at its end: the bytes `taken` were read, as the scalar values `us`.
unfoldable pub Accepted8 : List ℕ → ℕ → Option Outcome → Type 0
Accepted8 r8 room none = ⊥
Accepted8 r8 room (some (e, rest, out)) =
    (us : List ℕ) × (taken : List ℕ) × All Scalar us
    × AllTaken8 us taken
    × (r8 ≡ taken ++ rest)
    × (out ≡ utf16s us)
    × (length out ≤ room)
    × Ended room e rest out
    × Refused Taken8 utf16 room rest out

accepted :
    (r8 : List ℕ) (room : ℕ) (o : Option Outcome)
    → ((e : ConvErr) (rest out : List ℕ)
        → o ≡ some (e, rest, out)
        → Refused Taken8 utf16 room rest out)
    → OutcomeOk turn_8to16 Byte Taken8 utf16 r8 room o
    → Accepted8 r8 room o
unfolding OutcomeOk Accepted8
accepted r8 room none refused h = h
accepted r8 room (some (e, rest, out)) refused (us, t, scalar, taken, whole, same, fits, done) = (
  us,
  t,
  scalar,
  takens us t taken,
  whole,
  same ∙ encs-utf16s us,
  fits,
  done,
  refused e rest out refl,
)

some_taken : (u : ℕ) (t : List ℕ) → Taken8 u t → 1 ≤ length t
unfolding Taken8
some_taken u t (inl e) = omega (arith, ap length e, utf8_some u)
some_taken u t (inr (c2, h, k, e, low)) = omega (arith, ap length e)

two_bytes-low :
    (u c2 : ℕ) (more : List ℕ)
    → 128 ≤ u
    → u < 2048
    → c2 % 64 ≡ u % 64
    → two_bytes (192 + u / 64) (c2 ∷ more) ≡ advance more (u ∷ [])
unfolding two_bytes
two_bytes-low u c2 more h k low = ground (arith, two_fields (192 + u / 64) c2, low)

reads :
    (u : ℕ) (t more : List ℕ) (room : ℕ)
    → Scalar u
    → Taken8 u t
    → length (utf16 u) ≤ room
    → uconv turn_8to16 1 (t ++ more) room
      ≡ write (utf16 u) (uconv turn_8to16 0 more (room - length (utf16 u)))
unfolding Taken8
reads u t more room scalar (inl e) enough = rw e (uconv_8to16-Scalar u 0 more room scalar enough)
reads u t more room scalar (inr (c2, h, k, e, low)) enough =
    let one = utf16-one u (omega (arith, k)) in
    let some_room : 1 ≤ room = omega (arith, ap length one, enough) in
    let branch =
      turn_8to16-two (192 + u / 64) (c2 ∷ more) room (omega arith) (omega (arith, k)) some_room in
    rw (e, one) (uconv-advance turn_8to16 0 _ _ _ _ room (branch ∙ two_bytes-low u c2 more h k low))

-- pmc_uconv_8to16 ends at every input and with every output buffer: what it has read is the UTF-8
-- encoding of some scalar values, but for the two high bits of the second byte of a sequence of
-- two; what it has written is the UTF-16 encoding of the same values and fits the buffer; and
-- either it reports success with nothing left to read, or an error with a unit left to read, where
-- the buffer has a place left unless the error is bufferfull. It does not stop early: what is left
-- does not begin with bytes that are read as a scalar value whose units have places in the buffer.
pub uconv_8to16-Accepted8 :
    (r8 : List ℕ) (room : ℕ) → All Byte r8 → Accepted8 r8 room (uconv_8to16 r8 room)
unfolding uconv_8to16
uconv_8to16-Accepted8 r8 room all =
    accepted r8 room _
      (uconv-Refused turn_8to16 Taken8 utf16 some_taken utf16_some reads (length r8) r8 room)
      (uconv-ok turn_8to16 Byte Taken8 utf16 turn_8to16-Ok (length r8) r8 room all (omega arith))
