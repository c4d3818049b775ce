-- ===== src/Utf/Valid/Accepted16.antt =====
-- ase/aseutfconv.cpp: what pmc_uconv_16to8 accepts.
use ase.Prelude.{
  ℕ, ◌+◌, ◌-◌, ◌*◌, ◌/◌, ◌%◌, ◌≤◌, ◌<◌, ◌≡◌, refl, sym, ap, ◌∙◌, ◌≢◌, ◌⊎◌, inl, inr, true, ◌&&◌,
  ◌||◌, Option, none, some, List, [], ◌∷◌, ◌++◌, arith, ltb, leb, Bool-cases, length, All,
}
use ase.Utf.{
  Turn, ConvErr, Outcome, advance, stop, success, malformed, incomplete, bufferfull, turn_16to8,
  surrogates, uconv_16to8, uconv, write,
}
use ase.Utf.Scalar.{
  Scalar, utf8, utf16, utf8s, utf16s, utf8-one, utf8-two, utf8-three, utf8-four, utf16-one,
  utf16-two,
}
use ase.Utf.Fields.{trail, lead2, lead3}
use ase.Utf.Narrow.{surrogates-pair}
use ase.Utf.Valid.Refused.{Refused, uconv-Refused}
use ase.Utf.Text.{uconv_16to8-Scalar, utf8_some, utf16_some}
use ase.Utf.Valid.{if_ok, AllTaken, encs, Ended, TurnOk, OutcomeOk, uconv-ok}

abbrev pub Unit16 : ℕ → Type 0
Unit16 c = c < 65536

abbrev pub Taken16 : ℕ → List ℕ → Type 0
Taken16 u t = t ≡ utf16 u

abbrev Ok : ℕ → List ℕ → ℕ → Turn → Type 0
Ok c r room t = TurnOk turn_16to8 Unit16 Taken16 utf8 c r room t

stopped :
    (c : ℕ) (r : List ℕ) (room : ℕ) (e : ConvErr)
    → e ≢ success
    → (e ≡ bufferfull) ⊎ (1 ≤ room)
    → Ok c r room (stop e)
unfolding TurnOk
stopped c r room e h k = (h, k)

single :
    (c : ℕ) (r : List ℕ) (room : ℕ) (units : List ℕ)
    → Scalar c
    → c < 65536
    → units ≡ utf8 c
    → length units ≤ room
    → Ok c r room (advance r units)
unfolding TurnOk
single c r room units scalar h e fits =
    (c, c ∷ [], scalar, sym (utf16-one c h), refl, omega arith, e, fits)

surrogates-nil : (c : ℕ) → surrogates c [] ≡ stop incomplete
unfolding surrogates
surrogates-nil c = refl

surrogates-wrong :
    (c c2 : ℕ) (rest : List ℕ)
    → (ltb c2 0xdc00 || leb 0xe000 c2) ≡ true
    → surrogates c (c2 ∷ rest) ≡ stop malformed
unfolding surrogates
surrogates-wrong c c2 rest h = rw h refl

pair-Ok :
    (c c2 : ℕ) (r : List ℕ) (room u : ℕ) (units : List ℕ)
    → 0xd800 ≤ c
    → c < 0xdc00
    → 0xdc00 ≤ c2
    → c2 < 0xe000
    → u ≡ c % 1024 * 1024 + c2 % 1024 + 0x10000
    → units ≡ utf8 u
    → length units ≤ room
    → Ok c (c2 ∷ r) room (advance r units)
unfolding TurnOk Scalar
pair-Ok c c2 r room u units h k h2 k2 e same fits = (
  u,
  c ∷ c2 ∷ [],
  (omega arith, inr (omega arith)),
  ground (arith, utf16-two u),
  refl,
  omega arith,
  same,
  fits,
)

surrogates-Ok :
    (c : ℕ) (r : List ℕ) (room : ℕ)
    → 0xd800 ≤ c
    → c < 0xdc00
    → 4 ≤ room
    → All Unit16 r
    → Ok c r room (surrogates c r)
surrogates-Ok c [] room h k enough all =
    rw surrogates-nil (stopped c [] room incomplete (ground arith) (inr (omega (arith, enough))))
surrogates-Ok c (c2 ∷ r) room h k enough all =
    let u = c % 1024 * 1024 + c2 % 1024 + 0x10000 in
    elim (Bool-cases (ltb c2 0xdc00 || leb 0xe000 c2)) [
      | inl g ↦
          rw (surrogates-wrong c c2 r g)
            (stopped c (c2 ∷ r) room malformed (ground arith) (inr (omega (arith, enough))))
      | inr g ↦ rw (surrogates-pair c c2 r u h k (ground arith) (ground arith) refl) (
          pair-Ok c c2 r room u _ h k (ground arith) (ground arith) refl
            (sym (utf8-four u (omega arith))) enough)
    ]

turn_16to8-Ok :
    (c : ℕ) (r : List ℕ) (room : ℕ) → All Unit16 (c ∷ r) → Ok c r room (turn_16to8 c r room)
unfolding turn_16to8 Scalar
turn_16to8-Ok c r room all =
    if_ok (Ok c r room) (leb room 0) (λ _. stopped c r room bufferfull (ground arith) (inl refl))
      (λ some_room.
        if_ok (Ok c r room) (ltb c 0x80)
          (λ h. single c r room _ (ground arith) all.0 (ground (arith, utf8-one c)) (ground arith))
          (λ h1.
            if_ok (Ok c r room) (ltb c 0x800)
              (λ h.
                if_ok (Ok c r room) (leb room 1)
                  (λ _. stopped c r room bufferfull (ground arith) (inl refl))
                  (λ g.
                    single c r room _ (ground arith) all.0
                      (ground (arith, utf8-two c, lead2 (c / 64), trail c)) (ground arith)))
              (λ h2.
                if_ok (Ok c r room) (leb 0xd800 c && ltb c 0xdc00)
                  (λ h.
                    if_ok (Ok c r room) (leb room 3)
                      (λ _. stopped c r room bufferfull (ground arith) (inl refl))
                      (λ g.
                        surrogates-Ok c r room (ground arith) (ground arith) (ground arith) all.1))
                  (λ h3.
                    if_ok (Ok c r room) (leb 0xdc00 c && ltb c 0xe000)
                      (λ _. stopped c r room malformed (ground arith) (inr (ground arith)))
                      (λ h4.
                        if_ok (Ok c r room) (leb room 2)
                          (λ _. stopped c r room bufferfull (ground arith) (inl refl))
                          (λ g.
                            single c r room _ (ground arith) all.0
                              (ground
                                (arith, utf8-three c, lead3 (c / 4096), trail (c / 64), trail c))
                              (ground arith)))))))

AllTaken-utf16s : (us t : List ℕ) → AllTaken turn_16to8 Unit16 Taken16 utf8 us t → t ≡ utf16s us
unfolding AllTaken utf16s
AllTaken-utf16s [] t h = h
AllTaken-utf16s (u ∷ us) t (t1, t2, whole, first, others) =
    rw (whole, first, AllTaken-utf16s us t2 others) refl

encs-utf8s : (us : List ℕ) → encs turn_16to8 Unit16 Taken16 utf8 us ≡ utf8s us
unfolding encs utf8s
encs-utf8s [] = refl
encs-utf8s (u ∷ us) = ap (λ (t : List ℕ). utf8 u ++ t) (encs-utf8s us)

-- What 16to8 did at its end, the program's error and the two positions being read from `o`.
unfoldable pub Accepted16 : List ℕ → ℕ → Option Outcome → Type 0
Accepted16 r16 room none = ⊥
Accepted16 r16 room (some (e, rest, out)) =
    (us : List ℕ) × All Scalar us
    × (r16 ≡ utf16s us ++ rest)
    × (out ≡ utf8s us)
    × (length out ≤ room)
    × Ended room e rest out
    × Refused Taken16 utf8 room rest out

accepted :
    (r16 : List ℕ) (room : ℕ) (o : Option Outcome)
    → ((e : ConvErr) (rest out : List ℕ)
        → o ≡ some (e, rest, out)
        → Refused Taken16 utf8 room rest out)
    → OutcomeOk turn_16to8 Unit16 Taken16 utf8 r16 room o
    → Accepted16 r16 room o
unfolding OutcomeOk Accepted16
accepted r16 room none refused h = h
accepted r16 room (some (e, rest, out)) refused (us, t, scalar, taken, whole, same, fits, done) = (
  us,
  scalar,
  whole ∙ ap (λ (x : List ℕ). x ++ rest) (AllTaken-utf16s us t taken),
  same ∙ encs-utf8s us,
  fits,
  done,
  refused e rest out refl,
)

some_taken : (u : ℕ) (t : List ℕ) → Taken16 u t → 1 ≤ length t
some_taken u t e = omega (arith, ap length e, utf16_some u)

reads :
    (u : ℕ) (t more : List ℕ) (room : ℕ)
    → Scalar u
    → Taken16 u t
    → length (utf8 u) ≤ room
    → uconv turn_16to8 1 (t ++ more) room
      ≡ write (utf8 u) (uconv turn_16to8 0 more (room - length (utf8 u)))
reads u t more room scalar e enough = rw e (uconv_16to8-Scalar u 0 more room scalar enough)

-- pmc_uconv_16to8 ends at every input and with every output buffer: what it has read is the UTF-16
-- encoding of some scalar values; what it has written is the UTF-8 encoding of the same values and
-- fits the buffer; and either it reports success with nothing left to read, or an error with a unit
-- left to read, where the buffer has a place left unless the error is bufferfull. It does not stop
-- early: what is left does not begin with the encoding of a scalar value whose bytes have places in
-- the buffer.
pub uconv_16to8-Accepted16 :
    (r16 : List ℕ) (room : ℕ) → All Unit16 r16 → Accepted16 r16 room (uconv_16to8 r16 room)
unfolding uconv_16to8
uconv_16to8-Accepted16 r16 room all =
    accepted r16 room _
      (uconv-Refused turn_16to8 Taken16 utf8 some_taken utf8_some reads (length r16) r16 room)
      (uconv-ok turn_16to8 Unit16 Taken16 utf8 turn_16to8-Ok (length r16) r16 room all
        (omega arith))
