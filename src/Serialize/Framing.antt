-- ===== src/Serialize/Framing.antt =====
-- ase/aseserialize.cpp: the length that ase_deserialize_compact_get_length finds in the first bytes
-- is the number of bytes that the reader takes.
use ase.Prelude.{
  ℕ, suc, ◌+◌, ◌*◌, ◌%◌, ◌^◌, ◌≤◌, ◌<◌, ◌≡◌, ap, ◌≢◌, inl, inr, true, false, some, List, [], ◌∷◌,
  arith, bit_and, ◌==◌, Bool-cases, length, take, drop, All, length-take, length-drop,
}
use ase.Variant.{Variant}
use ase.Serialize.{Result, ok, Deserializer, ◌>>=◌}
use ase.Prelude.Bits.{bit_and_low}
use native.Mathlib.Nat.{pow-le-pow_right}
use ase.Serialize.Bytes.{from_bytes}
use ase.Serialize.Integers.{from_bytes-lt, take-All}
use ase.Serialize.Reads.{chain_ok, ok_injective}
use ase.Serialize.Decode.{
  deserialize, read_header, split_data, long_header, get_length, Header, immediate, sized, imm_void,
  imm_false, imm_true, imm_array, imm_assoc, imm_invalid, int_tag, real_tag, obj_tag, str_tag,
  array_tag, assoc_tag, unknown_tag,
}

-- The bytes behind a header.
left_of : Header → List ℕ
left_of (immediate i rest) = rest
left_of (sized t bytes rest) = rest

-- A header that is not the begin of a bracketed array or map.
unfoldable pub Counted : Header → Type 0
Counted (immediate imm_array rest) = ⊥
Counted (immediate imm_assoc rest) = ⊥
Counted (immediate i rest) = Unit
Counted (sized t bytes rest) = Unit

split_data-left :
    (typetag n : ℕ) (rp : List ℕ) (hd : Header)
    → split_data typetag n rp ≡ ok hd
    → n + length (left_of hd) ≡ length rp
unfolding split_data left_of
split_data-left typetag n rp hd e = ground (arith, length-drop n rp)

length_fits :
    (lens : List ℕ) (k : ℕ) → All (λ b. b < 256) lens → length lens ≤ k → from_bytes lens < 256 ^ k
length_fits lens k h hk =
    omega (arith, from_bytes-lt lens h, pow-le-pow_right {n = 256} (omega arith) hk)

module _ (tag : ℕ) (rp : List ℕ) (bytes : All (λ b. b < 256) rp) where
  long_header-left :
      (hd : Header)
      → long_header tag rp ≡ ok hd
      → let n = bit_and tag 0x07 in
        (from_bytes (take n rp) + n + length (left_of hd) ≡ length rp)
        × (n ≤ 7)
        × (from_bytes (take n rp) < 256 ^ 7)
        × (n ≤ length rp)
  unfolding long_header
  long_header-left hd e =
      let n = bit_and tag 0x07 in
      let low : n ≡ tag % 8 = bit_and_low 3 tag in
      let len : ℕ = from_bytes (take n rp) in
      let room : n ≤ length rp = ground arith in
      let behind : split_data (bit_and (tag * 4) 0xe0) len (drop n rp) ≡ ok hd = ground arith in
      (
        omega (
          arith,
          split_data-left (bit_and (tag * 4) 0xe0) len (drop n rp) hd behind,
          length-drop n rp,
        ),
        omega arith,
        length_fits (take n rp) 7 (take-All n rp bytes) (omega (arith, length-take n rp)),
        room,
      )

-- The three forms of the first byte, as the reader and get_length tell them apart.
module _ (tag : ℕ) (rp : List ℕ) (hd : Header) (e : read_header (tag ∷ rp) ≡ ok hd) where
  immediate_form : (bit_and tag 0xf0 == 0xf0) ≡ true → left_of hd ≡ rp
  unfolding read_header left_of
  immediate_form q = ground arith

  short_form_data :
      (bit_and tag 0xf0 == 0xf0) ≡ false
      → (bit_and tag 0xc0 == 0xc0) ≡ false
      → split_data (bit_and tag 0xe0) (bit_and tag 0x1f) rp ≡ ok hd
  unfolding read_header
  short_form_data q q' = ground arith

  long_form_data :
      (bit_and tag 0xf0 == 0xf0) ≡ false
      → (bit_and tag 0xc0 == 0xc0) ≡ true
      → long_header tag rp ≡ ok hd
  unfolding read_header
  long_form_data q q' = ground arith

module _ (tag : ℕ) (rp : List ℕ) where
  get_length-immediate : (bit_and tag 0xf0 == 0xf0) ≡ true → get_length (tag ∷ rp) ≡ some (1, false)
  unfolding get_length
  get_length-immediate q = ground arith

  get_length-short_form :
      (bit_and tag 0xf0 == 0xf0) ≡ false
      → (bit_and tag 0xc0 == 0xc0) ≡ false
      → get_length (tag ∷ rp) ≡ some (bit_and tag 0x1f + 1, false)
  unfolding get_length
  get_length-short_form q q' = ground arith

  get_length-long_form :
      (bit_and tag 0xf0 == 0xf0) ≡ false
      → (bit_and tag 0xc0 == 0xc0) ≡ true
      → bit_and tag 0x07 ≤ 7
      → bit_and tag 0x07 ≤ length rp
      → from_bytes (take (bit_and tag 0x07) rp) < 256 ^ 7
      → get_length (tag ∷ rp)
        ≡ some (from_bytes (take (bit_and tag 0x07) rp) + bit_and tag 0x07 + 1, false)
  unfolding get_length
  get_length-long_form q q' h h' small = ground arith

-- The length and what is left make up the input, for every header that is read.
read_header-get_length :
    (rp : List ℕ) (hd : Header)
    → All (λ b. b < 256) rp
    → read_header rp ≡ ok hd
    → (n : ℕ) × (get_length rp ≡ some (n, false)) × (n + length (left_of hd) ≡ length rp)
read_header-get_length [] hd bytes e = absurd (not_empty e)
  where
    not_empty : read_header [] ≢ ok hd
    not_empty h = unfold read_header in cc
read_header-get_length (tag ∷ rp) hd bytes e = elim (Bool-cases (bit_and tag 0xf0 == 0xf0)) [
  | inl q ↦
      (1, get_length-immediate tag rp q, omega (arith, ap length (immediate_form tag rp hd e q)))
  | inr q ↦ elim (Bool-cases (bit_and tag 0xc0 == 0xc0)) [
    | inr q' ↦ (
      bit_and tag 0x1f + 1,
      get_length-short_form tag rp q q',
      omega (arith, split_data-left _ _ rp hd (short_form_data tag rp hd e q q')),
    )
    | inl q' ↦
        let facts = long_header-left tag rp bytes.1 hd (long_form_data tag rp hd e q q') in
        (
          from_bytes (take (bit_and tag 0x07) rp) + bit_and tag 0x07 + 1,
          get_length-long_form tag rp q q' facts.1 facts.3 facts.2,
          omega (arith, facts.0),
        )
  ]
]

-- A step that does not change what is left.
bind-left {ℓ} :
    {A : Type ℓ} (m : Result A) (g : A → Variant) (rest rest' : List ℕ) (v : Variant)
    → ◌>>=◌ {T = Variant × List ℕ} m (λ a. ok (g a, rest)) ≡ ok (v, rest')
    → rest ≡ rest'
bind-left m g rest rest' v e =
    let (a, _, h) = chain_ok m _ e in ap (λ (p : Variant × List ℕ). p.1) (ok_injective h)

-- A value that is no bracketed array or map leaves exactly what is behind its header and its data.
deserialize-left :
    (ou : Deserializer) (f : ℕ) (rp : List ℕ) (hd : Header) (v : Variant) (rest : List ℕ)
    → read_header rp ≡ ok hd
    → Counted hd
    → deserialize ou (suc f) rp ≡ ok (v, rest)
    → left_of hd ≡ rest
unfolding deserialize Counted left_of
deserialize-left ou f rp (immediate imm_void r) v rest q c e = cc (rw q at e)
deserialize-left ou f rp (immediate imm_false r) v rest q c e = cc (rw q at e)
deserialize-left ou f rp (immediate imm_true r) v rest q c e = cc (rw q at e)
deserialize-left ou f rp (immediate imm_array r) v rest q c e = absurd c
deserialize-left ou f rp (immediate imm_assoc r) v rest q c e = absurd c
deserialize-left ou f rp (immediate imm_invalid r) v rest q c e = cc (rw q at e)
deserialize-left ou f rp (sized int_tag b r) v rest q c e = bind-left _ _ r rest v (rw q at e)
deserialize-left ou f rp (sized real_tag b r) v rest q c e = bind-left _ _ r rest v (rw q at e)
deserialize-left ou f rp (sized obj_tag b r) v rest q c e = bind-left _ _ r rest v (rw q at e)
deserialize-left ou f rp (sized str_tag b r) v rest q c e = cc (rw q at e)
deserialize-left ou f rp (sized array_tag b r) v rest q c e = bind-left _ _ r rest v (rw q at e)
deserialize-left ou f rp (sized assoc_tag b r) v rest q c e = bind-left _ _ r rest v (rw q at e)
deserialize-left ou f rp (sized unknown_tag b r) v rest q c e = cc (rw q at e)

-- Whenever the reader succeeds on bytes whose header is not the begin of a bracketed array or map,
-- get_length finds the number of bytes that it takes, and no overflow.
pub get_length-deserialize :
    (ou : Deserializer) (f : ℕ) (rp : List ℕ) (hd : Header) (v : Variant) (rest : List ℕ)
    → All (λ b. b < 256) rp
    → read_header rp ≡ ok hd
    → Counted hd
    → deserialize ou (suc f) rp ≡ ok (v, rest)
    → (n : ℕ) × (get_length rp ≡ some (n, false)) × (n + length rest ≡ length rp)
get_length-deserialize ou f rp hd v rest bytes h c e =
    let (n, found, whole) = read_header-get_length rp hd bytes h in
    (n, found, omega (arith, whole, ap length (deserialize-left ou f rp hd v rest h c e)))
