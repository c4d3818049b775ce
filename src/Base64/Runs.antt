-- ===== src/Base64/Runs.antt =====
-- ase/gtcpp/base64.cpp: a run of the decoder.
use ase.Prelude.{ℕ, ◌≤◌, ◌<◌, ◌≡◌, refl, [], ◌∷◌, arith, length}
use ase.Base64.{
  get_next_decode, with_digit, written, append_written, decode_loop, trimmed, base64_decode,
  is_base64_space, decode_char,
}
use ase.Base64.Bounds.{base64_decode-fits}
use ase.Base64.RoundTrip.{encode, base64_decode-encode}

base64_decode-encode_example :
    base64_decode (encode (104 ∷ 105 ∷ 255 ∷ 0 ∷ [])) ≡ (104 ∷ 105 ∷ 255 ∷ 0 ∷ [], 0)
base64_decode-encode_example =
    base64_decode-encode (104 ∷ 105 ∷ 255 ∷ 0 ∷ [])
      (omega arith, (omega arith, (omega arith, (omega arith, tt))))

-- "aG k*=": the blank and the asterisk are skipped, and the asterisk is counted.
skips : base64_decode (97 ∷ 71 ∷ 32 ∷ 107 ∷ 42 ∷ 61 ∷ []) ≡ (104 ∷ 105 ∷ [], 1)
unfolding base64_decode trimmed decode_loop with_digit get_next_decode decode_char is_base64_space
    written append_written
skips = refl

base64_decode-fits_example :
    (length (decode_loop 5 (97 ∷ 71 ∷ 107 ∷ 61 ∷ []) 0 0).0 ≤ 4)
    × (length (base64_decode (97 ∷ 71 ∷ 107 ∷ 61 ∷ [])).0 ≤ 4)
    × ((fuel : ℕ)
        → 4 < fuel
        → base64_decode (97 ∷ 71 ∷ 107 ∷ 61 ∷ [])
          ≡ trimmed (decode_loop fuel (97 ∷ 71 ∷ 107 ∷ 61 ∷ []) 0 0))
base64_decode-fits_example = base64_decode-fits (97 ∷ 71 ∷ 107 ∷ 61 ∷ [])
