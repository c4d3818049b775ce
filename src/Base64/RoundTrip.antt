-- ===== src/Base64/RoundTrip.antt =====
-- ase/gtcpp/base64.cpp: base64_decode undoes the encoding of any bytes.
use ase.Prelude.{
  ℕ, zero, suc, ◌+◌, ◌-◌, ◌*◌, ◌/◌, ◌%◌, ◌≤◌, ◌<◌, ◌≡◌, refl, ap, ◌∙◌, true, List, [], ◌∷◌, ◌++◌,
  arith, leb, le→leb, length, replicate, All, length-append, length-replicate, take-append,
}
use ase.Base64.{
  digit, get_next_decode, with_digit, written, append_written, decode_loop, trimmed, base64_decode,
}
use ase.Base64.Digits.{
  encode_char, get_next_decode-encode_char, get_next_decode-pad, written-bytes, written-one_byte,
  written-two_bytes,
}

-- The encoding of the standard: four digits for three bytes, with `=` in place of those that the
-- last one or two bytes do not need.
unfoldable pub encode : List ℕ → List ℕ
encode [] = []
encode (a ∷ []) = encode_char (a / 4) ∷ encode_char (a % 4 * 16) ∷ 61 ∷ 61 ∷ []
encode (a ∷ b ∷ []) =
    encode_char (a / 4) ∷ encode_char (a % 4 * 16 + b / 16) ∷ encode_char (b % 16 * 4) ∷ 61 ∷ []
encode (a ∷ b ∷ c ∷ bytes) =
    encode_char (a / 4)
    ∷ encode_char (a % 4 * 16 + b / 16)
    ∷ encode_char (b % 16 * 4 + c / 64)
    ∷ encode_char (c % 64)
    ∷ encode bytes

-- One turn of the loop over four bytes that are digits.
turn :
    (fuel : ℕ) (start s0 s1 s2 s3 : List ℕ) (u0 u1 u2 u3 npad n0 n1 n2 n3 i : ℕ)
    → get_next_decode start npad i ≡ digit u0 s0 n0 i
    → get_next_decode s0 n0 i ≡ digit u1 s1 n1 i
    → get_next_decode s1 n1 i ≡ digit u2 s2 n2 i
    → get_next_decode s2 n2 i ≡ digit u3 s3 n3 i
    → decode_loop (suc fuel) start npad i
      ≡ append_written (written u0 u1 u2 u3) (decode_loop fuel s3 n3 i)
unfolding decode_loop with_digit
turn fuel start s0 s1 s2 s3 u0 u1 u2 u3 npad n0 n1 n2 n3 i e0 e1 e2 e3 =
    rw (e0, with_digit, e1, e2, e3) refl

-- What the padding adds to the bytes.
unfoldable pub padding : List ℕ → ℕ
padding [] = 0
padding (a ∷ []) = 2
padding (a ∷ b ∷ []) = 1
padding (a ∷ b ∷ c ∷ bytes) = padding bytes

decode_loop-end : (fuel : ℕ) (npad i : ℕ) → decode_loop fuel [] npad i ≡ ([], npad, i)
unfolding decode_loop with_digit get_next_decode
decode_loop-end zero npad i = refl
decode_loop-end (suc fuel) npad i = refl

appended : (wp out : List ℕ) (npad : ℕ) → append_written wp (out, npad, 0) ≡ (wp ++ out, npad, 0)
unfolding append_written
appended wp out npad = refl

decode_loop-encode :
    (fuel : ℕ) (bytes : List ℕ)
    → All (λ b. b < 256) bytes
    → length (encode bytes) ≤ fuel
    → decode_loop fuel (encode bytes) 0 0 ≡ (bytes ++ replicate (padding bytes) 0, padding bytes, 0)
unfolding encode padding
decode_loop-encode fuel [] all enough = decode_loop-end fuel 0 0
decode_loop-encode zero (a ∷ []) all enough = absurd (omega arith)
decode_loop-encode zero (a ∷ b ∷ []) all enough = absurd (omega arith)
decode_loop-encode zero (a ∷ b ∷ c ∷ bytes) all enough = absurd (omega arith)
decode_loop-encode (suc fuel) (a ∷ []) all enough =
    turn fuel _ _ _ _ _ _ _ _ _ _ _ _ _ _ _
      (get_next_decode-encode_char (a / 4) _ 0 0 (omega (arith, all.0)))
      (get_next_decode-encode_char (a % 4 * 16) _ 0 0 (omega arith)) (get_next_decode-pad _ 0 0)
      (get_next_decode-pad _ 1 0)
    ∙ rw (written-one_byte a all.0, decode_loop-end fuel 2 0) (appended (a ∷ 0 ∷ 0 ∷ []) [] 2)
decode_loop-encode (suc fuel) (a ∷ b ∷ []) all enough =
    turn fuel _ _ _ _ _ _ _ _ _ _ _ _ _ _ _
      (get_next_decode-encode_char (a / 4) _ 0 0 (omega (arith, all.0)))
      (get_next_decode-encode_char (a % 4 * 16 + b / 16) _ 0 0 (omega (arith, all.1.0)))
      (get_next_decode-encode_char (b % 16 * 4) _ 0 0 (omega arith)) (get_next_decode-pad _ 0 0)
    ∙ rw (written-two_bytes a b all.0 all.1.0, decode_loop-end fuel 1 0)
        (appended (a ∷ b ∷ 0 ∷ []) [] 1)
decode_loop-encode (suc fuel) (a ∷ b ∷ c ∷ bytes) (ha, (hb, (hc, all))) enough =
    turn fuel _ _ _ _ _ _ _ _ _ _ _ _ _ _ _
      (get_next_decode-encode_char (a / 4) _ 0 0 (omega arith))
      (get_next_decode-encode_char (a % 4 * 16 + b / 16) _ 0 0 (omega arith))
      (get_next_decode-encode_char (b % 16 * 4 + c / 64) _ 0 0 (omega arith))
      (get_next_decode-encode_char (c % 64) _ 0 0 (omega arith))
    ∙ rw (written-bytes a b c ha hb hc, decode_loop-encode fuel bytes all (omega (arith, enough)))
        (appended (a ∷ b ∷ c ∷ []) (bytes ++ replicate (padding bytes) 0) (padding bytes))

padding-le : (bytes : List ℕ) → padding bytes ≤ 2
unfolding padding
padding-le [] = omega arith
padding-le (a ∷ []) = omega arith
padding-le (a ∷ b ∷ []) = omega arith
padding-le (a ∷ b ∷ c ∷ bytes) = padding-le bytes

trimmed-padded :
    (bytes : List ℕ) (npad : ℕ)
    → npad ≤ 2
    → trimmed (bytes ++ replicate npad 0, npad, 0) ≡ (bytes, 0)
unfolding trimmed
trimmed-padded bytes npad small =
    let size : length (bytes ++ replicate npad 0) ≡ length bytes + npad =
      length-append bytes (replicate npad 0)
      ∙ ap (λ (n : ℕ). length bytes + n) (length-replicate npad 0) in
    let sub : length bytes + npad - npad ≡ length bytes = omega arith in
    let fits : leb npad (length bytes + npad) ≡ true = ground arith in
    rw (size, le→leb npad 2 small, fits, sub, take-append bytes (replicate npad 0)) refl

-- base64_decode of the encoding of any bytes appends those bytes, and ignores none.
pub base64_decode-encode :
    (bytes : List ℕ) → All (λ b. b < 256) bytes → base64_decode (encode bytes) ≡ (bytes, 0)
unfolding base64_decode
base64_decode-encode bytes all =
    ap trimmed (decode_loop-encode (suc (length (encode bytes))) bytes all (omega arith))
    ∙ trimmed-padded bytes (padding bytes) (padding-le bytes)
