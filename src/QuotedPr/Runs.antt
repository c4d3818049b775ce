-- ===== src/QuotedPr/Runs.antt =====
-- ase/gtcpp/quotedpr.cpp: runs of the decoder.
use ase.Prelude.{ℕ, ◌≤◌, ◌≡◌, refl, List, [], ◌∷◌, arith, length, All}
use ase.QuotedPr.{quoted_loop, quoted_printable_decode}
use ase.QuotedPr.RoundTrip.{
  Piece, plain, escaped, soft_break, soft_line_feed, Proper, encoded, meant,
  quoted_printable_decode-encoded,
}
use ase.QuotedPr.Bounds.{quoted_printable_decode-fits}

abbrev pieces : List Piece
pieces = plain 97 ∷ escaped 61 ∷ soft_break ∷ soft_line_feed ∷ plain 98 ∷ []

pieces-Proper : All Proper pieces
unfolding Proper
pieces-Proper = (refl, (omega arith, (tt, (tt, (refl, tt)))))

quoted_printable_decode-encoded_example : quoted_printable_decode (encoded pieces) ≡ meant pieces
quoted_printable_decode-encoded_example = quoted_printable_decode-encoded pieces pieces-Proper

quoted_printable_decode-fits_example :
    (length (quoted_printable_decode (61 ∷ 52 ∷ 49 ∷ 61 ∷ [])) ≤ 4)
    × ((fuel : ℕ)
        → 4 ≤ fuel
        → quoted_printable_decode (61 ∷ 52 ∷ 49 ∷ 61 ∷ [])
          ≡ quoted_loop fuel (61 ∷ 52 ∷ 49 ∷ 61 ∷ []))
quoted_printable_decode-fits_example = quoted_printable_decode-fits (61 ∷ 52 ∷ 49 ∷ 61 ∷ [])
