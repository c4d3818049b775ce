-- ===== src/Serialize/Steps.antt =====
-- ase/aseserialize.cpp: one round of each function of the reader, by what its parts answer.
use ase.Prelude.{
  ℕ, suc, ◌<◌, ◌≡◌, ◌≢◌, refl, Bool, true, false, List, [], ◌∷◌, ◌++◌, ◌==◌, ==_iff, Bool-cases,
  inl, inr, length, arith, ◌∙◌,
}
use mathlib.Core.Path.{subst}
use ase.Variant.{Variant, Items, Fields, strmap, string, no_items, item}
use ase.Serialize.{Error, ok, Deserializer, ◌>>=◌}
use ase.Serialize.Decode.{
  deserialize, deserialize_array, deserialize_assoc, read_header, immediate_of, check_end, key_of,
  more, ended, set_field, sized, array_tag, new_array_of,
}

module _ (ou : Deserializer) (f : ℕ) where
  pub deserialize-array_begin :
      (rp rest : List ℕ) (es : Items)
      → deserialize_array ou f true rp ≡ ok (es, rest)
      → deserialize ou (suc f) (0xf4 ∷ rp) ≡ ok (new_array_of es, rest)
  deserialize-array_begin rp rest es e = begun ∙ rw e refl
    where
      begun :
          deserialize ou (suc f) (0xf4 ∷ rp)
          ≡ (deserialize_array ou f true rp >>= λ r. ok (new_array_of r.0, r.1))
      begun = unfold deserialize read_header immediate_of in refl

  pub deserialize-assoc_begin :
      (rp rest : List ℕ) (fs : Fields)
      → deserialize_assoc ou f true Fields.no_fields rp ≡ ok (fs, rest)
      → deserialize ou (suc f) (0xf6 ∷ rp) ≡ ok (strmap fs, rest)
  deserialize-assoc_begin rp rest fs e = begun ∙ rw e refl
    where
      begun :
          deserialize ou (suc f) (0xf6 ∷ rp)
          ≡ (deserialize_assoc ou f true Fields.no_fields rp >>= λ r. ok (strmap r.0, r.1))
      begun = unfold deserialize read_header immediate_of in refl

  pub deserialize-sized_array :
      (rp bytes rest r : List ℕ) (es : Items)
      → read_header rp ≡ ok (sized array_tag bytes rest)
      → deserialize_array ou f false bytes ≡ ok (es, r)
      → deserialize ou (suc f) rp ≡ ok (new_array_of es, rest)
  deserialize-sized_array rp bytes rest r es h e = begun ∙ rw e refl
    where
      begun :
          deserialize ou (suc f) rp
          ≡ (deserialize_array ou f false bytes >>= λ r. ok (new_array_of r.0, rest))
      begun = unfold deserialize in rw h refl

  pub deserialize_array-ended :
      (x : Bool) (rp rest : List ℕ)
      → check_end 0xf5 Error.unexpected_array_end_tag x rp ≡ ok (ended rest)
      → deserialize_array ou (suc f) x rp ≡ ok (no_items, rest)
  unfolding deserialize_array
  deserialize_array-ended x rp rest e = rw e refl

  pub deserialize_array-more :
      (x : Bool) (rp r rest : List ℕ) (v : Variant) (es : Items)
      → check_end 0xf5 Error.unexpected_array_end_tag x rp ≡ ok more
      → deserialize ou f rp ≡ ok (v, r)
      → deserialize_array ou f x r ≡ ok (es, rest)
      → deserialize_array ou (suc f) x rp ≡ ok (item v es, rest)
  deserialize_array-more x rp r rest v es e first others = begun ∙ rw first (rw others refl)
    where
      begun : deserialize_array ou (suc f) x rp ≡ (
          deserialize ou f rp >>= λ p. deserialize_array ou f x p.1 >>= λ q. ok (item p.0 q.0, q.1))
      begun = unfold deserialize_array in rw e refl

  pub deserialize_assoc-ended :
      (x : Bool) (got : Fields) (rp rest : List ℕ)
      → check_end 0xf7 Error.unexpected_assoc_end_tag x rp ≡ ok (ended rest)
      → deserialize_assoc ou (suc f) x got rp ≡ ok (got, rest)
  unfolding deserialize_assoc
  deserialize_assoc-ended x got rp rest e = rw e refl

  pub deserialize_assoc-more :
      (x : Bool) (got : Fields) (k rp r r' : List ℕ) (v : Variant)
      → check_end 0xf7 Error.unexpected_assoc_end_tag x rp ≡ ok more
      → deserialize ou f rp ≡ ok (string k, r)
      → deserialize ou f r ≡ ok (v, r')
      → deserialize_assoc ou (suc f) x got rp ≡ deserialize_assoc ou f x (set_field k v got) r'
  deserialize_assoc-more x got k rp r r' v e key value = begun ∙ rw key (keyed ∙ rw value refl)
    where
      begun : deserialize_assoc ou (suc f) x got rp ≡ (
          deserialize ou f rp >>= λ p. key_of p.0 >>= λ k'.
          deserialize ou f p.1 >>= λ q. deserialize_assoc ou f x (set_field k' q.0 got) q.1)
      begun = unfold deserialize_assoc in rw e refl

      keyed :
          (key_of (string k) >>= λ k'.
          deserialize ou f r >>= λ q. deserialize_assoc ou f x (set_field k' q.0 got) q.1)
          ≡ (deserialize ou f r >>= λ q. deserialize_assoc ou f x (set_field k q.0 got) q.1)
      keyed = unfold key_of in refl

tag_more :
    (t c : ℕ) (u : Error) (x : Bool) (rp : List ℕ)
    → (t == c) ≡ false
    → check_end c u x (t ∷ rp) ≡ ok more
unfolding check_end
tag_more t c u true rp q = rw q refl
tag_more t c u false rp q = rw q refl

-- Bytes that hold a value do not start with an end tag, and are not empty.
module _ (ou : Deserializer) {p : Variant × List ℕ} where
  not_array_end : (f : ℕ) (rp : List ℕ) → deserialize ou (suc f) (0xf5 ∷ rp) ≢ ok p
  unfolding deserialize read_header immediate_of
  not_array_end f rp e = cc

  not_assoc_end : (f : ℕ) (rp : List ℕ) → deserialize ou (suc f) (0xf7 ∷ rp) ≢ ok p
  unfolding deserialize read_header immediate_of
  not_assoc_end f rp e = cc

  other_tag :
      (f t c : ℕ) (rp : List ℕ)
      → deserialize ou (suc f) (t ∷ rp) ≡ ok p
      → deserialize ou (suc f) (c ∷ rp) ≢ ok p
      → (t == c) ≡ false
  other_tag f t c rp e bad = elim (Bool-cases (t == c)) [
    | inl q ↦
        absurd
          (bad (subst (λ (u : ℕ). deserialize ou (suc f) (u ∷ rp) ≡ ok p) ((==_iff t c).0 q) e))
    | inr q ↦ q
  ]

  pub deserialize-more :
      (f : ℕ) (unexpected : Error) (x : Bool) (bs rest : List ℕ)
      → deserialize ou (suc f) bs ≡ ok p
      → (0 < length bs)
        × (check_end 0xf5 unexpected x (bs ++ rest) ≡ ok more)
        × (check_end 0xf7 unexpected x (bs ++ rest) ≡ ok more)
  deserialize-more f u x [] rest e = absurd (not_empty e)
    where
      not_empty : deserialize ou (suc f) [] ≢ ok p
      not_empty h = unfold deserialize read_header in cc
  deserialize-more f u x (t ∷ bs) rest e =
      let five = other_tag f t 0xf5 bs e (not_array_end f bs) in
      let seven = other_tag f t 0xf7 bs e (not_assoc_end f bs) in
      (omega arith, tag_more t 0xf5 u x (bs ++ rest) five, tag_more t 0xf7 u x (bs ++ rest) seven)
