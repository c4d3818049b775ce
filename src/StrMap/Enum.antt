-- ===== src/StrMap/Enum.antt =====
-- ase/asestrmap.cpp: the enumerator of a string map.
use ase.Prelude.{
  ℕ, zero, suc, ◌<◌, ◌≡◌, refl, sym, ap, ◌∙◌, true, false, none, some, List, [], ◌∷◌, ◌++◌,
  append_assoc, arith, lt→ltb, length,
}
use ase.Variant.Order.{string_lt}
use ase.StrMap.{upper_bound, enum_next, enum_all, enumerate}
use ase.StrMap.Order.{string_lt_irrefl, string_lt_trans, string_lt-nil}
use ase.StrMap.Laws.{AllAbove, Ascending, AllAbove-trans}

module _ {ℓ} {V : Type ℓ} where
  -- The keys of the entries, in their order, but for the empty one.
  unfoldable pub named_keys : List (List ℕ × V) → List (List ℕ)
  named_keys [] = []
  named_keys (([], v) ∷ m) = named_keys m
  named_keys ((c ∷ k, v) ∷ m) = (c ∷ k) ∷ named_keys m

  unfoldable keys : List (List ℕ × V) → List (List ℕ)
  keys [] = []
  keys ((k, v) ∷ m) = k ∷ keys m

  unfoldable Passed : List ℕ → List (List ℕ × V) → Type 0
  Passed key [] = Unit
  Passed key ((k, v) ∷ m) = (string_lt key k ≡ false) × Passed key m

  Passed-trans :
      (key k : List ℕ) (v : V) (m : List (List ℕ × V))
      → string_lt key k ≡ true
      → Passed key m
      → Passed k (m ++ (k, v) ∷ [])
  unfolding Passed
  Passed-trans key k v [] h p = (string_lt_irrefl k, tt)
  Passed-trans key k v ((j, w) ∷ m) h p =
      (ground (arith, string_lt_trans key k j, h, p.0), Passed-trans key k v m h p.1)

  upper_bound-Passed :
      (key : List ℕ) (m rest : List (List ℕ × V))
      → Passed key m
      → upper_bound key (m ++ rest) ≡ upper_bound key rest
  unfolding Passed upper_bound
  upper_bound-Passed key [] rest p = refl
  upper_bound-Passed key ((k, v) ∷ m) rest p = rw (p.0) (upper_bound-Passed key m rest p.1)

  upper_bound-nil : (key : List ℕ) → upper_bound {V = V} key [] ≡ none
  unfolding upper_bound
  upper_bound-nil key = refl

  upper_bound-above :
      (key k : List ℕ) (v : V) (m : List (List ℕ × V))
      → string_lt key k ≡ true
      → upper_bound key ((k, v) ∷ m) ≡ some (k, v)
  unfolding upper_bound
  upper_bound-above key k v m h = rw h refl

  enum_all-Passed :
      (fuel : ℕ) (key : List ℕ) (m rest : List (List ℕ × V))
      → length rest < fuel
      → Passed key m
      → AllAbove key rest
      → Ascending rest
      → enum_all fuel (m ++ rest) key ≡ keys rest
  unfolding enum_all enum_next AllAbove Ascending keys
  enum_all-Passed zero key m rest enough p above asc = ground arith
  enum_all-Passed (suc fuel) key m [] enough p above asc =
      rw (upper_bound-Passed key m [] p, upper_bound-nil, enum_all, enum_next) refl
  enum_all-Passed (suc fuel) key m ((k, v) ∷ rest) enough p above asc =
      let later : enum_all fuel (m ++ (k, v) ∷ rest) k ≡ keys rest =
        rw (sym (append_assoc m ((k, v) ∷ []) rest)) (
          enum_all-Passed fuel k (m ++ (k, v) ∷ []) rest (omega (arith, enough))
            (Passed-trans key k v m above.0 p) asc.0 asc.1) in
      rw
        (
          upper_bound-Passed key m ((k, v) ∷ rest) p,
          upper_bound-above key k v rest above.0,
          enum_all,
          enum_next,
        )
        (ap (λ (t : List (List ℕ)). k ∷ t) later)

  keys-named : (m : List (List ℕ × V)) → AllAbove [] m → named_keys m ≡ keys m
  unfolding named_keys keys AllAbove
  keys-named [] above = refl
  keys-named (([], v) ∷ m) above = ground (arith, string_lt_irrefl [], above.0)
  keys-named ((c ∷ k, v) ∷ m) above = ap (λ (t : List (List ℕ)). (c ∷ k) ∷ t) (keys-named m above.1)

  enum_all-none : (m : List (List ℕ × V)) → m ≡ [] → enum_all 1 m [] ≡ []
  unfolding enum_all enum_next upper_bound
  enum_all-none m e = rw e refl

  -- The enumerator of a map with ascending keys gives each key once, in their order, but not the empty
  -- key.
  pub enumerate-Ascending : (m : List (List ℕ × V)) → Ascending m → enumerate m ≡ named_keys m
  unfolding enumerate Ascending AllAbove named_keys keys Passed
  enumerate-Ascending [] asc = enum_all-none [] refl
  enumerate-Ascending (([], v) ∷ m) asc =
      enum_all-Passed (suc (suc (length m))) [] (([], v) ∷ []) m (omega arith)
        (string_lt_irrefl [], tt) asc.0 asc.1
      ∙ sym (keys-named m asc.0)
  enumerate-Ascending ((c ∷ k, v) ∷ m) asc =
      let first : string_lt [] (c ∷ k) ≡ true =
        string_lt-nil (c ∷ k) ∙ lt→ltb 0 (suc (length k)) (omega arith) in
      let above = AllAbove-trans [] (c ∷ k) m first asc.0 in
      enum_all-Passed (suc (suc (length m))) [] [] ((c ∷ k, v) ∷ m) (omega arith) tt (first, above)
        asc
      ∙ ap (λ (t : List (List ℕ)). (c ∷ k) ∷ t) (sym (keys-named m above))
