-- ===== src/Serialize/Total.antt =====
-- ase/aseserialize.cpp: the reader ends on every input, and never reads past it.
use ase.Serialize.Reads.{ok_injective}
use ase.Prelude.{
  ℕ, zero, suc, ◌+◌, ◌*◌, ◌≤◌, ◌<◌, ◌≡◌, refl, ap, ◌≢◌, Bool, true, false, not, List, [], ◌∷◌,
  arith, bit_and, ltb, leb, ◌==◌, if◌then◌else◌, length, drop, length-take, length-drop,
}
use ase.Variant.{Variant, Fields, string, no_fields}
use ase.Serialize.{Result, Error, ok, err, out_of_fuel, Deserializer, ◌>>=◌}
use ase.Serialize.Decode.{
  deserialize, deserialize_array, deserialize_assoc, deserialize_int, deserialize_double,
  deserialize_object, object_id, read_header, split_data, long_header, check_end, key_of, set_field,
  Header, immediate, sized, imm_void, imm_false, imm_true, imm_array, imm_assoc, imm_invalid,
  int_tag, real_tag, obj_tag, str_tag, array_tag, assoc_tag, unknown_tag, AtEnd, more, ended,
}

-- The run kept within its fuel, and `P` holds of its value if it has one.
data Ends {ℓ κ} {A : Type ℓ} (P : A → Type κ) : Result A → Type (ℓ ⊔ κ) where
  value : {a : A} → P a → Ends P (ok a)
  thrown : {e : Error} → Ends P (err e)

module _ {ℓ κ} {A : Type ℓ} {P : A → Type κ} where
  Ends-ne : {r : Result A} → Ends P r → r ≢ out_of_fuel
  Ends-ne (value h) = cc
  Ends-ne thrown = cc

  Ends-bind {ℓ' κ'} :
      {B : Type ℓ'} {Q : B → Type κ'} {r : Result A} {f : A → Result B}
      → Ends P r
      → ((a : A) → P a → Ends Q (f a))
      → Ends Q (r >>= f)
  Ends-bind (value {a} h) k = k a h
  Ends-bind thrown k = thrown

Ends-if {ℓ κ} :
    {A : Type ℓ} {P : A → Type κ} (b : Bool) {x y : Result A}
    → (b ≡ true → Ends P x)
    → (b ≡ false → Ends P y)
    → Ends P (if b then x else y)
Ends-if true hx hy = hx refl
Ends-if false hx hy = hy refl

-- What a header leaves is shorter than what it was read from.
Shorter : ℕ → Header → Type 0
Shorter n (immediate i rest) = length rest < n
Shorter n (sized t bytes rest) = length bytes + length rest < n

split_data-Ends :
    (typetag n m : ℕ) (rp : List ℕ) → length rp < m → Ends (Shorter m) (split_data typetag n rp)
unfolding split_data Shorter
split_data-Ends typetag n m rp h =
    Ends-if (ltb (length rp) n) (λ _. thrown)
      (λ _. value (omega (arith, length-take n rp, length-drop n rp)))

read_header-Ends : (rp : List ℕ) → Ends (Shorter (length rp)) (read_header rp)
unfolding read_header long_header Shorter
read_header-Ends [] = thrown
read_header-Ends (tag ∷ rp) =
    Ends-if (bit_and tag 0xf0 == 0xf0) (λ _. value (omega arith))
      λ _.
        Ends-if (not (bit_and tag 0xc0 == 0xc0))
          (λ _.
            split_data-Ends (bit_and tag 0xe0) (bit_and tag 0x1f) (suc (length rp)) rp
              (omega arith))
          λ _.
            Ends-if (ltb 8 (bit_and tag 0x07)) (λ _. thrown)
              λ _.
                Ends-if (ltb (length rp) (bit_and tag 0x07)) (λ _. thrown)
                  λ _.
                    split_data-Ends _ _ (suc (length rp)) (drop (bit_and tag 0x07) rp)
                      (omega (arith, length-drop (bit_and tag 0x07) rp))

-- The data of a value: any outcome but running out of fuel.
abbrev Any : Variant → Type 0
Any _ = Unit

deserialize_int-Ends : (bytes : List ℕ) → Ends Any (deserialize_int bytes)
unfolding deserialize_int
deserialize_int-Ends bytes =
    Ends-if (ltb 8 (length bytes)) (λ _. thrown)
      λ _.
        Ends-if (length bytes == 0) (λ _. value tt)
          λ _. Ends-if (leb (length bytes) 4) (λ _. value tt) (λ _. value tt)

deserialize_double-Ends : (bytes : List ℕ) → Ends Any (deserialize_double bytes)
unfolding deserialize_double
deserialize_double-Ends bytes = Ends-if (not (length bytes == 8)) (λ _. thrown) (λ _. value tt)

key_of-Ends : (v : Variant) → Ends {A = List ℕ} (λ _. Unit {0}) (key_of v)
unfolding key_of
key_of-Ends (string s) = value tt
key_of-Ends _ = thrown

-- Where a loop ends is no further than where it stands.
abbrev Within : ℕ → AtEnd → Type 0
Within n more = Unit
Within n (ended rest) = length rest ≤ n

check_end-Ends :
    (t : ℕ) (e : Error) (x : Bool) (rp : List ℕ) → Ends (Within (length rp)) (check_end t e x rp)
unfolding check_end
check_end-Ends t e true [] = thrown
check_end-Ends t e false [] = value (omega arith)
check_end-Ends t e x (tag ∷ rp) =
    Ends-if (tag == t) (λ _. Ends-if x (λ _. value (omega arith)) (λ _. thrown)) (λ _. value tt)

module _ (ou : Deserializer) (answers : (r : Bool) (id : ℕ) → Ends Any (ou r id)) where
  deserialize_object-Ends : (bytes : List ℕ) → Ends Any (deserialize_object ou bytes)
  unfolding deserialize_object object_id
  deserialize_object-Ends [] = thrown
  deserialize_object-Ends (remote ∷ bytes) =
      Ends-bind {P = λ _. Unit {0}}
        (Ends-if (length bytes == 0) (λ _. value tt)
          λ _. Ends-if (ltb 8 (length bytes)) (λ _. thrown) (λ _. value tt))
        (λ id _. answers (not (remote == 0)) id)

  mutual
    unfolding deserialize Shorter

    deserialize-Ends :
        (f : ℕ) (rp : List ℕ)
        → 2 * length rp < f
        → Ends (λ p. length p.1 < length rp) (deserialize ou f rp)
    deserialize-Ends zero rp h = absurd (omega arith)
    deserialize-Ends (suc f) rp h = Ends-bind (read_header-Ends rp) (elim [
      | immediate imm_void rest ↦ λ s. value s
      | immediate imm_false rest ↦ λ s. value s
      | immediate imm_true rest ↦ λ s. value s
      | immediate imm_array rest ↦
          λ s. Ends-bind (array-Ends f true rest (omega arith)) (λ _ w. value (omega arith))
      | immediate imm_assoc rest ↦ λ s.
          Ends-bind (assoc-Ends f true no_fields (length rest) rest (omega arith) (omega arith))
            (λ _ w. value (omega arith))
      | immediate imm_invalid rest ↦ λ s. thrown
      | sized int_tag bytes rest ↦
          λ s. Ends-bind (deserialize_int-Ends bytes) (λ _ _. value (omega arith))
      | sized real_tag bytes rest ↦
          λ s. Ends-bind (deserialize_double-Ends bytes) (λ _ _. value (omega arith))
      | sized obj_tag bytes rest ↦
          λ s. Ends-bind (deserialize_object-Ends bytes) (λ _ _. value (omega arith))
      | sized str_tag bytes rest ↦ λ s. value (omega arith)
      | sized array_tag bytes rest ↦
          λ s. Ends-bind (array-Ends f false bytes (omega arith)) (λ _ _. value (omega arith))
      | sized assoc_tag bytes rest ↦ λ s.
          Ends-bind (assoc-Ends f false no_fields (length bytes) bytes (omega arith) (omega arith))
            (λ _ _. value (omega arith))
      | sized unknown_tag bytes rest ↦ λ s. thrown
    ])

    array-Ends :
        (f : ℕ) (x : Bool) (rp : List ℕ)
        → 2 * length rp + 1 < f
        → Ends (λ p. length p.1 ≤ length rp) (deserialize_array ou f x rp)
    array-Ends zero x rp h = absurd (omega arith)
    array-Ends (suc f) x rp h = Ends-bind (check_end-Ends 0xf5 _ x rp) (elim [
      | ended rest ↦ λ s. value s
      | more ↦ λ _.
          Ends-bind (deserialize-Ends f rp (omega arith))
            λ p w. Ends-bind (array-Ends f x p.1 (omega arith)) (λ q w'. value (omega arith))
    ])

    assoc-Ends :
        (f : ℕ) (x : Bool) (got : Fields) (m : ℕ) (rp : List ℕ)
        → length rp ≤ m
        → 2 * length rp + 1 < f
        → Ends (λ p. length p.1 ≤ m) (deserialize_assoc ou f x got rp)
    assoc-Ends zero x got m rp hm h = absurd (omega arith)
    assoc-Ends (suc f) x got m rp hm h = Ends-bind (check_end-Ends 0xf7 _ x rp) (elim [
      | ended rest ↦ λ s. value (omega arith)
      | more ↦ λ _. Ends-bind (deserialize-Ends f rp (omega arith)) λ p w.
          Ends-bind (key_of-Ends p.0) λ k _.
            Ends-bind (deserialize-Ends f p.1 (omega arith))
              λ q w'. assoc-Ends f x (set_field k q.0 got) m q.1 (omega arith) (omega arith)
    ])

-- A deserializer that keeps within its fuel.
abbrev pub Answers : Deserializer → Type 0
Answers ou = (is_remote : Bool) (id : ℕ) → ou is_remote id ≢ out_of_fuel

Ends-of {ℓ} : {A : Type ℓ} (r : Result A) → r ≢ out_of_fuel → Ends {A = A} (λ _. Unit {0}) r
Ends-of (ok a) h = value tt
Ends-of (err e) h = thrown
Ends-of out_of_fuel h = absurd (h refl)

shorter_of :
    {m : ℕ} {r : Result (Variant × List ℕ)} {v : Variant} {rest : List ℕ}
    → Ends (λ p. length p.1 < m) r
    → r ≡ ok (v, rest)
    → length rest < m
shorter_of (value {a} h) e =
    let same : a.1 ≡ _ = ap (λ (p : Variant × List ℕ). p.1) (ok_injective e) in
    omega (arith, ap length same)
shorter_of thrown e = cc

-- With fuel above twice the length of the input the reader does not exhaust its fuel, and after a
-- value fewer bytes are left than there were, when the deserializer of the objects always answers.
pub deserialize_ends :
    (ou : Deserializer)
    → Answers ou
    → (f : ℕ) (rp : List ℕ) → 2 * length rp < f
    → (deserialize ou f rp ≢ out_of_fuel)
      × ((v : Variant) (rest : List ℕ)
          → deserialize ou f rp ≡ ok (v, rest)
          → length rest < length rp)
deserialize_ends ou answers f rp h =
    let ends = deserialize-Ends ou (λ r id. Ends-of (ou r id) (answers r id)) f rp h in
    (Ends-ne ends, λ v rest e. shorter_of ends e)
