-- ===== src/Serialize/Arrays.antt =====
-- ase/aseserialize.cpp: the array that the reader makes of fewer than 2^31 elements has them all.
use ase.Array.{set_element, resize, negative}
use ase.Variant.{Variant, Items, void, array, no_items, item}
use ase.Serialize.Encode.{items_length}
use ase.Serialize.Decode.{set_items, of_elements, new_array_of}
use ase.Prelude.{
  ℕ, zero, suc, ◌+◌, ◌-◌, ◌%◌, ◌^◌, ◌≤◌, ◌<◌, ◌≡◌, refl, sym, ap, ◌∙◌, true, false, List, [], ◌∷◌,
  ◌++◌, append-nil, append_assoc, arith, leb, length, set, take, length-append,
}

elements : Items → List Variant
elements no_items = []
elements (item e es) = e ∷ elements es

of_elements-elements : (es : Items) → of_elements (elements es) ≡ es
unfolding of_elements elements
of_elements-elements no_items = refl
of_elements-elements (item e es) = ap (λ t. item e t) (of_elements-elements es)

set-end : (xs : List Variant) (u v : Variant) → set (xs ++ u ∷ []) (length xs) v ≡ xs ++ v ∷ []
set-end [] u v = refl
set-end (x ∷ xs) u v = ap (λ t. x ∷ t) (set-end xs u v)

take_all : (n : ℕ) (xs : List Variant) → length xs ≤ n → take n xs ≡ xs
take_all zero [] h = refl
take_all zero (x ∷ xs) h = absurd (omega arith)
take_all (suc n) [] h = refl
take_all (suc n) (x ∷ xs) h = ap (λ t. x ∷ t) (take_all n xs (omega arith))

-- An element set behind the last.
set_element-end :
    (xs : List Variant) (v : Variant)
    → length xs < 2 ^ 31
    → set_element void xs (length xs) v ≡ xs ++ v ∷ []
unfolding set_element resize
set_element-end xs v h =
    let low : negative (length xs) ≡ false = ground (arith, h) in
    let here : leb (length xs) (length xs) ≡ true = ground arith in
    let one : length xs + 1 - length xs ≡ 1 = omega arith in
    rw (low, here, take_all (length xs + 1) xs (omega arith), one) (set-end xs void v)

set_items-elements :
    (es : Items) (arrval : List Variant)
    → length arrval + items_length es ≤ 2 ^ 31
    → set_items (length arrval) arrval es ≡ arrval ++ elements es
unfolding set_items elements items_length
set_items-elements no_items arrval h = sym (append-nil arrval)
set_items-elements (item e es) arrval h =
    let size = length-append arrval (e ∷ []) in
    let next : (length arrval + 1) % 2 ^ 32 ≡ length (arrval ++ e ∷ []) = omega (arith, size, h) in
    rw (set_element-end arrval e (omega (arith, h)), next)
      (set_items-elements es (arrval ++ e ∷ []) (omega (arith, size, h))
        ∙ append_assoc arrval (e ∷ []) (elements es))

pub new_array_of_lem : (es : Items) → items_length es ≤ 2 ^ 31 → new_array_of es ≡ array es
unfolding new_array_of
new_array_of_lem es h =
    let all = set_items-elements es [] (omega (arith, h)) in
    rw all (ap array (of_elements-elements es))
